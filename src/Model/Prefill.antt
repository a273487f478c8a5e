-- ===== src/Model/Prefill.antt =====
-- Prefill on the paged cache, chunk by chunk, against the network without a cache.
use infer_lab.Base.{
  ℕ, suc, ◌+◌, ◌≤◌, ◌<◌, ◌≡◌, ◌⊎◌, inl, inr, refl, ap, List, length, map, false, ◌==◌, arith, ok,
  err, out_of_blocks, and_then,
}
use infer_lab.Paged.Pools.{Memory, rows_from}
use infer_lab.Model.{Network, Device, count_prefill, forward_prefill}
use infer_lab.Model.Dense.{
  map-rows_from, all_below-rows_from, hidden, dense_logits, last_logits-hidden,
}
use infer_lab.Model.Layers.{Cached, Kept, Reached, layers_from-Reached, start-Reached}

module _ {ℓ} {X V L : Type ℓ} (net : Network X V L) (bs : ℕ) (positive : 0 < bs) (token : ℕ → ℕ)
    (held : List ℕ) where
  Reached-Cached :
      (start n : ℕ) (m0 m : Memory V)
      → 0 < net.num_layers
      → Reached net bs positive token held m0 start n net.num_layers m
      → Cached net bs token held (start + n) m
  Reached-Cached start n m0 m h r = record {
    accounts = r.accounts;
    room = r.room_for_all h;
    k_rows = λ l t low lt. r.k_rows l t low (inr (low, lt));
    v_rows = λ l t low lt. r.v_rows l t low (inr (low, lt));
  }

  -- A chunk of a prompt, the tokens from `start` on, is prefilled behind a cache that holds the
  -- rows of the tokens before it, in blocks of any sequence's. Where its tokens are in the
  -- vocabulary and its positions in the context window, the network has a layer and the chunk a
  -- token, `forward_prefill` returns the logits of the network without a cache after the whole
  -- prefix, and the cache then holds the rows of the chunk too; or it raises OutOfBlocks. Either
  -- way the allocator's counts stay true and no block of others changes.
  pub forward_prefill-Cached :
      (start n : ℕ) (d : Device V)
      → 0 < net.num_layers
      → start + suc n ≤ net.max_position_embeddings
      → ((p : ℕ) → start ≤ p → p < start + suc n → token p < net.vocab_size)
      → Cached net bs token held start d.memory
      → ((d' : Device V) × (forward_prefill net bs (rows_from start (suc n) token) start d
            ≡ (ok (dense_logits net token (start + n)), d'))
          × Cached net bs token held (start + suc n) d'.memory
          × (d'.memory.kv.length ≡ start + suc n)
          × Kept held d.memory d'.memory)
        ⊎ ((d' : Device V) × (forward_prefill net bs (rows_from start (suc n) token) start d
              ≡ (err out_of_blocks, d'))
            × Kept held d.memory d'.memory)
  unfolding forward_prefill hidden
  forward_prefill-Cached start n d deep fits vocab c =
      let m0 = d.memory in
      let tokens = rows_from start (suc n) token in
      let known = all_below-rows_from net.vocab_size start (suc n) token vocab in
      let nonempty : (length tokens == 0) ≡ false = ground arith in
      let embedded : map net.embed tokens ≡ rows_from start (suc n) (hidden net token 0) =
        map-rows_from net.embed start (suc n) token in
      elim (layers_from-Reached net bs positive token held m0 net.num_layers start (suc n) 0 m0
        (omega arith) fits (omega arith)
        (start-Reached net bs positive token held m0 start (suc n) c)) [
          | inr (m, e, k) ↦
              inr (record d { memory = m }, rw (nonempty, known, embedded, e, and_then) refl, k)
          | inl (m, e, r) ↦ inl (
            count_prefill net bs (length tokens) (record d { memory = m }),
            rw (nonempty, known, embedded, e, and_then)
                (ap (λ o. (o, count_prefill net bs (length tokens) (record d { memory = m })))
                  (last_logits-hidden net token bs start n net.num_layers)),
            Reached-Cached start (suc n) m0 m deep r,
            r.counted deep,
            record { accounts = r.accounts; k_held = r.k_held; v_held = r.v_held },
          )
        ]
