-- ===== src/Runner/Once.antt =====
-- No request is lost and none is answered twice.
use infer_lab.Base.{
  ℕ, zero, suc, ◌+◌, ◌≤◌, ◌<◌, ◌≡◌, inl, inr, refl, ap, subst, List, [], ◌∷◌, ◌++◌, length,
  length-append, get_or, count, Bool, Bool-cases, true, false, ltb, ◌==◌, ◌&&◌, if◌then◌else◌,
  Option, none, some, Result, ok, err, arith,
}
use infer_lab.Runner.{
  Message, Pending, Ops, Runner, new_pending, fail_with, complete_with, modify, find_key,
  remove_key, submit, fail_all, wait_timeout, give_up, drain_one, drain_next, accepted, finish_one,
  deliver, stepped, turn, raised, shutting_down, no_work,
}
use infer_lab.Runner.Reaching.{
  Lawful, Reached, here, submitting, stopping, waiting, draining, turning,
}
use infer_lab.Runner.Handles.{
  done_at, seconds, seconds-append, done_at-modify, length-modify, length-fail_each,
  done_at-fail_each, find_key-Removed, remove_key-All, remove_key-absent, All-below, Invariant,
  answered, all_answered, done_at-modify_same,
}

module _ {R O E : Type 0} (next_id : E → ℕ) where
  submit-Invariant :
      (request : R) (r : Runner R O E) (h : ℕ) (r' : Runner R O E)
      → Invariant next_id r
      → submit request r ≡ (ok h, r')
      → Invariant next_id r'
  unfolding submit
  submit-Invariant request r h r' v e = elim (Bool-cases r.stopping) [
    | inl closed ↦ (let clash = ap (λ o. o.0) (rw closed at e) in cc)
    | inr admitting ↦ subst (Invariant next_id) (ap (λ o. o.1) (rw admitting at e)) record {
      once = λ b.
          queued b (length r.handles) (done_at b r.handles)
            (done_at b (r.handles ++ new_pending ∷ [])) (count b (seconds r.pending))
            (count b (seconds r.submissions)) _ _ (length-append r.handles (new_pending ∷ []))
            (seconds-append r.submissions request (length r.handles) b) (done_at-append r.handles b)
            (v.once b);
      issued = v.issued;
    }
  ]
    where
      done_at-append :
          (handles : List (Pending O)) (b : ℕ)
          → done_at b (handles ++ new_pending ∷ []) ≡ done_at b handles
      done_at-append [] zero = refl
      done_at-append [] (suc b) = refl
      done_at-append (p ∷ ps) zero = refl
      done_at-append (p ∷ ps) (suc b) = done_at-append ps b

      queued :
          (b n d d' p q q' n' : ℕ)
          → n' ≡ n + 1
          → q' ≡ q + (if n == b then 1 else 0)
          → d' ≡ d
          → q + p + d ≡ (if ltb b n then 1 else 0)
          → q' + p + d' ≡ (if ltb b n' then 1 else 0)
      queued b n d d' p q q' n' e1 e2 e3 e4 = ground arith

  fail_all-Invariant :
      (message : Message) (r : Runner R O E)
      → Invariant next_id r
      → Invariant next_id (fail_all message r)
  unfolding fail_all
  fail_all-Invariant message r v = record {
    once = λ b.
        all_answered b (length r.handles) _ (count b (seconds r.submissions))
          (count b (seconds r.pending)) (done_at b r.handles) _
          (length-fail_each message r.pending r.handles)
          (done_at-fail_each message r.pending r.handles b) (v.once b);
    issued = tt;
  }

  -- The engine has gone on.
  engine-Invariant :
      (r : Runner R O E) (engine : E) (n : ℕ)
      → next_id r.engine ≤ next_id engine
      → Invariant next_id r
      → Invariant next_id (record r { engine = engine; steps = n })
  engine-Invariant r engine n le v = record {
    once = v.once;
    issued = All-below (next_id r.engine) (next_id engine) r.pending le v.issued;
  }

module _ {R O E : Type 0} (ops : Ops R O E) (next_id : E → ℕ) where
  deliver-Invariant :
      (outs : List O) (r : Runner R O E)
      → Invariant next_id r
      → Invariant next_id (deliver ops outs r)
  unfolding deliver
  deliver-Invariant [] r v = v
  deliver-Invariant (o ∷ outs) r v =
      deliver-Invariant outs _
        (one (ops.output_finished o) (find_key (ops.output_id o) r.pending) refl)
    where
      one :
          (c : Bool) (found : Option ℕ)
          → find_key (ops.output_id o) r.pending ≡ found
          → Invariant next_id (if c then finish_one ops o found r else r)
      one false found e = v
      one true none e = v
      one true (some h) e = record {
        once = λ b. swap (count b (seconds r.submissions)) _ _ _ (
            answered h b (length r.handles) _ (count b (seconds r.pending)) _
              (count b (seconds r.submissions)) (done_at b r.handles) _
              (length-modify h (complete_with o) r.handles)
              (find_key-Removed (ops.output_id o) h r.pending b e)
              (done_at-modify h b (complete_with o) r.handles true refl) (omega (arith, v.once b)));
        issued = remove_key-All (ops.output_id o) (next_id r.engine) r.pending v.issued;
      }
        where
          swap : (q p d c : ℕ) → p + q + d ≡ c → q + p + d ≡ c
          swap q p d c h = omega arith

module _ {R O E : Type 0} (ops : Ops R O E) (next_id : E → ℕ) (law : Lawful ops next_id) where
  -- The head of the queue is answered with an error.
  refuse-Invariant :
      (message : Message) (request : R) (h : ℕ) (rest : List (R × ℕ)) (r : Runner R O E)
      → r.submissions ≡ (request, h) ∷ rest
      → Invariant next_id r
      → Invariant next_id
          (record r { submissions = rest; handles = modify h (fail_with message) r.handles })
  refuse-Invariant message request h rest r s v = record {
    once = λ b.
        answered h b (length r.handles) _ (count b (seconds r.submissions)) _
          (count b (seconds r.pending)) (done_at b r.handles) _
          (length-modify h (fail_with message) r.handles) (ap (λ q. count b (seconds q)) s)
          (done_at-modify h b (fail_with message) r.handles true refl) (v.once b);
    issued = v.issued;
  }

  accepted-Invariant :
      (request : R) (h : ℕ) (rest : List (R × ℕ)) (r : Runner R O E) (o : Result ℕ) (engine : E)
      → r.submissions ≡ (request, h) ∷ rest
      → ops.add_request request r.engine ≡ (o, engine)
      → Invariant next_id r
      → Invariant next_id (accepted ops h (record r { submissions = rest }) (o, engine))
  accepted-Invariant request h rest r (err x) engine s e v =
      engine-Invariant next_id
        (record r { submissions = rest; handles = modify h (fail_with (raised x)) r.handles })
        engine r.steps
        (subst (λ c. next_id r.engine ≤ next_id c) (ap (λ o. o.1) e)
          (law.add_grows request r.engine))
        (refuse-Invariant (raised x) request h rest r s v)
  accepted-Invariant request h rest r (ok id) engine s e v =
      let (old, new) = law.issues request r.engine engine id e in
      let register : Pending O → Pending O = λ p. record p { request_id = some id } in
      let absent = remove_key-absent id (next_id r.engine) r.pending old v.issued in
      record {
        once = λ b.
            moved h b (length r.handles) _ (count b (seconds r.submissions)) _
              (count b (seconds r.pending)) (count b (seconds (remove_key id r.pending)))
              (done_at b r.handles) _ (length-modify h register r.handles)
              (ap (λ q. count b (seconds q)) s) (ap (λ q. count b (seconds q)) absent)
              (done_at-modify_same h b register r.handles (λ p. refl)) (v.once b);
        issued = (
          omega (arith, new),
          remove_key-All id (next_id engine) r.pending (
              All-below (next_id r.engine) (next_id engine) r.pending (omega (arith, old, new))
                v.issued),
        );
      }
    where
      moved :
          (h b n n' q q' p p' d d' : ℕ)
          → n' ≡ n
          → q ≡ (if h == b then 1 else 0) + q'
          → p' ≡ p
          → d' ≡ d
          → q + p + d ≡ (if ltb b n then 1 else 0)
          → q' + ((if h == b then 1 else 0) + p') + d' ≡ (if ltb b n' then 1 else 0)
      moved h b n n' q q' p p' d d' e1 e2 e3 e4 e5 = ground arith

  drain_one-Invariant :
      (r : Runner R O E) → Invariant next_id r → Invariant next_id (drain_one ops r)
  unfolding drain_one
  drain_one-Invariant r v = from_queue r.submissions refl
    where
      from_queue :
          (queue : List (R × ℕ))
          → r.submissions ≡ queue
          → Invariant next_id (drain_next ops queue r)
      from_queue [] e = v
      from_queue ((request, h) ∷ rest) e = tested r.stopping
        where
          tested :
              (c : Bool)
              → Invariant next_id (
                  if c
                  then record r {
                    submissions = rest;
                    handles = modify h (fail_with shutting_down) r.handles;
                  }
                  else accepted ops h
                      (record r { submissions = rest })
                      (ops.add_request request r.engine))
          tested true = refuse-Invariant shutting_down request h rest r e v
          tested false = accepted-Invariant request h rest r _ _ e refl v

  stepped-Invariant :
      (r : Runner R O E) (o : Result (List O)) (engine : E)
      → ops.step r.engine ≡ (o, engine)
      → Invariant next_id r
      → Invariant next_id (stepped ops r (o, engine))
  stepped-Invariant r o engine e v = by_outcome o
    where
      on : (n : ℕ) → Invariant next_id (record r { engine = engine; steps = n })
      on n =
          engine-Invariant next_id r engine n
            (subst (λ c. next_id r.engine ≤ next_id c) (ap (λ o. o.1) e) (law.step_grows r.engine))
            v

      by_outcome : (o : Result (List O)) → Invariant next_id (stepped ops r (o, engine))
      by_outcome (err x) =
          fail_all-Invariant next_id (raised x) (record r { engine = engine }) (on r.steps)
      by_outcome (ok outs) = deliver-Invariant ops next_id outs _ (on (r.steps + 1))

  turn-Invariant : (r : Runner R O E) → Invariant next_id r → Invariant next_id (turn ops r)
  unfolding turn
  turn-Invariant r v =
      tested (ops.has_unfinished_requests r.engine) (r.stopping && no_work r.submissions)
    where
      tested :
          (b c : Bool)
          → Invariant next_id (
              if b
              then stepped ops r (ops.step r.engine)
              else if c
              then record r { exited = true }
              else r)
      tested true c = stepped-Invariant r _ _ refl v
      tested false true = record { once = v.once; issued = v.issued }
      tested false false = v

  wait_timeout-Invariant :
      (h : ℕ) (r : Runner R O E) → Invariant next_id r → Invariant next_id (wait_timeout ops h r)
  unfolding wait_timeout
  wait_timeout-Invariant h r v = tested (get_or r.handles h new_pending).request_id
    where
      tested : (o : Option ℕ) → Invariant next_id (give_up ops o r)
      tested none = v
      tested (some id) = engine-Invariant next_id r _ r.steps (law.abort_grows id r.engine) v

  -- Where the engine gives its identifiers from a counter: after any sequence of submissions,
  -- stops, waits that time out, rounds of the drain and turns of the loop, each request that
  -- `submit` took stands exactly once: in the queue, in the dictionary, or answered.
  pub Reached-once :
      (start : E) (r : Runner R O E)
      → Reached ops start r
      → (h : ℕ) → h < length r.handles
      → count h (seconds r.submissions) + count h (seconds r.pending) + done_at h r.handles ≡ 1
  Reached-once start r path h lt = let v = invariant r path in let was = v.once h in ground arith
    where
      invariant : (r : Runner R O E) → Reached ops start r → Invariant next_id r
      invariant _ here = record { once = λ b. ground arith; issued = tt }
      invariant r (submitting request h path e) =
          submit-Invariant next_id request _ h r (invariant _ path) e
      invariant _ (stopping {r = r} path) =
          (let v = invariant r path in record { once = v.once; issued = v.issued })
      invariant _ (waiting {r = r} h path) = wait_timeout-Invariant h r (invariant r path)
      invariant _ (draining {r = r} path) = drain_one-Invariant r (invariant r path)
      invariant _ (turning {r = r} path) = turn-Invariant r (invariant r path)
