-- ===== src/Tokenizer/Decoding.antt =====
-- What `decode` makes of an encoded text.
use infer_lab.Base.{ℕ, ◌<◌, ◌≡◌, refl, ap, ◌∙◌, List, [], ◌∷◌, ◌++◌, All, Bool, true, false, arith}
use infer_lab.Tokenizer.{bytes_below_256, encode, decode}

bytes_below_256-bytes : (ids : List ℕ) → All (λ i. i < 256) ids → bytes_below_256 ids ≡ ids
unfolding bytes_below_256
bytes_below_256-bytes [] h = refl
bytes_below_256-bytes (i ∷ ids) (lt, h) = ground (arith, bytes_below_256-bytes ids h)

bytes_below_256-specials :
    (ids specials : List ℕ)
    → All (λ i. i < 256) ids
    → All (λ i. 255 < i) specials
    → bytes_below_256 (ids ++ specials) ≡ ids
unfolding bytes_below_256
bytes_below_256-specials [] [] h k = refl
bytes_below_256-specials [] (s ∷ specials) h (gt, k) =
    ground (arith, bytes_below_256-specials [] specials h k)
bytes_below_256-specials (i ∷ ids) specials (lt, h) k =
    ground (arith, bytes_below_256-specials ids specials h k)

-- A text whose UTF-8 is bytes that decode to it again comes back from `decode` of its encoding,
-- with or without BOS, and whatever special tokens the model has put behind it.
pub decode-encode {ℓ} :
    {S : Type ℓ} (to_bytes : S → List ℕ) (from_bytes : List ℕ → S) (text : S) (add_bos : Bool)
    (specials : List ℕ)
    → from_bytes (to_bytes text) ≡ text
    → All (λ i. i < 256) (to_bytes text)
    → All (λ i. 255 < i) specials
    → decode from_bytes (encode to_bytes text add_bos ++ specials) ≡ text
unfolding encode decode bytes_below_256
decode-encode to_bytes from_bytes text true specials inverse bytes special =
    ap from_bytes (bytes_below_256-specials (to_bytes text) specials bytes special) ∙ inverse
decode-encode to_bytes from_bytes text false specials inverse bytes special =
    ap from_bytes (bytes_below_256-specials (to_bytes text) specials bytes special) ∙ inverse
