-- ===== src/PipelineCache/Encode.antt =====
-- engine/rendering/pipeline_cache.cpp: `ReadLe32` and `ReadLe64` read back what was written in little-endian
-- order.
use soteria.Prelude.{
  ℕ, zero, suc, ◌/◌, ◌%◌, ◌^◌, ◌<◌, ◌≡◌, refl, sym, ap, ◌∙◌, List, [], ◌∷◌, ◌++◌, arith, length,
  take, drop, All, All-append,
}
use soteria.PipelineCache.{read_le32, read_le64}
use soteria.PipelineCache.Bytes.{IsByte, le_value, field, read_le-field}

-- The `n` lowest bytes of a number, the lowest first.
abbrev pub le_bytes : (n v : ℕ) → List ℕ
le_bytes zero v = []
le_bytes (suc n) v = v % 256 ∷ le_bytes n (v / 256)

le_bytes-IsByte : (n v : ℕ) → All IsByte (le_bytes n v)
le_bytes-IsByte zero v = tt
le_bytes-IsByte (suc n) v = (omega arith, le_bytes-IsByte n (v / 256))

length-le_bytes : (n v : ℕ) → length (le_bytes n v) ≡ n
length-le_bytes zero v = refl
length-le_bytes (suc n) v = ap suc (length-le_bytes n (v / 256))

take-length_append : (xs ys : List ℕ) → take (length xs) (xs ++ ys) ≡ xs
take-length_append [] ys = refl
take-length_append (x ∷ xs) ys = ap (◌∷◌ x) (take-length_append xs ys)

drop-length_append : (xs ys : List ℕ) → drop (length xs) (xs ++ ys) ≡ ys
drop-length_append [] ys = refl
drop-length_append (x ∷ xs) ys = drop-length_append xs ys

field-le_bytes :
    (before after : List ℕ) (n v : ℕ)
    → field (before ++ (le_bytes n v ++ after)) (length before) n ≡ le_value (le_bytes n v)
field-le_bytes before after n v =
    ap (λ l. le_value (take n l)) (drop-length_append before (le_bytes n v ++ after))
    ∙ ap (λ k. le_value (take k (le_bytes n v ++ after))) (sym (length-le_bytes n v))
    ∙ ap le_value (take-length_append (le_bytes n v) after)

value4 : (v : ℕ) → v < 2 ^ 32 → le_value (le_bytes 4 v) ≡ v
value4 v small = omega (arith, small)

value8 : (v : ℕ) → v < 2 ^ 64 → le_value (le_bytes 8 v) ≡ v
value8 v small = omega (arith, small)

-- A number below 2^32 that is written in little-endian order between other bytes is read back by `ReadLe32`,
-- and one below 2^64 by `ReadLe64`, wherever it stands.
pub read_le-le_bytes :
    (before after : List ℕ) (v w : ℕ)
    → All IsByte before
    → All IsByte after
    → v < 2 ^ 32
    → w < 2 ^ 64
    → (read_le32 (before ++ (le_bytes 4 v ++ after)) (length before) ≡ v)
      × (read_le64 (before ++ (le_bytes 8 w ++ after)) (length before) ≡ w)
read_le-le_bytes before after v w b a small_v small_w =
    let bytes4 =
      All-append IsByte before (le_bytes 4 v ++ after) b
        (All-append IsByte (le_bytes 4 v) after (le_bytes-IsByte 4 v) a) in
    let bytes8 =
      All-append IsByte before (le_bytes 8 w ++ after) b
        (All-append IsByte (le_bytes 8 w) after (le_bytes-IsByte 8 w) a) in
    (
      (read_le-field (before ++ (le_bytes 4 v ++ after)) (length before) bytes4).0
          ∙ field-le_bytes before after 4 v
          ∙ value4 v small_v,
      (read_le-field (before ++ (le_bytes 8 w ++ after)) (length before) bytes8).1
          ∙ field-le_bytes before after 8 w
          ∙ value8 w small_w,
    )
