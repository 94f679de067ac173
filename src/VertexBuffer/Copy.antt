-- ===== src/VertexBuffer/Copy.antt =====
-- engine/rendering/vertex_buffer.cpp: `Write` stays inside the mapped region.
use soteria.Prelude.{
  ℕ, zero, suc, ◌≤◌, ◌≡◌, refl, inl, inr, not, ◌&&◌, none, some, List, [], ◌∷◌, ◌++◌, arith, length,
  take, drop, leb, if◌then◌else◌, Bool-cases,
}
use soteria.Result.{k_ok, k_error, k_invalid_argument}
use soteria.VertexBuffer.{VertexBuffer, copy, write}

-- With enough bytes on both sides the copy replaces the first `bytes` bytes.
copy_lem :
    (bytes : ℕ) (src dst : List ℕ)
    → bytes ≤ length src
    → bytes ≤ length dst
    → copy bytes src dst ≡ some (take bytes src ++ drop bytes dst)
unfolding copy
copy_lem zero src dst h k = refl
copy_lem (suc bytes) [] dst h k = absurd (omega arith)
copy_lem (suc bytes) (x ∷ src) [] h k = absurd (omega arith)
copy_lem (suc bytes) (x ∷ src) (y ∷ dst) h k =
    rw (copy_lem bytes src dst (omega arith) (omega arith))

write-some :
    (b : VertexBuffer) (src : List ℕ) (bytes : ℕ) (region : List ℕ)
    → bytes ≤ length src
    → length region ≡ b.size_bytes
    → write b (some src) bytes region ≡ (
        if not b.initialised
        then some (k_error, region)
        else if leb 1 bytes && leb bytes b.size_bytes
        then some (k_ok, take bytes src ++ drop bytes region)
        else some (k_invalid_argument, region))
unfolding write
write-some b src bytes region h size = elim (Bool-cases (leb bytes b.size_bytes)) [
  | inl fits ↦
      let inside : bytes ≤ length region = ground arith in
      let copied = copy_lem bytes src region h inside in ground (arith, copied)
  | inr wrong ↦ ground arith
]

-- If the source holds the bytes that it is said to hold and the region is as large as the buffer, `Write`
-- makes no access out of bounds. It copies exactly when the object is initialised, the data is not
-- null, and the count is from 1 to the size of the buffer; then the count of first bytes is replaced. In
-- every other case the region is unchanged and an error is returned: `kError` before `Init`, and
-- `kInvalidArgument` after it.
pub write_lem :
    (b : VertexBuffer) (src : List ℕ) (bytes : ℕ) (region : List ℕ)
    → bytes ≤ length src
    → length region ≡ b.size_bytes
    → (write b (some src) bytes region ≡ (
        if not b.initialised
        then some (k_error, region)
        else if leb 1 bytes && leb bytes b.size_bytes
        then some (k_ok, take bytes src ++ drop bytes region)
        else some (k_invalid_argument, region)))
      × (write b none bytes region
          ≡ some ((if b.initialised then k_invalid_argument else k_error), region))
unfolding write
write_lem b src bytes region h size = (write-some b src bytes region h size, ground arith)
