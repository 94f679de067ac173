-- ===== src/PipelineCache/Bytes.antt =====
-- engine/rendering/pipeline_cache.cpp: `ReadLe32` and `ReadLe64` give the little-endian value of the
-- four and eight bytes at the offset.
use soteria.Prelude.{
  ℕ, zero, suc, ◌+◌, ◌*◌, ◌^◌, ◌<◌, ◌≡◌, refl, sym, ◌∙◌, List, [], ◌∷◌, arith, take, drop, All,
}
use soteria.Bits.{bit_or_disjoint}
use soteria.PipelineCache.{byte_at, read_le32, read_le64}

abbrev pub IsByte : ℕ → Type 0
IsByte b = b < 256

-- The number whose base-256 digits are the bytes, the lowest first.
abbrev pub le_value : List ℕ → ℕ
le_value [] = 0
le_value (b ∷ bs) = b + 256 * le_value bs

-- The field of `n` bytes at an offset.
abbrev pub field : List ℕ → (off n : ℕ) → ℕ
field p off n = le_value (take n (drop off p))

byte_at-IsByte : (p : List ℕ) (off : ℕ) → All IsByte p → IsByte (byte_at p off)
byte_at-IsByte [] off h = omega arith
byte_at-IsByte (b ∷ p) zero h = h.0
byte_at-IsByte (b ∷ p) (suc off) h = byte_at-IsByte p off h.1

read_le32_sum :
    (p : List ℕ) (off : ℕ)
    → All IsByte p
    → read_le32 p off
      ≡ byte_at p off
        + 2 ^ 8 * byte_at p (off + 1)
        + 2 ^ 16 * byte_at p (off + 2)
        + 2 ^ 24 * byte_at p (off + 3)
unfolding read_le32
read_le32_sum p off h =
    let b0 = byte_at p off in
    let b1 = byte_at p (off + 1) in
    let b2 = byte_at p (off + 2) in
    let s0 : b0 < 256 = byte_at-IsByte p off h in
    let s1 : b1 < 256 = byte_at-IsByte p (off + 1) h in
    let s2 : b2 < 256 = byte_at-IsByte p (off + 2) h in
    rw (bit_or_disjoint 8 b0 b1 s0) (
      rw (bit_or_disjoint 16 (b0 + b1 * 2 ^ 8) b2 (omega arith)) (
        rw (bit_or_disjoint 24 (b0 + b1 * 2 ^ 8 + b2 * 2 ^ 16) (byte_at p (off + 3)) (omega arith))
          (omega arith)))

field-nil : (off n : ℕ) → field [] off n ≡ 0
field-nil zero zero = refl
field-nil zero (suc n) = refl
field-nil (suc off) zero = refl
field-nil (suc off) (suc n) = refl

field-suc :
    (p : List ℕ) (off n : ℕ) → field p off (suc n) ≡ byte_at p off + 256 * field p (suc off) n
field-suc [] off n = omega (arith, field-nil off (suc n), field-nil (suc off) n)
field-suc (b ∷ p) zero n = refl
field-suc (b ∷ p) (suc off) n = field-suc p off n

field_four :
    (p : List ℕ) (off : ℕ)
    → field p off 4
      ≡ byte_at p off
        + 2 ^ 8 * byte_at p (off + 1)
        + 2 ^ 16 * byte_at p (off + 2)
        + 2 ^ 24 * byte_at p (off + 3)
field_four p off =
    let e1 : off + 1 ≡ suc off = omega arith in
    let e2 : off + 2 ≡ suc (suc off) = omega arith in
    let e3 : off + 3 ≡ suc (suc (suc off)) = omega arith in
    rw (e1, e2, e3)
      (omega (
        arith,
        field-suc p off 3,
        field-suc p (suc off) 2,
        field-suc p (suc (suc off)) 1,
        field-suc p (suc (suc (suc off))) 0,
      ))

field_eight : (p : List ℕ) (off : ℕ) → field p off 8 ≡ field p off 4 + 2 ^ 32 * field p (off + 4) 4
field_eight p off =
    let e : off + 4 ≡ suc (suc (suc (suc off))) = omega arith in
    rw e (
      omega (
        arith,
        field-suc p off 7,
        field-suc p (suc off) 6,
        field-suc p (suc (suc off)) 5,
        field-suc p (suc (suc (suc off))) 4,
        field-suc p off 3,
        field-suc p (suc off) 2,
        field-suc p (suc (suc off)) 1,
        field-suc p (suc (suc (suc off))) 0,
      ))

field_four-lt : (p : List ℕ) (off : ℕ) → All IsByte p → field p off 4 < 2 ^ 32
field_four-lt p off h = omega (
  arith,
  field_four p off,
  byte_at-IsByte p off h,
  byte_at-IsByte p (off + 1) h,
  byte_at-IsByte p (off + 2) h,
  byte_at-IsByte p (off + 3) h,
)

pub read_le32-field : (p : List ℕ) (off : ℕ) → All IsByte p → read_le32 p off ≡ field p off 4
read_le32-field p off h = read_le32_sum p off h ∙ sym (field_four p off)

-- `ReadLe32` and `ReadLe64` are the little-endian fields of four and of eight bytes at the offset.
pub read_le-field :
    (p : List ℕ) (off : ℕ)
    → All IsByte p
    → (read_le32 p off ≡ field p off 4) × (read_le64 p off ≡ field p off 8)
unfolding read_le64
read_le-field p off h = (
  read_le32-field p off h,
  rw (read_le32-field p off h, read_le32-field p (off + 4) h)
      (bit_or_disjoint 32 (field p off 4) (field p (off + 4) 4) (field_four-lt p off h)
        ∙ omega (arith, field_eight p off)),
)
