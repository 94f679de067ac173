-- ===== src/FixedString/Bounds.antt =====
-- engine/core/fixed_string.hpp: the class invariant, and the truncation law of every operation: the
-- text afterwards is the text before followed by the operation's own, cut off at the capacity.
use soteria.Prelude.{
  ℕ, zero, suc, ◌+◌, ◌%◌, ◌^◌, ◌≤◌, ◌<◌, ◌≡◌, refl, some, List, [], ◌∷◌, ◌++◌, arith, length,
  get_elem?, replicate, length-replicate, get_elem?-set_self, ℤ, pos, negsuc,
}
use soteria.FixedString.{
  FixedString, text, empty, terminate, append, append_u_dec, append_u64_dec, append_i_dec,
  append_hex, reversed_digits, hex_digits,
}
use soteria.FixedString.Buffer.{
  Fits, bounded, Appends, c_string, backwards, hex_text, Appends-nil, Appends-trans,
  terminate-Appends, append_loop-Appends, copy_back-Appends, hex_loop-Appends,
}

-- The class invariant between operations: the buffer has its size, the length is below the capacity,
-- and the character at the length is the terminator.
pub record IsValid (cap : ℕ) (s : FixedString) : Type 0 where
  pub fits : Fits cap s
  pub terminated : get_elem? s.buf s.len ≡ some 0

-- A finished operation whose own text is `cs`.
pub record Writes (cap : ℕ) (cs : List ℕ) (s t : FixedString) : Type 0 where
  pub valid : IsValid cap t
  pub shows : text t ≡ bounded cap cs s

terminate-Writes :
    {cap : ℕ} {cs : List ℕ} {s t : FixedString} → Appends cap cs s t → Writes cap cs s (terminate t)
unfolding terminate
terminate-Writes {cap} {cs} {s} {t} a =
    let done : Appends cap cs s (terminate t) = terminate-Appends a in
    record {
      valid = record {
        fits = done.fits;
        terminated = get_elem?-set_self t.buf t.len 0 (omega (arith, a.fits.sized, a.fits.within));
      };
      shows = done.shows;
    }

get_elem?-replicate : (n i : ℕ) → i < n → get_elem? {A = ℕ} (replicate n 0) i ≡ some 0
get_elem?-replicate zero i h = elim h [ ]
get_elem?-replicate (suc n) zero h = refl
get_elem?-replicate (suc n) (suc i) h = get_elem?-replicate n i (omega arith)

-- A new string of a capacity of at least 2, which a `static_assert` demands, is valid.
pub empty-IsValid : (cap : ℕ) → 2 ≤ cap → IsValid cap (empty cap)
unfolding empty
empty-IsValid cap h = record {
  fits = record { sized = length-replicate cap 0; within = omega arith };
  terminated = get_elem?-replicate cap 0 (omega arith);
}

-- The texts that the numeric operations add.
abbrev pub u_dec_text : ℕ → List ℕ
u_dec_text val = backwards (reversed_digits 10 val) (length (reversed_digits 10 val))

abbrev pub u64_dec_text : ℕ → List ℕ
u64_dec_text val = backwards (reversed_digits 20 val) (length (reversed_digits 20 val))

abbrev pub i_dec_text : ℤ → List ℕ
i_dec_text (pos n) = u_dec_text n
i_dec_text (negsuc n) = b'-' ∷ u_dec_text ((n + 1) % 2 ^ 32)

pub append-Writes :
    {cap : ℕ} (cs : List ℕ) {s : FixedString}
    → IsValid cap s
    → Writes cap (c_string cs) s (append cap (some cs) s)
unfolding append
append-Writes cs v = terminate-Writes (append_loop-Appends cs v.fits)

pub append_u_dec-Writes :
    {cap : ℕ} (val : ℕ) {s : FixedString}
    → IsValid cap s
    → Writes cap (u_dec_text val) s (append_u_dec cap val s)
unfolding append_u_dec
append_u_dec-Writes val v = terminate-Writes (copy_back-Appends _ _ v.fits)

pub append_u64_dec-Writes :
    {cap : ℕ} (val : ℕ) {s : FixedString}
    → IsValid cap s
    → Writes cap (u64_dec_text val) s (append_u64_dec cap val s)
unfolding append_u64_dec
append_u64_dec-Writes val v = terminate-Writes (copy_back-Appends _ _ v.fits)

pub append_hex-Writes :
    {cap : ℕ} (val digits : ℕ) {s : FixedString}
    → IsValid cap s
    → Writes cap (hex_text val (hex_digits digits)) s (append_hex cap val digits s)
unfolding append_hex
append_hex-Writes val digits v = terminate-Writes (hex_loop-Appends val (hex_digits digits) v.fits)

-- Two operations in a row.
pub Writes-trans :
    {cap : ℕ} {cs ds : List ℕ} {s t u : FixedString}
    → Writes cap cs s t
    → Writes cap ds t u
    → Writes cap (cs ++ ds) s u
Writes-trans {cap} {cs} {ds} {s} {t} {u} a b =
    let both : Appends cap (cs ++ ds) s u =
      Appends-trans (record { fits = a.valid.fits; shows = a.shows })
        (record { fits = b.valid.fits; shows = b.shows }) in
    record { valid = b.valid; shows = both.shows }

pub Writes-nil : {cap : ℕ} {s : FixedString} → IsValid cap s → Writes cap [] s s
Writes-nil {cap} {s} v =
    let same : Appends cap [] s s = Appends-nil v.fits in record { valid = v; shows = same.shows }

pub append_i_dec-Writes :
    {cap : ℕ} (val : ℤ) {s : FixedString}
    → IsValid cap s
    → Writes cap (i_dec_text val) s (append_i_dec cap val s)
unfolding append_i_dec
append_i_dec-Writes (pos n) v = append_u_dec-Writes n v
append_i_dec-Writes (negsuc n) v =
    let minus = append-Writes (b'-' ∷ []) v in
    Writes-trans minus (append_u_dec-Writes ((n + 1) % 2 ^ 32) minus.valid)
