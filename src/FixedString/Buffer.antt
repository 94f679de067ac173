-- ===== src/FixedString/Buffer.antt =====
-- engine/core/fixed_string.hpp: what each write to the buffer does to the text, while the buffer has
-- its full size and the length stays below the capacity.
use soteria.Prelude.{
  ℕ, zero, suc, ◌+◌, ◌-◌, ◌≤◌, ◌<◌, ◌≡◌, sym, ap, ◌∙◌, inl, inr, List, [], ◌∷◌, ◌++◌, append_assoc,
  append-nil, arith, ltb, ◌==◌, if◌then◌else◌, length, get_or, take, length-append, length-take,
  length-set, take-of_le, take-append_take, take-append_left, take-set_self, take-suc-set,
  Bool-cases, ltb→lt, ltb→le,
}
use soteria.FixedString.{
  FixedString, text, put, put_if_room, terminate, append_loop, copy_back, hex_loop, hex_chars,
  nibble,
}

-- The class invariant without the terminator: it holds in the middle of every operation.
pub record Fits (cap : ℕ) (s : FixedString) : Type 0 where
  pub sized : length s.buf ≡ cap
  pub within : s.len < cap

-- The text that appending `cs` is to give: what does not fit is cut off at the end.
abbrev pub bounded : ℕ → List ℕ → FixedString → List ℕ
bounded cap cs s = take (cap - 1) (text s ++ cs)

-- An operation that keeps the buffer sound and appends `cs`, cut off at the capacity.
pub record Appends (cap : ℕ) (cs : List ℕ) (s t : FixedString) : Type 0 where
  pub fits : Fits cap t
  pub shows : text t ≡ bounded cap cs s

pub length-text : {cap : ℕ} {s : FixedString} → Fits cap s → length (text s) ≡ s.len
length-text {cap} {s} f = omega (arith, length-take s.len s.buf, f.sized, f.within)

pub text-put :
    {cap : ℕ} (c : ℕ) {s : FixedString} → Fits cap s → text (put c s) ≡ text s ++ (c ∷ [])
unfolding put
text-put c {s} f =
    let e : s.len + 1 ≡ suc s.len = omega arith in
    rw e (take-suc-set s.buf s.len c (omega (arith, f.sized, f.within)))

pub put-Fits :
    {cap : ℕ} (c : ℕ) {s : FixedString} → Fits cap s → s.len < cap - 1 → Fits cap (put c s)
unfolding put
put-Fits c {s} f h = record { sized = length-set s.buf s.len c ∙ f.sized; within = omega arith }

pub Appends-nil : {cap : ℕ} {s : FixedString} → Fits cap s → Appends cap [] s s
Appends-nil {cap} {s} f = record {
  fits = f;
  shows =
      rw append-nil (sym (take-of_le (cap - 1) (text s) (omega (arith, length-text f, f.within))));
}

-- Two appends in a row append both texts, and are cut off as one is.
pub Appends-trans :
    {cap : ℕ} {cs ds : List ℕ} {s t u : FixedString}
    → Appends cap cs s t
    → Appends cap ds t u
    → Appends cap (cs ++ ds) s u
Appends-trans {cap} {cs} {ds} {s} {t} {u} a b = record {
  fits = b.fits;
  shows =
      b.shows
      ∙ ap (λ x. take (cap - 1) (x ++ ds)) a.shows
      ∙ take-append_take (cap - 1) (text s ++ cs) ds
      ∙ ap (take (cap - 1)) (append_assoc (text s) cs ds);
}

-- Once the buffer is full nothing more is seen.
pub Appends-full :
    {cap : ℕ} (cs : List ℕ) {s : FixedString} → Fits cap s → cap - 1 ≤ s.len → Appends cap cs s s
Appends-full {cap} cs {s} f full = record {
  fits = f;
  shows = sym (
      take-append_left (cap - 1) (text s) cs (omega (arith, length-text f, f.within))
      ∙ take-of_le (cap - 1) (text s) (omega (arith, length-text f, f.within)));
}

put-Appends :
    {cap : ℕ} (c : ℕ) {s : FixedString}
    → Fits cap s
    → s.len < cap - 1
    → Appends cap (c ∷ []) s (put c s)
put-Appends {cap} c {s} f h = record {
  fits = put-Fits c f h;
  shows =
      text-put c f
      ∙ sym (
          take-of_le (cap - 1) (text s ++ (c ∷ []))
            (omega (arith, length-append (text s) (c ∷ []), length-text f)));
}

pub put_if_room-Appends :
    {cap : ℕ} (c : ℕ) {s : FixedString} → Fits cap s → Appends cap (c ∷ []) s (put_if_room cap c s)
unfolding put_if_room
put_if_room-Appends {cap} c {s} f = elim (Bool-cases (ltb s.len (cap - 1))) [
  | inl room ↦ rw room (put-Appends c f (ltb→lt _ _ room))
  | inr full ↦ rw full (Appends-full (c ∷ []) f (ltb→le _ _ full))
]

-- Writing the terminator at the length changes nothing that is seen.
pub terminate-Appends :
    {cap : ℕ} {cs : List ℕ} {s t : FixedString}
    → Appends cap cs s t
    → Appends cap cs s (terminate t)
unfolding terminate
terminate-Appends {cap} {cs} {s} {t} a = record {
  fits = record { sized = length-set t.buf t.len 0 ∙ a.fits.sized; within = a.fits.within };
  shows = take-set_self t.buf t.len 0 ∙ a.shows;
}

-- The C string in a list of characters: it ends before the first 0.
abbrev pub c_string : List ℕ → List ℕ
c_string [] = []
c_string (c ∷ cs) = if c == 0 then [] else c ∷ c_string cs

pub append_loop-Appends :
    {cap : ℕ} (cs : List ℕ) {s : FixedString}
    → Fits cap s
    → Appends cap (c_string cs) s (append_loop cap cs s)
unfolding append_loop
append_loop-Appends [] f = Appends-nil f
append_loop-Appends {cap} (c ∷ cs) {s} f = elim (Bool-cases (c == 0)) [
  | inl end ↦ rw (end, append_loop) (Appends-nil f)
  | inr more ↦ elim (Bool-cases (ltb s.len (cap - 1))) [
    | inl room ↦
        rw (more, room, append_loop)
          (Appends-trans (put-Appends c f (ltb→lt _ _ room))
            (append_loop-Appends cs (put-Fits c f (ltb→lt _ _ room))))
    | inr full ↦ rw (more, full, append_loop) (Appends-full _ f (ltb→le _ _ full))
  ]
]

-- The last `i` places of `tmp`, backwards: what `copy_back` copies.
abbrev pub backwards : List ℕ → ℕ → List ℕ
backwards tmp zero = []
backwards tmp (suc i) = get_or tmp i 0 ∷ backwards tmp i

pub copy_back-Appends :
    {cap : ℕ} (tmp : List ℕ) (i : ℕ) {s : FixedString}
    → Fits cap s
    → Appends cap (backwards tmp i) s (copy_back cap tmp i s)
unfolding copy_back
copy_back-Appends tmp zero f = Appends-nil f
copy_back-Appends tmp (suc i) f =
    let one = put_if_room-Appends (get_or tmp i 0) f in
    Appends-trans one (copy_back-Appends tmp i one.fits)

-- The hexadecimal digits of the places below `place`, the highest first.
abbrev pub hex_text : ℕ → ℕ → List ℕ
hex_text val zero = []
hex_text val (suc place) = get_or hex_chars (nibble val place) 0 ∷ hex_text val place

pub hex_loop-Appends :
    {cap : ℕ} (val place : ℕ) {s : FixedString}
    → Fits cap s
    → Appends cap (hex_text val place) s (hex_loop cap val place s)
unfolding hex_loop
hex_loop-Appends val zero f = Appends-nil f
hex_loop-Appends val (suc place) f =
    let one = put_if_room-Appends (get_or hex_chars (nibble val place) 0) f in
    Appends-trans one (hex_loop-Appends val place one.fits)
