-- ===== src/Wire/Chars.antt =====
-- Truncation and whole characters, for `truncateUtf8` of packages/core/src/transaction.ts.
use coraza_node.Base.{
  ℕ, zero, suc, ◌+◌, ◌-◌, ◌≤◌, ◌<◌, ◌≡◌, refl, ap, sym, ◌∙◌, true, false, List, [], ◌∷◌, ◌++◌, leb,
  length, get_or, take, All, arith, Bool-cases, inl, inr, none, length-append, dec_lt, append_assoc,
  take_append, append-nil, leb→le,
}
use native.Mathlib.Nat.{zero-add, suc-add}
use coraza_node.Base.Text.{Text}
use coraza_node.Wire.Utf8.{encode_scalar, encode_scalars, utf8, scalars}
use coraza_node.Wire.Truncate.{is_continuation, step_back, truncate_utf8}
use coraza_node.Wire.Scalars.{Tail, IsChar, IsText, IsScalar, encode_scalar-IsChar, scalars-bound}

-- Inside a character the search goes back to its first byte.
get_or-Tail :
    (bs more : List ℕ) (i : ℕ)
    → Tail bs
    → i < length bs
    → is_continuation (get_or (bs ++ more) i 0) ≡ true
get_or-Tail [] more i t h = absurd (omega arith)
get_or-Tail (b ∷ bs) more zero (e, t) h = e
get_or-Tail (b ∷ bs) more (suc i) (e, t) h = get_or-Tail bs more i t (omega arith)

step_back-inside :
    (b : ℕ) (bs more : List ℕ) (n : ℕ) → Tail bs → n ≤ length bs → step_back n (b ∷ bs ++ more) ≡ 0
unfolding step_back
step_back-inside b bs more zero t h = refl
step_back-inside b bs more (suc n) t h =
    ground
      (arith, step_back-inside b bs more n t (omega arith), get_or-Tail bs more n t (omega arith))

get_or-append : (xs ys : List ℕ) (i : ℕ) → get_or (xs ++ ys) (length xs + i) 0 ≡ get_or ys i 0
get_or-append [] ys i = rw zero-add
get_or-append (x ∷ xs) ys i = rw suc-add (get_or-append xs ys i)

-- Behind a character the search stays behind it.
step_back-behind :
    (c : ℕ) (cs more : List ℕ) (n : ℕ)
    → is_continuation (get_or more 0 0) ≡ false
    → step_back (suc (length cs + n)) (c ∷ cs ++ more) ≡ suc (length cs + step_back n more)
unfolding step_back
step_back-behind c cs more zero h = rw (get_or-append cs more 0, h) refl
step_back-behind c cs more (suc n) h =
    ground (arith, get_or-append cs more (suc n), step_back-behind c cs more n h)

step_back-IsChar_inside :
    (e more : List ℕ) (n : ℕ) → IsChar e → n < length e → step_back n (e ++ more) ≡ 0
step_back-IsChar_inside [] more n i h = absurd i
step_back-IsChar_inside (b ∷ bs) more n (_, t) h = step_back-inside b bs more n t (omega arith)

step_back-IsChar_behind :
    (e more : List ℕ) (n : ℕ)
    → IsChar e
    → is_continuation (get_or more 0 0) ≡ false
    → step_back (length e + n) (e ++ more) ≡ length e + step_back n more
step_back-IsChar_behind [] more n i h = absurd i
step_back-IsChar_behind (b ∷ bs) more n i h =
    rw (suc-add (length bs) n, suc-add (length bs) (step_back n more))
      (step_back-behind b bs more n h)

IsChar-lead : (e more : List ℕ) → IsChar e → is_continuation (get_or (e ++ more) 0 0) ≡ false
IsChar-lead [] more i = absurd i
IsChar-lead (b ∷ bs) more (h, _) = h

encode_scalars-lead :
    (vs : List ℕ)
    → All IsScalar vs
    → 0 < length (encode_scalars vs)
    → is_continuation (get_or (encode_scalars vs) 0 0) ≡ false
unfolding encode_scalars
encode_scalars-lead [] s h = absurd (omega arith)
encode_scalars-lead (v ∷ vs) (b, s) h =
    IsChar-lead (encode_scalar v) (encode_scalars vs) (encode_scalar-IsChar v b)

-- `kept`, `v` and `lost` split the characters at position `n`.
abbrev SplitsAt : List ℕ → ℕ → Type 0
SplitsAt vs n =
    (kept : List ℕ) × (v : ℕ) × (lost : List ℕ) × (vs ≡ kept ++ v ∷ lost)
    × (step_back n (encode_scalars vs) ≡ length (encode_scalars kept))
    × (length (encode_scalars kept) ≤ n)
    × (n < length (encode_scalars kept) + length (encode_scalar v))

SplitsAt-cons :
    (v : ℕ) (vs : List ℕ) (m : ℕ)
    → IsScalar v
    → is_continuation (get_or (encode_scalars vs) 0 0) ≡ false
    → SplitsAt vs m
    → SplitsAt (v ∷ vs) (length (encode_scalar v) + m)
unfolding encode_scalars
SplitsAt-cons v vs m b l (kept, w, lost, e, at, le, lt) =
    let size = length-append (encode_scalar v) (encode_scalars kept) in
    (
      v ∷ kept,
      w,
      lost,
      ap (◌∷◌ v) e,
      step_back-IsChar_behind (encode_scalar v) (encode_scalars vs) m (encode_scalar-IsChar v b) l
          ∙ omega (arith, at, size),
      omega (arith, le, size),
      omega (arith, lt, size),
    )

length-encode_scalars :
    (v : ℕ) (vs : List ℕ)
    → length (encode_scalars (v ∷ vs)) ≡ length (encode_scalar v) + length (encode_scalars vs)
unfolding encode_scalars
length-encode_scalars v vs = length-append (encode_scalar v) (encode_scalars vs)

-- The search from inside a sequence of characters ends at the last boundary.
step_back-SplitsAt :
    (vs : List ℕ) (n : ℕ) → All IsScalar vs → n < length (encode_scalars vs) → SplitsAt vs n
step_back-SplitsAt [] n s h = unfold encode_scalars in absurd (omega arith)
step_back-SplitsAt (v ∷ vs) n (b, s) h = elim (dec_lt n (length (encode_scalar v))) [
  | yes p ↦ (
    [],
    v,
    vs,
    refl,
    unfold encode_scalars in
        step_back-IsChar_inside (encode_scalar v) (encode_scalars vs) n (encode_scalar-IsChar v b)
          p,
    unfold encode_scalars in omega arith,
    unfold encode_scalars in omega (arith, p),
  )
  | no q ↦
      let m = n - length (encode_scalar v) in
      let e : length (encode_scalar v) + m ≡ n = omega (arith, q) in
      let inside : m < length (encode_scalars vs) =
        omega (arith, h, length-encode_scalars v vs, q) in
      rw e at (
        SplitsAt-cons v vs m b (encode_scalars-lead vs s (omega (arith, inside)))
          (step_back-SplitsAt vs m s inside))
]

-- What a truncation keeps of a sequence of characters: the first ones, whole, and as many as fit.
abbrev pub KeepsChars : List ℕ → ℕ → List ℕ → Type 0
KeepsChars vs max bytes =
    (kept lost : List ℕ) × (vs ≡ kept ++ lost)
    × (bytes ≡ encode_scalars kept)
    × (length bytes ≤ max)
    × ((v : ℕ) (more : List ℕ) → lost ≡ v ∷ more → max < length bytes + length (encode_scalar v))

encode_scalars-append :
    (xs ys : List ℕ) → encode_scalars (xs ++ ys) ≡ encode_scalars xs ++ encode_scalars ys
unfolding encode_scalars
encode_scalars-append [] ys = refl
encode_scalars-append (x ∷ xs) ys =
    rw (encode_scalars-append xs ys) (sym (append_assoc (encode_scalar x) _ _))

truncate-KeepsChars :
    (vs : List ℕ) (max : ℕ)
    → All IsScalar vs
    → KeepsChars vs max (truncate_utf8 (encode_scalars vs) max)
truncate-KeepsChars vs max s = elim (Bool-cases (leb (length (encode_scalars vs)) max)) [
  | inl fits ↦
      let same : truncate_utf8 (encode_scalars vs) max ≡ encode_scalars vs =
        unfold truncate_utf8 in rw fits in
      rw same (vs, [], sym (append-nil vs), refl, leb→le _ _ fits, λ v more e. cc)
  | inr long ↦
      let (kept, v, lost, e, at, le, lt) = step_back-SplitsAt vs max s (ground (arith, long)) in
      let first : take (length (encode_scalars kept)) (encode_scalars vs) ≡ encode_scalars kept =
        rw (e, encode_scalars-append kept (v ∷ lost)) (take_append _ _) in
      let same : truncate_utf8 (encode_scalars vs) max ≡ encode_scalars kept =
        unfold truncate_utf8 in rw (long, at) first in
      rw same (kept, v ∷ lost, e, refl, le, λ w more f. let q : v ≡ w = cc in rw (← q) lt)
]

utf8_lem : (s : Text) → utf8 s ≡ encode_scalars (scalars none s)
unfolding utf8
utf8_lem s = refl

-- A truncated field is the encoding of the first characters of the string, as many as fit: no
-- character is split, and the next one would not fit.
pub truncate_utf8-KeepsChars :
    (s : Text) (max : ℕ) → IsText s → KeepsChars (scalars none s) max (truncate_utf8 (utf8 s) max)
truncate_utf8-KeepsChars s max t =
    rw utf8_lem (truncate-KeepsChars (scalars none s) max (scalars-bound none s tt t))
