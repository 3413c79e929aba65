-- ===== src/Wire/Scalars.antt =====
-- The bytes of one character, and which characters a string has.
use coraza_node.Base.{
  ℕ, zero, suc, ◌+◌, ◌-◌, ◌≤◌, ◌<◌, ◌≡◌, refl, Bool, true, false, List, [], ◌∷◌, leb, ltb, All,
  arith, Bool-cases, inl, inr, ◌⊎◌, not, ◌||◌, ◌*◌, ◌/◌, ◌%◌, Option, some, none, dec_lt, ◌&&◌,
}
use coraza_node.Base.Text.{Text}
use coraza_node.Wire.Utf8.{is_high, is_low, encode_scalar, scalars}
use coraza_node.Wire.Truncate.{is_continuation}

-- Over a small range, by evaluation.
all_below : ℕ → (ℕ → Bool) → Bool
all_below zero p = true
all_below (suc n) p = p n && all_below n p

all_below→eq : (n : ℕ) (p : ℕ → Bool) (x : ℕ) → all_below n p ≡ true → x < n → p x ≡ true
unfolding all_below
all_below→eq zero p x h lt = absurd (omega arith)
all_below→eq (suc n) p x h lt = ground (arith, all_below→eq n p x)

tail_table : all_below 64 (λ x. is_continuation (0x80 + x)) ≡ true
unfolding all_below is_continuation
tail_table = refl

lead_table : all_below 256 (λ x. leb 128 x && ltb x 192 || not (is_continuation x)) ≡ true
unfolding all_below is_continuation
lead_table = refl

is_continuation-tail : (x : ℕ) → x < 64 → is_continuation (0x80 + x) ≡ true
is_continuation-tail x h = all_below→eq 64 _ x tail_table h

is_continuation-lead : (b : ℕ) → b < 256 → (b < 128) ⊎ (192 ≤ b) → is_continuation b ≡ false
is_continuation-lead b h k = ground (
  arith,
  all_below→eq 256 (λ x. leb 128 x && ltb x 192 || not (is_continuation x)) b lead_table h,
)

abbrev pub Tail : List ℕ → Type 0
Tail = All (λ b. is_continuation b ≡ true)

-- A lead byte and continuation bytes.
abbrev pub IsChar : List ℕ → Type 0
IsChar [] = ⊥
IsChar (b ∷ bs) = (is_continuation b ≡ false) × Tail bs

pub encode_scalar-IsChar : (v : ℕ) → v < 0x110000 → IsChar (encode_scalar v)
unfolding encode_scalar
encode_scalar-IsChar v h = elim (dec_lt v 0x80) [
  | yes a ↦ ground (arith, is_continuation-lead v)
  | no a ↦ elim (dec_lt v 0x800) [
    | yes b ↦ ground (arith, is_continuation-lead (0xc0 + v / 64), is_continuation-tail (v % 64))
    | no b ↦ ground (
      arith,
      is_continuation-lead (0xe0 + v / 4096),
      is_continuation-lead (0xf0 + v / 262144),
      is_continuation-tail (v / 4096 % 64),
      is_continuation-tail (v / 64 % 64),
      is_continuation-tail (v % 64),
    )
  ]
]

abbrev pub IsUnit16 : ℕ → Type 0
IsUnit16 c = c < 0x10000

-- The strings that JavaScript has: sequences of 16-bit units.
abbrev pub IsText : Text → Type 0
IsText = All IsUnit16

abbrev IsPending : Option ℕ → Type 0
IsPending none = Unit {0}
IsPending (some h) = (0xd800 ≤ h) × (h < 0xdc00)

is_high→IsPending : (c : ℕ) → is_high c ≡ true → IsPending (some c)
unfolding is_high
is_high→IsPending c h = ground arith

pair-bound :
    (h c : ℕ)
    → IsPending (some h)
    → is_low c ≡ true
    → 0x10000 + (h - 0xd800) * 0x400 + (c - 0xdc00) < 0x110000
unfolding is_low
pair-bound h c q e = ground arith

abbrev pub IsScalar : ℕ → Type 0
IsScalar v = v < 0x110000

pub scalars-bound : (p : Option ℕ) (s : Text) → IsPending p → IsText s → All IsScalar (scalars p s)
unfolding scalars
scalars-bound none [] q t = tt
scalars-bound (some h) [] q t = omega arith
scalars-bound none (c ∷ s) q (u, t) = elim (Bool-cases (is_high c)) [
  | inl e ↦ rw e (scalars-bound (some c) s (is_high→IsPending c e) t)
  | inr e ↦ elim (Bool-cases (is_low c)) [
    | inl l ↦ rw (e, l) (omega arith, scalars-bound none s tt t)
    | inr l ↦ rw (e, l) (omega arith, scalars-bound none s tt t)
  ]
]
scalars-bound (some h) (c ∷ s) q (u, t) = elim (Bool-cases (is_low c)) [
  | inl l ↦ rw l (pair-bound h c q l, scalars-bound none s tt t)
  | inr l ↦ elim (Bool-cases (is_high c)) [
    | inl e ↦ rw (l, e) (omega arith, scalars-bound (some c) s (is_high→IsPending c e) t)
    | inr e ↦ rw (l, e) (omega arith, (omega arith, scalars-bound none s tt t))
  ]
]
