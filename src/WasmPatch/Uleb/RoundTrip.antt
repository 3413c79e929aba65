-- ===== src/WasmPatch/Uleb/RoundTrip.antt =====
-- `readULEB` of packages/core/src/wasmPatch.ts on the bytes of `writeULEB`.
use coraza_node.Base.{
  ℕ, zero, suc, ◌+◌, ◌*◌, ◌/◌, ◌%◌, ◌^◌, ◌≤◌, ◌<◌, ◌≡◌, refl, sym, ap, ap₂, ◌∙◌, false, List, [],
  ◌∷◌, ◌++◌, Option, some, get_or, length, length-append, append_assoc, ltb, lt→ltb, arith, dec_lt,
}
use coraza_node.WasmPatch.Uleb.{word, shifted, read_loop, read_uleb, write_loop, write_uleb}
use coraza_node.WasmPatch.Uleb.Bits.{bit_or-shift}
use Prim.Native.Nat.{bit_or}
use native.Mathlib.Nat.{pow-suc, mul_assoc, add-mul, mul-le-mul_right}

get_or-append : (pre ys : List ℕ) (x d : ℕ) → get_or (pre ++ x ∷ ys) (length pre) d ≡ x
get_or-append [] ys x d = refl
get_or-append (p ∷ pre) ys x d = get_or-append pre ys x d

-- The value of a number by its lowest digit, at a weight.
split-weight : (v m : ℕ) → v * m ≡ v % 128 * m + v / 128 * (128 * m)
split-weight v m = omega (
  arith,
  mul_assoc (v / 128) 128 m,
  add-mul (v / 128 * 128) (v % 128) m,
  ap (λ (t : ℕ). t * m) (parts v),
)
  where
    parts : (v : ℕ) → v ≡ v / 128 * 128 + v % 128
    parts v = omega arith

pow_seven : (s : ℕ) → 2 ^ (s + 7) ≡ 128 * 2 ^ s
pow_seven s = omega (
  arith,
  ap (λ (t : ℕ). 2 ^ t) (shifted_by s),
  pow-suc 2 (s),
  pow-suc 2 (suc s),
  pow-suc 2 (suc (suc s)),
  pow-suc 2 (suc (suc (suc s))),
  pow-suc 2 (suc (suc (suc (suc s)))),
  pow-suc 2 (suc (suc (suc (suc (suc s))))),
  pow-suc 2 (suc (suc (suc (suc (suc (suc s)))))),
)
  where
    shifted_by : (s : ℕ) → s + 7 ≡ suc (suc (suc (suc (suc (suc (suc s))))))
    shifted_by s = omega arith

-- A digit at its weight fits the word where the number does.
digit-facts :
    (v s r : ℕ)
    → s ≤ 28
    → r < 2 ^ s
    → r + v * 2 ^ s < word
    → (bit_or r (shifted v s) ≡ r + v % 128 * 2 ^ s)
      × (r + v % 128 * 2 ^ s < 2 ^ (s + 7))
      × (r + v % 128 * 2 ^ s + v / 128 * 2 ^ (s + 7) ≡ r + v * 2 ^ s)
digit-facts v s r le fits small = (
  ap (bit_or r) (unshifted (omega arith) (omega (arith, split-weight v (2 ^ s))))
      ∙ bit_or-shift s r (v % 128) fits,
  omega (arith, pow_seven s, mul-le-mul_right (2 ^ s) (below v)),
  omega (arith, split-weight v (2 ^ s), ap (λ (t : ℕ). v / 128 * t) (pow_seven s)),
)
  where
    below : (v : ℕ) → v % 128 ≤ 127
    below v = omega arith

    unshifted : s % 32 ≡ s → v % 128 * 2 ^ s < word → shifted v s ≡ v % 128 * 2 ^ s
    unshifted e lt = rw e (omega (arith, lt))

-- One step of the loop, at a last byte and at another.
read_loop-last :
    (fuel i s r : ℕ) (buf : List ℕ)
    → get_or buf i 0 < 128
    → read_loop (suc fuel) buf i s r ≡ some (bit_or r (shifted (get_or buf i 0) s), suc i)
unfolding read_loop
read_loop-last fuel i s r buf h = rw (lt→ltb (get_or buf i 0) 128 h) refl

read_loop-more :
    (fuel i s r d : ℕ) (buf : List ℕ)
    → get_or buf i 0 ≡ 128 + d % 128
    → s + 7 ≤ 35
    → read_loop (suc fuel) buf i s r ≡ read_loop fuel buf (suc i) (s + 7) (bit_or r (shifted d s))
unfolding read_loop
read_loop-more fuel i s r d buf h le = rw (ltb-false (get_or buf i 0) 128 (omega arith)) (
    rw (ltb-false 35 (s + 7) le) (
      ap (λ (t : ℕ). read_loop fuel buf (suc i) (s + 7) (bit_or r (t * 2 ^ (s % 32) % word)))
        digit))
  where
    ltb-false : (a b : ℕ) → b ≤ a → ltb a b ≡ false
    ltb-false a b h = ground arith

    digit : get_or buf i 0 % 128 ≡ d % 128
    digit = omega arith

write_loop-last : (fuel v : ℕ) → v < 128 → write_loop (suc fuel) v ≡ v ∷ []
unfolding write_loop
write_loop-last fuel v h = ground (arith, h)

write_loop-more :
    (fuel v : ℕ) → 128 ≤ v → write_loop (suc fuel) v ≡ (128 + v % 128) ∷ write_loop fuel (v / 128)
unfolding write_loop
write_loop-more fuel v h = ground (arith, h)

abbrev read_to : ℕ → ℕ → Option (ℕ × ℕ)
read_to v i = some (v, i)

pair_eq : {a b c d : ℕ} → a ≡ c → b ≡ d → read_to a b ≡ read_to c d
pair_eq p q = ap₂ read_to p q

step-last :
    (fuel v s r : ℕ) (pre post : List ℕ)
    → v < 128
    → s ≤ 28
    → r < 2 ^ s
    → r + v * 2 ^ s < word
    → read_loop (suc fuel) (pre ++ v ∷ post) (length pre) s r ≡ some (r + v * 2 ^ s, length pre + 1)
step-last fuel v s r pre post h le fits small =
    read_loop-last fuel (length pre) s r (pre ++ v ∷ post) (omega (arith, here))
    ∙ pair_eq
        (ap (λ (t : ℕ). bit_or r (shifted t s)) here
          ∙ (digit-facts v s r le fits small).0
          ∙ ap (λ (t : ℕ). r + t * 2 ^ s) (whole v h))
        (omega arith)
  where
    here : get_or (pre ++ v ∷ post) (length pre) 0 ≡ v
    here = get_or-append pre post v 0

    whole : (v : ℕ) → v < 128 → v % 128 ≡ v
    whole v h = omega arith

step-more :
    (fuel v s r : ℕ) (pre post : List ℕ)
    → s ≤ 28
    → r < 2 ^ s
    → r + v * 2 ^ s < word
    → read_loop (suc fuel) (pre ++ (128 + v % 128) ∷ post) (length pre) s r
      ≡ read_loop fuel
          ((pre ++ (128 + v % 128) ∷ []) ++ post)
          (length (pre ++ (128 + v % 128) ∷ []))
          (s + 7)
          (r + v % 128 * 2 ^ s)
step-more fuel v s r pre post le fits small =
    let x : ℕ = 128 + v % 128 in
    let buf : List ℕ = pre ++ x ∷ post in
    read_loop-more fuel (length pre) s r v buf (get_or-append pre post x 0) (omega (arith, le))
    ∙ ap (λ (t : ℕ). read_loop fuel buf (suc (length pre)) (s + 7) t)
        (digit-facts v s r le fits small).0
    ∙ ap₂ (λ (b : List ℕ) (i : ℕ). read_loop fuel b i (s + 7) (r + v % 128 * 2 ^ s))
        (sym (append_assoc pre (x ∷ []) post)) (omega (arith, length-append pre (x ∷ [])))

-- The round trip from the digit of weight 2 ^ s on.
abbrev Loops : ℕ → Type 0
Loops k =
    (v s r : ℕ) (pre post : List ℕ)
    → s + 7 * suc k ≡ 35
    → r < 2 ^ s
    → r + v * 2 ^ s < word
    → read_loop (suc (suc k)) (pre ++ (write_loop (suc k) v ++ post)) (length pre) s r
      ≡ some (r + v * 2 ^ s, length pre + length (write_loop (suc k) v))

Loops-last :
    (k v s r : ℕ) (pre post : List ℕ)
    → v < 128
    → s ≤ 28
    → r < 2 ^ s
    → r + v * 2 ^ s < word
    → read_loop (suc (suc k)) (pre ++ (write_loop (suc k) v ++ post)) (length pre) s r
      ≡ some (r + v * 2 ^ s, length pre + length (write_loop (suc k) v))
Loops-last k v s r pre post h le fits small =
    rw (write_loop-last k v h) (step-last (suc k) v s r pre post h le fits small)

Loops-more :
    (k : ℕ)
    → Loops k
    → (v s r : ℕ) (pre post : List ℕ) → 128 ≤ v
    → s + 7 * suc (suc k) ≡ 35
    → r < 2 ^ s
    → r + v * 2 ^ s < word
    → read_loop (suc (suc (suc k))) (pre ++ (write_loop (suc (suc k)) v ++ post)) (length pre) s r
      ≡ some (r + v * 2 ^ s, length pre + length (write_loop (suc (suc k)) v))
Loops-more k ih v s r pre post big e fits small =
    let f = digit-facts v s r (omega (arith, e)) fits small in
    rw (write_loop-more (suc k) v big) (
      step-more (suc (suc k)) v s r pre (write_loop (suc k) (v / 128) ++ post) (omega (arith, e))
        fits small
      ∙ ih (v / 128) (s + 7) (r + v % 128 * 2 ^ s) (pre ++ (128 + v % 128) ∷ []) post
          (omega (arith, e)) f.1 (omega (arith, f, small))
      ∙ pair_eq f.2 (omega (arith, length-append pre ((128 + v % 128) ∷ []))))

Loops-all : (k : ℕ) → Loops k
Loops-all zero v s r pre post e fits small =
    let w : s ≡ 28 = omega (arith, e) in
    let p : 2 ^ s ≡ 2 ^ 28 = ap (λ (t : ℕ). 2 ^ t) w in
    Loops-last zero v s r pre post (omega (arith, ap (λ (t : ℕ). v * t) p, small))
      (omega (arith, e)) fits small
Loops-all (suc k) v s r pre post e fits small = elim (dec_lt v 128) [
  | yes h ↦ Loops-last (suc k) v s r pre post h (omega (arith, e)) fits small
  | no h ↦ Loops-more k (Loops-all k) v s r pre post (omega (arith, h)) e fits small
]

-- Reading at the place where a number below 2 ^ 32 was written, whatever stands around it, gives the
-- number and the index after it.
pub read_uleb-write_uleb :
    (v : ℕ) (pre post : List ℕ)
    → v < 2 ^ 32
    → read_uleb (pre ++ (write_uleb v ++ post)) (length pre)
      ≡ some (v, length pre + length (write_uleb v))
unfolding read_uleb write_uleb
read_uleb-write_uleb v pre post h =
    rw (whole v h) (
      Loops-all 4 v 0 0 pre post refl (omega arith) (omega (arith, h)) ∙ pair_eq (omega arith) refl)
  where
    whole : (v : ℕ) → v < 2 ^ 32 → v % word ≡ v
    whole v h = omega (arith, h)

pub length-write_loop : (fuel v : ℕ) → length (write_loop fuel v) ≤ fuel
unfolding write_loop
length-write_loop zero v = omega arith
length-write_loop (suc fuel) v = ground (arith, length-write_loop fuel (v / 128))

pub length-write_uleb : (v : ℕ) → length (write_uleb v) ≤ 5
unfolding write_uleb
length-write_uleb v = length-write_loop 5 (v % word)
