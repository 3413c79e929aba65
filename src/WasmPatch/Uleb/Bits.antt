-- ===== src/WasmPatch/Uleb/Bits.antt =====
-- The binary `|` of the numbers in `readULEB` of packages/core/src/wasmPatch.ts, as a sum.
use coraza_node.Base.{ℕ, zero, suc, ◌+◌, ◌*◌, ◌/◌, ◌%◌, ◌^◌, ◌≤◌, ◌<◌, max, ◌≡◌, refl, ap, arith}
use Prim.Native.Nat.{bit_or, bit_or-bitwise, digits}
use native.Mathlib.Nat.{pow-suc, mul_assoc}

abbrev or_digits : ℕ → ℕ → ℕ → ℕ
or_digits n a b = digits (λ b. b) max n a b

-- A count of digits that covers the first number gives the same result as any other.
or_digits-covered : (n m a b : ℕ) → a ≤ n → a ≤ m → or_digits n a b ≡ or_digits m a b
or_digits-covered zero zero a b p q = refl
or_digits-covered zero (suc m) zero b p q = refl
or_digits-covered zero (suc m) (suc a) b p q = absurd (omega arith)
or_digits-covered (suc n) zero zero b p q = refl
or_digits-covered (suc n) zero (suc a) b p q = absurd (omega arith)
or_digits-covered (suc n) (suc m) zero b p q = refl
or_digits-covered (suc n) (suc m) (suc a) b p q =
    omega (arith, or_digits-covered n m (suc a / 2) (b / 2) (omega arith) (omega arith))

bit_or-zero : (b : ℕ) → bit_or 0 b ≡ b
bit_or-zero b = bit_or-bitwise 0 b

bit_or-halves : (a b : ℕ) → bit_or a b ≡ bit_or (a / 2) (b / 2) * 2 + max (a % 2) (b % 2)
bit_or-halves zero b = omega (arith, bit_or-zero b, bit_or-zero (b / 2))
bit_or-halves (suc a) b = omega (
  arith,
  bit_or-bitwise (suc a) b,
  bit_or-bitwise (suc a / 2) (b / 2),
  or_digits-covered a (suc a / 2) (suc a / 2) (b / 2) (omega arith) (omega arith),
)

shift-suc : (x s : ℕ) → x * 2 ^ suc s ≡ x * 2 ^ s * 2
shift-suc x s = omega (arith, ap (λ (t : ℕ). x * t) (pow-suc 2 s), mul_assoc x (2 ^ s) 2)

halve-shift : (x s : ℕ) → x * 2 ^ suc s / 2 ≡ x * 2 ^ s
halve-shift x s = omega (arith, shift-suc x s)

pub bit_or-shift : (s r x : ℕ) → r < 2 ^ s → bit_or r (x * 2 ^ s) ≡ r + x * 2 ^ s
bit_or-shift zero zero x h = omega (arith, bit_or-zero (x * 1))
bit_or-shift zero (suc r) x h = absurd (omega arith)
bit_or-shift (suc s) r x h = omega (
  arith,
  bit_or-halves r (x * 2 ^ suc s),
  shift-suc x s,
  pow-suc 2 s,
  ap (λ (t : ℕ). bit_or (r / 2) t) (halve-shift x s),
  bit_or-shift s (r / 2) x (omega (arith, pow-suc 2 s)),
)
