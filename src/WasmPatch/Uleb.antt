-- ===== src/WasmPatch/Uleb.antt =====
-- `readULEB` and `writeULEB` of packages/core/src/wasmPatch.ts. A byte out of range is undefined,
-- which the bitwise operators take for 0; the result is read as a 32-bit word without sign.
mod Bits
pub mod RoundTrip
use coraza_node.Base.{
  ℕ, zero, suc, ◌+◌, ◌*◌, ◌/◌, ◌%◌, ◌^◌, Bool, true, false, List, [], ◌∷◌, Option, none, some,
  get_or, ltb, ◌==◌, if◌then◌else◌,
}
use Prim.Native.Nat.{bit_or}

abbrev pub word : ℕ
word = 2 ^ 32

-- `(b & 0x7f) << shift`, where the shift counts modulo 32.
abbrev pub shifted : ℕ → ℕ → ℕ
shifted b shift = (b % 128) * 2 ^ (shift % 32) % word

-- The loop, from index `i`; none where it throws. The sixth byte is read at a shift of 35, which is
-- a shift by 3.
unfoldable pub read_loop : (fuel : ℕ) → (buf : List ℕ) → (i shift result : ℕ) → Option (ℕ × ℕ)
read_loop zero buf i shift result = none
read_loop (suc fuel) buf i shift result =
    let b = get_or buf i 0 in
    let r = bit_or result (shifted b shift) in
    let rest = read_loop fuel buf (suc i) (shift + 7) r in
    if ltb b 128 then some (r, suc i) else if ltb 35 (shift + 7) then none else rest

-- The shift exceeds 35 after the sixth byte.
unfoldable pub read_uleb : List ℕ → ℕ → Option (ℕ × ℕ)
read_uleb buf offset = read_loop 6 buf offset 0 0

unfoldable pub write_loop : (fuel v : ℕ) → List ℕ
write_loop zero v = []
write_loop (suc fuel) v =
    let rest = write_loop fuel (v / 128) in
    if v / 128 == 0 then v % 128 ∷ [] else (128 + v % 128) ∷ rest

-- A 32-bit word has at most five digits of seven bits.
unfoldable pub write_uleb : ℕ → List ℕ
write_uleb value = write_loop 5 (value % word)
