-- ===== src/Wire/Utf8.antt =====
-- `TextEncoder.encode`, which `utf8` of packages/core/src/abi.ts is. Surrogate pairs are joined and
-- a lone surrogate becomes U+FFFD, as `Buffer.write` has it too.
use coraza_node.Base.{
  ℕ, ◌+◌, ◌-◌, ◌*◌, ◌/◌, ◌%◌, Bool, ◌&&◌, List, [], ◌∷◌, ◌++◌, Option, none, some, ltb, leb,
  if◌then◌else◌,
}
use coraza_node.Base.Text.{Text}

unfoldable pub is_high : ℕ → Bool
is_high c = leb 0xd800 c && ltb c 0xdc00

unfoldable pub is_low : ℕ → Bool
is_low c = leb 0xdc00 c && ltb c 0xe000

-- The scalar values of a string; a high surrogate waits for its partner.
unfoldable pub scalars : Option ℕ → Text → List ℕ
scalars none [] = []
scalars (some h) [] = 0xfffd ∷ []
scalars none (c ∷ s) =
    let wait = scalars (some c) s in
    let lone = 0xfffd ∷ scalars none s in
    let plain = c ∷ scalars none s in if is_high c then wait else if is_low c then lone else plain
scalars (some h) (c ∷ s) =
    let pair = (0x10000 + (h - 0xd800) * 0x400 + (c - 0xdc00)) ∷ scalars none s in
    let wait = 0xfffd ∷ scalars (some c) s in
    let plain = 0xfffd ∷ c ∷ scalars none s in
    if is_low c then pair else if is_high c then wait else plain

unfoldable pub encode_scalar : ℕ → List ℕ
encode_scalar v =
    if ltb v 0x80
    then v ∷ []
    else if ltb v 0x800
    then (0xc0 + v / 64) ∷ (0x80 + v % 64) ∷ []
    else if ltb v 0x10000
    then (0xe0 + v / 4096) ∷ (0x80 + v / 64 % 64) ∷ (0x80 + v % 64) ∷ []
    else (0xf0 + v / 262144) ∷ (0x80 + v / 4096 % 64) ∷ (0x80 + v / 64 % 64) ∷ (0x80 + v % 64) ∷ []

unfoldable pub encode_scalars : List ℕ → List ℕ
encode_scalars [] = []
encode_scalars (v ∷ vs) = encode_scalar v ++ encode_scalars vs

unfoldable pub utf8 : Text → List ℕ
unfolding encode_scalars encode_scalar scalars is_high is_low
utf8 s = encode_scalars (scalars none s)
