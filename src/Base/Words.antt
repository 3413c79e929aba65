-- ===== src/Base/Words.antt =====
-- Little-endian words and their bytes.
use Prim.Native.Nat.{ℕ, ◌/◌, ◌%◌, ◌<◌}
use mathlib.Core.List.{List, [], ◌∷◌}

abbrev pub IsByte : ℕ → Type 0
IsByte b = b < 256

-- `setUint16(_, v, true)` and `setUint32(_, v, true)`, which reduce `v` modulo the word.
unfoldable pub u16 : ℕ → List ℕ
u16 v = v % 256 ∷ v / 256 % 256 ∷ []

unfoldable pub u32 : ℕ → List ℕ
u32 v = v % 256 ∷ v / 256 % 256 ∷ v / 65536 % 256 ∷ v / 16777216 % 256 ∷ []
