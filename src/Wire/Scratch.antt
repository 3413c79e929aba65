-- ===== src/Wire/Scratch.antt =====
-- `writeScratch` of packages/core/src/transaction.ts: the shared scratch buffer as a memory, and the
-- views into it that `subarray` hands out, which are read only when the bundle is laid out.
use coraza_node.Base.{
  ℕ, zero, suc, ◌+◌, ◌-◌, ◌*◌, ◌&&◌, List, [], ◌∷◌, length, leb, ltb, get_or, if◌then◌else◌,
}
use coraza_node.Base.Text.{Text}
use coraza_node.Wire.Utf8.{utf8}

abbrev pub Memory : Type 0
Memory = ℕ → ℕ

unfoldable pub write : Memory → ℕ → List ℕ → Memory
write m offset bytes i =
    if leb offset i && ltb i (offset + length bytes) then get_or bytes (i - offset) 0 else m i

unfoldable pub slice : Memory → ℕ → ℕ → List ℕ
slice m offset zero = []
slice m offset (suc len) = m offset ∷ slice m (suc offset) len

-- Bytes of their own, or a range of the scratch buffer.
pub data View : Type 0 where
  fresh : List ℕ → View
  range : (offset len : ℕ) → View

unfoldable pub read : Memory → View → List ℕ
unfolding slice
read m (fresh bytes) = bytes
read m (range offset len) = slice m offset len

abbrev pub scratch_cap : ℕ
scratch_cap = 65536

-- The buffer after the call, the view, and the number of bytes.
unfoldable pub write_scratch : Memory → Text → ℕ → Memory × View × ℕ
unfolding write
write_scratch m s offset =
    let bytes = utf8 s in
    if ltb scratch_cap (offset + length s * 4)
    then (m, fresh bytes, length bytes)
    else (write m offset bytes, range offset (length bytes), length bytes)
