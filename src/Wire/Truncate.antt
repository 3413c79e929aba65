-- ===== src/Wire/Truncate.antt =====
-- `truncateUtf8` of packages/core/src/transaction.ts.
use Prim.Native.Nat.{bit_and}
use coraza_node.Base.{ℕ, zero, suc, Bool, List, leb, ◌==◌, if◌then◌else◌, length, get_or, take}

-- `(b & 0xc0) === 0x80`
unfoldable pub is_continuation : ℕ → Bool
is_continuation b = bit_and b 0xc0 == 0x80

-- `while (end > 0 && …) end--`
unfoldable pub step_back : ℕ → List ℕ → ℕ
unfolding is_continuation
step_back zero b = 0
step_back (suc end) b =
    let rest = step_back end b in if is_continuation (get_or b (suc end) 0) then rest else suc end

unfoldable pub truncate_utf8 : List ℕ → ℕ → List ℕ
unfolding step_back
truncate_utf8 b max_bytes = if leb (length b) max_bytes then b else take (step_back max_bytes b) b
