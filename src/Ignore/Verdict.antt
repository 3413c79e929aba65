-- ===== src/Ignore/Verdict.antt =====
-- The verdicts of packages/core/src/ignore.ts and their combination.
use coraza_node.Base.{ℕ, leb, if◌then◌else◌}

pub data Verdict : Type 0 where
  inspect skip_body skip : Verdict

unfoldable pub verdict_rank : Verdict → ℕ
verdict_rank skip = 0
verdict_rank skip_body = 1
verdict_rank inspect = 2

unfoldable pub most_restrictive : Verdict → Verdict → Verdict
unfolding verdict_rank
most_restrictive a b = if leb (verdict_rank b) (verdict_rank a) then a else b
