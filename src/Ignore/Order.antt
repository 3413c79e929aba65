-- ===== src/Ignore/Order.antt =====
-- The combination of verdicts as an order.
use coraza_node.Base.{◌≤◌, ◌≡◌, arith}
use coraza_node.Ignore.Verdict.{Verdict, inspect, skip, verdict_rank, most_restrictive}

-- The combination is commutative and associative, `inspect` absorbs it, and it answers `skip` only
-- if both sides do.
most_restrictive_laws :
    (a b c : Verdict)
    → (most_restrictive a b ≡ most_restrictive b a)
      × (most_restrictive (most_restrictive a b) c ≡ most_restrictive a (most_restrictive b c))
      × (most_restrictive inspect a ≡ inspect)
      × (verdict_rank a ≤ verdict_rank (most_restrictive a b))
      × (most_restrictive a b ≡ skip → (a ≡ skip) × (b ≡ skip))
unfolding most_restrictive
most_restrictive_laws a b c = ground arith
