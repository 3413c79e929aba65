-- ===== src/Pool/Create/Tests.antt =====
-- Two workers, of which one never answers.
use coraza_node.Base.{ℕ, ◌≡◌, ◌⊎◌, refl, List, [], ◌∷◌, ◌++◌, none, some, true, false}
use coraza_node.Base.Text.{Text, codes}
use coraza_node.Pool.Create.{
  Ready, initialised, deadline, answered, pool, torn_down, race, create, prewarm, warming, advance,
}
use coraza_node.Pool.Create.Settled.{IsInitialised, IsWarmedUp, create-IsSettled}
use coraza_node.Pool.Rotation.Moves.{indices}

abbrev message : ℕ → Text
message ms = codes "late"

-- One of two workers never answers: without a deadline, `create` hangs.
hangs : create message none 2 (initialised 0 ∷ deadline ∷ []) ≡ none
unfolding create race
hangs = refl

abbrev both_ready : List Ready
both_ready = initialised 1 ∷ initialised 0 ∷ []

abbrev first_warm : List Ready
first_warm = answered 0 true ∷ answered 0 true ∷ answered 0 true ∷ []

-- The second worker stops in its pre-warm, after the deadline of the initialisation.
hangs_in_prewarm :
    create message (some 10) 2 (both_ready ++ deadline ∷ first_warm ++ (answered 1 true ∷ []))
    ≡ none
unfolding create race prewarm warming advance
hangs_in_prewarm = refl

-- Its transaction is rejected: it is logged, and the pool is returned.
returns_unwarmed :
    create message (some 10) 2 (both_ready ++ deadline ∷ first_warm ++ (answered 1 false ∷ []))
    ≡ some (pool (1 ∷ []))
unfolding create race prewarm warming advance
returns_unwarmed = refl

create-IsSettled_example :
    let after = first_warm ++ (answered 1 false ∷ []) in
    let o = create message (some 10) 2 (both_ready ++ deadline ∷ after) in
    ((e : Text) × (o ≡ some (torn_down (indices 0 2) e)))
    ⊎ ((used left : List Ready) × (both_ready ≡ used ++ left)
        × IsInitialised used (indices 0 2)
        × IsWarmedUp 2 (left ++ deadline ∷ after) o)
create-IsSettled_example =
    create-IsSettled message 10 2 both_ready (first_warm ++ (answered 1 false ∷ []))
