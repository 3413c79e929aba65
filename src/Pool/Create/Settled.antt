-- ===== src/Pool/Create/Settled.antt =====
-- When `WAFPool.create` of packages/core/src/pool.ts is settled, and with what.
use coraza_node.Base.{
  ℕ, ◌≡◌, refl, ap, ◌∙◌, ◌⊎◌, inl, inr, Bool, true, false, not, ◌||◌, List, [], ◌∷◌, ◌++◌, Option,
  none, some, ◌==◌, All, if◌then◌else◌, arith, Bool-cases,
}
use coraza_node.Base.Text.{Text}
use coraza_node.Adapter.{returned, threw}
use coraza_node.Pool.Rotation.{contains, without}
use coraza_node.Pool.Rotation.Moves.{indices}
use coraza_node.Pool.Create.{
  Ready, initialised, failed, deadline, answered, Creation, pool, torn_down, Warming, opening,
  warmed, advance, warming, through, logged, prewarm, pool_of, Settlement, race, creation, create,
}

abbrev pub initialised_of : List Ready → List ℕ
initialised_of [] = []
initialised_of (initialised w ∷ events) = w ∷ initialised_of events
initialised_of (_ ∷ events) = initialised_of events

-- Every worker of a list was initialised.
abbrev pub IsInitialised : List Ready → List ℕ → Type 0
IsInitialised events = All (λ w. contains w (initialised_of events) ≡ true)

without-IsInitialised :
    (v : ℕ) (events : List Ready) (ws : List ℕ)
    → IsInitialised events (without v ws)
    → IsInitialised (initialised v ∷ events) ws
without-IsInitialised v events [] h = tt
without-IsInitialised v events (w ∷ ws) h =
    split (w == v) refl (without-IsInitialised v events ws) h
  where
    split :
        (b : Bool)
        → (w == v) ≡ b
        → (IsInitialised events (without v ws) → IsInitialised (initialised v ∷ events) ws)
        → IsInitialised events (if b then without v ws else (w ∷ without v ws))
        → IsInitialised (initialised v ∷ events) (w ∷ ws)
    split true e ih h = (ground (arith, e), ih h)
    split false e ih (h, hs) = (ground (arith, h), ih hs)

-- The settled promises of a worker's pre-warm, in their order.
abbrev pub answers_of : ℕ → List Ready → List Bool
answers_of w [] = []
answers_of w (answered v ok ∷ events) =
    let rest = answers_of w events in if v == w then ok ∷ rest else rest
answers_of w (_ ∷ events) = answers_of w events

-- What they say: a rejected `newTransaction` is a failure; else it takes three answers, and one that
-- is rejected among them is a failure. None while they are too few.
abbrev pub verdict : List Bool → Option Bool
verdict (false ∷ answers) = some true
verdict (true ∷ bundle ∷ close ∷ answers) = some (not bundle || not close)
verdict _ = none

advances : Warming → List Bool → Warming
advances s [] = s
advances s (ok ∷ answers) = advances (advance s ok) answers

warming-advances :
    (w : ℕ) (events : List Ready) (s : Warming)
    → warming w events s ≡ advances s (answers_of w events)
unfolding warming advances
warming-advances w [] s = refl
warming-advances w (answered v ok ∷ events) s = elim (Bool-cases (v == w)) [
  | inl e ↦ rw e (warming-advances w events (advance s ok))
  | inr e ↦ rw e (warming-advances w events s)
]
warming-advances w (initialised v ∷ events) s = warming-advances w events s
warming-advances w (failed v e ∷ events) s = warming-advances w events s
warming-advances w (deadline ∷ events) s = warming-advances w events s

advances-warmed :
    (has_failed : Bool) (answers : List Bool)
    → advances (warmed has_failed) answers ≡ warmed has_failed
unfolding advances advance
advances-warmed has_failed [] = refl
advances-warmed has_failed (ok ∷ answers) = advances-warmed has_failed answers

through-advances : (answers : List Bool) → through (advances opening answers) ≡ verdict answers
unfolding advances advance
through-advances [] = refl
through-advances (false ∷ answers) = ap through (advances-warmed true answers)
through-advances (true ∷ []) = refl
through-advances (true ∷ bundle ∷ []) = refl
through-advances (true ∷ bundle ∷ close ∷ answers) =
    ap through (advances-warmed (not bundle || not close) answers)

through-verdict :
    (w : ℕ) (events : List Ready)
    → through (warming w events opening) ≡ verdict (answers_of w events)
through-verdict w events =
    ap through (warming-advances w events opening) ∙ through-advances (answers_of w events)

abbrev pub IsThrough : List Ready → ℕ → Type 0
IsThrough events w = (has_failed : Bool) × (verdict (answers_of w events) ≡ some has_failed)

abbrev more : ℕ → Option Bool → List ℕ → List ℕ
more w (some true) rest = w ∷ rest
more w _ rest = rest

-- The workers whose pre-warm failed.
abbrev pub unwarmed_of : List Ready → List ℕ → List ℕ
unwarmed_of events [] = []
unwarmed_of events (w ∷ ws) = more w (verdict (answers_of w events)) (unwarmed_of events ws)

prewarm-verdict :
    (ws : List ℕ) (events : List Ready)
    → ((prewarm ws events ≡ some (unwarmed_of events ws)) × All (IsThrough events) ws)
      ⊎ ((prewarm ws events ≡ none) × ¬ All (IsThrough events) ws)
unfolding prewarm
prewarm-verdict [] events = inl (refl, tt)
prewarm-verdict (w ∷ ws) events =
    joined (through (warming w events opening)) (verdict (answers_of w events)) (prewarm ws events)
      (through-verdict w events) refl (prewarm-verdict ws events)
  where
    joined :
        (o v : Option Bool) (rest : Option (List ℕ))
        → o ≡ v
        → verdict (answers_of w events) ≡ v
        → ((rest ≡ some (unwarmed_of events ws)) × All (IsThrough events) ws)
          ⊎ ((rest ≡ none) × ¬ All (IsThrough events) ws)
        → ((logged w o rest ≡ some (more w v (unwarmed_of events ws)))
            × All (IsThrough events) (w ∷ ws))
          ⊎ ((logged w o rest ≡ none) × ¬ All (IsThrough events) (w ∷ ws))
    joined o none rest e q h = inr (rw e refl, λ k. let k0 = k.0.1 in absurd cc)
    joined o (some true) rest e q (inl (r, h)) = inl (rw e (rw r refl), ((true, q), h))
    joined o (some false) rest e q (inl (r, h)) = inl (rw e (rw r refl), ((false, q), h))
    joined o (some true) rest e q (inr (r, h)) = inr (rw e (rw r refl), λ k. h k.1)
    joined o (some false) rest e q (inr (r, h)) = inr (rw e (rw r refl), λ k. h k.1)

module _ (too_late : ℕ → Text) (ms : ℕ) (after : List Ready) where
  abbrev IsRaced : (before : List Ready) (waiting : List ℕ) → Settlement → Type 0
  IsRaced before waiting o =
      ((used left : List Ready) × (before ≡ used ++ left)
        × IsInitialised used waiting
        × (o ≡ some (returned tt, left ++ deadline ∷ after)))
      ⊎ ((e : Text) × (rest : List Ready) × (o ≡ some (threw e, rest)))

  later-IsRaced :
      (event : Ready) (before : List Ready) (waiting waiting' : List ℕ) (o : Settlement)
      → ((used : List Ready) → IsInitialised used waiting' → IsInitialised (event ∷ used) waiting)
      → IsRaced before waiting' o
      → IsRaced (event ∷ before) waiting o
  later-IsRaced event before waiting waiting' o f (inl (used, left, e, h, r)) =
      inl (event ∷ used, left, ap (λ es. event ∷ es) e, f used h, r)
  later-IsRaced event before waiting waiting' o f (inr r) = inr r

  race-IsRaced :
      (before : List Ready) (waiting : List ℕ)
      → IsRaced before waiting (race too_late (some ms) waiting (before ++ deadline ∷ after))
  unfolding race
  race-IsRaced before [] = inl ([], before, refl, tt, refl)
  race-IsRaced [] (w ∷ ws) = inr (too_late ms, after, refl)
  race-IsRaced (initialised v ∷ before) (w ∷ ws) =
      later-IsRaced (initialised v) before (w ∷ ws) (without v (w ∷ ws)) _
        (λ used. without-IsInitialised v used (w ∷ ws)) (race-IsRaced before (without v (w ∷ ws)))
  race-IsRaced (failed v e ∷ before) (w ∷ ws) = elim (Bool-cases (contains v (w ∷ ws))) [
    | inl here ↦ inr (e, before ++ deadline ∷ after, rw here refl)
    | inr gone ↦ rw gone (
        later-IsRaced (failed v e) before (w ∷ ws) (w ∷ ws) _ (λ used h. h)
          (race-IsRaced before (w ∷ ws)))
  ]
  race-IsRaced (deadline ∷ before) (w ∷ ws) = inr (too_late ms, before ++ deadline ∷ after, refl)
  race-IsRaced (answered v ok ∷ before) (w ∷ ws) =
      later-IsRaced (answered v ok) before (w ∷ ws) (w ∷ ws) _ (λ used h. h)
        (race-IsRaced before (w ∷ ws))

-- Once every worker was initialised, `events` is what follows. Either the pre-warm of every worker is
-- through, and the pool is returned with the failed ones logged; or `create` is pending, and then
-- some worker's pre-warm has not been answered.
abbrev pub IsWarmedUp : (size : ℕ) (events : List Ready) → Option Creation → Type 0
IsWarmedUp size events o =
    ((o ≡ some (pool (unwarmed_of events (indices 0 size))))
      × All (IsThrough events) (indices 0 size))
    ⊎ ((o ≡ none) × ¬ All (IsThrough events) (indices 0 size))

-- With a finite timeout and after the deadline has passed, whatever the workers do: either `create`
-- throws and has terminated every worker that it started; or every worker was initialised before the
-- deadline. Then `create` returns the pool exactly when the pre-warm of every worker has been
-- answered to its end (by one rejection of `newTransaction`, or by three answers), with those that
-- were rejected logged, and is pending as long as one has not: no timeout bounds the pre-warm.
pub create-IsSettled :
    (too_late : ℕ → Text) (ms size : ℕ) (before after : List Ready)
    → let o = create too_late (some ms) size (before ++ deadline ∷ after) in
      ((e : Text) × (o ≡ some (torn_down (indices 0 size) e)))
      ⊎ ((used left : List Ready) × (before ≡ used ++ left)
          × IsInitialised used (indices 0 size)
          × IsWarmedUp size (left ++ deadline ∷ after) o)
unfolding create
create-IsSettled too_late ms size before after =
    elim (race-IsRaced too_late ms after before (indices 0 size)) [
      | inl (used, left, e, h, r) ↦ inr (used, left, e, h, warm used left r)
      | inr (e, rest, r) ↦ inl (e, ap (creation size) r)
    ]
  where
    warm :
        (used left : List Ready)
        → race too_late (some ms) (indices 0 size) (before ++ deadline ∷ after)
          ≡ some (returned tt, left ++ deadline ∷ after)
        → IsWarmedUp size
            (left ++ deadline ∷ after)
            (creation size (race too_late (some ms) (indices 0 size) (before ++ deadline ∷ after)))
    warm used left r = elim (prewarm-verdict (indices 0 size) (left ++ deadline ∷ after)) [
      | inl (p, h) ↦ inl (ap (creation size) r ∙ ap pool_of p, h)
      | inr (p, h) ↦ inr (ap (creation size) r ∙ ap pool_of p, h)
    ]
