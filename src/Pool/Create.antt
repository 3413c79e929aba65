-- ===== src/Pool/Create.antt =====
-- `WAFPool.create` of packages/core/src/pool.ts from the start of its workers to its return: the
-- initialisation of all workers (a worker's `ready` and its reply to `init`) under `withTimeout`, and
-- the pre-warm of each, which is awaited without a timeout.
pub mod Settled
mod Tests
use coraza_node.Base.{
  ℕ, zero, suc, ◌≡◌, refl, ap, ◌∙◌, ◌⊎◌, inl, inr, Bool, true, false, not, ◌||◌, List, [], ◌∷◌,
  ◌++◌, Option, none, some, ◌==◌, All, if◌then◌else◌, arith, Bool-cases,
}
use coraza_node.Base.Text.{Text}
use coraza_node.Adapter.{Outcome, returned, threw}
use coraza_node.Pool.Rotation.{contains, without}
use coraza_node.Pool.Rotation.Moves.{indices}

-- What happens while `create` waits, in the order of time. The pre-warm of a worker is answered when
-- the promise that it awaits is settled, by a reply or by a rejection.
pub data Ready : Type 0 where
  initialised : (w : ℕ) → Ready
  failed : (w : ℕ) → (error : Text) → Ready
  deadline : Ready
  answered : (w : ℕ) → (ok : Bool) → Ready

-- The pool is returned, and the workers whose pre-warm failed were logged; or all workers were
-- terminated and the exception is thrown.
pub data Creation : Type 0 where
  pool : (unwarmed : List ℕ) → Creation
  torn_down : (terminated : List ℕ) → Text → Creation

-- What the pre-warm of a worker awaits: `newTransaction`, `processRequestBundle`, the `close` in its
-- `finally` (after a rejection or not); or it is through, and has failed or not.
pub data Warming : Type 0 where
  opening bundling : Warming
  closing warmed : (has_failed : Bool) → Warming

unfoldable pub advance : Warming → (ok : Bool) → Warming
advance opening true = bundling
advance opening false = warmed true
advance bundling ok = closing (not ok)
advance (closing has_failed) ok = warmed (has_failed || not ok)
advance (warmed has_failed) ok = warmed has_failed

unfoldable pub warming : ℕ → List Ready → Warming → Warming
warming w [] s = s
warming w (answered v ok ∷ events) s = warming w events (if v == w then advance s ok else s)
warming w (initialised v ∷ events) s = warming w events s
warming w (failed v e ∷ events) s = warming w events s
warming w (deadline ∷ events) s = warming w events s

-- Whether it failed, none while it waits.
abbrev pub through : Warming → Option Bool
through (warmed has_failed) = some has_failed
through _ = none

abbrev pub logged : ℕ → Option Bool → Option (List ℕ) → Option (List ℕ)
logged w (some true) (some ws) = some (w ∷ ws)
logged w (some false) (some ws) = some ws
logged w _ _ = none

-- `Promise.all` over the workers: those whose pre-warm failed, none while one waits.
unfoldable pub prewarm : List ℕ → List Ready → Option (List ℕ)
prewarm [] events = some []
prewarm (w ∷ ws) events = logged w (through (warming w events opening)) (prewarm ws events)

abbrev pub pool_of : Option (List ℕ) → Option Creation
pool_of none = none
pool_of (some ws) = some (pool ws)

-- A settled race: its outcome, and what happens after it.
abbrev pub Settlement : Type 0
Settlement = Option (Outcome (Unit {0}) × List Ready)

-- The message of the timeout, for its milliseconds.
module _ (too_late : ℕ → Text) where
  abbrev pub expired : Option ℕ → List Ready → Settlement → Settlement
  expired none events later = later
  expired (some ms) events later = some (threw (too_late ms), events)

  -- `withTimeout(Promise.all(…), ms)` while some workers are awaited; none while it is pending. The
  -- first rejection rejects all; a worker that is through no longer counts.
  unfoldable pub race : Option ℕ → (waiting : List ℕ) → List Ready → Settlement
  race limit [] events = some (returned tt, events)
  race limit (w ∷ ws) [] = none
  race limit (w ∷ ws) (initialised v ∷ events) = race limit (without v (w ∷ ws)) events
  race limit (w ∷ ws) (failed v e ∷ events) =
      let later = race limit (w ∷ ws) events in
      if contains v (w ∷ ws) then some (threw e, events) else later
  race limit (w ∷ ws) (deadline ∷ events) = expired limit events (race limit (w ∷ ws) events)
  race limit (w ∷ ws) (answered v ok ∷ events) = race limit (w ∷ ws) events

abbrev pub creation : (size : ℕ) → Settlement → Option Creation
creation size none = none
creation size (some (returned u, events)) = pool_of (prewarm (indices 0 size) events)
creation size (some (threw e, events)) = some (torn_down (indices 0 size) e)

unfoldable pub create : (ℕ → Text) → Option ℕ → (size : ℕ) → List Ready → Option Creation
create too_late limit size events = creation size (race too_late limit (indices 0 size) events)
