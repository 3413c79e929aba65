-- ===== src/Adapter/Nest/Allows.antt =====
-- When the guard of packages/nestjs/src/coraza.guard.ts lets a request through.
use coraza_node.Base.{
  ◌≡◌, refl, ◌≢◌, ◌∙◌, ap, Bool, true, false, ◌&&◌, ◌||◌, List, [], ◌∷◌, Option, none, some,
}
use coraza_node.Ignore.Verdict.{Verdict, inspect, skip, skip_body}
use coraza_node.Adapter.{
  Interruption, Outcome, returned, threw, block, Calls, internal_error, unavailable,
}
use coraza_node.Adapter.FailClosed.{returns, says}
use coraza_node.Adapter.NextAllows.{reads_null, phase_allows}
use coraza_node.Adapter.Nest.{
  CorazaNestOptions, Activation, activated, denied, failed, Cleanup, process_logging, close,
  Attempt, early, ended, thrown, denial, after_cleanup, finish, interrupted, bundle_result, attempt,
  leave, transaction_result, can_activate,
}

abbrev pub admits : {X : Type 0} → Activation X → Bool
admits activated = true
admits (denied x) = false
admits (failed e) = false

denial-admits : {X : Type 0} (o : Outcome X) → admits (denial o) ≡ false
denial-admits (returned x) = refl
denial-admits (threw e) = refl

-- The cleanup that is due: once, where a transaction was created.
abbrev pub cleanup_of : Bool → List Cleanup
cleanup_of true = process_logging ∷ close ∷ []
cleanup_of false = []

module _ {R X : Type 0} (options : CorazaNestOptions R X) (calls : Calls R)
    (b : options.on_waf_error ≡ block) where
  cleanup-admits :
      (l c : Outcome (Unit {0})) (next : Activation X)
      → admits (after_cleanup options calls l c next) ≡ (returns c && (returns l && admits next))
  cleanup-admits l (threw e) next = refl
  cleanup-admits (threw e) (returned u) next = refl
  cleanup-admits (returned v) (returned u) next = refl

  abbrev attempt_admits : Attempt R → Bool
  attempt_admits early = true
  attempt_admits (ended none matched) = true
  attempt_admits (ended (some it) matched) = false
  attempt_admits (thrown e) = false

  abbrev cleaned : Bool → Bool
  cleaned x = returns calls.close && (returns calls.process_logging && x)

  finish-admits :
      (next : Activation X) (x : Bool)
      → admits next ≡ x
      → admits (finish options calls next).0 ≡ cleaned x
  finish-admits next x e = cleanup-admits calls.process_logging calls.close next ∙ ap cleaned e

  leave-admits : (a : Attempt R) → admits (leave options calls a).0 ≡ cleaned (attempt_admits a)
  leave-admits early = finish-admits activated true refl
  leave-admits (ended none matched) = finish-admits activated true refl
  leave-admits (ended (some it) matched) =
      finish-admits (denial (options.on_block it matched)) false
        (denial-admits (options.on_block it matched))
  leave-admits (thrown e) = rw b (
      finish-admits (denial (options.on_block internal_error none)) false
        (denial-admits (options.on_block internal_error none)))

  leave-cleanup : (a : Attempt R) → (leave options calls a).1 ≡ process_logging ∷ close ∷ []
  leave-cleanup early = refl
  leave-cleanup (ended it matched) = refl
  leave-cleanup (thrown e) = rw b refl

  interrupted-admits :
      (o : Outcome (Option Interruption))
      → attempt_admits (interrupted options calls o) ≡ reads_null o
  interrupted-admits (threw e) = refl
  interrupted-admits (returned none) = refl
  interrupted-admits (returned (some it)) = refl

  bundle-admits :
      (o : Outcome Bool)
      → attempt_admits (bundle_result options calls o)
        ≡ (says false o || (says true o && reads_null calls.interruption))
  bundle-admits (threw e) = refl
  bundle-admits (returned true) = interrupted-admits calls.interruption
  bundle-admits (returned false) = refl

  attempt-admits :
      (o : Outcome Bool)
      → attempt_admits (attempt options calls o) ≡ (
          says true o
          || (says false o
              && (says false calls.process_request_bundle
                  || (says true calls.process_request_bundle && reads_null calls.interruption))))
  attempt-admits (threw e) = refl
  attempt-admits (returned true) = refl
  attempt-admits (returned false) = bundle-admits calls.process_request_bundle

  transaction-admits :
      (o : Outcome (Unit {0}))
      → (admits (transaction_result options calls o).0
          ≡ (returns o && cleaned (phase_allows calls (returned tt))))
        × ((transaction_result options calls o).1 ≡ cleanup_of (returns o))
  transaction-admits (threw e) = (rw b (denial-admits (options.on_block unavailable none)), refl)
  transaction-admits (returned u) = (
    leave-admits (attempt options calls calls.is_rule_engine_off)
        ∙ ap cleaned (attempt-admits calls.is_rule_engine_off),
    leave-cleanup (attempt options calls calls.is_rule_engine_off),
  )

-- With `onWAFError: 'block'`, the guard admits a request that the ignore rules do not skip exactly
-- where the transaction was created, no call of it up to the decision or in the cleanup failed, and
-- the engine is off, did not interrupt, or interrupted and then read the interruption back as null.
-- It logs and closes the transaction once where one was created, and never otherwise.
pub can_activate-admits :
    {R X : Type 0} (options : CorazaNestOptions R X) (calls : Calls R) (verdict : Verdict)
    → options.on_waf_error ≡ block
    → verdict ≢ skip
    → (admits (can_activate options calls verdict).0 ≡ (
        returns calls.new_transaction
        && (returns calls.close
            && (returns calls.process_logging && phase_allows calls (returned tt)))))
      × ((can_activate options calls verdict).1 ≡ cleanup_of (returns calls.new_transaction))
unfolding can_activate
can_activate-admits options calls skip b v = absurd (v refl)
can_activate-admits options calls skip_body b v =
    transaction-admits options calls b calls.new_transaction
can_activate-admits options calls inspect b v =
    transaction-admits options calls b calls.new_transaction
