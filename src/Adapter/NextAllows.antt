-- ===== src/Adapter/NextAllows.antt =====
-- When the runner of packages/next/src/index.ts lets a request through.
use coraza_node.Base.{
  ◌≡◌, refl, ◌≢◌, ◌∙◌, ap, Bool, true, false, ◌&&◌, ◌||◌, List, Option, none, some, if◌then◌else◌,
}
use coraza_node.Ignore.Verdict.{Verdict, inspect, skip, skip_body}
use coraza_node.Adapter.{
  Interruption, Outcome, returned, threw, block, Calls, internal_error, unavailable,
}
use coraza_node.Adapter.FailClosed.{returns, says}
use coraza_node.Adapter.Next.{
  CorazaDecision, blocked, allowed, CorazaNextOptions, map_blocked, after_close, cleanup, on_error,
  caught, block_with, interrupted, bundle_result, body_result, reads_body, read_body, engine_result,
  transaction_result, waf_result, run_coraza,
}

abbrev pub allows : {P : Type 0} → Outcome (CorazaDecision P) → Bool
allows (returned allowed) = true
allows (returned (blocked p)) = false
allows (threw e) = false

-- `tx.interruption()` answered null.
abbrev pub reads_null : Outcome (Option Interruption) → Bool
reads_null (returned none) = true
reads_null _ = false

-- The outcomes on which the request phase lets a request through.
abbrev pub phase_allows : {R : Type 0} → Calls R → (body : Outcome (Unit {0})) → Bool
phase_allows calls body =
    says true calls.is_rule_engine_off
    || (says false calls.is_rule_engine_off
        && (returns body
            && (says false calls.process_request_bundle
                || (says true calls.process_request_bundle && reads_null calls.interruption))))

allows-map_blocked : {P : Type 0} (o : Outcome P) → allows (map_blocked o) ≡ false
allows-map_blocked (returned p) = refl
allows-map_blocked (threw e) = refl

allows-after_close :
    {P : Type 0} (c : Outcome (Unit {0})) (o : Outcome (CorazaDecision P))
    → allows (after_close c o) ≡ (returns c && allows o)
allows-after_close (returned u) o = refl
allows-after_close (threw e) o = refl

module _ {R P : Type 0} (options : CorazaNextOptions R P) (calls : Calls R) where
  allows-block_with :
      (it : Interruption) (o : Outcome (List R)) → allows (block_with options calls it o) ≡ false
  allows-block_with it (threw e) = refl
  allows-block_with it (returned rules) = allows-map_blocked (options.on_block it (some rules))

  choose_allows :
      (b : Bool) (x y : Outcome (CorazaDecision P))
      → allows x ≡ false
      → allows y ≡ false
      → allows (if b then x else y) ≡ false
  choose_allows true x y e f = e
  choose_allows false x y e f = f

  allows-interrupted :
      (o : Outcome (Option Interruption)) → allows (interrupted options calls o) ≡ reads_null o
  allows-interrupted (threw e) = refl
  allows-interrupted (returned none) = refl
  allows-interrupted (returned (some it)) =
      choose_allows (options.verbose_log || options.wants_ctx) _ _
        (allows-block_with it calls.matched_rules) (allows-map_blocked (options.on_block it none))

  allows-bundle :
      (o : Outcome Bool)
      → allows (bundle_result options calls o)
        ≡ (says false o || (says true o && reads_null calls.interruption))
  allows-bundle (threw e) = refl
  allows-bundle (returned true) = allows-interrupted calls.interruption
  allows-bundle (returned false) = refl

  allows-body :
      (o : Outcome (Unit {0}))
      → allows (body_result options calls o) ≡ (
          returns o
          && (says false calls.process_request_bundle
              || (says true calls.process_request_bundle && reads_null calls.interruption)))
  allows-body (threw e) = refl
  allows-body (returned u) = allows-bundle calls.process_request_bundle

  -- The read of the body where it is made.
  abbrev pub body_read : Verdict → Bool → Outcome (Unit {0}) → Outcome (Unit {0})
  body_read v hb body = read_body options calls (reads_body options calls v hb) body

  allows-engine :
      (v : Verdict) (hb : Bool) (body : Outcome (Unit {0})) (o : Outcome Bool)
      → allows (engine_result options calls v hb body o) ≡ (
          says true o
          || (says false o
              && (returns (body_read v hb body)
                  && (says false calls.process_request_bundle
                      || (says true calls.process_request_bundle
                          && reads_null calls.interruption)))))
  allows-engine v hb body (threw e) = refl
  allows-engine v hb body (returned true) = refl
  allows-engine v hb body (returned false) = allows-body (body_read v hb body)

  module _ (b : options.on_waf_error ≡ block) where
    allows-on_error :
        (it : Interruption) → allows (on_error options calls options.on_waf_error it) ≡ false
    allows-on_error it = rw b (allows-map_blocked (options.on_block it none))

    allows-caught : (o : Outcome (CorazaDecision P)) → allows (caught options calls o) ≡ allows o
    allows-caught (threw e) = allows-on_error internal_error
    allows-caught (returned d) = refl

    allows-transaction :
        (v : Verdict) (hb : Bool) (body o : Outcome (Unit {0}))
        → allows (transaction_result options calls v hb body o).0 ≡ (
            returns o
            && (returns calls.close
                && (returns calls.process_logging && phase_allows calls (body_read v hb body))))
    unfolding cleanup
    allows-transaction v hb body (threw e) = allows-on_error unavailable
    allows-transaction v hb body (returned u) =
        allows-after_close calls.close _
        ∙ ap (λ x. returns calls.close && x)
            (allows-after_close calls.process_logging _
              ∙ ap (λ x. returns calls.process_logging && x)
                  (allows-caught _ ∙ allows-engine v hb body calls.is_rule_engine_off))

    allows-waf :
        (v : Verdict) (hb : Bool) (body o : Outcome (Unit {0}))
        → allows (waf_result options calls v hb body o).0 ≡ (
            returns o
            && (returns calls.new_transaction
                && (returns calls.close
                    && (returns calls.process_logging
                        && phase_allows calls (body_read v hb body)))))
    allows-waf v hb body (threw e) = refl
    allows-waf v hb body (returned u) = allows-transaction v hb body calls.new_transaction

-- With `onWAFError: 'block'`, a request that the ignore rules do not skip is let through exactly
-- where no awaited call failed up to the decision or in the cleanup, and the engine is off, did not
-- interrupt, or interrupted and then read the interruption back as null.
pub run_coraza-allows :
    {R P : Type 0} (options : CorazaNextOptions R P) (calls : Calls R) (verdict : Verdict)
    (has_body : Bool) (body : Outcome (Unit {0}))
    → options.on_waf_error ≡ block
    → verdict ≢ skip
    → allows (run_coraza options calls verdict has_body body).0 ≡ (
        returns calls.waf
        && (returns calls.new_transaction
            && (returns calls.close
                && (returns calls.process_logging
                    && phase_allows calls (body_read options calls verdict has_body body)))))
unfolding run_coraza
run_coraza-allows options calls skip has_body body b v = absurd (v refl)
run_coraza-allows options calls skip_body has_body body b v =
    allows-waf options calls b skip_body has_body body calls.waf
run_coraza-allows options calls inspect has_body body b v =
    allows-waf options calls b inspect has_body body calls.waf
