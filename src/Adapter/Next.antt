-- ===== src/Adapter/Next.antt =====
-- `createCorazaRunner` of packages/next/src/index.ts: the decision, the calls made on the
-- transaction afterwards, and whether the promise rejects. `onBlock` answers a response, or throws.
pub mod Request
use coraza_node.Base.{
  ◌≡◌, refl, ◌≢◌, Bool, true, false, ◌&&◌, ◌||◌, List, [], ◌∷◌, Option, none, some, if◌then◌else◌,
}
use coraza_node.Ignore.Verdict.{Verdict, inspect, skip, skip_body}
use coraza_node.Adapter.{
  Interruption, Outcome, returned, threw, OnWafError, block, allow, Calls, unavailable,
  internal_error,
}

-- `CorazaDecision`
pub data CorazaDecision (P : Type 0) : Type 0 where
  blocked : P → CorazaDecision P
  allowed : CorazaDecision P

-- The cleanup calls that were made.
pub data Cleanup : Type 0 where
  process_logging close : Cleanup

pub record CorazaNextOptions (R P : Type 0) : Type 0 where
  pub on_waf_error : OnWafError
  pub inspect_body : Bool
  pub verbose_log : Bool
  pub wants_ctx : Bool
  pub on_block : Interruption → Option (List R) → Outcome P

abbrev pub map_blocked : {P : Type 0} → Outcome P → Outcome (CorazaDecision P)
map_blocked (returned p) = returned (blocked p)
map_blocked (threw e) = threw e

-- A promise that the cleanup rejects instead.
abbrev pub after_close : {A : Type 0} → Outcome (Unit {0}) → Outcome A → Outcome A
after_close (returned u) o = o
after_close (threw e) o = threw e

-- The `finally`: `close` is called where `processLogging` throws too.
unfoldable pub cleanup : {A R : Type 0} → Calls R → Outcome A → Outcome A × List Cleanup
cleanup calls o =
    (after_close calls.close (after_close calls.process_logging o), process_logging ∷ close ∷ [])

module _ {R P : Type 0} (options : CorazaNextOptions R P) (calls : Calls R) where
  abbrev pub on_error : OnWafError → Interruption → Outcome (CorazaDecision P)
  on_error block it = map_blocked (options.on_block it none)
  on_error allow it = returned allowed

  abbrev pub caught : Outcome (CorazaDecision P) → Outcome (CorazaDecision P)
  caught (threw e) = on_error options.on_waf_error internal_error
  caught (returned d) = returned d

  abbrev pub block_with : Interruption → Outcome (List R) → Outcome (CorazaDecision P)
  block_with it (threw e) = threw e
  block_with it (returned rules) = map_blocked (options.on_block it (some rules))

  -- An interruption that cannot be read back is let through.
  abbrev pub interrupted : Outcome (Option Interruption) → Outcome (CorazaDecision P)
  interrupted (threw e) = threw e
  interrupted (returned none) = returned allowed
  interrupted (returned (some it)) =
      if options.verbose_log || options.wants_ctx
      then block_with it calls.matched_rules
      else map_blocked (options.on_block it none)

  abbrev pub bundle_result : Outcome Bool → Outcome (CorazaDecision P)
  bundle_result (threw e) = threw e
  bundle_result (returned true) = interrupted calls.interruption
  bundle_result (returned false) = returned allowed

  -- The read of the request's body, where it is made.
  abbrev pub body_result : Outcome (Unit {0}) → Outcome (CorazaDecision P)
  body_result (threw e) = threw e
  body_result (returned u) = bundle_result calls.process_request_bundle

  -- `verdict === 'skip-body' || !inspectBody ? … : hasBody(req) ? … : …`
  unfoldable pub reads_body : Verdict → (has_body : Bool) → Bool
  reads_body skip_body has_body = false
  reads_body _ has_body = options.inspect_body && has_body

  abbrev pub read_body : Bool → Outcome (Unit {0}) → Outcome (Unit {0})
  read_body true o = o
  read_body false o = returned tt

  abbrev pub engine_result :
      Verdict → Bool → Outcome (Unit {0}) → Outcome Bool → Outcome (CorazaDecision P)
  engine_result verdict has_body body (threw e) = threw e
  engine_result verdict has_body body (returned true) = returned allowed
  engine_result verdict has_body body (returned false) =
      body_result (read_body (reads_body verdict has_body) body)

  abbrev pub transaction_result :
      Verdict
      → Bool
      → Outcome (Unit {0})
      → Outcome (Unit {0})
      → Outcome (CorazaDecision P) × List Cleanup
  transaction_result verdict has_body body (threw e) =
      (on_error options.on_waf_error unavailable, [])
  transaction_result verdict has_body body (returned u) =
      cleanup calls (caught (engine_result verdict has_body body calls.is_rule_engine_off))

  -- A WAF whose promise rejects is outside every `try`.
  abbrev pub waf_result :
      Verdict
      → Bool
      → Outcome (Unit {0})
      → Outcome (Unit {0})
      → Outcome (CorazaDecision P) × List Cleanup
  waf_result verdict has_body body (threw e) = (threw e, [])
  waf_result verdict has_body body (returned u) =
      transaction_result verdict has_body body calls.new_transaction

  -- The runner, for the verdict of the ignore matcher and the outcome of reading the body.
  unfoldable pub run_coraza :
      Verdict → (has_body : Bool) → Outcome (Unit {0}) → Outcome (CorazaDecision P) × List Cleanup
  run_coraza skip has_body body = (returned allowed, [])
  run_coraza skip_body has_body body = waf_result skip_body has_body body calls.waf
  run_coraza inspect has_body body = waf_result inspect has_body body calls.waf

  abbrev is_returned : {A : Type 0} → Outcome A → Bool
  is_returned (returned a) = true
  is_returned (threw e) = false

  abbrev pub opened : Bool
  opened = is_returned calls.waf && is_returned calls.new_transaction

  abbrev pub closes : Bool → List Cleanup
  closes true = process_logging ∷ close ∷ []
  closes false = []

  transaction-closes :
      (v : Verdict) (hb : Bool) (body o : Outcome (Unit {0}))
      → (transaction_result v hb body o).1 ≡ closes (is_returned o)
  unfolding cleanup
  transaction-closes v hb body (threw e) = refl
  transaction-closes v hb body (returned u) = refl

  waf-closes :
      (v : Verdict) (hb : Bool) (body o : Outcome (Unit {0}))
      → (waf_result v hb body o).1 ≡ closes (is_returned o && is_returned calls.new_transaction)
  waf-closes v hb body (threw e) = refl
  waf-closes v hb body (returned u) = transaction-closes v hb body calls.new_transaction

-- The runner logs and closes the transaction once, in that order, on every path on which one was
-- created (an engine that is off, a block, a pass, a failure of any later call, of reading the body
-- or of `onBlock`), and on no other path.
pub run_coraza-closes :
    {R P : Type 0} (options : CorazaNextOptions R P) (calls : Calls R) (verdict : Verdict)
    (has_body : Bool) (body : Outcome (Unit {0}))
    → verdict ≢ skip
    → (run_coraza options calls verdict has_body body).1
      ≡ closes options calls (opened options calls)
unfolding run_coraza
run_coraza-closes options calls skip has_body body v = absurd (v refl)
run_coraza-closes options calls skip_body has_body body v =
    waf-closes options calls skip_body has_body body calls.waf
run_coraza-closes options calls inspect has_body body v =
    waf-closes options calls inspect has_body body calls.waf
