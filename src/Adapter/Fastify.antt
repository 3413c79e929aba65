-- ===== src/Adapter/Fastify.antt =====
-- The preHandler hook of packages/fastify/src/index.ts: the blocks that it emits, in order, and
-- whether its promise rejects. Fastify runs the route's handler where no reply has been sent.
pub mod Hooks
pub mod Decided
use coraza_node.Base.{
  ℕ, ◌≡◌, refl, ◌≢◌, Bool, true, false, ◌&&◌, ◌||◌, List, [], ◌∷◌, ◌++◌, Option, none, some,
  if◌then◌else◌,
}
use coraza_node.Base.Text.{Text}
use coraza_node.Wire.Utf8.{utf8}
use coraza_node.Ignore.Verdict.{Verdict, inspect, skip, skip_body}
use coraza_node.Adapter.{
  Interruption, Outcome, returned, threw, OnWafError, block, allow, Calls, unavailable,
  internal_error, JsBody, no_body, bytes, text, primitive, object, encoded,
}
use coraza_node.Adapter.FailClosed.{returns, says}
use coraza_node.Adapter.NextAllows.{reads_null, phase_allows}

-- `reply.sent` at the start and where a failure is handled, and the outcomes of `onBlock` for the
-- engine's interruption and for a failure.
pub record Reply : Type 0 where
  pub sent_before : Bool
  pub sent_at_error : Bool
  pub block_outcome : Outcome (Unit {0})
  pub error_block_outcome : Outcome (Unit {0})

abbrev pub Hook : Type 0 → Type 0
Hook R = List (Interruption × Option (List R)) × Outcome (Unit {0})

abbrev pub matched_or_none : {R : Type 0} → Outcome (List R) → Option (List R)
matched_or_none (returned rules) = some rules
matched_or_none (threw e) = none

-- `serializeBody`: unlike Express's, an object without keys and a primitive are serialised. The
-- outcome of `JSON.stringify` on a primitive is an argument.
unfoldable pub serialize_body : Outcome (Option Text) → JsBody → Option (List ℕ)
serialize_body primitive_json no_body = none
serialize_body primitive_json (bytes b) = some b
serialize_body primitive_json (text s) = some (utf8 s)
serialize_body primitive_json primitive = encoded primitive_json
serialize_body primitive_json (object keys json) = encoded json

module _ {R : Type 0} (on_waf_error : OnWafError) (verbose_log : Bool) (reply : Reply)
    (calls : Calls R) where
  -- `emitBlock`: rules that cannot be read are left out.
  unfoldable pub emit_block : (has_tx : Bool) → Interruption → Outcome (Unit {0}) → Hook R
  emit_block has_tx it outcome = (
    (it, if verbose_log && has_tx then matched_or_none calls.matched_rules else none) ∷ [],
    outcome,
  )

  abbrev pub emit_error : OnWafError → (sent has_tx : Bool) → Interruption → Hook R
  emit_error allow sent has_tx it = ([], returned tt)
  emit_error block true has_tx it = ([], returned tt)
  emit_error block false has_tx it = emit_block has_tx it reply.error_block_outcome

  -- The `catch`.
  abbrev pub caught : Hook R → Hook R
  caught (blocks, returned u) = (blocks, returned u)
  caught (blocks, threw e) =
      let r = emit_error on_waf_error reply.sent_at_error true internal_error in
      (blocks ++ r.0, r.1)

  abbrev pub interrupted : Outcome (Option Interruption) → Hook R
  interrupted (threw e) = ([], threw e)
  interrupted (returned none) = ([], returned tt)
  interrupted (returned (some it)) = emit_block true it reply.block_outcome

  abbrev pub bundle_result : Outcome Bool → Hook R
  bundle_result (threw e) = ([], threw e)
  bundle_result (returned true) = interrupted calls.interruption
  bundle_result (returned false) = ([], returned tt)

  abbrev pub engine_result : Outcome Bool → Hook R
  engine_result (threw e) = ([], threw e)
  engine_result (returned true) = ([], returned tt)
  engine_result (returned false) = bundle_result calls.process_request_bundle

  abbrev pub transaction_result : Outcome (Unit {0}) → Hook R
  transaction_result (threw e) = emit_error on_waf_error reply.sent_at_error false unavailable
  transaction_result (returned u) = caught (engine_result calls.is_rule_engine_off)

  abbrev pub unless_sent : Bool → Hook R → Hook R
  unless_sent true hook = ([], returned tt)
  unless_sent false hook = hook

  -- The hook, for the verdict of the ignore matcher.
  unfoldable pub pre_handler : Verdict → Hook R
  pre_handler skip = ([], returned tt)
  pre_handler skip_body = unless_sent reply.sent_before (transaction_result calls.new_transaction)
  pre_handler inspect = unless_sent reply.sent_before (transaction_result calls.new_transaction)

-- Whether the hook has left the reply alone.
abbrev pub untouched : {A : Type 0} → List A → Bool
untouched [] = true
untouched (x ∷ xs) = false

module _ {R : Type 0} (verbose_log : Bool) (reply : Reply) (calls : Calls R)
    (n : reply.sent_at_error ≡ false) where
  emit_block-touches :
      (has_tx : Bool) (it : Interruption) (o : Outcome (Unit {0}))
      → untouched (emit_block block verbose_log reply calls has_tx it o).0 ≡ false
  unfolding emit_block
  emit_block-touches has_tx it o = refl

  caught_threw :
      (e : List ℕ) → untouched (caught block verbose_log reply calls ([], threw e)).0 ≡ false
  unfolding emit_block
  caught_threw e = rw n refl

  caught_block :
      (x : Interruption × Option (List R)) (o : Outcome (Unit {0}))
      → untouched (caught block verbose_log reply calls (x ∷ [], o)).0 ≡ false
  caught_block x (returned u) = refl
  caught_block x (threw e) = refl

  interrupted-untouched :
      (o : Outcome (Option Interruption))
      → untouched
          (caught block verbose_log reply calls (interrupted block verbose_log reply calls o)).0
        ≡ reads_null o
  unfolding emit_block
  interrupted-untouched (threw e) = caught_threw e
  interrupted-untouched (returned none) = refl
  interrupted-untouched (returned (some it)) = caught_block _ reply.block_outcome

  bundle-untouched :
      (o : Outcome Bool)
      → untouched
          (caught block verbose_log reply calls (bundle_result block verbose_log reply calls o)).0
        ≡ (says false o || (says true o && reads_null calls.interruption))
  bundle-untouched (threw e) = caught_threw e
  bundle-untouched (returned true) = interrupted-untouched calls.interruption
  bundle-untouched (returned false) = refl

  engine-untouched :
      (o : Outcome Bool)
      → untouched
          (caught block verbose_log reply calls (engine_result block verbose_log reply calls o)).0
        ≡ (says true o
            || (says false o
                && (says false calls.process_request_bundle
                    || (says true calls.process_request_bundle && reads_null calls.interruption))))
  engine-untouched (threw e) = caught_threw e
  engine-untouched (returned true) = refl
  engine-untouched (returned false) = bundle-untouched calls.process_request_bundle

  transaction-untouched :
      (o : Outcome (Unit {0}))
      → untouched (transaction_result block verbose_log reply calls o).0
        ≡ (returns o && phase_allows calls (returned tt))
  unfolding emit_block
  transaction-untouched (threw e) = rw n refl
  transaction-untouched (returned u) = engine-untouched calls.is_rule_engine_off

-- With `onWAFError: 'block'` and no reply sent so far, the hook calls `onBlock` for every request
-- that is not skipped, except where the transaction was created, no call of it failed, and the
-- engine is off, did not interrupt, or interrupted and then read the interruption back as null.
pub pre_handler-untouched :
    {R : Type 0} (verbose_log : Bool) (reply : Reply) (calls : Calls R) (verdict : Verdict)
    → reply.sent_before ≡ false
    → reply.sent_at_error ≡ false
    → verdict ≢ skip
    → untouched (pre_handler block verbose_log reply calls verdict).0
      ≡ (returns calls.new_transaction && phase_allows calls (returned tt))
unfolding pre_handler emit_block
pre_handler-untouched verbose_log reply calls skip b n v = absurd (v refl)
pre_handler-untouched verbose_log reply calls skip_body b n v =
    rw b (transaction-untouched verbose_log reply calls n calls.new_transaction)
pre_handler-untouched verbose_log reply calls inspect b n v =
    rw b (transaction-untouched verbose_log reply calls n calls.new_transaction)
