-- ===== src/Adapter/Express.antt =====
-- The Express middleware of packages/express/src/index.ts, as the list of what it does to the
-- request and whether its promise rejects. `next` is taken not to throw: the router handles the
-- exceptions of the handlers behind it.
pub mod Hook
use coraza_node.Base.{
  ℕ, Bool, true, false, not, ◌&&◌, List, [], ◌∷◌, ◌++◌, Option, none, some, if◌then◌else◌, map,
}
use coraza_node.Base.Text.{Text, codes}
use coraza_node.Ignore.Verdict.{Verdict, inspect, skip, skip_body}
use coraza_node.Ignore.Matcher.{IgnoreContext, IgnoreSpec}
use coraza_node.Skip.{SkipOptions}
use coraza_node.Adapter.Options.{Given, Resolved, resolve}
use coraza_node.Adapter.Request.{
  UrlParser, first_nonempty, context_of, TextResponse, blocked_response,
}
use coraza_node.Adapter.{
  Interruption, Outcome, returned, threw, OnWafError, block, allow, Calls, unavailable,
  internal_error, HeaderValue,
}

pub data Effect (R : Type 0) : Type 0 where
  next : Effect R
  on_block : Interruption → Option (List R) → Effect R
  on_close_registered hook_response : Effect R
  log_error log_warn : Text → Effect R
  log_blocked : Interruption → Effect R
  log_matched : R → Effect R

pub record CorazaExpressOptions : Type 0 where
  pub inspect_response : Bool
  pub on_waf_error : OnWafError
  pub verbose_log : Bool

-- The response and the handler: whether headers are out where the middleware tests it, whether the
-- transaction is the synchronous one, and the outcome of `onBlock`.
pub record Host : Type 0 where
  pub headers_sent : Bool
  pub is_sync_tx : Bool
  pub on_block_outcome : Outcome (Unit {0})

abbrev pub Run : Type 0 → Type 0
Run R = List (Effect R) × Outcome (Unit {0})

abbrev pub is_block : OnWafError → Bool
is_block block = true
is_block allow = false

abbrev pub done : {R : Type 0} → List (Effect R) → Run R
done effects = (effects, returned tt)

abbrev pub then_run : {R : Type 0} → List (Effect R) → Run R → Run R
then_run before run = (before ++ run.0, run.1)

module _ {R : Type 0} (options : CorazaExpressOptions) (host : Host) (calls : Calls R) where
  -- `onBlock` and the promise that its outcome leaves.
  abbrev pub call_on_block : Interruption → Option (List R) → Run R
  call_on_block it matched = (on_block it matched ∷ [], host.on_block_outcome)

  -- The branches before the transaction is there.
  abbrev pub fail_early : Text → Run R
  fail_early message = then_run (log_error message ∷ []) (
      if is_block options.on_waf_error && not host.headers_sent
      then call_on_block unavailable none
      else done (next ∷ []))

  abbrev pub fail_late_block : Bool → Run R
  fail_late_block sent = if sent then done [] else call_on_block internal_error none

  -- The `catch` of the last `try`.
  abbrev pub fail_late : Text → Run R
  fail_late message = then_run (log_error message ∷ []) (
      if is_block options.on_waf_error then fail_late_block host.headers_sent else done (next ∷ []))

  unfoldable pub emit_block_sync : Interruption → Option (List R) → Run R
  emit_block_sync it none = then_run (log_blocked it ∷ []) (call_on_block it none)
  emit_block_sync it (some rules) =
      then_run (log_blocked it ∷ map log_matched rules) (call_on_block it (some rules))

  abbrev pub emit_verbose : Interruption → Outcome (List R) → Run R
  emit_verbose it (threw e) = ([], threw e)
  emit_verbose it (returned rules) = emit_block_sync it (some rules)

  unfoldable pub emit_block : Option Interruption → Run R
  emit_block none = done []
  emit_block (some it) =
      if options.verbose_log then emit_verbose it calls.matched_rules else emit_block_sync it none

  -- Once the request phases have passed.
  abbrev pub pass : Run R
  pass = done (
      (if options.inspect_response
        then (if host.is_sync_tx
            then hook_response
            else log_warn (codes "coraza: inspectResponse=true is a no-op when using WAFPool"))
          ∷ []
        else [])
      ++ (next ∷ []))

  -- The promise of `emitBlock` is returned out of the `try`, so its rejection does not reach the
  -- `catch`.
  abbrev pub interrupted : Outcome (Option Interruption) → Run R
  interrupted (threw e) = fail_late e
  interrupted (returned it) = emit_block it

  abbrev pub bundle_result : Outcome Bool → Run R
  bundle_result (threw e) = fail_late e
  bundle_result (returned true) = interrupted calls.interruption
  bundle_result (returned false) = pass

  abbrev pub engine_result : Outcome Bool → Run R
  engine_result (threw e) = fail_late e
  engine_result (returned true) = done (next ∷ [])
  engine_result (returned false) = bundle_result calls.process_request_bundle

  abbrev pub transaction_result : Outcome (Unit {0}) → Run R
  transaction_result (threw e) = fail_early e
  transaction_result (returned u) =
      then_run (on_close_registered ∷ []) (engine_result calls.is_rule_engine_off)

  abbrev pub waf_result : Outcome (Unit {0}) → Run R
  waf_result (threw e) = fail_early e
  waf_result (returned u) = transaction_result calls.new_transaction

  -- The middleware, for the verdict of the ignore matcher.
  unfoldable pub coraza_middleware : Verdict → Run R
  coraza_middleware skip = done (next ∷ [])
  coraza_middleware skip_body = waf_result calls.waf
  coraza_middleware inspect = waf_result calls.waf

unfoldable pub resolve_ignore_matcher : Given IgnoreSpec → Given SkipOptions → Bool → Resolved
resolve_ignore_matcher ignore skip_option legacy_warned = resolve ignore skip_option legacy_warned

-- `req.originalUrl || req.url || '/'`
unfoldable pub raw_url : (original_url url : Option Text) → Text
raw_url original_url url = first_nonempty original_url (first_nonempty url (codes "/"))

unfoldable pub build_ignore_ctx :
    UrlParser
    → (Text → Option ℕ)
    → (method : Text) → (original_url url : Option Text) → List (Text × HeaderValue)
    → IgnoreContext
unfolding raw_url
build_ignore_ctx parser number method original_url url headers =
    context_of parser number method (raw_url original_url url) headers

-- `defaultBlock`: none where the headers are out.
unfoldable pub default_block :
    (ℕ → Text) → Interruption → (headers_sent : Bool) → Option TextResponse
default_block digits it headers_sent =
    if headers_sent then none else some (blocked_response digits it)

-- The handler of the response's `close` event with the synchronous transaction, and whether it
-- throws: `tx.processLogging()` is called before the promise that would catch its exception.
unfoldable pub on_close : Outcome (Unit {0}) → List Text × Outcome (Unit {0})
on_close (threw e) = ([], threw e)
on_close (returned u) = (codes "close" ∷ [], returned tt)
