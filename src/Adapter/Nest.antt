-- ===== src/Adapter/Nest.antt =====
-- `CorazaGuard` of packages/nestjs/src/coraza.guard.ts: what `canActivate` answers or throws, and
-- the calls that end the transaction. A second `processLogging` or `close` on a closed transaction
-- does nothing, so only the first ones are events.
pub mod Allows
use coraza_node.Base.{
  ℕ, Bool, true, false, ◌++◌, List, [], ◌∷◌, Option, none, some, ◌==◌, if◌then◌else◌,
}
use coraza_node.Base.Text.{Text, codes}
use coraza_node.Wire.Utf8.{utf8}
use coraza_node.Ignore.Verdict.{Verdict, inspect, skip, skip_body}
use coraza_node.Ignore.Matcher.{IgnoreContext, IgnoreSpec}
use coraza_node.Skip.{SkipOptions}
use coraza_node.Adapter.{
  Interruption, Outcome, returned, threw, OnWafError, block, allow, Calls, unavailable,
  internal_error, HeaderValue, undefined, single, many, JsBody, no_body, bytes, text, primitive,
  object, encoded,
}
use coraza_node.Adapter.Options.{Given, Resolved, resolve}
use coraza_node.Adapter.Request.{
  UrlParser, first_nonempty, context_of, status_or_403, blocked_text, TextResponse,
}

unfoldable pub resolve_ignore_matcher : Given IgnoreSpec → Given SkipOptions → Bool → Resolved
resolve_ignore_matcher ignore skip_option legacy_warned = resolve ignore skip_option legacy_warned

unfoldable pub build_ignore_ctx :
    UrlParser
    → (Text → Option ℕ)
    → (method : Text) → (original_url url : Option Text) → List (Text × HeaderValue)
    → IgnoreContext
build_ignore_ctx parser number method original_url url headers =
    context_of parser number method (first_nonempty original_url (first_nonempty url (codes "/")))
      headers

unfoldable pub headers_of : List (Text × HeaderValue) → List (Text × Text)
headers_of [] = []
headers_of ((k, undefined) ∷ h) = headers_of h
headers_of ((k, single v) ∷ h) = (k, v) ∷ headers_of h
headers_of ((k, many []) ∷ h) = headers_of h
headers_of ((k, many (v ∷ vs)) ∷ h) = (k, v) ∷ headers_of ((k, many vs) ∷ h)

unfoldable pub serialize_body : JsBody → Option (List ℕ)
serialize_body no_body = none
serialize_body (bytes b) = some b
serialize_body (text s) = some (utf8 s)
serialize_body (object keys json) = if keys == 0 then none else encoded json
serialize_body primitive = none

-- The status and the message of an `HttpException`.
unfoldable pub default_http_exception : (ℕ → Text) → Interruption → TextResponse
default_http_exception digits it = record {
  status = status_or_403 it.status;
  body = blocked_text digits it;
}

-- `onBlock` answers the exception to throw, or throws another.
pub record CorazaNestOptions (R X : Type 0) : Type 0 where
  pub on_waf_error : OnWafError
  pub verbose_log : Bool
  pub on_block : Interruption → Option (List R) → Outcome X

-- `true`, an exception of `onBlock`, or another exception.
pub data Activation (X : Type 0) : Type 0 where
  activated : Activation X
  denied : X → Activation X
  failed : Text → Activation X

pub data Cleanup : Type 0 where
  process_logging close : Cleanup

-- How the `try` was left: by its `return`, at its end, or by an exception.
pub data Attempt (R : Type 0) : Type 0 where
  early : Attempt R
  ended : Option Interruption → Option (List R) → Attempt R
  thrown : Text → Attempt R

abbrev pub denial : {X : Type 0} → Outcome X → Activation X
denial (returned x) = denied x
denial (threw e) = failed e

module _ {R X : Type 0} (options : CorazaNestOptions R X) (calls : Calls R) where
  -- `try { await tx.processLogging() } finally { await tx.close() }` and what follows it.
  abbrev pub after_cleanup : Outcome (Unit {0}) → Outcome (Unit {0}) → Activation X → Activation X
  after_cleanup logging (threw e) next = failed e
  after_cleanup (threw e) (returned u) next = failed e
  after_cleanup (returned v) (returned u) next = next

  abbrev pub finish : Activation X → Activation X × List Cleanup
  finish next = (after_cleanup calls.process_logging calls.close next, process_logging ∷ close ∷ [])

  abbrev pub rules_or_none : Outcome (List R) → Option (List R)
  rules_or_none (returned rules) = some rules
  rules_or_none (threw e) = none

  abbrev pub interrupted : Outcome (Option Interruption) → Attempt R
  interrupted (threw e) = thrown e
  interrupted (returned none) = ended none none
  interrupted (returned (some it)) =
      ended (some it) (if options.verbose_log then rules_or_none calls.matched_rules else none)

  abbrev pub bundle_result : Outcome Bool → Attempt R
  bundle_result (threw e) = thrown e
  bundle_result (returned false) = ended none none
  bundle_result (returned true) = interrupted calls.interruption

  abbrev pub attempt : Outcome Bool → Attempt R
  attempt (threw e) = thrown e
  attempt (returned true) = early
  attempt (returned false) = bundle_result calls.process_request_bundle

  abbrev pub verdict_of : Option Interruption → Option (List R) → Activation X
  verdict_of none matched = activated
  verdict_of (some it) matched = denial (options.on_block it matched)

  -- In the `catch` under `block`, the cleanup of the `finally` has been made before the throw, and
  -- is made again to no effect.
  abbrev pub on_failure : OnWafError → Activation X × List Cleanup
  on_failure block = finish (denial (options.on_block internal_error none))
  on_failure allow = finish activated

  abbrev pub leave : Attempt R → Activation X × List Cleanup
  leave early = finish activated
  leave (ended it matched) = finish (verdict_of it matched)
  leave (thrown e) = on_failure options.on_waf_error

  abbrev pub unavailable_result : OnWafError → Activation X
  unavailable_result block = denial (options.on_block unavailable none)
  unavailable_result allow = activated

  abbrev pub transaction_result : Outcome (Unit {0}) → Activation X × List Cleanup
  transaction_result (threw e) = (unavailable_result options.on_waf_error, [])
  transaction_result (returned u) = leave (attempt calls.is_rule_engine_off)

  -- The guard, for the verdict of the ignore matcher.
  unfoldable pub can_activate : Verdict → Activation X × List Cleanup
  can_activate skip = (activated, [])
  can_activate skip_body = transaction_result calls.new_transaction
  can_activate inspect = transaction_result calls.new_transaction
