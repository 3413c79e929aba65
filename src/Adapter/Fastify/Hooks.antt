-- ===== src/Adapter/Fastify/Hooks.antt =====
-- The onSend and onResponse hooks of packages/fastify/src/index.ts and the conversions of
-- packages/fastify/src/helpers.ts.
use coraza_node.Base.{ℕ, Bool, true, false, List, [], ◌∷◌, Option, none, some, if◌then◌else◌}
use coraza_node.Base.Text.{Text}
use coraza_node.Wire.Utf8.{utf8}
use coraza_node.Ignore.Matcher.{IgnoreContext, IgnoreSpec}
use coraza_node.Skip.{SkipOptions}
use coraza_node.Adapter.{Interruption, Outcome, returned, threw, HeaderValue, headers_of, encoded}
use coraza_node.Adapter.Options.{Given, Resolved, resolve}
use coraza_node.Adapter.Request.{UrlParser, context_of, TextResponse, blocked_response}

unfoldable pub resolve_ignore_matcher : Given IgnoreSpec → Given SkipOptions → Bool → Resolved
resolve_ignore_matcher ignore skip_option legacy_warned = resolve ignore skip_option legacy_warned

unfoldable pub build_ignore_ctx :
    UrlParser → (Text → Option ℕ) → (method url : Text) → List (Text × HeaderValue) → IgnoreContext
build_ignore_ctx parser number method url headers = context_of parser number method url headers

-- `headersOf`, where a number is given by its digits.
unfoldable pub headers_of_reply : List (Text × HeaderValue) → List (Text × Text)
headers_of_reply headers = headers_of headers

-- `defaultBlock`: none where the reply was sent.
unfoldable pub default_block : (ℕ → Text) → Interruption → (sent : Bool) → Option TextResponse
default_block digits it sent = if sent then none else some (blocked_response digits it)

-- The payload that Fastify hands to onSend. `other` is a number or a boolean.
pub data Payload : Type 0 where
  nothing other : Payload
  bytes : List ℕ → Payload
  text : Text → Payload
  object : (json : Outcome (Option Text)) → Payload

-- An empty string is a string.
unfoldable pub payload_to_bytes : Payload → Option (List ℕ)
payload_to_bytes nothing = none
payload_to_bytes other = none
payload_to_bytes (bytes b) = some b
payload_to_bytes (text s) = some (utf8 s)
payload_to_bytes (object json) = encoded json

-- The outcomes of the calls of onSend, in the order of the code.
pub record Sending : Type 0 where
  pub process_response : Outcome Bool
  pub header_interruption : Outcome (Option Interruption)
  pub is_processable : Outcome Bool
  pub process_response_body : Outcome Bool
  pub body_interruption : Outcome (Option Interruption)

-- What goes out: the payload as it was, or a block in its place, with the status set on the reply.
pub data Sent : Type 0 where
  original : Sent
  replaced : Interruption → Sent

module _ (s : Sending) (payload : Payload) where
  abbrev pub body_interrupted : Outcome (Option Interruption) → Outcome Sent
  body_interrupted (threw e) = threw e
  body_interrupted (returned none) = returned original
  body_interrupted (returned (some it)) = returned (replaced it)

  abbrev pub body_result : Outcome Bool → Outcome Sent
  body_result (threw e) = threw e
  body_result (returned false) = returned original
  body_result (returned true) = body_interrupted s.body_interruption

  abbrev pub buffer_result : Option (List ℕ) → Outcome Sent
  buffer_result none = returned original
  buffer_result (some buf) = body_result s.process_response_body

  abbrev pub processable_result : Outcome Bool → Outcome Sent
  processable_result (threw e) = threw e
  processable_result (returned false) = returned original
  processable_result (returned true) = buffer_result (payload_to_bytes payload)

  -- `payload != null`
  abbrev pub body_phase : Payload → Outcome Sent
  body_phase nothing = returned original
  body_phase p = processable_result s.is_processable

  abbrev pub header_interrupted : Outcome (Option Interruption) → Outcome Sent
  header_interrupted (threw e) = threw e
  header_interrupted (returned none) = body_phase payload
  header_interrupted (returned (some it)) = returned (replaced it)

  abbrev pub header_result : Outcome Bool → Outcome Sent
  header_result (threw e) = threw e
  header_result (returned false) = body_phase payload
  header_result (returned true) = header_interrupted s.header_interruption

  -- The `catch` logs and lets the payload through.
  abbrev pub or_original : Outcome Sent → Sent
  or_original (returned sent) = sent
  or_original (threw e) = original

  -- The hook, for a request with a transaction or without.
  unfoldable pub on_send : (has_tx : Bool) → Sent
  on_send false = original
  on_send true = or_original (header_result s.process_response)

-- The text of a block.
unfoldable pub sent_response : (ℕ → Text) → Sent → Option TextResponse
sent_response digits original = none
sent_response digits (replaced it) = some (blocked_response digits it)

-- The cleanup calls of onResponse.
pub data Cleanup : Type 0 where
  process_logging close : Cleanup

-- `try { await tx.processLogging() } finally { await tx.close() }`
unfoldable pub on_response :
    (has_tx : Bool) → (logging closing : Outcome (Unit {0})) → List Cleanup × Outcome (Unit {0})
on_response false logging closing = ([], returned tt)
on_response true logging (threw e) = (process_logging ∷ close ∷ [], threw e)
on_response true logging (returned u) = (process_logging ∷ close ∷ [], logging)
