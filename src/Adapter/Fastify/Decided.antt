-- ===== src/Adapter/Fastify/Decided.antt =====
-- The decision of the onSend hook of packages/fastify/src/index.ts, over the outcomes of its calls.
use coraza_node.Base.{
  ℕ, ◌≡◌, refl, Bool, true, false, ◌&&◌, List, Option, none, some, if◌then◌else◌, sym, subst, arith,
}
use coraza_node.Adapter.{Interruption, Outcome, returned, threw}
use coraza_node.Adapter.Fastify.Hooks.{
  Payload, Sending, Sent, nothing, other, bytes, text, object, original, replaced, payload_to_bytes,
  body_result, buffer_result, processable_result, body_phase, header_interrupted, header_result,
  or_original, on_send,
}

-- The interruptions that the code reads: those whose call returned true and that are not null.
abbrev pub raised : Outcome Bool → Outcome (Option Interruption) → Option Interruption
raised (returned true) (returned (some it)) = some it
raised _ _ = none

-- That the header phase ended without an exception and without a block.
abbrev pub passed : Outcome Bool → Outcome (Option Interruption) → Bool
passed (returned false) _ = true
passed (returned true) (returned none) = true
passed _ _ = false

abbrev pub says_true : Outcome Bool → Bool
says_true (returned true) = true
says_true _ = false

abbrev pub present : {A : Type 0} → Option A → Bool
present none = false
present (some a) = true

abbrev pub block_of : Option Interruption → Sent
block_of none = original
block_of (some it) = replaced it

-- What the response phases decide: the header's interruption, else the body's where the headers
-- passed and the body is inspected.
abbrev pub decided : Sending → Payload → Sent
decided s payload = elim (raised s.process_response s.header_interruption) [
  | some it ↦ replaced it
  | none ↦
      if passed s.process_response s.header_interruption
      then (if says_true s.is_processable && present (payload_to_bytes payload)
          then block_of (raised s.process_response_body s.body_interruption)
          else original)
      else original
]

-- With the outcomes as arguments.
abbrev sending :
    (h : Outcome Bool) (hi : Outcome (Option Interruption)) (p b : Outcome Bool)
    (bi : Outcome (Option Interruption))
    → Sending
sending h hi p b bi = record {
  process_response = h;
  header_interruption = hi;
  is_processable = p;
  process_response_body = b;
  body_interruption = bi;
}

-- The body phase, for a payload whose bytes are there.
buffer-decided :
    (h : Outcome Bool) (hi : Outcome (Option Interruption)) (p b : Outcome Bool)
    (bi : Outcome (Option Interruption)) (payload : Payload)
    → or_original (sending h hi p b bi) payload (body_result (sending h hi p b bi) payload b)
      ≡ block_of (raised b bi)
buffer-decided h hi p (threw e) (threw e') payload = refl
buffer-decided h hi p (threw e) (returned none) payload = refl
buffer-decided h hi p (threw e) (returned (some it)) payload = refl
buffer-decided h hi p (returned true) (threw e') payload = refl
buffer-decided h hi p (returned true) (returned none) payload = refl
buffer-decided h hi p (returned true) (returned (some it)) payload = refl
buffer-decided h hi p (returned false) (threw e') payload = refl
buffer-decided h hi p (returned false) (returned none) payload = refl
buffer-decided h hi p (returned false) (returned (some it)) payload = refl

bytes-decided :
    (s : Sending) (payload : Payload) (o : Option (List ℕ))
    → or_original s payload (buffer_result s payload o) ≡ (
        if present o
        then block_of (raised s.process_response_body s.body_interruption)
        else original)
bytes-decided s payload none = refl
bytes-decided s payload (some buf) =
    buffer-decided s.process_response s.header_interruption s.is_processable s.process_response_body
      s.body_interruption payload

processable-decided :
    (s : Sending) (payload : Payload) (o : Outcome Bool)
    → or_original s payload (processable_result s payload o) ≡ (
        if says_true o && present (payload_to_bytes payload)
        then block_of (raised s.process_response_body s.body_interruption)
        else original)
processable-decided s payload (threw e) = refl
processable-decided s payload (returned false) = refl
processable-decided s payload (returned true) = bytes-decided s payload (payload_to_bytes payload)

abbrev body_decided : Sending → Payload → Sent
body_decided s p =
    if says_true s.is_processable && present (payload_to_bytes p)
    then block_of (raised s.process_response_body s.body_interruption)
    else original

and_false : (b : Bool) → (b && false) ≡ false
and_false b = ground arith

phase-decided :
    (s : Sending) (payload p : Payload)
    → payload ≡ p
    → or_original s payload (body_phase s payload p) ≡ body_decided s p
unfolding payload_to_bytes
phase-decided s payload nothing e = rw (and_false (says_true s.is_processable)) refl
phase-decided s payload other e =
    subst (λ q. or_original s q (processable_result s q s.is_processable) ≡ body_decided s other)
      (sym e) (processable-decided s other s.is_processable)
phase-decided s payload (bytes b) e =
    subst
      (λ q. or_original s q (processable_result s q s.is_processable) ≡ body_decided s (bytes b))
      (sym e) (processable-decided s (bytes b) s.is_processable)
phase-decided s payload (text t) e =
    subst (λ q. or_original s q (processable_result s q s.is_processable) ≡ body_decided s (text t))
      (sym e) (processable-decided s (text t) s.is_processable)
phase-decided s payload (object j) e =
    subst
      (λ q. or_original s q (processable_result s q s.is_processable) ≡ body_decided s (object j))
      (sym e) (processable-decided s (object j) s.is_processable)

abbrev headed : Sending → Payload → Outcome Bool → Outcome (Option Interruption) → Sent
headed s payload h hi = elim (raised h hi) [
  | some it ↦ replaced it
  | none ↦ if passed h hi then body_decided s payload else original
]

interrupted-decided :
    (s : Sending) (payload : Payload) (hi : Outcome (Option Interruption))
    → or_original s payload (header_interrupted s payload hi) ≡ headed s payload (returned true) hi
interrupted-decided s payload (threw e) = refl
interrupted-decided s payload (returned none) = phase-decided s payload payload refl
interrupted-decided s payload (returned (some it)) = refl

header-decided :
    (s : Sending) (payload : Payload) (h : Outcome Bool) (hi : Outcome (Option Interruption))
    → s.header_interruption ≡ hi
    → or_original s payload (header_result s payload h) ≡ headed s payload h hi
header-decided s payload (threw e) (threw e') q = refl
header-decided s payload (threw e) (returned none) q = refl
header-decided s payload (threw e) (returned (some it)) q = refl
header-decided s payload (returned true) hi q = rw q (interrupted-decided s payload hi)
header-decided s payload (returned false) (threw e) q = phase-decided s payload payload refl
header-decided s payload (returned false) (returned none) q = phase-decided s payload payload refl
header-decided s payload (returned false) (returned (some it)) q =
    phase-decided s payload payload refl

-- The response phases replace the payload exactly by the interruption that the headers raise, or
-- where the headers passed, the payload has bytes and the body is inspected, by the one that the
-- body raises. An exception at any point, or an interruption that reads back as null, lets the
-- payload through.
pub on_send-decided : (s : Sending) (payload : Payload) → on_send s payload true ≡ decided s payload
unfolding on_send
on_send-decided s payload = header-decided s payload s.process_response s.header_interruption refl
