-- ===== src/Transaction/Tests.antt =====
-- The transaction's theorems at a module that allocates at its trace's length and answers zero.
use coraza_node.Base.{
  ℕ, List, ◌++◌, map, suc, ◌≡◌, refl, true, false, [], ◌∷◌, Option, none, some, length, ◌⊎◌,
}
use coraza_node.Base.Text.{Text, codes}
use coraza_node.Base.Words.{u32}
use coraza_node.Wire.Utf8.{utf8}
use coraza_node.Wire.Headers.{encode_headers}
use coraza_node.Wire.Scratch as Scratch
use coraza_node.Wire.Bundle.{RequestInfo, raw, default_to}
use coraza_node.Abi.{rc, Module, Error, ok, err, Trace, host_malloc}
use coraza_node.Abi.Frees.{outstanding, allocated}
use coraza_node.Transaction.{
  Tx, ResponseInfo, process_connection, process_request_bundle, append_request_body,
  append_response_body, process_response, process_response_body, close, ensure_open, write_malloc,
}
use coraza_node.Transaction.Memory.{Balanced, buffers-Balanced}
use coraza_node.Transaction.Response.{process_response-Outcome}
use coraza_node.Transaction.Lifecycle.{
  MethodCall, request_bundle, get_interruption, get_matched_rules, log, response, close_call,
  answer, when_closed, calls, calls-close,
}

abbrev pub zeros : Module
zeros = record {
  mallocs = λ t size. some (suc (length t));
  calls = λ t e. rc 0;
  errors = λ t. [];
  string_at = λ t ptr len. [];
  string_below = λ t. [];
}

-- Memory for one buffer only.
abbrev one_buffer : Trace → ℕ → Option ℕ
one_buffer [] size = some 1
one_buffer (e ∷ t) size = some 0

abbrev exhausted : Module
exhausted = record zeros { mallocs = one_buffer }

abbrev blank : Scratch.Memory
blank = λ i. 0

abbrev open_tx : Tx
open_tx = record { id = 7; is_closed = false }

abbrev get_root : RequestInfo
get_root = record {
  method = codes "GET";
  url = codes "/";
  protocol = none;
  headers = (codes "host", codes "x") ∷ [];
  remote_addr = none;
  remote_port = none;
  server_port = none;
}

abbrev found : ResponseInfo
found = record { status = 200; protocol = none; headers = [] }

-- Out of memory at the second buffer, the first one stays allocated.
leaked_packet : outstanding (process_response exhausted (some 8) open_tx found []).1 ≡ 1 ∷ []
unfolding process_response write_malloc host_malloc ensure_open utf8 encode_headers u32
leaked_packet = refl

buffers-Balanced_example :
    Balanced (process_request_bundle zeros blank none open_tx get_root (raw (1 ∷ [])))
    × Balanced (process_response_body zeros open_tx (raw (1 ∷ [])))
    × Balanced (process_connection zeros open_tx (codes "::1") 1 2)
    × Balanced (append_request_body zeros open_tx (5 ∷ []))
    × Balanced (append_response_body zeros open_tx (5 ∷ []))
buffers-Balanced_example =
    buffers-Balanced zeros blank none open_tx get_root (raw (1 ∷ [])) (codes "::1") 1 2 (5 ∷ [])

process_response-Outcome_example :
    let packet = (encode_headers found.headers (some 8)).0 in
    let proto = utf8 (default_to (codes "HTTP/1.1") found.protocol) in
    (outstanding (process_response exhausted (some 8) open_tx found []).1 ≡ [])
    ⊎ ((p : ℕ) × (e : Error) × (t' : Trace) × (write_malloc exhausted packet [] ≡ (ok p, t'))
        × ((write_malloc exhausted proto t').0 ≡ err e)
        × ((process_response exhausted (some 8) open_tx found []).0 ≡ err e)
        × (outstanding (process_response exhausted (some 8) open_tx found []).1 ≡ allocated p []))
process_response-Outcome_example = process_response-Outcome exhausted (some 8) open_tx found []

abbrev no_json : Text → Option ℕ
no_json s = none

abbrev earlier : List MethodCall
earlier = request_bundle get_root (raw (1 ∷ [])) ∷ get_interruption ∷ []

abbrev later : List MethodCall
later = log ∷ response found ∷ close_call ∷ get_matched_rules ∷ []

calls-close_example :
    let run = calls zeros no_json blank none in
    let opened = run earlier open_tx [] in
    let c = close zeros opened.1 opened.2 in
    (c.1.is_closed ≡ true)
    × (run (earlier ++ close_call ∷ later) open_tx []
        ≡ (opened.0 ++ answer c.0 ∷ map when_closed later, c.1, c.2))
calls-close_example = calls-close zeros no_json blank none earlier later open_tx []
