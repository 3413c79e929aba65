-- ===== src/Transaction/Lifecycle.antt =====
-- A transaction of packages/core/src/transaction.ts over any sequence of calls of its methods.
use coraza_node.Base.{
  ℕ, ◌≡◌, refl, ap, ◌∙◌, true, List, [], ◌∷◌, ◌++◌, map, Option, Bool-cases, inl, inr,
}
use coraza_node.Base.Text.{Text}
use coraza_node.Wire.Scratch as Scratch
use coraza_node.Wire.Bundle.{RequestInfo, Body}
use coraza_node.Abi.{Module, Error, closed, Result, ok, err, Trace}
use coraza_node.Transaction.{
  Tx, ResponseInfo, ensure_open, process_connection, predicate, is_rule_engine_off,
  is_request_body_accessible, is_response_body_accessible, is_response_body_processable,
  process_request_bundle, append_request_body, append_response_body, finish_request_body,
  finish_response_body, process_response, process_response_body, interruption, matched_rules,
  process_logging, reset, close,
}

-- A call of one of the methods, with its arguments.
pub data MethodCall : Type 0 where
  connection : (addr : Text) (cport sport : ℕ) → MethodCall
  rule_engine_off request_body_accessible response_body_accessible : MethodCall
  response_body_processable : MethodCall
  request_bundle : RequestInfo → Body → MethodCall
  request_chunk response_chunk : List ℕ → MethodCall
  request_finish response_finish : MethodCall
  response : ResponseInfo → MethodCall
  response_body : Body → MethodCall
  get_interruption get_matched_rules : MethodCall
  log reset_call close_call : MethodCall

-- Whether a call returns.
pub data Answer : Type 0 where
  returns : Answer
  throws : Error → Answer

abbrev pub answer : {A : Type 0} → Result A → Answer
answer (ok a) = returns
answer (err e) = throws e

abbrev pub kept : {A : Type 0} → Tx → Result A × Trace → Answer × Tx × Trace
kept tx r = (answer r.0, tx, r.1)

-- What a closed transaction answers: its log and its close return, all else throws.
abbrev pub when_closed : MethodCall → Answer
when_closed log = returns
when_closed close_call = returns
when_closed _ = throws closed

module _ (wasm : Module) {J : Type 0} (parse : Text → Option J) (scratch : Scratch.Memory)
    (header_buf : Option ℕ) where
  unfoldable pub call : MethodCall → Tx → Trace → Answer × Tx × Trace
  call (connection addr cport sport) tx t = kept tx (process_connection wasm tx addr cport sport t)
  call rule_engine_off tx t = kept tx (is_rule_engine_off wasm tx t)
  call request_body_accessible tx t = kept tx (is_request_body_accessible wasm tx t)
  call response_body_accessible tx t = kept tx (is_response_body_accessible wasm tx t)
  call response_body_processable tx t = kept tx (is_response_body_processable wasm tx t)
  call (request_bundle req body) tx t =
      kept tx (process_request_bundle wasm scratch header_buf tx req body t)
  call (request_chunk chunk) tx t = kept tx (append_request_body wasm tx chunk t)
  call (response_chunk chunk) tx t = kept tx (append_response_body wasm tx chunk t)
  call request_finish tx t = kept tx (finish_request_body wasm tx t)
  call response_finish tx t = kept tx (finish_response_body wasm tx t)
  call (response res) tx t = kept tx (process_response wasm header_buf tx res t)
  call (response_body body) tx t = kept tx (process_response_body wasm tx body t)
  call get_interruption tx t = kept tx (interruption wasm parse tx t)
  call get_matched_rules tx t = kept tx (matched_rules wasm parse tx t)
  call log tx t = kept tx (process_logging wasm tx t)
  call reset_call tx t = kept tx (reset wasm tx t)
  call close_call tx t = let r = close wasm tx t in (answer r.0, r.1, r.2)

  -- The answers, the transaction and the trace of calls one after the other.
  unfoldable pub calls : List MethodCall → Tx → Trace → List Answer × Tx × Trace
  calls [] tx t = ([], tx, t)
  calls (c ∷ cs) tx t =
      let r = call c tx t in let rest = calls cs r.1 r.2 in (r.0 ∷ rest.0, rest.1, rest.2)

  calls-append :
      (cs ds : List MethodCall) (tx : Tx) (t : Trace)
      → let s = calls cs tx t in
        let r = calls ds s.1 s.2 in calls (cs ++ ds) tx t ≡ (s.0 ++ r.0, r.1, r.2)
  unfolding calls
  calls-append [] ds tx t = refl
  calls-append (c ∷ cs) ds tx t =
      let r = call c tx t in
      ap (λ (x : List Answer × Tx × Trace). (r.0 ∷ x.0, x.1, x.2)) (calls-append cs ds r.1 r.2)

  call-closed :
      (c : MethodCall) (tx : Tx) (t : Trace)
      → tx.is_closed ≡ true
      → call c tx t ≡ (when_closed c, tx, t)
  unfolding call ensure_open process_connection predicate is_rule_engine_off
      is_request_body_accessible is_response_body_accessible is_response_body_processable
      process_request_bundle append_request_body append_response_body finish_request_body
      finish_response_body process_response process_response_body interruption matched_rules
      process_logging reset close
  call-closed (connection addr cport sport) tx t e = rw e refl
  call-closed rule_engine_off tx t e = rw e refl
  call-closed request_body_accessible tx t e = rw e refl
  call-closed response_body_accessible tx t e = rw e refl
  call-closed response_body_processable tx t e = rw e refl
  call-closed (request_bundle req body) tx t e = rw e refl
  call-closed (request_chunk chunk) tx t e = rw e refl
  call-closed (response_chunk chunk) tx t e = rw e refl
  call-closed request_finish tx t e = rw e refl
  call-closed response_finish tx t e = rw e refl
  call-closed (response res) tx t e = rw e refl
  call-closed (response_body body) tx t e = rw e refl
  call-closed get_interruption tx t e = rw e refl
  call-closed get_matched_rules tx t e = rw e refl
  call-closed log tx t e = rw e refl
  call-closed reset_call tx t e = rw e refl
  call-closed close_call tx t e = rw e refl

  calls-closed :
      (cs : List MethodCall) (tx : Tx) (t : Trace)
      → tx.is_closed ≡ true
      → calls cs tx t ≡ (map when_closed cs, tx, t)
  unfolding calls
  calls-closed [] tx t e = refl
  calls-closed (c ∷ cs) tx t e = rw (call-closed c tx t e) (
      ap (λ (x : List Answer × Tx × Trace). (when_closed c ∷ x.0, x.1, x.2))
        (calls-closed cs tx t e))

  close-is_closed : (tx : Tx) (t : Trace) → (close wasm tx t).1.is_closed ≡ true
  unfolding close
  close-is_closed tx t = elim (Bool-cases tx.is_closed) [ inl e ↦ rw e refl | inr e ↦ rw e refl ]

-- Whatever was called on a transaction before its `close`, whatever is called after it, and whatever
-- the module answers, a trap in the destruction included: the later calls reach no export, so the
-- trace stays as `close` left it and the slot is never used again. Each of them throws that the
-- transaction is closed, but `processLogging` and a further `close`, which return.
pub calls-close :
    (wasm : Module) {J : Type 0} (parse : Text → Option J) (scratch : Scratch.Memory)
    (header_buf : Option ℕ) (before after : List MethodCall) (tx : Tx) (t : Trace)
    → let run = calls wasm parse scratch header_buf in
      let opened = run before tx t in
      let c = close wasm opened.1 opened.2 in
      (c.1.is_closed ≡ true)
      × (run (before ++ close_call ∷ after) tx t
          ≡ (opened.0 ++ answer c.0 ∷ map when_closed after, c.1, c.2))
calls-close wasm parse scratch header_buf before after tx t =
    let opened = calls wasm parse scratch header_buf before tx t in
    let c = close wasm opened.1 opened.2 in
    let e = close-is_closed wasm parse scratch header_buf opened.1 opened.2 in
    (
      e,
      calls-append wasm parse scratch header_buf before (close_call ∷ after) tx t
          ∙ (unfold calls call in
              ap (λ (x : List Answer × Tx × Trace). (opened.0 ++ answer c.0 ∷ x.0, x.1, x.2))
                (calls-closed wasm parse scratch header_buf after c.1 c.2 e)),
    )
