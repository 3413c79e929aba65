-- ===== src/Transaction.antt =====
-- The class `Transaction` of packages/core/src/transaction.ts: each method as a computation over
-- the module's trace, with its guards, its buffers and its `finally` blocks. `JSON.parse` is an
-- argument of the methods that read a string back.
pub mod Lifecycle
pub mod Memory
pub mod Response
mod Tests
use coraza_node.Base.{
  ℕ, ◌+◌, Bool, true, false, List, [], ◌∷◌, Option, none, some, ◌==◌, length, if◌then◌else◌,
}
use coraza_node.Base.Text.{Text, codes}
use coraza_node.Wire.Utf8.{utf8}
use coraza_node.Wire.Headers.{encode_headers}
use coraza_node.Wire.Scratch as Scratch
use coraza_node.Wire.Bundle.{RequestInfo, Body, default_to, body_bytes, encode_request_bundle}
use coraza_node.Abi.{
  Export, tx_destroy, tx_reset, tx_has_interrupt, tx_is_rule_engine_off,
  tx_is_request_body_accessible, tx_is_response_body_accessible, tx_is_response_body_processable,
  tx_process_connection, tx_append_request_body, tx_append_response_body,
  tx_process_request_body_finish, tx_process_response_body_finish, tx_process_response_headers,
  tx_process_request_bundle, tx_process_response_body, tx_process_logging, tx_get_interrupt,
  tx_get_matched_rules, Event, write, Rc, rc, Module, Error, closed, out_of_memory, bad_json,
  Result, ok, err, Trace, M, ◌>>=◌, ◌>>◌, return, throw, emit, finally, host_free, host_malloc,
  invoke, check, is_zero, is_one, unpack_slice, read_string,
}

pub record Tx : Type 0 where
  pub id : ℕ
  pub is_closed : Bool

pub record ResponseInfo : Type 0 where
  pub status : ℕ
  pub protocol : Option Text
  pub headers : List (Text × Text)

unfoldable pub ensure_open : Tx → M (Unit {0})
ensure_open tx = if tx.is_closed then throw closed else return tt

module _ (wasm : Module) where
  -- `#writeMalloc`
  unfoldable pub write_malloc : List ℕ → M ℕ
  write_malloc [] = return 0
  write_malloc (b ∷ bs) = do
    ptr ← host_malloc wasm (length (b ∷ bs))
    if ptr == 0 then throw out_of_memory else do emit (write ptr (b ∷ bs)); return ptr

  -- A call and its check.
  unfoldable pub checked : Export → Text → M Rc
  checked e op = do r ← invoke wasm e; check wasm r op; return r

  -- A buffer, a call on it, and the `finally` that frees it.
  unfoldable pub with_buffer : List ℕ → (ℕ → Export) → Text → M Rc
  with_buffer bytes e op = do ptr ← write_malloc bytes; finally (checked (e ptr) op) (host_free ptr)

  -- `rc === 1`
  abbrev pub interrupts : M Rc → M Bool
  interrupts m = m >>= λ r. return (is_one r)

  abbrev pub void : M Rc → M (Unit {0})
  void m = m >>= λ r. return tt

  unfoldable pub process_connection : Tx → Text → (cport sport : ℕ) → M (Unit {0})
  process_connection tx addr cport sport = do
    ensure_open tx
    void (
        with_buffer (utf8 addr)
          (λ ptr. tx_process_connection tx.id ptr (length (utf8 addr)) cport sport)
          (codes "tx_process_connection"))

  unfoldable pub predicate : Tx → (ℕ → Export) → M Bool
  predicate tx e = do ensure_open tx; interrupts (invoke wasm (e tx.id))

  unfoldable pub is_rule_engine_off : Tx → M Bool
  is_rule_engine_off tx = predicate tx tx_is_rule_engine_off

  unfoldable pub is_request_body_accessible : Tx → M Bool
  is_request_body_accessible tx = predicate tx tx_is_request_body_accessible

  unfoldable pub is_response_body_accessible : Tx → M Bool
  is_response_body_accessible tx = predicate tx tx_is_response_body_accessible

  unfoldable pub is_response_body_processable : Tx → M Bool
  is_response_body_processable tx = predicate tx tx_is_response_body_processable

  unfoldable pub process_request_bundle :
      Scratch.Memory → Option ℕ → Tx → RequestInfo → Body → M Bool
  process_request_bundle scratch header_buf tx req body = do
    ensure_open tx
    let bundle = encode_request_bundle scratch req body header_buf
    interrupts (
        with_buffer bundle (λ ptr. tx_process_request_bundle tx.id ptr (length bundle))
          (codes "tx_process_request_bundle"))

  -- A chunk that is empty is not sent.
  abbrev pub append_chunk : List ℕ → (ℕ → ℕ → Export) → Text → M (Unit {0})
  append_chunk [] e op = return tt
  append_chunk (b ∷ bs) e op = void (with_buffer (b ∷ bs) (λ ptr. e ptr (length (b ∷ bs))) op)

  unfoldable pub append_request_body : Tx → List ℕ → M (Unit {0})
  append_request_body tx chunk = do
    ensure_open tx
    append_chunk chunk (tx_append_request_body tx.id) (codes "tx_append_request_body")

  unfoldable pub append_response_body : Tx → List ℕ → M (Unit {0})
  append_response_body tx chunk = do
    ensure_open tx
    append_chunk chunk (tx_append_response_body tx.id) (codes "tx_append_response_body")

  unfoldable pub finish_request_body : Tx → M Bool
  finish_request_body tx = do
    ensure_open tx
    interrupts
        (checked (tx_process_request_body_finish tx.id) (codes "tx_process_request_body_finish"))

  unfoldable pub finish_response_body : Tx → M Bool
  finish_response_body tx = do
    ensure_open tx
    interrupts
        (checked (tx_process_response_body_finish tx.id) (codes "tx_process_response_body_finish"))

  -- The call on both buffers, and the `finally` that frees them.
  abbrev pub send_response : Tx → ℕ → (pkt proto : List ℕ) → (pkt_ptr proto_ptr : ℕ) → M Rc
  send_response tx status pkt proto pkt_ptr proto_ptr =
      finally
        (checked
          (tx_process_response_headers tx.id status pkt_ptr (length pkt) proto_ptr (length proto))
          (codes "tx_process_response_headers"))
        (λ t. host_free proto_ptr (host_free pkt_ptr t))

  -- Both buffers are allocated before the `try`.
  unfoldable pub process_response : Option ℕ → Tx → ResponseInfo → M Bool
  process_response header_buf tx res = do
    ensure_open tx
    let pkt = (encode_headers res.headers header_buf).0
    let proto = utf8 (default_to (codes "HTTP/1.1") res.protocol)
    pkt_ptr ← write_malloc pkt
    proto_ptr ← write_malloc proto
    interrupts (send_response tx res.status pkt proto pkt_ptr proto_ptr)

  abbrev pub response_body : ℕ → List ℕ → M Rc
  response_body id [] = checked (tx_process_response_body id 0 0) (codes "tx_process_response_body")
  response_body id (b ∷ bs) =
      with_buffer (b ∷ bs) (λ ptr. tx_process_response_body id ptr (length (b ∷ bs)))
        (codes "tx_process_response_body")

  unfoldable pub process_response_body : Tx → Body → M Bool
  process_response_body tx body = do
    ensure_open tx
    interrupts (response_body tx.id (body_bytes body))

  abbrev pub number_of : Rc → ℕ
  number_of (rc n) = n
  number_of _ = 0

  abbrev pub parsed : {J : Type 0} → Option J → Trace → Result (Option J) × Trace
  parsed none t = (err bad_json, t)
  parsed (some j) t = (ok (some j), t)

  -- The value behind a packed slice, `none` where there is no slice.
  unfoldable pub read_packed : {J : Type 0} → (Text → Option J) → Rc → M (Option J)
  read_packed parse (rc packed) t =
      let s = unpack_slice packed in
      if packed == 0 then (ok none, t) else parsed (parse (read_string wasm s.0 s.1 t)) t
  read_packed parse _ t = parsed (parse (wasm.string_below t)) t

  unfoldable pub interruption : {J : Type 0} → (Text → Option J) → Tx → M (Option J)
  interruption parse tx = do
    ensure_open tx
    has ← invoke wasm (tx_has_interrupt tx.id)
    if is_zero has
        then return none
        else do packed ← invoke wasm (tx_get_interrupt tx.id); read_packed parse packed

  unfoldable pub matched_rules : {J : Type 0} → (Text → Option J) → Tx → M (Option J)
  matched_rules parse tx = do
    ensure_open tx
    packed ← invoke wasm (tx_get_matched_rules tx.id)
    read_packed parse packed

  unfoldable pub process_logging : Tx → M (Unit {0})
  process_logging tx =
      if tx.is_closed
      then return tt
      else void (checked (tx_process_logging tx.id) (codes "tx_process_logging"))

  unfoldable pub reset : Tx → M (Unit {0})
  reset tx = do ensure_open tx; void (checked (tx_reset tx.id) (codes "tx_reset"))

  -- The flag is set before the call, so it is set where the call traps too.
  unfoldable pub close : Tx → Trace → Result (Unit {0}) × Tx × Trace
  close tx t =
      let r = void (invoke wasm (tx_destroy tx.id)) t in
      if tx.is_closed then (ok tt, tx, t) else (r.0, record tx { is_closed = true }, r.1)
