-- ===== src/Worker.antt =====
-- packages/core/src/pool-worker.ts: the handler of one message, over the worker's WAF, its map of
-- transactions and the module behind both; with packages/core/src/waf.ts, whose operations it calls.
pub mod Handles
pub mod WafLife
mod Tests
use coraza_node.Base.{
  ℕ, suc, Bool, true, false, List, [], ◌∷◌, ◌++◌, Option, none, some, ◌==◌, length, if◌then◌else◌,
}
use coraza_node.Base.Text.{Text, codes}
use coraza_node.Base.Map as Map
use coraza_node.Wire.Utf8.{utf8}
use coraza_node.Wire.Scratch as Scratch
use coraza_node.Abi.{
  Export, waf_create, waf_destroy, tx_create, write, Rc, rc, Module, Error, closed, out_of_memory,
  out_of_config_memory, trapped, destroyed, bad_json, failed, Result, ok, err, Trace, M, ◌>>=◌,
  ◌>>◌, return, throw, emit, finally, host_free, host_malloc, invoke,
}
use coraza_node.Transaction.{
  Tx, checked, number_of, process_request_bundle, process_response, process_response_body,
  process_logging, is_rule_engine_off, is_request_body_accessible, is_response_body_accessible,
  is_response_body_processable, interruption, matched_rules, reset, close,
}
use coraza_node.Pool as Pool
use coraza_node.Pool.{
  Proc, request_bundle, response, response_body, logging, Pred, rule_engine_off,
  req_body_accessible, resp_body_accessible, resp_body_processable, Get, Msg, init, new_tx,
  shutdown, proc, pred, get, Value, nothing, created, interrupted, value, json, Reply, fulfilled,
  rejected,
}

pub data Mode : Type 0 where
  detect block : Mode

pub record Waf : Type 0 where
  pub id : ℕ
  pub is_destroyed : Bool

abbrev pub engine_line : Mode → Text
engine_line block = codes "SecRuleEngine On"
engine_line detect = codes "SecRuleEngine DetectionOnly"

unfoldable pub wrap_directives : Text → Mode → Text
wrap_directives user_rules mode = user_rules ++ (codes "\n" ++ (engine_line mode ++ codes "\n"))

-- The worker's variables.
pub record State : Type 0 where
  pub waf : Option Waf
  pub txs : List (ℕ × Tx)
  pub next_tx_id : ℕ

-- `(err as Error).message`. What the engine says of a trap or of text that is no JSON is an argument.
unfoldable pub message_of : (Error → Text) → Error → Text
message_of engine closed = codes "coraza: transaction is closed"
message_of engine out_of_memory = codes "coraza: OOM allocating input buffer"
message_of engine out_of_config_memory = codes "coraza: OOM allocating config buffer"
message_of engine destroyed = codes "coraza: WAF is destroyed"
message_of engine (failed op message) = op ++ (codes ": " ++ message)
message_of engine e = engine e

module _ (wasm : Module) where
  -- `WAF.fromAbi`: the buffer is freed on every path behind its allocation.
  unfoldable pub from_abi : Text → Mode → M Waf
  from_abi rules mode = do
    let cfg_bytes = utf8 (wrap_directives rules mode)
    ptr ← host_malloc wasm (length cfg_bytes)
    if ptr == 0 then throw out_of_config_memory else do
      emit (write ptr cfg_bytes)
      finally
          (checked wasm (waf_create ptr (length cfg_bytes)) (codes "waf_create") >>= λ r.
            return (record { id = number_of wasm r; is_destroyed = false }))
          (host_free ptr)

  unfoldable pub new_transaction : Waf → M Tx
  new_transaction waf =
      if waf.is_destroyed
      then throw destroyed
      else checked wasm (tx_create waf.id) (codes "tx_create") >>= λ r.
          return (record { id = number_of wasm r; is_closed = false })

  unfoldable pub destroy : Waf → Trace → Result (Unit {0}) × Waf × Trace
  destroy waf t =
      let r = (invoke wasm (waf_destroy waf.id) >>= λ c. return tt) t in
      if waf.is_destroyed then (ok tt, waf, t) else (r.0, record waf { is_destroyed = true }, r.1)

-- What the handler reads besides its state: the configuration of `init`, the buffers that the
-- encoders reuse, `JSON.parse` and the engine's own messages.
pub record Context (J : Type 0) : Type 0 where
  pub rules : Text
  pub mode : Mode
  pub scratch : Scratch.Memory
  pub header_buf : Option ℕ
  pub parse : Text → Option J
  pub engine : Error → Text

abbrev pub Handled : Type 0 → Type 0
Handled J = Reply J × State × Trace

-- The text of `unknown tx ${msg.txId}`, for the digits of the id.
abbrev pub unknown_tx : (ℕ → Text) → ℕ → Text
unknown_tx digits id = codes "unknown tx " ++ digits id

module _ (wasm : Module) {J : Type 0} (ctx : Context J) (digits : ℕ → Text) where
  -- The `catch` around the switch.
  abbrev pub reply_with : {A : Type 0} → (A → Value J) → Result A → Reply J
  reply_with f (ok a) = fulfilled (f a)
  reply_with f (err e) = rejected (message_of ctx.engine e)

  abbrev pub answer : {A : Type 0} → (A → Value J) → State → Result A × Trace → Handled J
  answer f s r = (reply_with f r.0, s, r.1)

  unfoldable pub handle_proc : Tx → Proc → State → Trace → Handled J
  handle_proc tx (request_bundle req body) s t =
      answer interrupted s (process_request_bundle wasm ctx.scratch ctx.header_buf tx req body t)
  handle_proc tx (response res) s t =
      answer interrupted s (process_response wasm ctx.header_buf tx res t)
  handle_proc tx (response_body body) s t =
      answer interrupted s (process_response_body wasm tx body t)
  handle_proc tx logging s t = answer (λ u. interrupted false) s (process_logging wasm tx t)

  unfoldable pub handle_pred : Tx → Pred → State → Trace → Handled J
  handle_pred tx rule_engine_off s t = answer value s (is_rule_engine_off wasm tx t)
  handle_pred tx req_body_accessible s t = answer value s (is_request_body_accessible wasm tx t)
  handle_pred tx resp_body_accessible s t = answer value s (is_response_body_accessible wasm tx t)
  handle_pred tx resp_body_processable s t = answer value s (is_response_body_processable wasm tx t)

  unfoldable pub handle_get : Tx → Get → State → Trace → Handled J
  handle_get tx Get.interruption s t = answer json s (interruption wasm ctx.parse tx t)
  handle_get tx Get.matched_rules s t = answer json s (matched_rules wasm ctx.parse tx t)

  -- `txs.get(msg.txId)`, and what is done with it.
  unfoldable pub with_tx :
      ℕ → (Tx → State → Trace → Handled J) → Option Tx → State → Trace → Handled J
  with_tx id f none s t = (rejected (unknown_tx digits id), s, t)
  with_tx id f (some tx) s t = f tx s t

  abbrev pub closed_ok : ℕ → Result (Unit {0}) → Result (Unit {0}) × Tx × Trace → State → Handled J
  closed_ok id logged (err e, tx, t) s =
      (rejected (message_of ctx.engine e), record s { txs = Map.put id tx s.txs }, t)
  closed_ok id logged (ok u, tx, t) s =
      (reply_with (λ v. nothing) logged, record s { txs = Map.delete id s.txs }, t)

  -- `try { tx.processLogging() } finally { tx.close(); txs.delete(id) }`: an exception out of the
  -- `finally` takes the place of the first one.
  unfoldable pub handle_close : ℕ → Option Tx → State → Trace → Handled J
  handle_close id none s t = (fulfilled nothing, s, t)
  handle_close id (some tx) s t =
      let l = process_logging wasm tx t in closed_ok id l.0 (close wasm tx l.1) s

  -- The loop of `shutdown`: what `close` throws is ignored.
  unfoldable pub close_all : List (ℕ × Tx) → Trace → Trace
  close_all [] t = t
  close_all ((id, tx) ∷ txs) t = close_all txs (close wasm tx t).2

  unfoldable pub destroy_waf : Option Waf → Trace → Result (Unit {0}) × Option Waf × Trace
  destroy_waf none t = (ok tt, none, t)
  destroy_waf (some waf) t = let d = destroy wasm waf t in (d.0, some d.1, d.2)

  unfoldable pub handle_shutdown : State → Trace → Handled J
  handle_shutdown s t =
      let d = destroy_waf s.waf (close_all s.txs t) in
      (reply_with (λ u. nothing) d.0, record s { waf = d.1; txs = [] }, d.2)

  abbrev pub created_tx : ℕ → Result Tx × Trace → State → Handled J
  created_tx id (err e, t) s = (rejected (message_of ctx.engine e), record s { next_tx_id = id }, t)
  created_tx id (ok tx, t) s =
      (fulfilled (created id), record s { txs = Map.put id tx s.txs; next_tx_id = id }, t)

  unfoldable pub handle_new_tx : Option Waf → State → Trace → Handled J
  handle_new_tx none s t = (rejected (codes "worker not initialized"), s, t)
  handle_new_tx (some waf) s t = created_tx (suc s.next_tx_id) (new_transaction wasm waf t) s

  abbrev pub initialised : Result Waf × Trace → State → Handled J
  initialised (err e, t) s = (rejected (message_of ctx.engine e), s, t)
  initialised (ok waf, t) s = (fulfilled nothing, record s { waf = some waf }, t)

  -- The handler of one message: its reply, the state and the module's trace.
  unfoldable pub on_message : Msg → State → Trace → Handled J
  on_message init s t = initialised (from_abi wasm ctx.rules ctx.mode t) s
  on_message new_tx s t = handle_new_tx s.waf s t
  on_message (proc id op) s t = with_tx id (λ tx. handle_proc tx op) (Map.find id s.txs) s t
  on_message (pred id which) s t = with_tx id (λ tx. handle_pred tx which) (Map.find id s.txs) s t
  on_message (get id which) s t = with_tx id (λ tx. handle_get tx which) (Map.find id s.txs) s t
  on_message (Msg.reset id) s t =
      with_tx id (λ tx u v. answer (λ w. nothing) u (reset wasm tx v)) (Map.find id s.txs) s t
  on_message (Msg.close id) s t = handle_close id (Map.find id s.txs) s t
  on_message shutdown s t = handle_shutdown s t
