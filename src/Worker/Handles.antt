-- ===== src/Worker/Handles.antt =====
-- The transaction ids of packages/core/src/pool-worker.ts over any messages.
use coraza_node.Base.{
  ℕ, suc, ◌≡◌, refl, sym, ◌≤◌, subst, false, List, [], ◌∷◌, Option, none, some, ◌==◌, Bool-cases,
  inl, inr, arith,
}
use coraza_node.Base.Text.{Text}
use coraza_node.Base.Map as Map
use coraza_node.Base.Map.{find-put, find-delete}
use coraza_node.Abi.{Module, Result, ok, err, Trace}
use coraza_node.Transaction.{Tx, process_logging, close}
use coraza_node.Pool.{
  Proc, request_bundle, response, response_body, logging, Pred, rule_engine_off,
  req_body_accessible, resp_body_accessible, resp_body_processable, Get, interruption,
  matched_rules, Msg, init, new_tx, shutdown, proc, pred, get, rejected, fulfilled, nothing,
}
use coraza_node.Worker.{
  Waf, State, Context, Handled, unknown_tx, new_transaction, from_abi, handle_proc, handle_pred,
  handle_get, with_tx, closed_ok, handle_close, handle_shutdown, created_tx, handle_new_tx,
  initialised, on_message,
}

-- An id that was given out and whose transaction is no longer there.
pub record Gone (s : State) (i : ℕ) : Type 0 where
  pub given_out : i ≤ s.next_tx_id
  pub absent : Map.find i s.txs ≡ none

module _ (wasm : Module) {J : Type 0} (ctx : Context J) (digits : ℕ → Text) where
  handle_proc-state :
      (tx : Tx) (op : Proc) (s : State) (t : Trace) → (handle_proc wasm ctx digits tx op s t).1 ≡ s
  unfolding handle_proc
  handle_proc-state tx (request_bundle req body) s t = refl
  handle_proc-state tx (response res) s t = refl
  handle_proc-state tx (response_body body) s t = refl
  handle_proc-state tx logging s t = refl

  handle_pred-state :
      (tx : Tx) (which : Pred) (s : State) (t : Trace)
      → (handle_pred wasm ctx digits tx which s t).1 ≡ s
  unfolding handle_pred
  handle_pred-state tx rule_engine_off s t = refl
  handle_pred-state tx req_body_accessible s t = refl
  handle_pred-state tx resp_body_accessible s t = refl
  handle_pred-state tx resp_body_processable s t = refl

  handle_get-state :
      (tx : Tx) (which : Get) (s : State) (t : Trace)
      → (handle_get wasm ctx digits tx which s t).1 ≡ s
  unfolding handle_get
  handle_get-state tx interruption s t = refl
  handle_get-state tx matched_rules s t = refl

  with_tx-state :
      (id : ℕ) (f : Tx → State → Trace → Handled J) (o : Option Tx) (s : State) (t : Trace)
      → ((tx : Tx) → (f tx s t).1 ≡ s)
      → (with_tx wasm ctx digits id f o s t).1 ≡ s
  unfolding with_tx
  with_tx-state id f none s t h = refl
  with_tx-state id f (some tx) s t h = h tx

  created_tx-Gone :
      (s : State) (i : ℕ) (r : Result Tx × Trace)
      → Gone s i
      → Gone (created_tx wasm ctx digits (suc s.next_tx_id) r s).1 i
  created_tx-Gone s i (err e, t) g =
      let l = g.given_out in record { given_out = omega arith; absent = g.absent }
  created_tx-Gone s i (ok tx, t) g =
      let l = g.given_out in
      let a = g.absent in
      record {
        given_out = omega arith;
        absent = ground (arith, find-put (suc s.next_tx_id) i tx s.txs);
      }

  handle_new_tx-Gone :
      (o : Option Waf) (s : State) (i : ℕ) (t : Trace)
      → Gone s i
      → Gone (handle_new_tx wasm ctx digits o s t).1 i
  unfolding handle_new_tx
  handle_new_tx-Gone none s i t g = g
  handle_new_tx-Gone (some waf) s i t g = created_tx-Gone s i (new_transaction wasm waf t) g

  initialised-Gone :
      (r : Result Waf × Trace) (s : State) (i : ℕ)
      → Gone s i
      → Gone (initialised wasm ctx digits r s).1 i
  initialised-Gone (err e, t) s i g = g
  initialised-Gone (ok waf, t) s i g = record { given_out = g.given_out; absent = g.absent }

  closed_ok-Gone :
      (id : ℕ) (logged : Result (Unit {0})) (r : Result (Unit {0}) × Tx × Trace) (s : State) (i : ℕ)
      → (id == i) ≡ false
      → Gone s i
      → Gone (closed_ok wasm ctx digits id logged r s).1 i
  closed_ok-Gone id logged (err e, tx, t) s i h g =
      let a = g.absent in
      record { given_out = g.given_out; absent = ground (arith, find-put id i tx s.txs) }
  closed_ok-Gone id logged (ok u, tx, t) s i h g =
      let a = g.absent in
      record { given_out = g.given_out; absent = ground (arith, find-delete id i s.txs) }

  apart :
      (id i : ℕ) (tx : Tx) (m : List (ℕ × Tx))
      → Map.find id m ≡ some tx
      → Map.find i m ≡ none
      → (id == i) ≡ false
  apart id i tx m h k = elim (Bool-cases (id == i)) [
    | inl e ↦
        let q : id ≡ i = ground arith in
        let b : Map.find i m ≡ some tx = subst (λ x. Map.find x m ≡ some tx) q h in cc
    | inr e ↦ e
  ]

  handle_close-Gone :
      (id : ℕ) (o : Option Tx) (s : State) (i : ℕ) (t : Trace)
      → Map.find id s.txs ≡ o
      → Gone s i
      → Gone (handle_close wasm ctx digits id o s t).1 i
  unfolding handle_close
  handle_close-Gone id none s i t h g = g
  handle_close-Gone id (some tx) s i t h g =
      closed_ok-Gone id _ (close wasm tx (process_logging wasm tx t).1) s i
        (apart id i tx s.txs h g.absent) g

  on_message-Gone :
      (msg : Msg) (s : State) (i : ℕ) (t : Trace)
      → Gone s i
      → Gone (on_message wasm ctx digits msg s t).1 i
  unfolding on_message handle_shutdown Map.find
  on_message-Gone init s i t g = initialised-Gone (from_abi wasm ctx.rules ctx.mode t) s i g
  on_message-Gone new_tx s i t g = handle_new_tx-Gone s.waf s i t g
  on_message-Gone (proc id op) s i t g =
      subst (λ x. Gone x i)
        (sym (with_tx-state id _ (Map.find id s.txs) s t λ tx. handle_proc-state tx op s t)) g
  on_message-Gone (pred id which) s i t g =
      subst (λ x. Gone x i)
        (sym (with_tx-state id _ (Map.find id s.txs) s t λ tx. handle_pred-state tx which s t)) g
  on_message-Gone (get id which) s i t g =
      subst (λ x. Gone x i)
        (sym (with_tx-state id _ (Map.find id s.txs) s t λ tx. handle_get-state tx which s t)) g
  on_message-Gone (Msg.reset id) s i t g =
      subst (λ x. Gone x i) (sym (with_tx-state id _ (Map.find id s.txs) s t λ tx. refl)) g
  on_message-Gone (Msg.close id) s i t g = handle_close-Gone id (Map.find id s.txs) s i t refl g
  on_message-Gone shutdown s i t g = record { given_out = g.given_out; absent = refl }

  -- The messages handled one after the other.
  unfoldable pub handle_all : List Msg → State → Trace → State × Trace
  handle_all [] s t = (s, t)
  handle_all (msg ∷ msgs) s t =
      let r = on_message wasm ctx digits msg s t in handle_all msgs r.1 r.2

  handle_all-Gone :
      (msgs : List Msg) (s : State) (i : ℕ) (t : Trace) → Gone s i → Gone (handle_all msgs s t).0 i
  unfolding handle_all
  handle_all-Gone [] s i t g = g
  handle_all-Gone (msg ∷ msgs) s i t g = handle_all-Gone msgs _ i _ (on_message-Gone msg s i t g)

-- Once the transaction of an id that was given out has left the worker's map (by a `close` or by
-- `shutdown`), then whatever messages follow, new transactions included, the id stays unknown: a
-- later `proc`, `pred`, `get` or `reset` on it is rejected with the error of an unknown id, and a
-- later `close` is answered without a value, each without a call of the module and with the state as
-- it was.
pub handle_all-unknown :
    (wasm : Module) {J : Type 0} (ctx : Context J) (digits : ℕ → Text) (msgs : List Msg) (s : State)
    (t : Trace) (i : ℕ) (op : Proc) (which : Pred) (what : Get)
    → Gone s i
    → let r = handle_all wasm ctx digits msgs s t in
      (on_message wasm ctx digits (proc i op) r.0 r.1 ≡ (rejected (unknown_tx digits i), r.0, r.1))
      × (on_message wasm ctx digits (pred i which) r.0 r.1
          ≡ (rejected (unknown_tx digits i), r.0, r.1))
      × (on_message wasm ctx digits (get i what) r.0 r.1
          ≡ (rejected (unknown_tx digits i), r.0, r.1))
      × (on_message wasm ctx digits (Msg.reset i) r.0 r.1
          ≡ (rejected (unknown_tx digits i), r.0, r.1))
      × (on_message wasm ctx digits (Msg.close i) r.0 r.1 ≡ (fulfilled nothing, r.0, r.1))
unfolding on_message with_tx handle_close
handle_all-unknown wasm ctx digits msgs s t i op which what g =
    let a = (handle_all-Gone wasm ctx digits msgs s i t g).absent in
    (rw a refl, rw a refl, rw a refl, rw a refl, rw a refl)
