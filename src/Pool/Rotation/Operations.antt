-- ===== src/Pool/Rotation/Operations.antt =====
-- The operations on a slot of packages/core/src/pool.ts against its invariant.
use coraza_node.Base.{
  ℕ, suc, ◌-◌, ◌<◌, ◌≡◌, refl, ap, ◌∙◌, Bool, true, false, not, ◌||◌, List, [], ◌∷◌, Option, none,
  some, ◌==◌, length, any, all, ltb, arith, Bool-cases, inl, inr,
}
use coraza_node.Base.Text.{Text}
use coraza_node.Base.Map as Map
use coraza_node.Pool.{
  Msg, init, new_tx, shutdown, proc, pred, get, reset, close, Reply, WorkerSlot, call_slot,
  on_message, settle, on_error, on_exit, request_tx, accept_tx, close_finish, is_drained,
}
use coraza_node.Pool.Rotation.{finish_closes}
use coraza_node.Pool.Rotation.Slots.{
  is_shutdown, is_shutdown_entry, is_stopped, IsIdle, IsQuiet, all-delete, IsQuiet-running,
  waiting-running, IsQuiet-kept, call_slot-stopped,
}

settle-IsQuiet :
    {J : Type 0} (slot : WorkerSlot) (o : Option Msg) (req_id : ℕ) (reply : Reply J)
    → IsQuiet slot
    → IsQuiet (settle o req_id reply slot).0
settle-IsQuiet slot none req_id reply quiet = quiet
settle-IsQuiet slot (some msg) req_id reply quiet =
    IsQuiet-kept slot (record slot { pending = Map.delete req_id slot.pending }) refl
      (λ idle. (idle.0, all-delete is_shutdown_entry req_id slot.pending idle.1)) quiet

pub on_message-IsQuiet :
    {J : Type 0} (slot : WorkerSlot) (req_id : ℕ) (reply : Reply J)
    → IsQuiet slot
    → IsQuiet (on_message req_id reply slot).0
unfolding on_message
on_message-IsQuiet slot req_id reply quiet =
    settle-IsQuiet slot (Map.find req_id slot.pending) req_id reply quiet

pub close_finish-IsQuiet : (slot : WorkerSlot) → IsQuiet slot → IsQuiet (close_finish slot)
unfolding close_finish
close_finish-IsQuiet slot quiet =
    IsQuiet-kept slot (record slot { busy = slot.busy - 1 }) refl
      (λ idle. (omega (arith, idle.0), idle.1)) quiet

pub accept_tx-IsQuiet :
    {J : Type 0} (limit : Option ℕ) (slot : WorkerSlot) (req_id : ℕ) (reply : Reply J)
    → IsQuiet slot
    → Map.find req_id slot.pending ≡ some new_tx
    → IsQuiet (accept_tx limit (on_message req_id reply slot).0).0
unfolding accept_tx on_message
accept_tx-IsQuiet limit slot req_id reply quiet e =
    IsQuiet-running (accept_tx limit (settle (Map.find req_id slot.pending) req_id reply slot).0).0
      (rw e (waiting-running slot req_id new_tx quiet refl e))

pub request_tx-IsQuiet :
    (req_id : ℕ) (slot : WorkerSlot) → is_stopped slot ≡ false → IsQuiet (request_tx req_id slot)
unfolding request_tx
request_tx-IsQuiet req_id slot h =
    IsQuiet-running (call_slot req_id (record slot { requests = suc slot.requests }) new_tx)
      (call_slot-stopped req_id (record slot { requests = suc slot.requests }) new_tx ∙ rw h refl)

pub method-IsQuiet :
    (req_id : ℕ) (slot : WorkerSlot) (msg : Msg)
    → IsQuiet slot
    → is_shutdown msg ≡ false
    → 0 < slot.busy
    → IsQuiet (call_slot req_id slot msg)
method-IsQuiet req_id slot msg quiet other open' =
    IsQuiet-running (call_slot req_id slot msg)
      (call_slot-stopped req_id slot msg ∙ rw other (rw (running (is_stopped slot) refl) refl))
  where
    running : (b : Bool) → is_stopped slot ≡ b → is_stopped slot ≡ false
    running false q = q
    running true q = absurd (omega (arith, (quiet q).0, open'))

finish_closes-IsIdle :
    (pending : List (ℕ × Msg)) (slot : WorkerSlot)
    → (finish_closes pending slot).posted ≡ slot.posted
      × (IsIdle slot → IsIdle (finish_closes pending slot))
unfolding finish_closes close_finish
finish_closes-IsIdle [] slot = (refl, λ idle. idle)
finish_closes-IsIdle ((k, close tx_id) ∷ m) slot =
    let ih = finish_closes-IsIdle m (record slot { busy = slot.busy - 1 }) in
    (ih.0, λ idle. ih.1 (omega (arith, idle.0), idle.1))
finish_closes-IsIdle ((k, init) ∷ m) slot = finish_closes-IsIdle m slot
finish_closes-IsIdle ((k, new_tx) ∷ m) slot = finish_closes-IsIdle m slot
finish_closes-IsIdle ((k, shutdown) ∷ m) slot = finish_closes-IsIdle m slot
finish_closes-IsIdle ((k, proc i p) ∷ m) slot = finish_closes-IsIdle m slot
finish_closes-IsIdle ((k, pred i p) ∷ m) slot = finish_closes-IsIdle m slot
finish_closes-IsIdle ((k, get i p) ∷ m) slot = finish_closes-IsIdle m slot
finish_closes-IsIdle ((k, reset i) ∷ m) slot = finish_closes-IsIdle m slot

failed-IsQuiet :
    (slot : WorkerSlot) (pending : List (ℕ × Msg))
    → IsQuiet slot
    → IsQuiet (finish_closes pending (record slot { pending = [] }))
failed-IsQuiet slot pending quiet =
    let f = finish_closes-IsIdle pending (record slot { pending = [] }) in
    IsQuiet-kept slot (finish_closes pending (record slot { pending = [] })) f.0
      (λ idle. f.1 (idle.0, refl)) quiet

pub error-IsQuiet :
    (J : Type 0) (error : Text) (slot : WorkerSlot)
    → IsQuiet slot
    → IsQuiet (finish_closes slot.pending (on_error {J = J} error slot).0)
unfolding on_error
error-IsQuiet J error slot quiet = failed-IsQuiet slot slot.pending quiet

pub exit-IsQuiet :
    (J : Type 0) (code : Text) (slot : WorkerSlot)
    → IsQuiet slot
    → IsQuiet (finish_closes slot.pending (on_exit {J = J} code slot).0)
unfolding on_exit
exit-IsQuiet J code slot quiet = elim (Bool-cases (length slot.pending == 0)) [
  | inl e ↦ rw e (
      let f = finish_closes-IsIdle slot.pending slot in
      IsQuiet-kept slot (finish_closes slot.pending slot) f.0 f.1 quiet)
  | inr e ↦ rw e (failed-IsQuiet slot slot.pending quiet)
]

length-zero : (m : List (ℕ × Msg)) → length m ≡ 0 → m ≡ []
length-zero [] e = refl
length-zero (x ∷ m) e = absurd (omega (arith, e))

drained-IsIdle :
    (slot : WorkerSlot) → is_drained slot ≡ true → (slot.busy ≡ 0) × (slot.pending ≡ [])
unfolding is_drained
drained-IsIdle slot h = (
  (below slot.busy (length slot.pending) h).0,
  length-zero slot.pending (below slot.busy (length slot.pending) h).1,
)
  where
    below : (a b : ℕ) → not (ltb 0 a || ltb 0 b) ≡ true → (a ≡ 0) × (b ≡ 0)
    below a b h = ground (arith, h)

pub shutdown-IsQuiet :
    (req_id : ℕ) (slot : WorkerSlot)
    → is_drained slot ≡ true
    → IsQuiet (call_slot req_id slot shutdown)
unfolding call_slot Map.put
shutdown-IsQuiet req_id slot h stopped =
    let d = drained-IsIdle slot h in
    (d.0, ap (λ (m : List (ℕ × Msg)). all is_shutdown_entry (Map.put req_id shutdown m)) d.1)

settle-posted :
    {J : Type 0} (slot : WorkerSlot) (o : Option Msg) (req_id : ℕ) (reply : Reply J)
    → (settle o req_id reply slot).0.posted ≡ slot.posted
settle-posted slot none req_id reply = refl
settle-posted slot (some msg) req_id reply = refl

pub on_message-stopped :
    {J : Type 0} (slot : WorkerSlot) (req_id : ℕ) (reply : Reply J)
    → is_stopped (on_message req_id reply slot).0 ≡ is_stopped slot
unfolding on_message
on_message-stopped slot req_id reply =
    ap (any is_shutdown_entry) (settle-posted slot (Map.find req_id slot.pending) req_id reply)

pub error-stopped :
    (J : Type 0) (error : Text) (slot : WorkerSlot)
    → is_stopped (finish_closes slot.pending (on_error {J = J} error slot).0) ≡ is_stopped slot
unfolding on_error
error-stopped J error slot =
    ap (any is_shutdown_entry) (finish_closes-IsIdle slot.pending (record slot { pending = [] })).0

pub exit-stopped :
    (J : Type 0) (code : Text) (slot : WorkerSlot)
    → is_stopped (finish_closes slot.pending (on_exit {J = J} code slot).0) ≡ is_stopped slot
unfolding on_exit
exit-stopped J code slot = elim (Bool-cases (length slot.pending == 0)) [
  | inl e ↦ rw e (ap (any is_shutdown_entry) (finish_closes-IsIdle slot.pending slot).0)
  | inr e ↦ rw e (
      ap (any is_shutdown_entry)
        (finish_closes-IsIdle slot.pending (record slot { pending = [] })).0)
]

pub posts-stopped :
    (req_id : ℕ) (slot : WorkerSlot) (msg : Msg)
    → is_shutdown msg ≡ false
    → is_stopped (call_slot req_id slot msg) ≡ is_stopped slot
posts-stopped req_id slot msg other =
    call_slot-stopped req_id slot msg ∙ or_false (is_stopped slot) (is_shutdown msg) other
  where
    or_false : (a b : Bool) → b ≡ false → (a || b) ≡ a
    or_false a b h = ground (arith, h)

pub request_tx-stopped :
    (req_id : ℕ) (slot : WorkerSlot) → is_stopped (request_tx req_id slot) ≡ is_stopped slot
unfolding request_tx
request_tx-stopped req_id slot =
    posts-stopped req_id (record slot { requests = suc slot.requests }) new_tx refl
