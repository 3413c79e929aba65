-- ===== src/Pool.antt =====
-- The main thread's half of packages/core/src/pool.ts. A slot is a worker as its owner sees it: the
-- requests that wait for a reply, the transactions that are open on it and the count of those it
-- has been given. Promises are values of an outcome; a message is delivered by a step of its own.
pub mod Pick
pub mod Replies
pub mod Books
pub mod Rotation
pub mod Create
mod Tests
use coraza_node.Base.{
  ℕ, zero, suc, ◌+◌, ◌-◌, ◌%◌, ◌/◌, Bool, true, false, not, ◌&&◌, ◌||◌, List, [], ◌∷◌, ◌++◌, Option,
  none, some, ◌==◌, ltb, leb, length, max, map, get_or, if◌then◌else◌,
}
use coraza_node.Base.Text.{Text, codes}
use coraza_node.Base.Map as Map
use coraza_node.Wire.Bundle.{RequestInfo, Body}
use coraza_node.Transaction.{ResponseInfo}

-- The messages to a worker, `reqId` apart.
pub data Proc : Type 0 where
  request_bundle : RequestInfo → Body → Proc
  response : ResponseInfo → Proc
  response_body : Body → Proc
  logging : Proc

pub data Pred : Type 0 where
  rule_engine_off req_body_accessible resp_body_accessible resp_body_processable : Pred

pub data Get : Type 0 where
  interruption matched_rules : Get

pub data Msg : Type 0 where
  init new_tx shutdown : Msg
  proc : (tx_id : ℕ) → Proc → Msg
  pred : (tx_id : ℕ) → Pred → Msg
  get : (tx_id : ℕ) → Get → Msg
  reset close : (tx_id : ℕ) → Msg

-- What a reply carries besides `reqId` and `ok`. `J` is what `JSON.parse` yields.
pub data Value (J : Type 0) : Type 0 where
  nothing : Value J
  created : (tx_id : ℕ) → Value J
  interrupted value : Bool → Value J
  json : Option J → Value J

pub data Reply (J : Type 0) : Type 0 where
  fulfilled : Value J → Reply J
  rejected : (error : Text) → Reply J

-- The settlement of a promise that `callSlot` made, by its request id.
abbrev pub Settled : Type 0 → Type 0
Settled J = List (ℕ × Reply J)

-- `Pending` is the message that waits, in place of the two closures that settle its promise.
pub record WorkerSlot : Type 0 where
  pub pending : List (ℕ × Msg)
  pub posted : List (ℕ × Msg)
  pub busy : ℕ
  pub requests : ℕ
  pub rotating : Bool

abbrev pub empty_slot : WorkerSlot
empty_slot = record { pending = []; posted = []; busy = 0; requests = 0; rotating = false }

-- `callSlot`, with the id that the counter gives it.
unfoldable pub call_slot : ℕ → WorkerSlot → Msg → WorkerSlot
call_slot req_id slot msg = record slot {
  pending = Map.put req_id msg slot.pending;
  posted = slot.posted ++ ((req_id, msg) ∷ []);
}

abbrev pub settle : {J : Type 0} → Option Msg → ℕ → Reply J → WorkerSlot → WorkerSlot × Settled J
settle none req_id reply slot = (slot, [])
settle (some msg) req_id reply slot =
    (record slot { pending = Map.delete req_id slot.pending }, (req_id, reply) ∷ [])

-- `worker.on('message')`: an unknown id settles nothing.
unfoldable pub on_message : {J : Type 0} → ℕ → Reply J → WorkerSlot → WorkerSlot × Settled J
on_message req_id reply slot = settle (Map.find req_id slot.pending) req_id reply slot

unfoldable pub reject_all : {J : Type 0} → Text → List (ℕ × Msg) → Settled J
reject_all error [] = []
reject_all error ((req_id, msg) ∷ pending) = (req_id, rejected error) ∷ reject_all error pending

-- `worker.on('error')`
unfoldable pub on_error : {J : Type 0} → Text → WorkerSlot → WorkerSlot × Settled J
on_error error slot = (record slot { pending = [] }, reject_all error slot.pending)

-- `worker.on('exit')`; the code is given by its digits.
unfoldable pub on_exit : {J : Type 0} → Text → WorkerSlot → WorkerSlot × Settled J
on_exit code slot = if length slot.pending == 0 then (slot, []) else (
  record slot { pending = [] },
  reject_all (codes "coraza: pool worker exited (code " ++ (code ++ codes ")")) slot.pending,
)

-- The loop of `#pickSlot`: an index and the least count so far.
unfoldable pub pick_loop : List WorkerSlot → (index best best_busy : ℕ) → ℕ
pick_loop [] index best best_busy = best
pick_loop (s ∷ slots) index best best_busy =
    let closer = pick_loop slots (suc index) index s.busy in
    let same = pick_loop slots (suc index) best best_busy in
    if ltb s.busy best_busy then closer else same

-- `#pickSlot`: the index of the slot, before `#rr++`.
unfoldable pub pick_slot : List WorkerSlot → ℕ → ℕ
pick_slot slots rr =
    let first = rr % length slots in pick_loop slots 0 first (get_or slots first empty_slot).busy

-- `none` stands for `Infinity`, the NaN and the infinities of the argument too.
pub data Limit : Type 0 where
  not_given not_finite : Limit
  below_zero : Limit
  given : (floor : ℕ) → (is_zero : Bool) → Limit

-- The normalisation that `create` makes of `maxRequestsPerWorker` and of `readyTimeoutMs`, on the
-- floor of a number that is not negative.
unfoldable pub normalise : (default : ℕ) → Limit → Option ℕ
normalise default not_given = some default
normalise default not_finite = none
normalise default below_zero = some 1
normalise default (given floor is_zero) = if is_zero then none else some (max 1 floor)

-- `size`: `Math.max(1, requested ?? defaultSize())`
unfoldable pub pool_size : (default_size : ℕ) → Option ℕ → ℕ
pool_size default_size none = max 1 default_size
pool_size default_size (some requested) = max 1 requested

-- The threshold test of `newTransaction`, after the worker's reply.
unfoldable pub rotation_due : Option ℕ → WorkerSlot → Bool
rotation_due none slot = false
rotation_due (some n) slot = not slot.rotating && leb n slot.requests

-- The first half of `newTransaction`, up to the `await`.
unfoldable pub request_tx : ℕ → WorkerSlot → WorkerSlot
request_tx req_id slot = call_slot req_id (record slot { requests = suc slot.requests }) new_tx

-- The second half: the slot and whether `#scheduleRotation` starts, which sets the latch.
unfoldable pub accept_tx : Option ℕ → WorkerSlot → WorkerSlot × Bool
accept_tx limit slot =
    let s = record slot { busy = suc slot.busy } in
    let due = rotation_due limit s in (record s { rotating = s.rotating || due }, due)

pub record WorkerTransaction : Type 0 where
  pub tx_id : ℕ
  pub is_closed : Bool

-- The message that a method posts, `none` where it returns at once.
unfoldable pub process_logging : WorkerTransaction → Option Msg
process_logging tx = if tx.is_closed then none else some (proc tx.tx_id logging)

-- `close` up to its `await`.
unfoldable pub close_start :
    ℕ → WorkerTransaction → WorkerSlot → WorkerTransaction × WorkerSlot × Bool
close_start req_id tx slot =
    let posted = call_slot req_id slot (close tx.tx_id) in
    if tx.is_closed then (tx, slot, false) else (record tx { is_closed = true }, posted, true)

-- The `finally` of `close`: the count stops at zero.
unfoldable pub close_finish : WorkerSlot → WorkerSlot
close_finish slot = record slot { busy = slot.busy - 1 }

-- The condition on which `waitForDrain` returns.
unfoldable pub is_drained : WorkerSlot → Bool
is_drained slot = not (ltb 0 slot.busy || ltb 0 (length slot.pending))

-- The methods of `WorkerTransaction` besides `close`.
pub data Method : Type 0 where
  call_proc : Proc → Method
  call_pred : Pred → Method
  call_get : Get → Method
  call_reset : Method

pub data Posting : Type 0 where
  posts : Msg → Posting
  returns_at_once : Posting
  throws_closed : Posting

abbrev pub logging_posting : Option Msg → Posting
logging_posting none = returns_at_once
logging_posting (some msg) = posts msg

-- What a method posts. Only `processLogging` and `reset` read the flag of a closed handle; the
-- others leave it to the worker, which no longer knows the id.
unfoldable pub posting : WorkerTransaction → Method → Posting
posting tx (call_proc logging) = logging_posting (process_logging tx)
posting tx (call_proc op) = posts (proc tx.tx_id op)
posting tx (call_pred which) = posts (pred tx.tx_id which)
posting tx (call_get which) = posts (get tx.tx_id which)
posting tx call_reset = if tx.is_closed then throws_closed else posts (reset tx.tx_id)
