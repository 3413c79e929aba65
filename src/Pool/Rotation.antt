-- ===== src/Pool/Rotation.antt =====
-- The pool of packages/core/src/pool.ts as its callers and its workers drive it: `newTransaction`,
-- the replies, `#scheduleRotation` and `destroy`. An event is one turn of the event loop with the
-- continuations that it resumes, so the code between two awaits is never split.
pub mod Indices
pub mod Moves
pub mod Slots
pub mod Operations
pub mod Drained
pub mod Steps
pub mod Phases
pub mod Safety
pub mod Answers
pub mod Progress
pub mod Stuck
pub mod Endless
mod Tests
use coraza_node.Base.{
  ℕ, zero, suc, ◌+◌, ◌-◌, ◌<◌, ◌≡◌, Bool, true, false, not, ◌&&◌, ◌||◌, List, [], ◌∷◌, ◌++◌, Option,
  none, some, ◌==◌, map, length, get_or, get_elem?, set, if◌then◌else◌,
}
use coraza_node.Base.Text.{Text}
use coraza_node.Base.Map as Map
use coraza_node.Pool.{
  Msg, init, new_tx, shutdown, proc, pred, get, reset, close, Reply, fulfilled, rejected,
  WorkerSlot, empty_slot, call_slot, on_message, on_error, on_exit, pick_slot, request_tx,
  accept_tx, close_finish, is_drained,
}

-- Where the function of `#scheduleRotation` stands: it waits for the replacement, polls the old
-- slot, waits for its shutdown, is through; or it kept the old worker, or gave up the new one.
pub data Phase : Type 0 where
  starting polling stopping complete kept discarded : Phase

-- The old slot by its index among the workers. The replacement belongs to the rotation until the swap.
pub record Rotation : Type 0 where
  pub old : ℕ
  pub phase : Phase

-- `workers` are the slots that have ever stood in `#slots`, which holds their indices, as do the
-- sets of the pool. `exits` are those whose thread has exited, by itself or by `terminate`.
pub record PoolState : Type 0 where
  pub workers : List WorkerSlot
  pub slots : List ℕ
  pub draining : List ℕ
  pub rr : ℕ
  pub destroyed : Bool
  pub next_req_id : ℕ
  pub rotations : List Rotation
  pub exits : List ℕ

abbrev pub at : PoolState → ℕ → WorkerSlot
at s w = get_or s.workers w empty_slot

abbrev pub with_worker : PoolState → ℕ → WorkerSlot → PoolState
with_worker s w slot = record s { workers = set s.workers w slot }

abbrev pub contains : ℕ → List ℕ → Bool
contains w [] = false
contains w (v ∷ vs) = v == w || contains w vs

abbrev pub without : ℕ → List ℕ → List ℕ
without w [] = []
without w (v ∷ vs) = if v == w then without w vs else v ∷ without w vs

-- `indexOf`, none for -1.
abbrev pub one_further : Option ℕ → Option ℕ
one_further none = none
one_further (some i) = some (suc i)

unfoldable pub index_of : ℕ → List ℕ → Option ℕ
index_of w [] = none
index_of w (v ∷ vs) = let rest = index_of w vs in if v == w then some 0 else one_further rest

-- `newTransaction` up to its `await`, none where it throws.
unfoldable pub request : PoolState → Option PoolState
request s =
    let w = get_or s.slots (pick_slot (map (at s) s.slots) s.rr) 0 in
    let picked = with_worker s w (request_tx s.next_req_id (at s w)) in
    if s.destroyed
    then none
    else some (record picked { rr = suc s.rr; next_req_id = suc s.next_req_id })

-- `callSlot` on a worker of the pool.
unfoldable pub post : PoolState → ℕ → Msg → PoolState
post s w msg =
    let posted = with_worker s w (call_slot s.next_req_id (at s w) msg) in
    record posted { next_req_id = suc s.next_req_id }

module _ (limit : Option ℕ) where
  -- The rest of `newTransaction`; a rotation starts where it is due.
  abbrev pub accepted : PoolState → ℕ → WorkerSlot × Bool → PoolState
  accepted s w (slot, due) =
      let s' = with_worker s w slot in
      record s' {
        rotations =
            if due then s.rotations ++ (record { old = w; phase = starting } ∷ []) else s.rotations;
      }

  -- What runs after the reply to a message.
  abbrev pub continued :
      {J : Type 0} → PoolState → ℕ → WorkerSlot → Option Msg → Reply J → PoolState
  continued s w slot (some new_tx) (fulfilled v) = accepted s w (accept_tx limit slot)
  continued s w slot (some (close tx_id)) reply = with_worker s w (close_finish slot)
  continued s w slot _ reply = with_worker s w slot

  -- A reply arrives.
  unfoldable pub resume : {J : Type 0} → PoolState → ℕ → (req_id : ℕ) → Reply J → PoolState
  resume s w req_id reply =
      continued s w (on_message req_id reply (at s w)).0 (Map.find req_id (at s w).pending) reply

-- The `finally` of each `close` that was waiting.
unfoldable pub finish_closes : List (ℕ × Msg) → WorkerSlot → WorkerSlot
finish_closes [] slot = slot
finish_closes ((req_id, close tx_id) ∷ pending) slot = finish_closes pending (close_finish slot)
finish_closes ((req_id, _) ∷ pending) slot = finish_closes pending slot

-- A worker fails: each waiting promise is rejected.
unfoldable pub fail_error : (J : Type 0) → PoolState → ℕ → Text → PoolState
fail_error J s w error =
    with_worker s w (finish_closes (at s w).pending (on_error {J = J} error (at s w)).0)

unfoldable pub fail_exit : (J : Type 0) → PoolState → ℕ → Text → PoolState
fail_exit J s w code =
    let failed =
      with_worker s w (finish_closes (at s w).pending (on_exit {J = J} code (at s w)).0) in
    record failed { exits = w ∷ s.exits }

abbrev pub set_phase : PoolState → ℕ → Rotation → Phase → PoolState
set_phase s r rotation phase = record s {
  rotations = set s.rotations r (record rotation { phase = phase });
}

-- The replacement after its `init`, which has been answered.
abbrev pub replacement : ℕ → WorkerSlot
replacement req_id = record empty_slot { posted = (req_id, init) ∷ [] }

-- The swap, or the shutdown of the replacement where the pool is destroyed or the slot is gone.
abbrev pub exchanged : PoolState → ℕ → Rotation → (index : ℕ) → PoolState
exchanged s r rotation index = record {
  workers = s.workers ++ (replacement s.next_req_id ∷ []);
  slots = set s.slots index (length s.workers);
  draining =
      if contains rotation.old s.draining then s.draining else s.draining ++ (rotation.old ∷ []);
  rr = s.rr;
  destroyed = s.destroyed;
  next_req_id = suc s.next_req_id;
  rotations = set s.rotations r (record rotation { phase = polling });
  exits = s.exits;
}

abbrev pub swapped : PoolState → ℕ → Rotation → Option ℕ → PoolState
swapped s r rotation none = set_phase s r rotation discarded
swapped s r rotation (some index) =
    if s.destroyed then set_phase s r rotation discarded else exchanged s r rotation index

-- A replacement that fails leaves the old worker where it is, to be rotated again.
abbrev pub kept_old : PoolState → ℕ → Rotation → PoolState
kept_old s r rotation =
    set_phase (with_worker s rotation.old (record (at s rotation.old) { rotating = false })) r
      rotation kept

abbrev pub replace : PoolState → ℕ → Rotation → (ok : Bool) → PoolState
replace s r rotation true = swapped s r rotation (index_of rotation.old s.slots)
replace s r rotation false = kept_old s r rotation

abbrev pub ready_at : PoolState → ℕ → (ok : Bool) → Rotation → Phase → PoolState
ready_at s r ok rotation starting = replace s r rotation ok
ready_at s r ok rotation _ = s

abbrev pub ready_with : PoolState → ℕ → (ok : Bool) → Option Rotation → PoolState
ready_with s r ok none = s
ready_with s r ok (some rotation) = ready_at s r ok rotation rotation.phase

-- The replacement answered its `init`, or failed before.
unfoldable pub ready : PoolState → ℕ → (ok : Bool) → PoolState
ready s r ok = ready_with s r ok (get_elem? s.rotations r)

-- A turn of `waitForDrain`: a drained worker is told to shut down.
abbrev pub poll_at : PoolState → ℕ → Rotation → Phase → PoolState
poll_at s r rotation polling =
    if is_drained (at s rotation.old)
    then set_phase (post s rotation.old shutdown) r rotation stopping
    else s
poll_at s r rotation _ = s

abbrev pub poll_with : PoolState → ℕ → Option Rotation → PoolState
poll_with s r none = s
poll_with s r (some rotation) = poll_at s r rotation rotation.phase

unfoldable pub poll : PoolState → ℕ → PoolState
poll s r = poll_with s r (get_elem? s.rotations r)

abbrev pub complete_at : PoolState → ℕ → Rotation → Phase → PoolState
complete_at s r rotation stopping = record (set_phase s r rotation complete) {
  draining = without rotation.old s.draining;
}
complete_at s r rotation _ = s

abbrev pub complete_with : PoolState → ℕ → Option Rotation → PoolState
complete_with s r none = s
complete_with s r (some rotation) = complete_at s r rotation rotation.phase

-- The shutdown is answered or fails, and `terminate` is through: the thread has exited.
abbrev pub has_exited : PoolState → Option Rotation → Bool
has_exited s none = false
has_exited s (some rotation) = contains rotation.old s.exits

unfoldable pub complete_rotation : PoolState → ℕ → PoolState
complete_rotation s r = complete_with s r (get_elem? s.rotations r)

unfoldable pub shut_down : PoolState → List ℕ → PoolState
shut_down s [] = s
shut_down s (w ∷ ws) = shut_down (post s w shutdown) ws

-- `destroy` up to its `await`.
unfoldable pub destroy : PoolState → PoolState
destroy s =
    let active = s.slots ++ s.draining in
    let marked = record s { destroyed = true; draining = [] } in
    let done = shut_down marked active in if s.destroyed then s else done
