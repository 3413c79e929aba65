-- ===== src/Pool/Rotation/Moves.antt =====
-- What can happen to a pool of packages/core/src/pool.ts, in any order, from `create` on.
use coraza_node.Base.{
  ℕ, zero, suc, ◌<◌, ◌≡◌, Bool, true, false, List, [], ◌∷◌, Option, some, length, get_elem?,
}
use coraza_node.Base.Text.{Text}
use coraza_node.Pool.{Msg, proc, pred, get, reset, close, Reply}
use coraza_node.Pool.Rotation.{
  PoolState, at, request, post, resume, fail_error, fail_exit, replacement, ready, poll,
  complete_rotation, destroy, contains, has_exited,
}

abbrev pub replicate : {A : Type 0} → ℕ → A → List A
replicate zero a = []
replicate (suc n) a = a ∷ replicate n a

abbrev pub indices : (from n : ℕ) → List ℕ
indices from zero = []
indices from (suc n) = from ∷ indices (suc from) n

-- The pool when `create` has initialised its workers.
abbrev pub created : (size next_req_id : ℕ) → PoolState
created size next_req_id = record {
  workers = replicate size (replacement next_req_id);
  slots = indices 0 size;
  draining = [];
  rr = 0;
  destroyed = false;
  next_req_id = next_req_id;
  rotations = [];
  exits = [];
}

-- The messages that the methods of a transaction post.
abbrev pub is_method : Msg → Bool
is_method (proc tx_id op) = true
is_method (pred tx_id which) = true
is_method (get tx_id which) = true
is_method (reset tx_id) = true
is_method (close tx_id) = true
is_method _ = false

-- A method posts while its transaction counts as open on the worker. Nothing comes from a worker
-- once its thread has exited; a rotation completes when the thread of its old worker has.
pub data Move (limit : Option ℕ) (J : Type 0) : PoolState → PoolState → Type 0 where
  requested : {s t : PoolState} → request s ≡ some t → Move limit J s t
  posted :
      {s : PoolState} (w : ℕ) (msg : Msg)
      → is_method msg ≡ true
      → 0 < (at s w).busy
      → Move limit J s (post s w msg)
  replied :
      {s : PoolState} (w req_id : ℕ) (reply : Reply J)
      → contains w s.exits ≡ false
      → Move limit J s (resume limit s w req_id reply)
  errored :
      {s : PoolState} (w : ℕ) (error : Text)
      → contains w s.exits ≡ false
      → Move limit J s (fail_error J s w error)
  exited :
      {s : PoolState} (w : ℕ) (code : Text)
      → w < length s.workers
      → contains w s.exits ≡ false
      → Move limit J s (fail_exit J s w code)
  readied : {s : PoolState} (r : ℕ) (ok : Bool) → Move limit J s (ready s r ok)
  polled : {s : PoolState} (r : ℕ) → Move limit J s (poll s r)
  completed :
      {s : PoolState} (r : ℕ)
      → has_exited s (get_elem? s.rotations r) ≡ true
      → Move limit J s (complete_rotation s r)
  ended : {s : PoolState} → Move limit J s (destroy s)

pub data Reach (limit : Option ℕ) (J : Type 0) (size : ℕ) : PoolState → Type 0 where
  start : (next_req_id : ℕ) → Reach limit J size (created size next_req_id)
  later : {s t : PoolState} → Reach limit J size s → Move limit J s t → Reach limit J size t
