-- ===== src/Pool/Rotation/Safety.antt =====
-- What holds of a pool of packages/core/src/pool.ts after any moves.
use coraza_node.Base.{
  ℕ, zero, suc, ◌+◌, ◌≤◌, ◌<◌, ◌≡◌, refl, sym, ap, ◌∙◌, true, false, List, [], ◌∷◌, ◌++◌, Option,
  length, get_or, All, arith,
}
use coraza_node.Base.Map as Map
use coraza_node.Pool.{shutdown, empty_slot, call_slot}
use coraza_node.Pool.Rotation.{
  PoolState, at, contains, replacement, post, resume, shut_down, destroy,
}
use coraza_node.Pool.Rotation.Moves.{
  Move, requested, posted, replied, errored, exited, readied, polled, completed, ended, Reach,
  start, later, created, replicate, indices,
}
use coraza_node.Pool.Rotation.Indices.{IsDistinct}
use coraza_node.Pool.Rotation.Slots.{is_stopped, IsIdle}
use coraza_node.Pool.Rotation.Drained.{InvOf, write-Inv, destroyed-Inv}
use coraza_node.Pool.Rotation.Steps.{
  bools_apart, if-Inv, continued-Inv, requested-Inv, posted-Inv, errored-Inv, exited-Inv,
}
use coraza_node.Pool.Rotation.Phases.{ready-Inv, polled-Inv, completed-Inv}

shut_down-Inv :
    {n : ℕ} (s : PoolState) (ws : List ℕ)
    → s.destroyed ≡ true
    → InvOf n s
    → InvOf n (shut_down s ws)
unfolding shut_down post
shut_down-Inv s [] d inv = inv
shut_down-Inv s (w ∷ ws) d inv = shut_down-Inv (post s w shutdown) ws d (
    write-Inv inv w (call_slot s.next_req_id (at s w) shutdown)
      (λ h. absurd (bools_apart (sym h ∙ d))) (λ h. absurd (bools_apart (sym h ∙ d))))

destroy-Inv : {n : ℕ} (s : PoolState) → InvOf n s → InvOf n (destroy s)
unfolding destroy
destroy-Inv {n} s inv =
    let marked : PoolState = record s { destroyed = true; draining = [] } in
    if-Inv s.destroyed s (shut_down marked (s.slots ++ s.draining)) inv
      (shut_down-Inv marked (s.slots ++ s.draining) refl (destroyed-Inv inv s.workers refl))

Move-Inv :
    {n : ℕ} {limit : Option ℕ} {J : Type 0} {s t : PoolState}
    → 0 < n
    → Move limit J s t
    → InvOf n s
    → InvOf n t
unfolding resume
Move-Inv {n} {limit} {J} {s} {t} small (requested e) inv = requested-Inv s inv t small e
Move-Inv {n} {limit} {J} {s} small (posted w msg m busy) inv = posted-Inv s inv w msg m busy
Move-Inv {n} {limit} {J} {s} small (replied w req_id reply live) inv =
    continued-Inv s inv limit w req_id reply (Map.find req_id (at s w).pending) refl
Move-Inv {n} {limit} {J} {s} small (errored w error live) inv = errored-Inv s inv J w error
Move-Inv {n} {limit} {J} {s} small (exited w code lt live) inv = exited-Inv s inv J w code
Move-Inv {n} {limit} {J} {s} small (readied r ok) inv = ready-Inv s inv r ok
Move-Inv {n} {limit} {J} {s} small (polled r) inv = polled-Inv s inv r
Move-Inv {n} {limit} {J} {s} small (completed r dead) inv = completed-Inv s inv r
Move-Inv {n} {limit} {J} {s} small ended inv = destroy-Inv s inv

length-indices : (from n : ℕ) → length (indices from n) ≡ n
length-indices from zero = refl
length-indices from (suc n) = ap suc (length-indices (suc from) n)

indices-fresh : (v from n : ℕ) → v < from → contains v (indices from n) ≡ false
indices-fresh v from zero lt = refl
indices-fresh v from (suc n) lt = ground (arith, lt, indices-fresh v (suc from) n)

indices-IsDistinct : (from n : ℕ) → IsDistinct (indices from n)
indices-IsDistinct from zero = tt
indices-IsDistinct from (suc n) =
    (indices-fresh from (suc from) n (omega arith), indices-IsDistinct (suc from) n)

indices-bounded : (from n m : ℕ) → from + n ≤ m → All (λ w. w < m) (indices from n)
indices-bounded from zero m le = tt
indices-bounded from (suc n) m le =
    (omega (arith, le), indices-bounded (suc from) n m (omega (arith, le)))

length-replicate : {A : Type 0} (n : ℕ) (a : A) → length (replicate n a) ≡ n
length-replicate zero a = refl
length-replicate (suc n) a = ap suc (length-replicate n a)

created-running :
    (n k v : ℕ) → is_stopped (get_or (replicate n (replacement k)) v empty_slot) ≡ false
created-running zero k v = refl
created-running (suc n) k zero = refl
created-running (suc n) k (suc v) = created-running n k v

created-Inv : (n next_req_id : ℕ) → InvOf n (created n next_req_id)
created-Inv n k = record {
  sized = length-indices 0 n;
  is_distinct = indices-IsDistinct 0 n;
  bounded =
      indices-bounded 0 n (length (replicate n (replacement k)))
        (omega (arith, length-replicate n (replacement k)));
  gone = tt;
  quiet = λ d v h. absurd (bools_apart (sym (created-running n k v) ∙ h));
  off = λ d v h. absurd (bools_apart (sym (created-running n k v) ∙ h));
}

pub Reach-Inv :
    {limit : Option ℕ} {J : Type 0} {n : ℕ} {s : PoolState} → 0 < n → Reach limit J n s → InvOf n s
Reach-Inv {n = n} small (start k) = created-Inv n k
Reach-Inv small (later r m) = Move-Inv small m (Reach-Inv small r)

-- In every state that a pool of one worker or more comes to before it is destroyed, whatever the
-- order of requests, replies, failures and rotations: a worker that was told to shut down is out of
-- the slots that new transactions are given to, no transaction is open on it, and no message waits
-- for its reply but the shutdown.
pub Reach-IsIdle :
    {limit : Option ℕ} {J : Type 0} {n : ℕ} {s : PoolState}
    → 0 < n
    → Reach limit J n s
    → s.destroyed ≡ false
    → (w : ℕ) → is_stopped (at s w) ≡ true
    → (contains w s.slots ≡ false) × IsIdle (at s w)
Reach-IsIdle small r d w h = let inv = Reach-Inv small r in (inv.off d w h, inv.quiet d w h)

-- A pool of one worker or more always gives transactions to as many workers as it was created with, all different.
pub Reach-IsDistinct :
    {limit : Option ℕ} {J : Type 0} {n : ℕ} {s : PoolState}
    → 0 < n
    → Reach limit J n s
    → (length s.slots ≡ n) × IsDistinct s.slots × All (λ w. w < length s.workers) s.slots
Reach-IsDistinct small r = let inv = Reach-Inv small r in (inv.sized, inv.is_distinct, inv.bounded)
