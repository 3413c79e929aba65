-- ===== src/Pool/Rotation/Answers.antt =====
-- Moves that answer what waits on a worker of packages/core/src/pool.ts, and close its transactions.
use coraza_node.Base.{
  ℕ, zero, suc, ◌-◌, ◌≤◌, ◌<◌, ◌≡◌, refl, sym, ap, ◌∙◌, subst, true, false, List, [], ◌∷◌, Option,
  some, length, length-set, get_or, get_elem?, set, arith, dec_lt,
}
use coraza_node.Base.Map as Map
use coraza_node.Pool.{
  Msg, init, new_tx, shutdown, proc, pred, get, reset, close, rejected, WorkerSlot, empty_slot,
  call_slot, on_message, settle, close_finish, is_drained,
}
use coraza_node.Pool.Rotation.{PoolState, at, with_worker, contains, post, resume, continued}
use coraza_node.Pool.Rotation.Moves.{Move, posted, replied}

pub data Moves (limit : Option ℕ) (J : Type 0) : PoolState → PoolState → Type 0 where
  stay : {s : PoolState} → Moves limit J s s
  go : {s t u : PoolState} → Move limit J s t → Moves limit J t u → Moves limit J s u

pub get_or-set-same :
    {A : Type 0} (xs : List A) (w : ℕ) (x d : A) → w < length xs → get_or (set xs w x) w d ≡ x
get_or-set-same [] w x d lt = absurd (omega (arith, lt))
get_or-set-same (y ∷ xs) zero x d lt = refl
get_or-set-same (y ∷ xs) (suc w) x d lt = get_or-set-same xs w x d (omega (arith, lt))

pub get_elem-set :
    {A : Type 0} (xs : List A) (r : ℕ) (x y : A)
    → get_elem? xs r ≡ some y
    → get_elem? (set xs r x) r ≡ some x
get_elem-set [] r x y e = absurd cc
get_elem-set (z ∷ xs) zero x y e = refl
get_elem-set (z ∷ xs) (suc r) x y e = get_elem-set xs r x y e

length-delete : {V : Type 0} (k : ℕ) (m : List (ℕ × V)) → length (Map.delete k m) ≤ length m
unfolding Map.delete
length-delete k [] = omega arith
length-delete k ((j, v) ∷ m) = ground (arith, length-delete k m)

-- The pool after some moves that change one worker's slot only.
pub record Later (limit : Option ℕ) (J : Type 0) (s : PoolState) (w : ℕ) (P : WorkerSlot → Type 0)
    : Type 0 where
  pub state : PoolState
  pub moves : Moves limit J s state
  pub rotations_kept : state.rotations ≡ s.rotations
  pub workers_kept : length state.workers ≡ length s.workers
  pub exits_kept : state.exits ≡ s.exits
  pub holds : P (at state w)

module _ (limit : Option ℕ) (J : Type 0) where
  pub both : {a b c : PoolState} → Moves limit J a b → Moves limit J b c → Moves limit J a c
  both stay ns = ns
  both (go m ms) ns = go m (both ms ns)

  append :
      {s t : PoolState} {w : ℕ} {P : WorkerSlot → Type 0}
      → Moves limit J s t
      → t.rotations ≡ s.rotations
      → length t.workers ≡ length s.workers
      → t.exits ≡ s.exits
      → Later limit J t w P
      → Later limit J s w P
  append {s = s} {t = t} ms e l g x = record {
    state = x.state;
    moves = both ms x.moves;
    rotations_kept = x.rotations_kept ∙ e;
    workers_kept = x.workers_kept ∙ l;
    exits_kept = x.exits_kept ∙ g;
    holds = x.holds;
  }

  -- A rejected message leaves its slot without the entry.
  rejected-pending :
      (s : PoolState) (w : ℕ) (slot : WorkerSlot) (msg : Msg)
      → (slot' : WorkerSlot) × (continued limit {J = J} s w slot (some msg) (rejected [])
          ≡ with_worker s w slot')
        × (slot'.pending ≡ slot.pending)
  unfolding close_finish
  rejected-pending s w slot init = (slot, refl, refl)
  rejected-pending s w slot new_tx = (slot, refl, refl)
  rejected-pending s w slot shutdown = (slot, refl, refl)
  rejected-pending s w slot (proc i p) = (slot, refl, refl)
  rejected-pending s w slot (pred i p) = (slot, refl, refl)
  rejected-pending s w slot (get i p) = (slot, refl, refl)
  rejected-pending s w slot (reset i) = (slot, refl, refl)
  rejected-pending s w slot (close i) = (close_finish slot, refl, refl)

  abbrev IsAnswered : WorkerSlot → Type 0
  IsAnswered slot = slot.pending ≡ []

  head-found : (k : ℕ) (msg : Msg) (m : List (ℕ × Msg)) → Map.find k ((k, msg) ∷ m) ≡ some msg
  unfolding Map.find
  head-found k msg m = ground arith

  head-deleted :
      (k : ℕ) (msg : Msg) (m : List (ℕ × Msg)) → length (Map.delete k ((k, msg) ∷ m)) ≤ length m
  unfolding Map.delete
  head-deleted k msg m = ground (arith, length-delete k m)

  head-reply :
      (s : PoolState) (w k : ℕ) (msg : Msg) (m : List (ℕ × Msg))
      → (at s w).pending ≡ (k, msg) ∷ m
      → (slot : WorkerSlot) × (resume limit {J = J} s w k (rejected []) ≡ with_worker s w slot)
        × (length slot.pending ≤ length m)
  unfolding resume on_message
  head-reply s w k msg m e =
      let settled : WorkerSlot = record (at s w) { pending = Map.delete k (at s w).pending } in
      let c = rejected-pending s w settled msg in
      let found : Map.find k (at s w).pending ≡ some msg = ap (Map.find k) e ∙ head-found k msg m in
      let shorter : length settled.pending ≤ length m =
        subst (λ (l : List (ℕ × Msg)). length (Map.delete k l) ≤ length m) (sym e)
          (head-deleted k msg m) in
      (
        c.0,
        ap
              (λ (o : Option Msg).
                continued limit {J = J} s w (settle {J = J} o k (rejected []) (at s w)).0 o
                  (rejected []))
              found
            ∙ c.1,
        subst (λ (l : List (ℕ × Msg)). length l ≤ length m) (sym c.2) shorter,
      )

  -- The replies to all that waits.
  pub answer :
      (bound : ℕ) (s : PoolState) (w : ℕ) (m : List (ℕ × Msg))
      → (at s w).pending ≡ m
      → length m ≤ bound
      → w < length s.workers
      → contains w s.exits ≡ false
      → Later limit J s w IsAnswered
  answer bound s w [] e le lt live = record {
    state = s;
    moves = stay;
    rotations_kept = refl;
    workers_kept = refl;
    exits_kept = refl;
    holds = e;
  }
  answer zero s w ((k, msg) ∷ m) e le lt live = absurd (omega (arith, le))
  answer (suc bound) s w ((k, msg) ∷ m) e le lt live =
      let (slot, same, shorter) = head-reply s w k msg m e in
      let t : PoolState = with_worker s w slot in
      let here : at t w ≡ slot = get_or-set-same s.workers w slot empty_slot lt in
      append (go (subst (Move limit J s) same (replied w k (rejected []) live)) stay) refl
        (length-set s.workers w slot) refl
        (answer bound t w (at t w).pending refl
          (omega (arith, le, shorter, ap (λ (x : WorkerSlot). length x.pending) here))
          (omega (arith, lt, length-set s.workers w slot)) live)

  close-reply :
      (s : PoolState) (w k : ℕ)
      → (at s w).pending ≡ (k, close 0) ∷ []
      → (slot : WorkerSlot) × (resume limit {J = J} s w k (rejected []) ≡ with_worker s w slot)
        × (slot.pending ≡ [])
        × (slot.busy ≡ (at s w).busy - 1)
  unfolding resume on_message close_finish
  close-reply s w k e =
      let settled : WorkerSlot = record (at s w) { pending = Map.delete k (at s w).pending } in
      let found : Map.find k (at s w).pending ≡ some (close 0) =
        ap (Map.find k) e ∙ head-found k (close 0) [] in
      (
        record settled { busy = settled.busy - 1 },
        ap
            (λ (o : Option Msg).
              continued limit {J = J} s w (settle {J = J} o k (rejected []) (at s w)).0 o
                (rejected []))
            found,
        ap (Map.delete k) e ∙ gone k,
        refl,
      )
    where
      none_left : (m : List (ℕ × Msg)) → length m ≤ 0 → m ≡ []
      none_left [] le = refl
      none_left (x ∷ m) le = absurd (omega (arith, le))

      gone : (k : ℕ) → Map.delete k ((k, close 0) ∷ []) ≡ []
      gone k = none_left (Map.delete k ((k, close 0) ∷ [])) (head-deleted k (close 0) [])

  abbrev IsDrained : WorkerSlot → Type 0
  IsDrained slot = is_drained slot ≡ true

  idle-IsDrained : (slot : WorkerSlot) → slot.pending ≡ [] → ¬ 0 < slot.busy → IsDrained slot
  unfolding is_drained
  idle-IsDrained slot e idle = ground (arith, ap (λ (m : List (ℕ × Msg)). length m) e, idle)

  posted-pending :
      (s : PoolState) (w : ℕ)
      → (at s w).pending ≡ []
      → (call_slot s.next_req_id (at s w) (close 0)).pending ≡ (s.next_req_id, close 0) ∷ []
  unfolding call_slot Map.put
  posted-pending s w e = ap (Map.put s.next_req_id (close 0)) e

  -- A transaction is closed, and the reply arrives.
  close-one :
      (s : PoolState) (w : ℕ)
      → (at s w).pending ≡ []
      → 0 < (at s w).busy
      → w < length s.workers
      → contains w s.exits ≡ false
      → (t : PoolState) × Moves limit J s t
        × (t.rotations ≡ s.rotations)
        × (length t.workers ≡ length s.workers)
        × (t.exits ≡ s.exits)
        × ((at t w).pending ≡ [])
        × ((at t w).busy ≡ (at s w).busy - 1)
  unfolding post call_slot
  close-one s w e busy lt live =
      let t : PoolState = post s w (close 0) in
      let here : at t w ≡ call_slot s.next_req_id (at s w) (close 0) =
        get_or-set-same s.workers w (call_slot s.next_req_id (at s w) (close 0)) empty_slot lt in
      let (slot, same, none_waits, fewer) =
        close-reply t w s.next_req_id
          (ap (λ (x : WorkerSlot). x.pending) here ∙ posted-pending s w e) in
      let len : length t.workers ≡ length s.workers =
        length-set s.workers w (call_slot s.next_req_id (at s w) (close 0)) in
      let there : at (with_worker t w slot) w ≡ slot =
        get_or-set-same t.workers w slot empty_slot (omega (arith, lt, len)) in
      (
        with_worker t w slot,
        go (posted w (close 0) refl busy)
            (go (subst (Move limit J t) same (replied w s.next_req_id (rejected []) live)) stay),
        refl,
        length-set t.workers w slot ∙ len,
        refl,
        ap (λ (x : WorkerSlot). x.pending) there ∙ none_waits,
        ap (λ (x : WorkerSlot). x.busy) there ∙ fewer ∙ ap (λ (x : WorkerSlot). x.busy - 1) here,
      )

  -- Each open transaction is closed.
  pub drain :
      (bound : ℕ) (s : PoolState) (w : ℕ)
      → (at s w).pending ≡ []
      → (at s w).busy ≤ bound
      → w < length s.workers
      → contains w s.exits ≡ false
      → Later limit J s w IsDrained
  drain zero s w e le lt live = record {
    state = s;
    moves = stay;
    rotations_kept = refl;
    workers_kept = refl;
    exits_kept = refl;
    holds = idle-IsDrained (at s w) e (omega (arith, le));
  }
  drain (suc bound) s w e le lt live = elim (dec_lt 0 (at s w).busy) [
    | no idle ↦ record {
      state = s;
      moves = stay;
      rotations_kept = refl;
      workers_kept = refl;
      exits_kept = refl;
      holds = idle-IsDrained (at s w) e idle;
    }
    | yes open' ↦
        let (t, ms, r, l, g, p, b) = close-one s w e open' lt live in
        append ms r l g (
          drain bound t w p (omega (arith, b, le)) (omega (arith, l, lt))
            (ap (contains w) g ∙ live))
  ]
