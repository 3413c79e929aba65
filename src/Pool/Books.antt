-- ===== src/Pool/Books.antt =====
-- The count `busy` of a slot of packages/core/src/pool.ts against the handles that callers hold.
use coraza_node.Base.{
  ℕ, zero, suc, ◌+◌, ◌-◌, ◌==◌, All, ◌≡◌, refl, ap, some_eq, ◌∙◌, false, List, [], ◌∷◌, Option,
  none, some, get_elem?, set, if◌then◌else◌, Bool-cases, inl, inr, arith,
}
use coraza_node.Base.Map as Map
use coraza_node.Pool.Rotation.Indices.{All-get, set-All}
use coraza_node.Pool.{
  Msg, Reply, WorkerSlot, empty_slot, request_tx, accept_tx, WorkerTransaction, close_start,
  close_finish, on_message, settle, call_slot,
}

-- A handle, the calls of its `close` that wait at their `await`, and those whose `finally` has run.
pub record Handle : Type 0 where
  pub tx : WorkerTransaction
  pub awaiting : ℕ
  pub finished : ℕ

abbrev pub fresh : (tx_id : ℕ) → Handle
fresh tx_id = record {
  tx = record { tx_id = tx_id; is_closed = false };
  awaiting = 0;
  finished = 0;
}

pub record Books : Type 0 where
  pub slot : WorkerSlot
  pub handles : List Handle

-- What happens to a slot, in any order: a transaction is requested, its reply handed to the caller,
-- the `close` of a handle called (perhaps again), its `await` resumed, a message received.
pub data BooksEvent (J : Type 0) : Type 0 where
  request : (req_id : ℕ) → BooksEvent J
  accept : (limit : Option ℕ) (tx_id : ℕ) → BooksEvent J
  begin_close : (req_id index : ℕ) → BooksEvent J
  end_close : (index : ℕ) → BooksEvent J
  receive : (req_id : ℕ) → Reply J → BooksEvent J

abbrev pub begin_with : Books → (req_id index : ℕ) → Option Handle → Books
begin_with b req_id index none = b
begin_with b req_id index (some h) =
    let r = close_start req_id h.tx b.slot in
    record {
      slot = r.1;
      handles =
          set b.handles index
            (record h { tx = r.0; awaiting = if r.2 then suc h.awaiting else h.awaiting });
    }

abbrev pub end_with : Books → (index : ℕ) → Option Handle → Books
end_with b index none = b
end_with b index (some h) = if h.awaiting == 0 then b else record {
  slot = close_finish b.slot;
  handles = set b.handles index (record h { awaiting = h.awaiting - 1; finished = suc h.finished });
}

abbrev pub step : {J : Type 0} → Books → BooksEvent J → Books
step b (request req_id) = record b { slot = request_tx req_id b.slot }
step b (accept limit tx_id) = record {
  slot = (accept_tx limit b.slot).0;
  handles = fresh tx_id ∷ b.handles;
}
step b (begin_close req_id index) = begin_with b req_id index (get_elem? b.handles index)
step b (end_close index) = end_with b index (get_elem? b.handles index)
step b (receive req_id reply) = record b { slot = (on_message req_id reply b.slot).0 }

abbrev pub opening : Books
opening = record { slot = empty_slot; handles = [] }

unfoldable pub steps : {J : Type 0} → Books → List (BooksEvent J) → Books
steps b [] = b
steps b (e ∷ es) = steps (step b e) es

abbrev pub weight : Handle → ℕ
weight h = if h.finished == 0 then 1 else 0

-- The handles of which no `close` has finished.
unfoldable pub unfinished : List Handle → ℕ
unfinished [] = 0
unfinished (h ∷ hs) = weight h + unfinished hs

unfinished-set :
    (hs : List Handle) (index : ℕ) (h h' : Handle)
    → get_elem? hs index ≡ some h
    → unfinished (set hs index h') + weight h ≡ unfinished hs + weight h'
unfolding unfinished
unfinished-set [] index h h' e = cc
unfinished-set (x ∷ hs) zero h h' e =
    let q : x ≡ h = some_eq e in let w : weight x ≡ weight h = ap (λ y. weight y) q in omega arith
unfinished-set (x ∷ hs) (suc index) h h' e = let ih = unfinished-set hs index h h' e in omega arith

-- A handle that is open was not closed; one that is closed waits or has finished, once.
abbrev IsOnce : Handle → Type 0
IsOnce h = h.awaiting + h.finished ≡ (if h.tx.is_closed then 1 else 0)

abbrev Kept : Books → Type 0
Kept b = (b.slot.busy ≡ unfinished b.handles) × All IsOnce b.handles

settle-busy :
    {J : Type 0} (o : Option Msg) (req_id : ℕ) (reply : Reply J) (slot : WorkerSlot)
    → (settle o req_id reply slot).0.busy ≡ slot.busy
settle-busy none req_id reply slot = refl
settle-busy (some m) req_id reply slot = refl

close_start-busy :
    (req_id : ℕ) (tx : WorkerTransaction) (slot : WorkerSlot)
    → (close_start req_id tx slot).1.busy ≡ slot.busy
unfolding close_start call_slot
close_start-busy req_id tx slot = elim (Bool-cases tx.is_closed) [
  | inl e ↦ rw e refl
  | inr e ↦ rw e refl
]

abbrev begun : (req_id : ℕ) → Handle → WorkerSlot → Handle
begun req_id h slot =
    let r = close_start req_id h.tx slot in
    record h { tx = r.0; awaiting = if r.2 then suc h.awaiting else h.awaiting }

begun-IsOnce :
    (req_id : ℕ) (h : Handle) (slot : WorkerSlot) → IsOnce h → IsOnce (begun req_id h slot)
unfolding close_start
begun-IsOnce req_id h slot k = elim (Bool-cases h.tx.is_closed) [
  | inl e ↦ rw e (ground (arith, e, k))
  | inr e ↦ rw e (ground (arith, e, k))
]

begin-Kept :
    (b : Books) (req_id index : ℕ) (o : Option Handle)
    → get_elem? b.handles index ≡ o
    → Kept b
    → Kept (begin_with b req_id index o)
begin-Kept b req_id index none e k = k
begin-Kept b req_id index (some h) e k =
    let s = close_start-busy req_id h.tx b.slot in
    let u = unfinished-set b.handles index h (begun req_id h b.slot) e in
    (
      omega (arith, k.0),
      set-All IsOnce (begun req_id h b.slot) b.handles index
          (begun-IsOnce req_id h b.slot (All-get IsOnce b.handles index h e k.1)) k.1,
    )

end-Kept :
    (b : Books) (index : ℕ) (o : Option Handle)
    → get_elem? b.handles index ≡ o
    → Kept b
    → Kept (end_with b index o)
unfolding close_finish
end-Kept b index none e k = k
end-Kept b index (some h) e k =
    let h' : Handle = record h { awaiting = h.awaiting - 1; finished = suc h.finished } in
    let u = unfinished-set b.handles index h h' e in
    let once = All-get IsOnce b.handles index h e k.1 in
    elim (Bool-cases (h.awaiting == 0)) [
      | inl c ↦ rw c k
      | inr c ↦
          let f : h.finished ≡ 0 = ground (arith, once) in
          let w : weight h ≡ 1 = rw f refl in
          let w' : weight h' ≡ 0 = ground arith in
          let count : b.slot.busy - 1 ≡ unfinished (set b.handles index h') =
            omega (arith, k.0, u, w, w') in
          rw c (count, set-All IsOnce h' b.handles index (ground (arith, once, c)) k.1)
    ]

step-Kept : {J : Type 0} (b : Books) (e : BooksEvent J) → Kept b → Kept (step b e)
unfolding request_tx call_slot accept_tx unfinished on_message
step-Kept b (request req_id) k = k
step-Kept b (accept limit tx_id) k = (omega (arith, k.0), (refl, k.1))
step-Kept b (begin_close req_id index) k =
    begin-Kept b req_id index (get_elem? b.handles index) refl k
step-Kept b (end_close index) k = end-Kept b index (get_elem? b.handles index) refl k
step-Kept b (receive req_id reply) k =
    (settle-busy (Map.find req_id b.slot.pending) req_id reply b.slot ∙ k.0, k.1)

steps-Kept : {J : Type 0} (es : List (BooksEvent J)) (b : Books) → Kept b → Kept (steps b es)
unfolding steps
steps-Kept [] b k = k
steps-Kept (e ∷ es) b k = steps-Kept es (step b e) (step-Kept b e k)

-- In any interleaving of requests, accepted transactions, replies and closes of any handles (a
-- handle may be closed again, and a close may stay at its `await`), `busy` is the number of handles
-- of which no close has finished: a handle is counted down once, however often it is closed.
pub steps-busy :
    {J : Type 0} (es : List (BooksEvent J))
    → (steps opening es).slot.busy ≡ unfinished (steps opening es).handles
unfolding unfinished
steps-busy es = (steps-Kept es opening (refl, tt)).0
