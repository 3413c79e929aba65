-- ===== src/Pool/Replies.antt =====
-- The requests to a worker and their settlement, for packages/core/src/pool.ts.
use coraza_node.Base.{
  ℕ, suc, ◌+◌, ◌≤◌, ◌≡◌, refl, subst, true, List, [], ◌∷◌, ◌++◌, some, ◌==◌, length, if◌then◌else◌,
  Bool-cases, Option-cases, inl, inr, arith,
}
use coraza_node.Base.Text.{Text}
use coraza_node.Base.Map as Map
use coraza_node.Pool.{
  Msg, Reply, Settled, WorkerSlot, empty_slot, call_slot, settle, on_message, reject_all, on_error,
  on_exit,
}

-- How often an id occurs.
unfoldable pub count {ℓ} : {A : Type ℓ} → ℕ → List (ℕ × A) → ℕ
count i [] = 0
count i ((j, a) ∷ xs) = if i == j then suc (count i xs) else count i xs

-- What happens to a slot. `elsewhere` is a call on another slot, which takes an id of the counter.
pub data SlotEvent (J : Type 0) : Type 0 where
  post : Msg → SlotEvent J
  elsewhere : SlotEvent J
  message : ℕ → Reply J → SlotEvent J
  error exit : Text → SlotEvent J

pub record Run (J : Type 0) : Type 0 where
  pub slot : WorkerSlot
  pub next_req_id : ℕ
  pub settled : Settled J

abbrev pub start : {J : Type 0} → Run J
start = record { slot = empty_slot; next_req_id = 1; settled = [] }

abbrev pub after : {J : Type 0} → Run J → WorkerSlot × Settled J → Run J
after r s = record r { slot = s.0; settled = s.1 ++ r.settled }

abbrev pub step : {J : Type 0} → Run J → SlotEvent J → Run J
step r (post msg) = record r {
  slot = call_slot r.next_req_id r.slot msg;
  next_req_id = suc r.next_req_id;
}
step r elsewhere = record r { next_req_id = suc r.next_req_id }
step r (message req_id reply) = after r (on_message req_id reply r.slot)
step r (error e) = after r (on_error e r.slot)
step r (exit c) = after r (on_exit c r.slot)

unfoldable pub steps : {J : Type 0} → Run J → List (SlotEvent J) → Run J
steps r [] = r
steps r (e ∷ es) = steps (step r e) es

count-append {ℓ} :
    {A : Type ℓ} (i : ℕ) (xs ys : List (ℕ × A)) → count i (xs ++ ys) ≡ count i xs + count i ys
unfolding count
count-append i [] ys = ground arith
count-append i ((j, a) ∷ xs) ys = ground (arith, count-append i xs ys)

count-put :
    (k i : ℕ) (m : Msg) (xs : List (ℕ × Msg))
    → count k xs ≡ 0
    → count i (Map.put k m xs) ≡ (if i == k then suc (count i xs) else count i xs)
unfolding count Map.put
count-put k i m [] h = refl
count-put k i m ((j, a) ∷ xs) h = ground (arith, count-put k i m xs)

count-delete :
    (k i : ℕ) (xs : List (ℕ × Msg)) → count i (Map.delete k xs) ≡ (if i == k then 0 else count i xs)
unfolding count Map.delete
count-delete k i [] = ground arith
count-delete k i ((j, a) ∷ xs) = ground (arith, count-delete k i xs)

count-find : (k : ℕ) (m : Msg) (xs : List (ℕ × Msg)) → Map.find k xs ≡ some m → 1 ≤ count k xs
unfolding count Map.find
count-find k m [] h = ground arith
count-find k m ((j, a) ∷ xs) h = ground (arith, count-find k m xs)

count-reject_all :
    (J : Type 0) (i : ℕ) (e : Text) (xs : List (ℕ × Msg))
    → count i (reject_all {J = J} e xs) ≡ count i xs
unfolding count reject_all
count-reject_all J i e [] = refl
count-reject_all J i e ((j, m) ∷ xs) = ground (arith, count-reject_all J i e xs)

-- The books of one id.
pub record Kept {J : Type 0} (r : Run J) (i : ℕ) : Type 0 where
  pub once : count i r.settled + count i r.slot.pending ≡ count i r.slot.posted
  pub unique : count i r.slot.posted ≤ 1
  pub fresh_id : r.next_req_id ≤ i → count i r.slot.posted ≡ 0

abbrev AllKept : {J : Type 0} → Run J → Type 0
AllKept r = (i : ℕ) → Kept r i

start-AllKept : (J : Type 0) → AllKept {J = J} start
unfolding count
start-AllKept J i = record { once = ground arith; unique = ground arith; fresh_id = λ h. refl }

post-AllKept : {J : Type 0} (r : Run J) (msg : Msg) → AllKept r → AllKept (step r (post msg))
unfolding call_slot count
post-AllKept r msg k i =
    let fresh = (k r.next_req_id).fresh_id (omega arith) in
    let now = (k r.next_req_id).once in
    let none_pending : count r.next_req_id r.slot.pending ≡ 0 = omega arith in
    let pending = count-put r.next_req_id i msg r.slot.pending none_pending in
    let posted = count-append i r.slot.posted ((r.next_req_id, msg) ∷ []) in
    let o = (k i).once in
    let u = (k i).unique in
    let f = (k i).fresh_id in
    record { once = ground arith; unique = ground arith; fresh_id = λ h. ground arith }

count-at :
    (i k : ℕ) (m : Msg) (xs : List (ℕ × Msg))
    → Map.find k xs ≡ some m
    → (i == k) ≡ true
    → 1 ≤ count i xs
count-at i k m xs h e =
    let q : k ≡ i = ground arith in subst (λ x. 1 ≤ count x xs) q (count-find k m xs h)

-- One request leaves the map and its promise is settled.
settled-Kept :
    {J : Type 0} (r : Run J) (req_id : ℕ) (reply : Reply J) (m : Msg) (i : ℕ)
    → Map.find req_id r.slot.pending ≡ some m
    → Kept r i
    → Kept (after r (settle (some m) req_id reply r.slot)) i
unfolding count
settled-Kept r req_id reply m i h k =
    let deleted = count-delete req_id i r.slot.pending in
    let found = count-at i req_id m r.slot.pending h in
    let o = k.once in
    let u = k.unique in record { once = ground arith; unique = u; fresh_id = k.fresh_id }

message-AllKept :
    {J : Type 0} (r : Run J) (req_id : ℕ) (reply : Reply J)
    → AllKept r
    → AllKept (step r (message req_id reply))
unfolding on_message
message-AllKept r req_id reply k i = elim (Option-cases (Map.find req_id r.slot.pending)) [
  | inl e ↦ rw e (k i)
  | inr (m, e) ↦ rw e (settled-Kept r req_id reply m i e (k i))
]

-- All requests leave the map and their promises are rejected.
rejected-Kept :
    {J : Type 0} (r : Run J) (e : Text) (i : ℕ)
    → Kept r i
    → Kept (after r (record r.slot { pending = [] }, reject_all e r.slot.pending)) i
unfolding count
rejected-Kept {J} r e i k =
    let c = count-reject_all J i e r.slot.pending in
    let a = count-append i (reject_all {J = J} e r.slot.pending) r.settled in
    let o = k.once in record { once = ground arith; unique = k.unique; fresh_id = k.fresh_id }

exit-AllKept : {J : Type 0} (r : Run J) (c : Text) → AllKept r → AllKept (step r (exit c))
unfolding on_exit
exit-AllKept r c k i = elim (Bool-cases (length r.slot.pending == 0)) [
  | inl e ↦ rw e (k i)
  | inr e ↦ rw e (rejected-Kept r _ i (k i))
]

step-AllKept : {J : Type 0} (r : Run J) (e : SlotEvent J) → AllKept r → AllKept (step r e)
unfolding on_error
step-AllKept r (post msg) k i = post-AllKept r msg k i
step-AllKept r elsewhere k i =
    let f = (k i).fresh_id in
    record { once = (k i).once; unique = (k i).unique; fresh_id = λ h. f (omega arith) }
step-AllKept r (message req_id reply) k i = message-AllKept r req_id reply k i
step-AllKept r (error e) k i = rejected-Kept r e i (k i)
step-AllKept r (exit c) k i = exit-AllKept r c k i

steps-AllKept :
    {J : Type 0} (es : List (SlotEvent J)) (r : Run J) → AllKept r → AllKept (steps r es)
unfolding steps
steps-AllKept [] r k = k
steps-AllKept (e ∷ es) r k = steps-AllKept es (step r e) (step-AllKept r e k)

-- After any sequence of posts, replies (to known and unknown ids, repeated ones too), worker errors
-- and exits, the promise of each request has been settled once or its request still waits, never
-- both and never twice.
pub steps-settle :
    {J : Type 0} (es : List (SlotEvent J)) (i : ℕ)
    → let r = steps start es in
      (count i r.settled + count i r.slot.pending ≡ count i r.slot.posted)
      × (count i r.slot.posted ≤ 1)
steps-settle {J} es i = let k = steps-AllKept es start (start-AllKept J) i in (k.once, k.unique)
