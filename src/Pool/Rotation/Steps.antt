-- ===== src/Pool/Rotation/Steps.antt =====
-- Each step of the pool of packages/core/src/pool.ts against the invariant of Pool.Rotation.Drained.
use coraza_node.Base.{
  ℕ, suc, ◌<◌, ◌≡◌, refl, sym, ap, ◌∙◌, subst, Bool, true, false, List, [], ◌∷◌, ◌++◌, Option, none,
  some, some_eq, length, get_or, set, map, All, All-append, if◌then◌else◌, arith,
}
use coraza_node.Base.Text.{Text}
use coraza_node.Base.Map as Map
use coraza_node.Pool.{
  Msg, init, new_tx, shutdown, proc, pred, get, reset, close, Reply, fulfilled, rejected,
  WorkerSlot, call_slot, on_message, on_error, on_exit, accept_tx, close_finish, request_tx,
  pick_slot,
}
use coraza_node.Pool.Pick.{pick_slot-Least}
use coraza_node.Pool.Rotation.{
  PoolState, starting, at, with_worker, contains, finish_closes, request, post, continued, accepted,
  fail_error, fail_exit,
}
use coraza_node.Pool.Rotation.Moves.{is_method}
use coraza_node.Pool.Rotation.Indices.{get_or-contains}
use coraza_node.Pool.Rotation.Slots.{is_stopped, IsQuiet, is_shutdown}
use coraza_node.Pool.Rotation.Operations.{
  on_message-IsQuiet, accept_tx-IsQuiet, close_finish-IsQuiet, request_tx-IsQuiet, method-IsQuiet,
  error-IsQuiet, exit-IsQuiet, posts-stopped, request_tx-stopped, on_message-stopped, error-stopped,
  exit-stopped,
}
use coraza_node.Pool.Rotation.Drained.{InvOf, IsGone, write-Inv, rotations-Inv}

pub bools_apart : ¬ false ≡ true
bools_apart e = cc

pub if-Inv :
    {n : ℕ} (b : Bool) (t u : PoolState) → InvOf n t → InvOf n u → InvOf n (if b then t else u)
if-Inv true t u h k = h
if-Inv false t u h k = k

module _ {n : ℕ} (s : PoolState) (inv : InvOf n s) where
  -- A write to a slot that posts nothing.
  pub keep-Inv :
      (w : ℕ) (slot : WorkerSlot)
      → is_stopped slot ≡ is_stopped (at s w)
      → (IsQuiet (at s w) → IsQuiet slot)
      → InvOf n (with_worker s w slot)
  keep-Inv w slot same q =
      write-Inv inv w slot (λ d. q (inv.quiet d w)) (λ d h. inv.off d w (sym same ∙ h))

  replied-Inv :
      {J : Type 0} (w req_id : ℕ) (reply : Reply J)
      → InvOf n (with_worker s w (on_message req_id reply (at s w)).0)
  replied-Inv w req_id reply =
      keep-Inv w (on_message req_id reply (at s w)).0 (on_message-stopped (at s w) req_id reply)
        (on_message-IsQuiet (at s w) req_id reply)

  if-All :
      {A : Type 0} (P : A → Type 0) (b : Bool) (xs ys : List A)
      → All P xs
      → All P ys
      → All P (if b then xs else ys)
  if-All P true xs ys h k = h
  if-All P false xs ys h k = k

  accepted-Inv :
      {J : Type 0} (limit : Option ℕ) (w req_id : ℕ) (reply : Reply J)
      → Map.find req_id (at s w).pending ≡ some new_tx
      → InvOf n (accepted limit s w (accept_tx limit (on_message req_id reply (at s w)).0))
  accepted-Inv limit w req_id reply e =
      let slot = (on_message req_id reply (at s w)).0 in
      let kept_worker : InvOf n (with_worker s w (accept_tx limit slot).0) =
        keep-Inv w (accept_tx limit slot).0
          (unfold accept_tx in on_message-stopped (at s w) req_id reply)
          (λ q. accept_tx-IsQuiet limit (at s w) req_id reply q e) in
      rotations-Inv kept_worker _ (
        if-All (IsGone (length (set s.workers w (accept_tx limit slot).0)) s.slots)
          (accept_tx limit slot).1 (s.rotations ++ (record { old = w; phase = starting } ∷ []))
          s.rotations
          (All-append _ s.rotations _ kept_worker.gone ((λ p. absurd (bools_apart p)), tt))
          kept_worker.gone)

  pub continued-Inv :
      {J : Type 0} (limit : Option ℕ) (w req_id : ℕ) (reply : Reply J) (o : Option Msg)
      → Map.find req_id (at s w).pending ≡ o
      → InvOf n (continued limit s w (on_message req_id reply (at s w)).0 o reply)
  continued-Inv limit w req_id reply none e = replied-Inv w req_id reply
  continued-Inv limit w req_id (fulfilled v) (some new_tx) e =
      accepted-Inv limit w req_id (fulfilled v) e
  continued-Inv limit w req_id (rejected v) (some new_tx) e = replied-Inv w req_id (rejected v)
  continued-Inv limit w req_id reply (some (close tx_id)) e =
      let slot = (on_message req_id reply (at s w)).0 in
      keep-Inv w (close_finish slot)
        (unfold close_finish in on_message-stopped (at s w) req_id reply)
        (λ q. close_finish-IsQuiet slot (on_message-IsQuiet (at s w) req_id reply q))
  continued-Inv limit w req_id reply (some init) e = replied-Inv w req_id reply
  continued-Inv limit w req_id reply (some shutdown) e = replied-Inv w req_id reply
  continued-Inv limit w req_id reply (some (proc i p)) e = replied-Inv w req_id reply
  continued-Inv limit w req_id reply (some (pred i p)) e = replied-Inv w req_id reply
  continued-Inv limit w req_id reply (some (get i p)) e = replied-Inv w req_id reply
  continued-Inv limit w req_id reply (some (reset i)) e = replied-Inv w req_id reply

  -- A worker of `#slots` was not told to shut down.
  running : s.destroyed ≡ false → (w : ℕ) → contains w s.slots ≡ true → is_stopped (at s w) ≡ false
  running d w h = decide (is_stopped (at s w)) refl
    where
      decide : (b : Bool) → is_stopped (at s w) ≡ b → is_stopped (at s w) ≡ false
      decide false q = q
      decide true q = absurd (bools_apart (sym (inv.off d w q) ∙ h))

  length-picked : (slots : List ℕ) → length (map (at s) slots) ≡ length slots
  length-picked [] = refl
  length-picked (w ∷ slots) = ap suc (length-picked slots)

  pub requested-Inv : (t : PoolState) → 0 < n → request s ≡ some t → InvOf n t
  unfolding request
  requested-Inv t small e = ready_to (s.destroyed) refl e
    where
      index : ℕ
      index = pick_slot (map (at s) s.slots) s.rr

      w : ℕ
      w = get_or s.slots index 0

      in_slots : contains w s.slots ≡ true
      in_slots = get_or-contains s.slots index 0 (
          omega (
            arith,
            length-picked s.slots,
            inv.sized,
            (pick_slot-Least (map (at s) s.slots) s.rr
                (omega (arith, small, length-picked s.slots, inv.sized))).0,
          ))

      picked : PoolState
      picked = record (with_worker s w (request_tx s.next_req_id (at s w))) {
        rr = suc s.rr;
        next_req_id = suc s.next_req_id;
      }

      ready_to :
          (b : Bool) → s.destroyed ≡ b → (if b then none else some picked) ≡ some t → InvOf n t
      ready_to true d q = absurd cc
      ready_to false d q =
          let calm = running d w in_slots in
          subst (InvOf n) (some_eq q) (
            write-Inv inv w (request_tx s.next_req_id (at s w))
              (λ _. request_tx-IsQuiet s.next_req_id (at s w) calm)
              (λ _ h.
                absurd (bools_apart (sym (request_tx-stopped s.next_req_id (at s w) ∙ calm) ∙ h))))

  pub posted-Inv :
      (w : ℕ) (msg : Msg) → is_method msg ≡ true → 0 < (at s w).busy → InvOf n (post s w msg)
  unfolding post
  posted-Inv w msg m busy =
      write-Inv inv w (call_slot s.next_req_id (at s w) msg)
        (λ d. method-IsQuiet s.next_req_id (at s w) msg (inv.quiet d w) (no_shutdown msg m) busy)
        (λ d h.
          inv.off d w (sym (posts-stopped s.next_req_id (at s w) msg (no_shutdown msg m)) ∙ h))
    where
      no_shutdown : (msg : Msg) → is_method msg ≡ true → is_shutdown msg ≡ false
      no_shutdown (proc i p) m = refl
      no_shutdown (pred i p) m = refl
      no_shutdown (get i p) m = refl
      no_shutdown (reset i) m = refl
      no_shutdown (close i) m = refl
      no_shutdown init m = refl
      no_shutdown new_tx m = refl
      no_shutdown shutdown m = absurd (bools_apart m)

  pub errored-Inv : (J : Type 0) (w : ℕ) (error : Text) → InvOf n (fail_error J s w error)
  unfolding fail_error
  errored-Inv J w error =
      keep-Inv w (finish_closes (at s w).pending (on_error {J = J} error (at s w)).0)
        (error-stopped J error (at s w)) (error-IsQuiet J error (at s w))

  pub exited-Inv : (J : Type 0) (w : ℕ) (code : Text) → InvOf n (fail_exit J s w code)
  unfolding fail_exit
  exited-Inv J w code =
      keep-Inv w (finish_closes (at s w).pending (on_exit {J = J} code (at s w)).0)
        (exit-stopped J code (at s w)) (exit-IsQuiet J code (at s w))
