-- ===== src/Pool/Rotation/Phases.antt =====
-- The steps of a rotation of packages/core/src/pool.ts against the invariant.
use coraza_node.Base.{
  ℕ, ◌≡◌, refl, sym, ◌∙◌, Bool, true, false, List, Option, none, some, length, get_elem?, set,
  Bool-cases, inl, inr,
}
use coraza_node.Pool.{shutdown, WorkerSlot, call_slot, is_drained}
use coraza_node.Pool.Rotation.{
  PoolState, Rotation, Phase, starting, polling, stopping, complete, kept, discarded, at, contains,
  index_of, post, swapped, exchanged, replace, set_phase, ready_at, ready_with, poll_at, poll_with,
  complete_at, complete_with, ready, poll, complete_rotation,
}
use coraza_node.Pool.Rotation.Indices.{All-get, set-All}
use coraza_node.Pool.Rotation.Operations.{shutdown-IsQuiet}
use coraza_node.Pool.Rotation.Drained.{
  Inv, InvOf, IsGone, is_polling, write-Inv, rotations-Inv, swap-Inv,
}
use coraza_node.Pool.Rotation.Steps.{bools_apart, if-Inv, keep-Inv}

module _ {n : ℕ} (s : PoolState) (inv : InvOf n s) where
  -- A rotation moves to a phase other than polling.
  phase-Inv :
      {workers : List WorkerSlot} (r : ℕ) (rotation : Rotation) (phase : Phase)
      → Inv n workers s.slots s.destroyed s.rotations
      → is_polling phase ≡ false
      → Inv n workers s.slots s.destroyed (set s.rotations r (record rotation { phase = phase }))
  phase-Inv r rotation phase i p = rotations-Inv i _ (
      set-All _ (record rotation { phase = phase }) s.rotations r
        (λ h. absurd (bools_apart (sym p ∙ h))) i.gone)

  swapped-Inv :
      (r : ℕ) (rotation : Rotation) (o : Option ℕ)
      → index_of rotation.old s.slots ≡ o
      → InvOf n (swapped s r rotation o)
  swapped-Inv r rotation none e = phase-Inv r rotation discarded inv refl
  swapped-Inv r rotation (some index) e =
      if-Inv s.destroyed (set_phase s r rotation discarded) (exchanged s r rotation index)
        (phase-Inv r rotation discarded inv refl)
        (swap-Inv inv rotation.old index r s.next_req_id e rotation refl)

  ready_at-Inv :
      (r : ℕ) (ok : Bool) (rotation : Rotation) (phase : Phase)
      → InvOf n (ready_at s r ok rotation phase)
  ready_at-Inv r ok rotation starting = replaced-Inv ok
    where
      replaced-Inv : (ok : Bool) → InvOf n (replace s r rotation ok)
      replaced-Inv true = swapped-Inv r rotation (index_of rotation.old s.slots) refl
      replaced-Inv false =
          phase-Inv r rotation kept
            (keep-Inv s inv rotation.old (record (at s rotation.old) { rotating = false }) refl
              (λ q. q))
            refl
  ready_at-Inv r ok rotation polling = inv
  ready_at-Inv r ok rotation stopping = inv
  ready_at-Inv r ok rotation complete = inv
  ready_at-Inv r ok rotation kept = inv
  ready_at-Inv r ok rotation discarded = inv

  pub ready-Inv : (r : ℕ) (ok : Bool) → InvOf n (ready s r ok)
  unfolding ready
  ready-Inv r ok = chosen (get_elem? s.rotations r)
    where
      chosen : (o : Option Rotation) → InvOf n (ready_with s r ok o)
      chosen none = inv
      chosen (some rotation) = ready_at-Inv r ok rotation rotation.phase

  poll_at-Inv :
      (r : ℕ) (rotation : Rotation) (phase : Phase)
      → (is_polling phase ≡ true → contains rotation.old s.slots ≡ false)
      → InvOf n (poll_at s r rotation phase)
  unfolding post
  poll_at-Inv r rotation polling gone = elim (Bool-cases (is_drained (at s rotation.old))) [
    | inl drained ↦ rw drained (
        phase-Inv r rotation stopping
          (write-Inv inv rotation.old (call_slot s.next_req_id (at s rotation.old) shutdown)
            (λ d. shutdown-IsQuiet s.next_req_id (at s rotation.old) drained) (λ d h. gone refl))
          refl)
    | inr busy ↦ rw busy inv
  ]
  poll_at-Inv r rotation starting gone = inv
  poll_at-Inv r rotation stopping gone = inv
  poll_at-Inv r rotation complete gone = inv
  poll_at-Inv r rotation kept gone = inv
  poll_at-Inv r rotation discarded gone = inv

  pub polled-Inv : (r : ℕ) → InvOf n (poll s r)
  unfolding poll
  polled-Inv r = chosen (get_elem? s.rotations r) refl
    where
      chosen : (o : Option Rotation) → get_elem? s.rotations r ≡ o → InvOf n (poll_with s r o)
      chosen none e = inv
      chosen (some rotation) e =
          poll_at-Inv r rotation rotation.phase (λ p.
            (All-get (IsGone (length s.workers) s.slots) s.rotations r rotation e inv.gone p).0)

  pub completed-Inv : (r : ℕ) → InvOf n (complete_rotation s r)
  unfolding complete_rotation
  completed-Inv r = chosen (get_elem? s.rotations r)
    where
      ended_at : (rotation : Rotation) (phase : Phase) → InvOf n (complete_at s r rotation phase)
      ended_at rotation stopping = phase-Inv r rotation complete inv refl
      ended_at rotation starting = inv
      ended_at rotation polling = inv
      ended_at rotation complete = inv
      ended_at rotation kept = inv
      ended_at rotation discarded = inv

      chosen : (o : Option Rotation) → InvOf n (complete_with s r o)
      chosen none = inv
      chosen (some rotation) = ended_at rotation rotation.phase
