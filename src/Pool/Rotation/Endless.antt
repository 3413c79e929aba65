-- ===== src/Pool/Rotation/Endless.antt =====
-- The rotations of packages/core/src/pool.ts that never end.
use coraza_node.Base.{
  ℕ, ◌<◌, ◌≡◌, ◌≢◌, inl, inr, refl, sym, ap, ◌∙◌, subst, some_eq, Bool, true, false, List, [], ◌∷◌,
  ◌++◌, Option, none, some, length, get_or, get_elem?, if◌then◌else◌, Bool-cases, arith,
}
use coraza_node.Base.Map as Map
use coraza_node.Pool.{shutdown, WorkerSlot, empty_slot, call_slot, is_drained, on_message}
use coraza_node.Pool.Rotation.{
  PoolState, Rotation, Phase, starting, polling, stopping, complete, kept, discarded, at, contains,
  index_of, post, resume, fail_error, fail_exit, set_phase, replacement, exchanged, swapped,
  replace, ready_at, ready_with, ready, poll_at, poll_with, poll, complete_at, complete_with,
  complete_rotation, shut_down, destroy,
}
use coraza_node.Pool.Rotation.Moves.{
  Move, requested, posted, replied, errored, exited, readied, polled, completed, ended,
}
use coraza_node.Pool.Rotation.Indices.{get_or-snoc}
use coraza_node.Pool.Rotation.Answers.{Moves, stay, go}
use coraza_node.Pool.Rotation.Stuck.{
  StuckIn, phase-IsStuck, keep-IsStuck, runs-IsStuck, continued-IsStuck, requested-IsStuck,
  post-IsStuck,
}

module _ (w r : ℕ) (rotation : Rotation) where
  module _ (s : PoolState) (stuck : StuckIn w r rotation s) where
    module _ (polls_old : rotation.old ≡ w) (is_polling : rotation.phase ≡ polling) where
      -- A rotation in another phase is another one.
      apart :
          (i : ℕ) (rotation' : Rotation)
          → get_elem? s.rotations i ≡ some rotation'
          → ¬ rotation'.phase ≡ polling
          → r ≢ i
      apart i rotation' e other q =
          let p : some rotation ≡ some rotation' =
            sym stuck.polls ∙ ap (λ (k : ℕ). get_elem? s.rotations k) q ∙ e in
          other (sym (ap (λ (x : Rotation). x.phase) (some_eq p)) ∙ is_polling)

      exchanged-IsStuck :
          (i : ℕ) (rotation' : Rotation) (index : ℕ)
          → r ≢ i
          → StuckIn w r rotation (exchanged s i rotation' index)
      exchanged-IsStuck i rotation' index d = phase-IsStuck w r rotation s stuck i _ _ d (record {
        dead = stuck.dead;
        open' = elim (get_or-snoc s.workers (replacement s.next_req_id) empty_slot w) [
          | inl e ↦ subst (λ (x : WorkerSlot). 0 < x.busy) (sym e) stuck.open'
          | inr p ↦ absurd (outside p.0)
        ];
        polls = stuck.polls;
      })
        where
          beyond : (xs : List WorkerSlot) → (get_or xs (length xs) empty_slot).busy ≡ 0
          beyond [] = refl
          beyond (x ∷ xs) = beyond xs

          outside : ¬ w ≡ length s.workers
          outside e =
              let b = beyond s.workers in
              let c : (at s w).busy ≡ (at s (length s.workers)).busy =
                ap (λ (k : ℕ). (at s k).busy) e in
              let o = stuck.open' in omega (arith, b, c, o)

      swapped-IsStuck :
          (i : ℕ) (rotation' : Rotation) (o : Option ℕ)
          → r ≢ i
          → StuckIn w r rotation (swapped s i rotation' o)
      swapped-IsStuck i rotation' none d = phase-IsStuck w r rotation s stuck i _ s.workers d stuck
      swapped-IsStuck i rotation' (some index) d = chosen s.destroyed
        where
          chosen :
              (b : Bool)
              → StuckIn w r rotation
                  (if b then set_phase s i rotation' discarded else exchanged s i rotation' index)
          chosen true = phase-IsStuck w r rotation s stuck i _ s.workers d stuck
          chosen false = exchanged-IsStuck i rotation' index d

      replace-IsStuck :
          (i : ℕ) (rotation' : Rotation) (ok : Bool)
          → r ≢ i
          → StuckIn w r rotation (replace s i rotation' ok)
      replace-IsStuck i rotation' true d =
          swapped-IsStuck i rotation' (index_of rotation'.old s.slots) d
      replace-IsStuck i rotation' false d = phase-IsStuck w r rotation s stuck i _ _ d (
          keep-IsStuck w r rotation s stuck rotation'.old
            (record (at s rotation'.old) { rotating = false }) refl)

      ready_at-IsStuck :
          (i : ℕ) (ok : Bool) (rotation' : Rotation) (phase : Phase)
          → (¬ phase ≡ polling → r ≢ i)
          → StuckIn w r rotation (ready_at s i ok rotation' phase)
      ready_at-IsStuck i ok rotation' starting d = replace-IsStuck i rotation' ok (d λ q. absurd cc)
      ready_at-IsStuck i ok rotation' polling d = stuck
      ready_at-IsStuck i ok rotation' stopping d = stuck
      ready_at-IsStuck i ok rotation' complete d = stuck
      ready_at-IsStuck i ok rotation' kept d = stuck
      ready_at-IsStuck i ok rotation' discarded d = stuck

      complete_at-IsStuck :
          (i : ℕ) (rotation' : Rotation) (phase : Phase)
          → (¬ phase ≡ polling → r ≢ i)
          → StuckIn w r rotation (complete_at s i rotation' phase)
      complete_at-IsStuck i rotation' stopping d =
          phase-IsStuck w r rotation s stuck i _ s.workers (d λ q. absurd cc) stuck
      complete_at-IsStuck i rotation' starting d = stuck
      complete_at-IsStuck i rotation' polling d = stuck
      complete_at-IsStuck i rotation' complete d = stuck
      complete_at-IsStuck i rotation' kept d = stuck
      complete_at-IsStuck i rotation' discarded d = stuck

      -- A worker on which a transaction is open is not drained.
      busy-is_drained : is_drained (at s w) ≡ false
      unfolding is_drained
      busy-is_drained = let o = stuck.open' in ground (arith, o)

      poll_at-IsStuck :
          (i : ℕ) (rotation' : Rotation) (phase : Phase)
          → get_elem? s.rotations i ≡ some rotation'
          → StuckIn w r rotation (poll_at s i rotation' phase)
      unfolding post call_slot
      poll_at-IsStuck i rotation' polling e = elim (Bool-cases (is_drained (at s rotation'.old))) [
        | inl drained ↦ rw drained (
            phase-IsStuck w r rotation s stuck i (record rotation' { phase = stopping }) _
              (λ q.
                let p : some rotation ≡ some rotation' =
                  sym stuck.polls ∙ ap (λ (k : ℕ). get_elem? s.rotations k) q ∙ e in
                let o : rotation'.old ≡ w =
                  sym (ap (λ (x : Rotation). x.old) (some_eq p)) ∙ polls_old in
                let b = busy-is_drained in
                let c = ap (λ (k : ℕ). is_drained (at s k)) o in absurd cc)
              (keep-IsStuck w r rotation s stuck rotation'.old
                (call_slot s.next_req_id (at s rotation'.old) shutdown) refl))
        | inr busy ↦ rw busy stuck
      ]
      poll_at-IsStuck i rotation' starting e = stuck
      poll_at-IsStuck i rotation' stopping e = stuck
      poll_at-IsStuck i rotation' complete e = stuck
      poll_at-IsStuck i rotation' kept e = stuck
      poll_at-IsStuck i rotation' discarded e = stuck

      ready-IsStuck : (i : ℕ) (ok : Bool) → StuckIn w r rotation (ready s i ok)
      unfolding ready
      ready-IsStuck i ok = chosen (get_elem? s.rotations i) refl
        where
          chosen :
              (o : Option Rotation)
              → get_elem? s.rotations i ≡ o
              → StuckIn w r rotation (ready_with s i ok o)
          chosen none e = stuck
          chosen (some rotation') e =
              ready_at-IsStuck i ok rotation' rotation'.phase (apart i rotation' e)

      complete-IsStuck : (i : ℕ) → StuckIn w r rotation (complete_rotation s i)
      unfolding complete_rotation
      complete-IsStuck i = chosen (get_elem? s.rotations i) refl
        where
          chosen :
              (o : Option Rotation)
              → get_elem? s.rotations i ≡ o
              → StuckIn w r rotation (complete_with s i o)
          chosen none e = stuck
          chosen (some rotation') e =
              complete_at-IsStuck i rotation' rotation'.phase (apart i rotation' e)

      poll-IsStuck : (i : ℕ) → StuckIn w r rotation (poll s i)
      unfolding poll
      poll-IsStuck i = chosen (get_elem? s.rotations i) refl
        where
          chosen :
              (o : Option Rotation)
              → get_elem? s.rotations i ≡ o
              → StuckIn w r rotation (poll_with s i o)
          chosen none e = stuck
          chosen (some rotation') e = poll_at-IsStuck i rotation' rotation'.phase e

  shut_down-IsStuck :
      (vs : List ℕ) (s : PoolState) → StuckIn w r rotation s → StuckIn w r rotation (shut_down s vs)
  unfolding shut_down
  shut_down-IsStuck [] s stuck = stuck
  shut_down-IsStuck (v ∷ vs) s stuck =
      shut_down-IsStuck vs (post s v shutdown) (post-IsStuck w r rotation s stuck v shutdown)

  destroy-IsStuck : (s : PoolState) → StuckIn w r rotation s → StuckIn w r rotation (destroy s)
  unfolding destroy
  destroy-IsStuck s stuck = chosen s.destroyed
    where
      marked : PoolState
      marked = record s { destroyed = true; draining = [] }

      chosen :
          (b : Bool)
          → StuckIn w r rotation (if b then s else shut_down marked (s.slots ++ s.draining))
      chosen true = stuck
      chosen false =
          shut_down-IsStuck (s.slots ++ s.draining) marked
            (record { dead = stuck.dead; open' = stuck.open'; polls = stuck.polls })

  Move-IsStuck :
      {limit : Option ℕ} {J : Type 0} {s t : PoolState}
      → rotation.old ≡ w
      → rotation.phase ≡ polling
      → Move limit J s t
      → StuckIn w r rotation s
      → StuckIn w r rotation t
  unfolding resume fail_error fail_exit
  Move-IsStuck {s = s} {t = t} o p (requested e) stuck = requested-IsStuck w r rotation s stuck t e
  Move-IsStuck {s = s} o p (posted v msg m busy) stuck = post-IsStuck w r rotation s stuck v msg
  Move-IsStuck {limit = limit} {s = s} o p (replied v req_id reply live) stuck =
      continued-IsStuck w r rotation s stuck limit v (on_message req_id reply (at s v)).0
        (Map.find req_id (at s v).pending) reply live
  Move-IsStuck {s = s} o p (errored v error live) stuck = runs-IsStuck w r rotation s stuck v _ live
  Move-IsStuck {s = s} o p (exited v code lt live) stuck =
      let k = runs-IsStuck w r rotation s stuck v _ live in
      let d = stuck.dead in record { dead = ground (arith, d); open' = k.open'; polls = k.polls }
  Move-IsStuck {s = s} o p (readied i ok) stuck = ready-IsStuck s stuck o p i ok
  Move-IsStuck {s = s} o p (polled i) stuck = poll-IsStuck s stuck o p i
  Move-IsStuck {s = s} o p (completed i done) stuck = complete-IsStuck s stuck o p i
  Move-IsStuck {s = s} o p ended stuck = destroy-IsStuck s stuck

  all-IsStuck :
      {limit : Option ℕ} {J : Type 0} {s t : PoolState}
      → rotation.old ≡ w
      → rotation.phase ≡ polling
      → Moves limit J s t
      → StuckIn w r rotation s
      → StuckIn w r rotation t
  all-IsStuck o p stay stuck = stuck
  all-IsStuck o p (go m ms) stuck = all-IsStuck o p ms (Move-IsStuck o p m stuck)

-- Where a rotation polls a worker whose thread has exited with a transaction still open on it, no
-- moves ever end the rotation: whatever is requested, posted, answered, closed or destroyed after
-- that, the worker is not drained and the rotation polls it.
pub Moves-polling :
    {limit : Option ℕ} {J : Type 0} {s t : PoolState} (r : ℕ) {rotation : Rotation}
    → Moves limit J s t
    → get_elem? s.rotations r ≡ some rotation
    → rotation.phase ≡ polling
    → contains rotation.old s.exits ≡ true
    → 0 < (at s rotation.old).busy
    → (get_elem? t.rotations r ≡ some rotation) × (is_drained (at t rotation.old) ≡ false)
Moves-polling {s = s} {t = t} r {rotation = rotation} ms e p dead busy =
    let stuck =
      all-IsStuck rotation.old r rotation refl p ms
        (record { dead = dead; open' = busy; polls = e }) in
    (stuck.polls, busy-is_drained rotation.old r rotation t stuck refl p)
