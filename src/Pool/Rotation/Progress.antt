-- ===== src/Pool/Rotation/Progress.antt =====
-- Moves that bring a rotation of packages/core/src/pool.ts to its end.
use coraza_node.Base.{
  ℕ, ◌<◌, ◌≡◌, refl, ap, ◌∙◌, subst, true, false, List, [], Option, some, length, length-set,
  get_elem?, arith,
}
use coraza_node.Pool.{shutdown, is_drained, call_slot}
use coraza_node.Pool.Rotation.{
  contains, fail_exit, has_exited, PoolState, Rotation, Phase, polling, stopping, complete, at,
  set_phase, post, poll, poll_with, poll_at, complete_rotation, complete_with,
}
use coraza_node.Pool.Rotation.Moves.{Move, polled, exited, completed, Reach}
use coraza_node.Pool.Rotation.Indices.{All-get}
use coraza_node.Pool.Rotation.Drained.{IsGone, is_polling}
use coraza_node.Pool.Rotation.Safety.{Reach-Inv}
use coraza_node.Pool.Rotation.Answers.{Moves, stay, go, get_elem-set, both, answer, drain}

module _ (limit : Option ℕ) (J : Type 0) where
  -- The poll of a drained worker, the exit of its thread, and the end.
  finish :
      (s : PoolState) (r : ℕ) (rotation : Rotation)
      → get_elem? s.rotations r ≡ some rotation
      → rotation.phase ≡ polling
      → is_drained (at s rotation.old) ≡ true
      → rotation.old < length s.workers
      → contains rotation.old s.exits ≡ false
      → (t : PoolState) × Moves limit J s t
        × (get_elem? t.rotations r ≡ some (record rotation { phase = complete }))
  finish s r rotation e p drained lt live =
      let t : PoolState = set_phase (post s rotation.old shutdown) r rotation stopping in
      let here : get_elem? t.rotations r ≡ some (record rotation { phase = stopping }) =
        unfold post in
        get_elem-set s.rotations r (record rotation { phase = stopping }) rotation e in
      let runs : contains rotation.old t.exits ≡ false = unfold post in live in
      let u : PoolState = fail_exit J t rotation.old [] in
      let there : get_elem? u.rotations r ≡ some (record rotation { phase = stopping }) =
        unfold fail_exit in here in
      let next : PoolState = complete_with u r (some (record rotation { phase = stopping })) in
      let len : length t.workers ≡ length s.workers =
        unfold post in
        length-set s.workers rotation.old (call_slot s.next_req_id (at s rotation.old) shutdown) in
      (
        next,
        go (subst (Move limit J s) poll_eq (polled r)) (
            go (exited {s = t} rotation.old [] (omega (arith, len, lt)) runs) (
              go (subst (Move limit J u) (complete_eq u there) (completed r (dead t u refl there)))
                stay)),
        get_elem-set u.rotations r (record rotation { phase = complete })
            (record rotation { phase = stopping }) there,
      )
    where
      polled_at :
          (phase : Phase)
          → phase ≡ polling
          → poll_at s r rotation phase ≡ poll_at s r rotation polling
      polled_at phase q = ap (poll_at s r rotation) q

      drained_at :
          poll_at s r rotation polling
          ≡ set_phase (post s rotation.old shutdown) r rotation stopping
      drained_at = rw drained refl

      poll_eq : poll s r ≡ set_phase (post s rotation.old shutdown) r rotation stopping
      poll_eq = unfold poll in ap (poll_with s r) e ∙ polled_at rotation.phase p ∙ drained_at

      dead :
          (t u : PoolState)
          → u ≡ fail_exit J t rotation.old []
          → get_elem? u.rotations r ≡ some (record rotation { phase = stopping })
          → has_exited u (get_elem? u.rotations r) ≡ true
      dead t u q h =
          ap (has_exited u) h
          ∙ ap (λ (x : PoolState). contains rotation.old x.exits) q
          ∙ (unfold fail_exit in ground arith)

      complete_eq :
          (t : PoolState)
          → get_elem? t.rotations r ≡ some (record rotation { phase = stopping })
          → complete_rotation t r ≡ complete_with t r (some (record rotation { phase = stopping }))
      complete_eq t h = unfold complete_rotation in ap (complete_with t r) h

  -- From a state in which a rotation polls a worker that is there.
  completes :
      (s : PoolState) (r : ℕ) (rotation : Rotation)
      → get_elem? s.rotations r ≡ some rotation
      → rotation.phase ≡ polling
      → rotation.old < length s.workers
      → contains rotation.old s.exits ≡ false
      → (t : PoolState) × Moves limit J s t
        × (get_elem? t.rotations r ≡ some (record rotation { phase = complete }))
  completes s r rotation e p lt live =
      let a =
        answer limit J (length (at s rotation.old).pending) s rotation.old
          (at s rotation.old).pending refl (omega arith) lt live in
      let d =
        drain limit J (at a.state rotation.old).busy a.state rotation.old a.holds (omega arith)
          (omega (arith, lt, a.workers_kept)) (ap (contains rotation.old) a.exits_kept ∙ live) in
      let kept : get_elem? d.state.rotations r ≡ some rotation =
        ap (λ (rs : List Rotation). get_elem? rs r) (d.rotations_kept ∙ a.rotations_kept) ∙ e in
      let f =
        finish d.state r rotation kept p d.holds (omega (arith, lt, a.workers_kept, d.workers_kept))
          (ap (contains rotation.old) (d.exits_kept ∙ a.exits_kept) ∙ live) in
      (f.0, both limit J a.moves (both limit J d.moves f.1), f.2)

-- From every state that a pool of one worker or more comes to, there are moves that bring a rotation
-- that polls its old worker to its end, as long as the thread of that worker has not exited: replies
-- to what waits on that worker, closes of its open transactions and their replies, a poll, and the
-- exit of the thread after its shutdown.
pub Reach-completes :
    {limit : Option ℕ} {J : Type 0} {n : ℕ} {s : PoolState} {r : ℕ} {rotation : Rotation}
    → 0 < n
    → Reach limit J n s
    → get_elem? s.rotations r ≡ some rotation
    → rotation.phase ≡ polling
    → contains rotation.old s.exits ≡ false
    → (t : PoolState) × Moves limit J s t
      × (get_elem? t.rotations r ≡ some (record rotation { phase = complete }))
Reach-completes {limit} {J} {n} {s} {r} {rotation} small reach e p live =
    let inv = Reach-Inv small reach in
    let gone =
      All-get (IsGone (length s.workers) s.slots) s.rotations r rotation e inv.gone
        (ap is_polling p) in
    completes limit J s r rotation e p gone.1 live
