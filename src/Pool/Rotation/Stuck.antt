-- ===== src/Pool/Rotation/Stuck.antt =====
-- A rotation of packages/core/src/pool.ts that polls a worker whose thread has exited.
use coraza_node.Base.{
  ℕ, zero, suc, ◌<◌, ◌≡◌, ◌≢◌, ◌⊎◌, inl, inr, refl, sym, ap, ◌∙◌, subst, some_eq, Bool, true, false,
  List, [], ◌∷◌, ◌++◌, map, Option, none, some, get_or, get_elem?, set, if◌then◌else◌,
}
use coraza_node.Pool.{
  Msg, init, new_tx, shutdown, proc, pred, get, reset, close, Reply, fulfilled, rejected,
  WorkerSlot, empty_slot, call_slot, request_tx, accept_tx, pick_slot, close_finish,
}
use coraza_node.Pool.Rotation.{
  PoolState, Rotation, starting, at, with_worker, contains, request, post, accepted, continued,
}
use coraza_node.Pool.Rotation.Indices.{get_or-set}

get_elem-set-other :
    {A : Type 0} (xs : List A) (i r : ℕ) (x : A)
    → (get_elem? (set xs i x) r ≡ get_elem? xs r) ⊎ (r ≡ i)
get_elem-set-other [] i r x = inl refl
get_elem-set-other (y ∷ xs) zero zero x = inr refl
get_elem-set-other (y ∷ xs) zero (suc r) x = inl refl
get_elem-set-other (y ∷ xs) (suc i) zero x = inl refl
get_elem-set-other (y ∷ xs) (suc i) (suc r) x = elim (get_elem-set-other xs i r x) [
  | inl e ↦ inl e
  | inr e ↦ inr (ap suc e)
]

get_elem-append :
    {A : Type 0} (xs ys : List A) (r : ℕ) (x : A)
    → get_elem? xs r ≡ some x
    → get_elem? (xs ++ ys) r ≡ some x
get_elem-append [] ys r x e = absurd cc
get_elem-append (y ∷ xs) ys zero x e = e
get_elem-append (y ∷ xs) ys (suc r) x e = get_elem-append xs ys r x e

module _ (w r : ℕ) (rotation : Rotation) where
  -- A transaction is open on a worker that has exited, and the rotation polls it.
  pub record IsStuck (workers : List WorkerSlot) (rotations : List Rotation) (exits : List ℕ)
      : Type 0 where
    pub dead : contains w exits ≡ true
    pub open' : 0 < (get_or workers w empty_slot).busy
    pub polls : get_elem? rotations r ≡ some rotation

  abbrev pub StuckIn : PoolState → Type 0
  StuckIn s = IsStuck s.workers s.rotations s.exits

  module _ (s : PoolState) (stuck : StuckIn s) where
    -- A write to a slot that keeps its count, or to the slot of a worker that runs.
    write-IsStuck :
        (v : ℕ) (slot : WorkerSlot)
        → (v ≡ w → slot.busy ≡ (at s w).busy)
        → IsStuck (set s.workers v slot) s.rotations s.exits
    write-IsStuck v slot same = record {
      dead = stuck.dead;
      open' = elim (get_or-set s.workers v w slot empty_slot) [
        | inl e ↦ subst (λ (x : WorkerSlot). 0 < x.busy) (sym e) stuck.open'
        | inr p ↦
            subst (λ (x : WorkerSlot). 0 < x.busy) (sym p.1)
              (subst (λ (k : ℕ). 0 < k) (sym (same (sym p.0))) stuck.open')
      ];
      polls = stuck.polls;
    }

    pub keep-IsStuck :
        (v : ℕ) (slot : WorkerSlot)
        → slot.busy ≡ (at s v).busy
        → IsStuck (set s.workers v slot) s.rotations s.exits
    keep-IsStuck v slot same = write-IsStuck v slot λ e. same ∙ ap (λ (k : ℕ). (at s k).busy) e

    pub runs-IsStuck :
        (v : ℕ) (slot : WorkerSlot)
        → contains v s.exits ≡ false
        → IsStuck (set s.workers v slot) s.rotations s.exits
    runs-IsStuck v slot live = write-IsStuck v slot λ e.
        let d : contains v s.exits ≡ true = ap (λ (k : ℕ). contains k s.exits) e ∙ stuck.dead in
        absurd cc

    accepted-IsStuck :
        (limit : Option ℕ) (v : ℕ) (o : WorkerSlot × Bool)
        → contains v s.exits ≡ false
        → StuckIn (accepted limit s v o)
    accepted-IsStuck limit v (slot, due) live =
        let k = runs-IsStuck v slot live in
        record { dead = k.dead; open' = k.open'; polls = grown due }
      where
        grown :
            (b : Bool)
            → get_elem?
                (if b
                  then s.rotations ++ (record { old = v; phase = starting } ∷ [])
                  else s.rotations)
                r
              ≡ some rotation
        grown true = get_elem-append s.rotations _ r rotation stuck.polls
        grown false = stuck.polls

    pub continued-IsStuck :
        {J : Type 0} (limit : Option ℕ) (v : ℕ) (slot : WorkerSlot) (o : Option Msg)
        (reply : Reply J)
        → contains v s.exits ≡ false
        → StuckIn (continued limit s v slot o reply)
    continued-IsStuck limit v slot none reply live = runs-IsStuck v slot live
    continued-IsStuck limit v slot (some new_tx) (fulfilled x) live =
        accepted-IsStuck limit v (accept_tx limit slot) live
    continued-IsStuck limit v slot (some new_tx) (rejected x) live = runs-IsStuck v slot live
    continued-IsStuck limit v slot (some (close i)) reply live =
        runs-IsStuck v (close_finish slot) live
    continued-IsStuck limit v slot (some init) reply live = runs-IsStuck v slot live
    continued-IsStuck limit v slot (some shutdown) reply live = runs-IsStuck v slot live
    continued-IsStuck limit v slot (some (proc i p)) reply live = runs-IsStuck v slot live
    continued-IsStuck limit v slot (some (pred i p)) reply live = runs-IsStuck v slot live
    continued-IsStuck limit v slot (some (get i p)) reply live = runs-IsStuck v slot live
    continued-IsStuck limit v slot (some (reset i)) reply live = runs-IsStuck v slot live

    pub requested-IsStuck : (t : PoolState) → request s ≡ some t → StuckIn t
    unfolding request request_tx call_slot
    requested-IsStuck t e = chosen s.destroyed e
      where
        v : ℕ
        v = get_or s.slots (pick_slot (map (at s) s.slots) s.rr) 0

        picked : PoolState
        picked = record (with_worker s v (request_tx s.next_req_id (at s v))) {
          rr = suc s.rr;
          next_req_id = suc s.next_req_id;
        }

        chosen : (b : Bool) → (if b then none else some picked) ≡ some t → StuckIn t
        chosen true q = absurd cc
        chosen false q =
            subst StuckIn (some_eq q) (keep-IsStuck v (request_tx s.next_req_id (at s v)) refl)

    pub post-IsStuck : (v : ℕ) (msg : Msg) → StuckIn (post s v msg)
    unfolding post call_slot
    post-IsStuck v msg = keep-IsStuck v (call_slot s.next_req_id (at s v) msg) refl

    -- The phase of another rotation.
    pub phase-IsStuck :
        (i : ℕ) (rotation' : Rotation) (workers : List WorkerSlot)
        → r ≢ i
        → IsStuck workers s.rotations s.exits
        → IsStuck workers (set s.rotations i rotation') s.exits
    phase-IsStuck i rotation' workers apart k = record {
      dead = k.dead;
      open' = k.open';
      polls = elim (get_elem-set-other s.rotations i r rotation') [
        | inl e ↦ e ∙ k.polls
        | inr e ↦ absurd (apart e)
      ];
    }
