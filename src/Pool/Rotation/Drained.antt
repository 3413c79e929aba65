-- ===== src/Pool/Rotation/Drained.antt =====
-- The invariant of the pool of packages/core/src/pool.ts.
use coraza_node.Base.{
  ℕ, zero, suc, ◌<◌, ◌≡◌, ◌≢◌, sym, ap, ◌∙◌, subst, Bool, true, false, List, [], ◌∷◌, ◌++◌, some,
  length, length-set, length-append, get_or, set, All, arith, inl, inr,
}
use coraza_node.Pool.{WorkerSlot, empty_slot}
use coraza_node.Pool.Rotation.{PoolState, Rotation, Phase, polling, contains, index_of, replacement}
use coraza_node.Pool.Rotation.Indices.{
  IsDistinct, contains-set, set-IsDistinct, set-All, map-All, contains-bound, index_of-bound,
  index_of-set, get_or-set, get_or-snoc,
}
use coraza_node.Pool.Rotation.Slots.{is_stopped, IsQuiet}

abbrev pub is_polling : Phase → Bool
is_polling polling = true
is_polling _ = false

-- A rotation that polls has taken its old worker out of the slots.
abbrev pub IsGone : ℕ → List ℕ → Rotation → Type 0
IsGone m slots r = is_polling r.phase ≡ true → (contains r.old slots ≡ false) × (r.old < m)

pub record Inv (n : ℕ) (workers : List WorkerSlot) (slots : List ℕ) (destroyed : Bool)
    (rotations : List Rotation) : Type 0 where
  pub sized : length slots ≡ n
  pub is_distinct : IsDistinct slots
  pub bounded : All (λ w. w < length workers) slots
  pub gone : All (IsGone (length workers) slots) rotations
  pub quiet : destroyed ≡ false → (v : ℕ) → IsQuiet (get_or workers v empty_slot)
  pub off :
      destroyed ≡ false
      → (v : ℕ) → is_stopped (get_or workers v empty_slot) ≡ true
      → contains v slots ≡ false

abbrev pub InvOf : ℕ → PoolState → Type 0
InvOf n s = Inv n s.workers s.slots s.destroyed s.rotations

bools_apart : ¬ false ≡ true
bools_apart e = cc

-- Only a worker that is there can have been told to shut down.
stopped-bound :
    (workers : List WorkerSlot) (v : ℕ)
    → is_stopped (get_or workers v empty_slot) ≡ true
    → v < length workers
stopped-bound [] v h = absurd (bools_apart h)
stopped-bound (w ∷ workers) zero h = omega arith
stopped-bound (w ∷ workers) (suc v) h = omega (arith, stopped-bound workers v h)

module _ {n : ℕ} {workers : List WorkerSlot} {slots : List ℕ} {destroyed : Bool}
    {rotations : List Rotation} (inv : Inv n workers slots destroyed rotations) where
  -- One worker's slot is written.
  pub write-Inv :
      (w : ℕ) (slot : WorkerSlot)
      → (destroyed ≡ false → IsQuiet slot)
      → (destroyed ≡ false → is_stopped slot ≡ true → contains w slots ≡ false)
      → Inv n (set workers w slot) slots destroyed rotations
  write-Inv w slot q o = record {
    sized = inv.sized;
    is_distinct = inv.is_distinct;
    bounded =
        subst (λ (m : ℕ). All (λ v. v < m) slots) (sym (length-set workers w slot)) inv.bounded;
    gone =
        subst (λ (m : ℕ). All (IsGone m slots) rotations) (sym (length-set workers w slot))
          inv.gone;
    quiet = λ d v. elim (get_or-set workers w v slot empty_slot) [
      | inl e ↦ subst IsQuiet (sym e) (inv.quiet d v)
      | inr p ↦ subst IsQuiet (sym p.1) (q d)
    ];
    off = λ d v h. elim (get_or-set workers w v slot empty_slot) [
      | inl e ↦ inv.off d v (sym (ap is_stopped e) ∙ h)
      | inr p ↦
          subst (λ (k : ℕ). contains k slots ≡ false) (sym p.0) (o d (sym (ap is_stopped p.1) ∙ h))
    ];
  }

  pub rotations-Inv :
      (rotations' : List Rotation)
      → All (IsGone (length workers) slots) rotations'
      → Inv n workers slots destroyed rotations'
  rotations-Inv rotations' g = record {
    sized = inv.sized;
    is_distinct = inv.is_distinct;
    bounded = inv.bounded;
    gone = g;
    quiet = inv.quiet;
    off = inv.off;
  }

  -- After `destroy`, only the slots matter.
  pub destroyed-Inv :
      (workers' : List WorkerSlot)
      → length workers' ≡ length workers
      → Inv n workers' slots true rotations
  destroyed-Inv workers' e = record {
    sized = inv.sized;
    is_distinct = inv.is_distinct;
    bounded = subst (λ (m : ℕ). All (λ v. v < m) slots) (sym e) inv.bounded;
    gone = subst (λ (m : ℕ). All (IsGone m slots) rotations) (sym e) inv.gone;
    quiet = λ d. absurd cc;
    off = λ d. absurd cc;
  }

  -- The swap: the replacement takes the place of the old worker.
  module _ (old index r req_id : ℕ) (found : index_of old slots ≡ some index) where
    abbrev new : ℕ
    new = length workers

    longer : length (workers ++ (replacement req_id ∷ [])) ≡ suc (length workers)
    longer = omega (arith, length-append workers (replacement req_id ∷ []))

    apart : old ≢ new
    apart e = omega (arith, e, index_of-bound new old index slots found inv.bounded)

    still-IsGone :
        (rotation : Rotation)
        → IsGone (length workers) slots rotation
        → IsGone (length (workers ++ (replacement req_id ∷ []))) (set slots index new) rotation
    still-IsGone rotation g p = (
      contains-set rotation.old new slots index (λ e. omega (arith, e, (g p).1)) (g p).0,
      omega (arith, longer, (g p).1),
    )

    pub swap-Inv :
        (rotation : Rotation)
        → rotation.old ≡ old
        → Inv n
            (workers ++ (replacement req_id ∷ []))
            (set slots index new)
            destroyed
            (set rotations r (record rotation { phase = polling }))
    swap-Inv rotation same = record {
      sized = length-set slots index new ∙ inv.sized;
      is_distinct =
          set-IsDistinct new slots index (contains-bound new new slots inv.bounded (omega arith))
            inv.is_distinct;
      bounded =
          set-All _ new slots index (omega (arith, longer))
            (map-All _ _ slots (λ v lt. omega (arith, longer, lt)) inv.bounded);
      gone =
          set-All _ (record rotation { phase = polling }) rotations r
            (λ p. (
              subst (λ (k : ℕ). contains k (set slots index new) ≡ false) (sym same)
                  (index_of-set old new index slots found inv.is_distinct apart),
              omega (arith, same, longer, index_of-bound new old index slots found inv.bounded),
            ))
            (map-All _ _ rotations still-IsGone inv.gone);
      quiet = λ d v. elim (get_or-snoc workers (replacement req_id) empty_slot v) [
        | inl e ↦ subst IsQuiet (sym e) (inv.quiet d v)
        | inr p ↦ subst IsQuiet (sym p.1) (λ h. absurd cc)
      ];
      off = λ d v h. elim (get_or-snoc workers (replacement req_id) empty_slot v) [
        | inl e ↦
            let stopped = sym (ap is_stopped e) ∙ h in
            contains-set v new slots index (below (stopped-bound workers v stopped))
              (inv.off d v stopped)
        | inr p ↦ absurd (bools_apart (sym (ap is_stopped p.1) ∙ h))
      ];
    }
      where
        below : {v : ℕ} → v < length workers → v ≢ length workers
        below lt e = omega (arith, lt, e)
