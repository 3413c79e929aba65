-- ===== src/Pool/Rotation/Slots.antt =====
-- The invariant of a single slot of packages/core/src/pool.ts.
use coraza_node.Base.{
  ℕ, ◌≡◌, refl, sym, ap, ◌∙◌, Bool, true, false, ◌||◌, List, [], ◌∷◌, ◌++◌, some, ◌==◌, any, all,
  if◌then◌else◌, arith, some_eq,
}
use coraza_node.Base.Map as Map
use coraza_node.Pool.{Msg, shutdown, WorkerSlot, call_slot}

abbrev pub is_shutdown : Msg → Bool
is_shutdown shutdown = true
is_shutdown _ = false

abbrev pub is_shutdown_entry : ℕ × Msg → Bool
is_shutdown_entry entry = is_shutdown entry.1

-- The worker was told to shut down.
abbrev pub is_stopped : WorkerSlot → Bool
is_stopped slot = any is_shutdown_entry slot.posted

-- No transaction is open on the worker, and nothing waits for it but the shutdown.
abbrev pub IsIdle : WorkerSlot → Type 0
IsIdle slot = (slot.busy ≡ 0) × (all is_shutdown_entry slot.pending ≡ true)

-- A worker that was told to shut down is idle.
abbrev pub IsQuiet : WorkerSlot → Type 0
IsQuiet slot = is_stopped slot ≡ true → IsIdle slot

pub any-snoc :
    (p : ℕ × Msg → Bool) (xs : List (ℕ × Msg)) (x : ℕ × Msg)
    → any p (xs ++ x ∷ []) ≡ (any p xs || p x)
any-snoc p [] x = ground arith
any-snoc p (y ∷ xs) x = ground (arith, any-snoc p xs x)

all-find :
    (p : ℕ × Msg → Bool) (k : ℕ) (msg : Msg) (m : List (ℕ × Msg))
    → ((j : ℕ) → p (j, msg) ≡ false)
    → Map.find k m ≡ some msg
    → all p m ≡ false
unfolding Map.find
all-find p k msg [] h e = absurd cc
all-find p k msg ((j, v) ∷ m) h e = found (j == k) (all-find p k msg m h) e
  where
    found :
        (b : Bool)
        → (Map.find k m ≡ some msg → all p m ≡ false)
        → (if b then some v else Map.find k m) ≡ some msg
        → all p ((j, v) ∷ m) ≡ false
    found true ih q = rw (some_eq q) (rw (h j) refl)
    found false ih q = ground (arith, ih q)

pub all-delete :
    (p : ℕ × Msg → Bool) (k : ℕ) (m : List (ℕ × Msg))
    → all p m ≡ true
    → all p (Map.delete k m) ≡ true
unfolding Map.delete
all-delete p k [] h = refl
all-delete p k ((j, v) ∷ m) h = ground (arith, h, all-delete p k m)

pub call_slot-stopped :
    (req_id : ℕ) (slot : WorkerSlot) (msg : Msg)
    → is_stopped (call_slot req_id slot msg) ≡ (is_stopped slot || is_shutdown msg)
unfolding call_slot
call_slot-stopped req_id slot msg = any-snoc is_shutdown_entry slot.posted (req_id, msg)

pub IsQuiet-running : (slot : WorkerSlot) → is_stopped slot ≡ false → IsQuiet slot
IsQuiet-running slot h stopped = absurd (apart (sym h ∙ stopped))
  where
    apart : ¬ false ≡ true
    apart e = cc

pub bools_apart : ¬ true ≡ false
bools_apart e = cc

-- A worker that waits for another message than its shutdown was not told to shut down.
pub waiting-running :
    (slot : WorkerSlot) (req_id : ℕ) (msg : Msg)
    → IsQuiet slot
    → is_shutdown msg ≡ false
    → Map.find req_id slot.pending ≡ some msg
    → is_stopped slot ≡ false
waiting-running slot req_id msg quiet other e = decide (is_stopped slot) refl
  where
    decide : (b : Bool) → is_stopped slot ≡ b → is_stopped slot ≡ false
    decide false q = q
    decide true q = absurd (
        bools_apart
          (sym (quiet q).1 ∙ all-find is_shutdown_entry req_id msg slot.pending (λ j. other) e))

-- A step on the slot that posts nothing and keeps an idle slot idle.
pub IsQuiet-kept :
    (slot slot' : WorkerSlot)
    → slot'.posted ≡ slot.posted
    → (IsIdle slot → IsIdle slot')
    → IsQuiet slot
    → IsQuiet slot'
IsQuiet-kept slot slot' same keep quiet stopped =
    keep (quiet (sym (ap (any is_shutdown_entry) same) ∙ stopped))
