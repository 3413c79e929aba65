-- ===== src/Pool/Tests.antt =====
-- The pool's theorems at three workers, and at a worker that exits.
use coraza_node.Base.{ℕ, ◌+◌, ◌<◌, ◌≤◌, ◌≡◌, refl, List, [], ◌∷◌, length, All, arith}
use coraza_node.Base.Text.{codes}
use coraza_node.Pool.{WorkerSlot, empty_slot, new_tx, nothing, fulfilled, pick_slot, pick_loop}
use coraza_node.Pool.Pick.{busy_at, pick_slot-Least}
use coraza_node.Pool.Replies.{SlotEvent, post, message, exit, start, count, steps-settle}
use coraza_node.Pool.Replies as Replies
use coraza_node.Pool.Books.{
  BooksEvent, request, accept, begin_close, end_close, opening, steps, unfinished, steps-busy,
}
use coraza_node.Base.{none}
use coraza_node.Pool.{request_tx, call_slot, accept_tx, rotation_due, close_start, close_finish}

abbrev busy_with : ℕ → WorkerSlot
busy_with n = record empty_slot { busy = n }

abbrev three_slots : List WorkerSlot
three_slots = busy_with 2 ∷ busy_with 1 ∷ busy_with 1 ∷ []

picks_rr_on_tie : pick_slot three_slots 5 ≡ 2
unfolding pick_slot pick_loop
picks_rr_on_tie = refl

abbrev events : List (SlotEvent (Unit {0}))
events =
    post new_tx
    ∷ post new_tx
    ∷ message 1 (fulfilled nothing)
    ∷ message 1 (fulfilled nothing)
    ∷ exit (codes "1")
    ∷ []

pick_slot-Least_example :
    (pick_slot three_slots 5 < length three_slots)
    × All (λ s. busy_at three_slots (pick_slot three_slots 5) ≤ s.busy) three_slots
pick_slot-Least_example = pick_slot-Least three_slots 5 (omega arith)

steps-settle_example :
    let r = Replies.steps start events in
    (count 1 r.settled + count 1 r.slot.pending ≡ count 1 r.slot.posted)
    × (count 1 r.slot.posted ≤ 1)
steps-settle_example = steps-settle events 1

abbrev closed_twice : List (BooksEvent (Unit {0}))
closed_twice =
    request 1
    ∷ accept none 1
    ∷ request 2
    ∷ accept none 2
    ∷ begin_close 3 0
    ∷ begin_close 4 0
    ∷ end_close 0
    ∷ end_close 0
    ∷ []

one_left : (steps opening closed_twice).slot.busy ≡ 1
unfolding steps request_tx call_slot accept_tx rotation_due close_start close_finish
one_left = refl

steps-busy_example :
    (steps opening closed_twice).slot.busy ≡ unfinished (steps opening closed_twice).handles
steps-busy_example = steps-busy closed_twice
