-- ===== src/Pool/Rotation/Tests.antt =====
-- A pool of one worker whose threshold is one request: the worker is replaced, drained and shut down.
use coraza_node.Base.{
  ℕ, ◌≡◌, ◌<◌, refl, true, false, [], ◌∷◌, Option, none, some, length, get_elem?, All, arith,
}
use coraza_node.Base.Map as Map
use coraza_node.Pool.{
  Reply, fulfilled, created, close, call_slot, on_message, pick_slot, pick_loop, request_tx,
  accept_tx, rotation_due, close_finish, is_drained, on_exit,
}
use coraza_node.Pool.Rotation.{
  PoolState, polling, complete, at, contains, index_of, request, post, resume, ready, poll,
  fail_exit, finish_closes, destroy,
}
use coraza_node.Pool.Rotation.Moves as Moves
use coraza_node.Pool.Rotation.Moves.{
  Reach, start, later, requested, posted, replied, readied, polled, completed, ended,
}
use coraza_node.Pool.Rotation.Indices.{IsDistinct}
use coraza_node.Pool.Rotation.Slots.{is_stopped, IsIdle}
use coraza_node.Pool.Rotation.Safety.{Reach-IsIdle, Reach-IsDistinct}
use coraza_node.Pool.Rotation.Answers as Answers
use coraza_node.Pool.Rotation.Progress.{Reach-completes}
use coraza_node.Pool.Rotation.Endless.{Moves-polling}

abbrev answered : Reply ℕ
answered = fulfilled (created 7)

abbrev or_first : Option PoolState → PoolState
or_first none = Moves.created 1 5
or_first (some t) = t

abbrev waiting : PoolState
waiting = or_first (request (Moves.created 1 5))

-- The transaction is open, and the rotation has started.
abbrev opened : PoolState
opened = resume (some 1) waiting 0 5 answered

abbrev swapped_in : PoolState
swapped_in = ready opened 0 true

abbrev closing : PoolState
closing = post swapped_in 0 (close 7)

abbrev closed : PoolState
closed = resume (some 1) closing 0 7 answered

abbrev told : PoolState
told = poll closed 0

waiting-Reach : Reach (some 1) ℕ 1 waiting
unfolding request pick_slot pick_loop
waiting-Reach = later (start 5) (requested refl)

swapped_in-Reach : Reach (some 1) ℕ 1 swapped_in
unfolding request pick_slot pick_loop request_tx call_slot Map.put resume on_message Map.find
    Map.delete accept_tx rotation_due ready index_of
swapped_in-Reach = later (later waiting-Reach (replied 0 5 answered refl)) (readied 0 true)

swapped_in_slots : swapped_in.slots ≡ 1 ∷ []
unfolding request pick_slot pick_loop request_tx call_slot Map.put resume on_message Map.find
    Map.delete accept_tx rotation_due ready index_of
swapped_in_slots = refl

told-Reach : Reach (some 1) ℕ 1 told
unfolding request pick_slot pick_loop request_tx call_slot Map.put resume on_message Map.find
    Map.delete accept_tx rotation_due ready index_of post
told-Reach =
    later
      (later (later swapped_in-Reach (posted 0 (close 7) refl (omega arith)))
        (replied 0 7 answered refl))
      (polled 0)

told_stopped : is_stopped (at told 0) ≡ true
unfolding request pick_slot pick_loop request_tx call_slot Map.put resume on_message Map.find
    Map.delete accept_tx rotation_due ready index_of post close_finish poll is_drained
told_stopped = refl

told_running : told.destroyed ≡ false
unfolding request pick_slot pick_loop request_tx call_slot Map.put resume on_message Map.find
    Map.delete accept_tx rotation_due ready index_of post close_finish poll is_drained
told_running = refl

Reach-IsIdle_example : (contains 0 told.slots ≡ false) × IsIdle (at told 0)
Reach-IsIdle_example = Reach-IsIdle (omega arith) told-Reach told_running 0 told_stopped

Reach-IsDistinct_example :
    (length told.slots ≡ 1) × IsDistinct told.slots × All (λ w. w < length told.workers) told.slots
Reach-IsDistinct_example = Reach-IsDistinct (omega arith) told-Reach

polls : get_elem? swapped_in.rotations 0 ≡ some (record { old = 0; phase = polling })
unfolding request pick_slot pick_loop request_tx call_slot Map.put resume on_message Map.find
    Map.delete accept_tx rotation_due ready index_of
polls = refl

exits_none : contains 0 swapped_in.exits ≡ false
unfolding request pick_slot pick_loop request_tx call_slot Map.put resume on_message Map.find
    Map.delete accept_tx rotation_due ready index_of
exits_none = refl

Reach-completes_example :
    (t : PoolState) × Answers.Moves (some 1) ℕ swapped_in t
    × (get_elem? t.rotations 0 ≡ some (record { old = 0; phase = complete }))
Reach-completes_example = Reach-completes (omega arith) swapped_in-Reach polls refl exits_none

-- The thread exits while the transaction is open, and the pool is destroyed.
abbrev crashed : PoolState
crashed = fail_exit ℕ swapped_in 0 []

crashed_polls : get_elem? crashed.rotations 0 ≡ some (record { old = 0; phase = polling })
unfolding request pick_slot pick_loop request_tx call_slot Map.put resume on_message Map.find
    Map.delete accept_tx rotation_due ready index_of fail_exit
crashed_polls = refl

crashed_exited : contains 0 crashed.exits ≡ true
unfolding request pick_slot pick_loop request_tx call_slot Map.put resume on_message Map.find
    Map.delete accept_tx rotation_due ready index_of fail_exit
crashed_exited = refl

crashed_busy : 0 < (at crashed 0).busy
unfolding request pick_slot pick_loop request_tx call_slot Map.put resume on_message Map.find
    Map.delete accept_tx rotation_due ready index_of fail_exit on_exit finish_closes
crashed_busy = omega arith

Moves-polling_example :
    (get_elem? (destroy (poll crashed 0)).rotations 0 ≡ some (record { old = 0; phase = polling }))
    × (is_drained (at (destroy (poll crashed 0)) 0) ≡ false)
Moves-polling_example =
    Moves-polling {limit = some 1} {J = ℕ} 0 (Answers.go (polled 0) (Answers.go ended Answers.stay))
      crashed_polls refl crashed_exited crashed_busy
