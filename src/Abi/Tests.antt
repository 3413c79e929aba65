-- ===== src/Abi/Tests.antt =====
-- A memory that grows between two reads.
use coraza_node.Base.{◌≡◌, refl, [], ◌∷◌, none}
use coraza_node.Abi.View.{Memory, reads, grows, rx_memory, bytes, seen, held, seen-held}

abbrev small : Memory
small = record { buffer = 0; contents = 1 ∷ [] }

second_read :
    seen small none (reads ∷ grows (1 ∷ 2 ∷ []) ∷ reads ∷ []) ≡ (1 ∷ []) ∷ (1 ∷ 2 ∷ []) ∷ []
unfolding seen rx_memory bytes
second_read = refl

seen-held_example :
    seen small none (reads ∷ grows (1 ∷ 2 ∷ []) ∷ reads ∷ [])
    ≡ held small (reads ∷ grows (1 ∷ 2 ∷ []) ∷ reads ∷ [])
seen-held_example = seen-held (reads ∷ grows (1 ∷ 2 ∷ []) ∷ reads ∷ []) small
