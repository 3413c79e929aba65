-- ===== src/Abi/Frees.antt =====
-- The buffers that a trace has allocated and not freed.
use coraza_node.Base.{ℕ, zero, suc, ◌≡◌, refl, List, [], ◌∷◌, ◌==◌, if◌then◌else◌, arith}
use coraza_node.Abi.{malloc, write, free, call, last_error, Trace}

pub remove : ℕ → List ℕ → List ℕ
remove p [] = []
remove p (q ∷ qs) = if p == q then qs else q ∷ remove p qs

-- A null pointer is no buffer: `host_malloc` answers it where memory is out, and freeing it does
-- nothing.
abbrev pub allocated : ℕ → List ℕ → List ℕ
allocated zero live = live
allocated (suc p) live = suc p ∷ live

abbrev pub freed : ℕ → List ℕ → List ℕ
freed zero live = live
freed (suc p) live = remove (suc p) live

abbrev pub outstanding : Trace → List ℕ
outstanding [] = []
outstanding (malloc size ptr ∷ t) = allocated ptr (outstanding t)
outstanding (write ptr bytes ∷ t) = outstanding t
outstanding (free ptr ∷ t) = freed ptr (outstanding t)
outstanding (call e ∷ t) = outstanding t
outstanding (last_error ∷ t) = outstanding t

pub freed-allocated : (p : ℕ) (live : List ℕ) → freed p (allocated p live) ≡ live
unfolding remove
freed-allocated zero live = refl
freed-allocated (suc p) live = ground arith

-- Two buffers freed in the order of their allocation.
pub freed-freed-allocated :
    (p q : ℕ) (live : List ℕ) → freed q (freed p (allocated q (allocated p live))) ≡ live
unfolding remove
freed-freed-allocated zero zero live = refl
freed-freed-allocated zero (suc q) live = ground arith
freed-freed-allocated (suc p) zero live = ground arith
freed-freed-allocated (suc p) (suc q) live = ground arith
