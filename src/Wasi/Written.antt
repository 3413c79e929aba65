-- ===== src/Wasi/Written.antt =====
-- What `fd_write` of packages/core/src/wasi.ts returns and leaves in the memory.
use coraza_node.Base.{
  ℕ, zero, suc, ◌+◌, ◌*◌, ◌≤◌, ◌≡◌, ◌≢◌, ◌⊎◌, inl, inr, refl, sym, ap, ◌∙◌, Bool, true, false, not,
  ◌&&◌, List, [], ◌++◌, Option, none, some, length, length-append, append_assoc, append-nil, subst,
  length-take, take, drop, ◌==◌, if◌then◌else◌, arith,
}
use coraza_node.Base.Text.{Text}
use coraza_node.Wasi.{
  errno_success, errno_badf, stdout, stderr, get_uint32, set_uint32, gather, vector, answer,
  write_gathered, write_fd,
}
use coraza_node.Wasi.Memory.{
  IsWritten, Returns, set_uint32-IsWritten, get_uint32-Returns, set_uint32-Returns,
}

abbrev or_zero : Option ℕ → ℕ
or_zero none = 0
or_zero (some n) = n

-- The bytes are no more than the stated lengths.
abbrev IsCounted : Option (List ℕ × ℕ) → Type 0
IsCounted none = Unit
IsCounted (some (bytes, total)) = length bytes ≤ total

vector-IsCounted :
    (memory : List ℕ) (ptr len : Option ℕ) (rest : Option (List ℕ × ℕ))
    → IsCounted rest
    → IsCounted (vector memory ptr len rest)
vector-IsCounted memory none len rest h = tt
vector-IsCounted memory (some ptr) none rest h = tt
vector-IsCounted memory (some ptr) (some len) none h = tt
vector-IsCounted memory (some ptr) (some len) (some (bytes, total)) h =
    omega (
      arith,
      h,
      length-append (take len (drop ptr memory)) bytes,
      length-take len (drop ptr memory),
    )

gather-IsCounted : (n : ℕ) (memory : List ℕ) (p : ℕ) → IsCounted (gather n memory p)
unfolding gather
gather-IsCounted zero memory p = omega arith
gather-IsCounted (suc n) memory p =
    vector-IsCounted memory (get_uint32 memory p) (get_uint32 memory (p + 4))
      (gather n memory (p + 8)) (gather-IsCounted n memory (p + 8))

abbrev pub IsRefused : (memory memory' : List ℕ) (fd errno : ℕ) → Type 0
IsRefused memory memory' fd errno =
    (fd ≢ stdout) × (fd ≢ stderr) × (errno ≡ errno_badf) × (memory' ≡ memory)

abbrev pub word_at : List ℕ → ℕ → ℕ
word_at memory p = or_zero (get_uint32 memory p)

-- The sum of the lengths that the vectors from an address on state, and the bytes that they point
-- to, each cut at the end of the memory.
abbrev pub stated : (n : ℕ) → List ℕ → (p : ℕ) → ℕ
stated zero memory p = 0
stated (suc n) memory p = stated n memory p + word_at memory (p + 8 * n + 4)

abbrev pub pieces : (n : ℕ) → List ℕ → (p : ℕ) → List ℕ
pieces zero memory p = []
pieces (suc n) memory p =
    pieces n memory p
    ++ take (word_at memory (p + 8 * n + 4)) (drop (word_at memory (p + 8 * n)) memory)

stated-front :
    (n : ℕ) (memory : List ℕ) (p : ℕ)
    → stated (suc n) memory p ≡ word_at memory (p + 4) + stated n memory (p + 8)
stated-front zero memory p =
    let e : word_at memory (p + 8 * 0 + 4) ≡ word_at memory (p + 4) =
      ap (word_at memory) (omega arith) in
    omega (arith, e)
stated-front (suc n) memory p =
    let ih = stated-front n memory p in
    let e : word_at memory (p + 8 * suc n + 4) ≡ word_at memory (p + 8 + 8 * n + 4) =
      ap (word_at memory) (omega arith) in
    omega (arith, ih, e)

pieces-front :
    (n : ℕ) (memory : List ℕ) (p : ℕ)
    → pieces (suc n) memory p
      ≡ take (word_at memory (p + 4)) (drop (word_at memory p) memory) ++ pieces n memory (p + 8)
pieces-front zero memory p =
    let e : p + 8 * 0 ≡ p = omega arith in
    rw e (sym (append-nil (take (word_at memory (p + 4)) (drop (word_at memory p) memory))))
pieces-front (suc n) memory p =
    let ih = pieces-front n memory p in
    let e : p + 8 * suc n ≡ p + 8 + 8 * n = omega arith in
    let a = append_assoc (take (word_at memory (p + 4)) (drop (word_at memory p) memory)) in
    rw (e, ih) (a _ _)

abbrev pub IsReported :
    (memory memory' : List ℕ) (fd iovs_ptr iovs_len nwritten_ptr errno : ℕ) → Type 0
IsReported memory memory' fd iovs_ptr iovs_len nwritten_ptr errno =
    let bytes = pieces iovs_len memory iovs_ptr in
    let total = stated iovs_len memory iovs_ptr in
    ((fd ≡ stdout) ⊎ (fd ≡ stderr))
    × (errno ≡ errno_success)
    × (gather iovs_len memory iovs_ptr ≡ some (bytes, total))
    × (length bytes ≤ total)
    × IsWritten memory memory' nwritten_ptr total

first : Option (ℕ × List ℕ) → ℕ
first none = 0
first (some (errno, memory)) = errno

second : Option (ℕ × List ℕ) → List ℕ
second none = []
second (some (errno, memory)) = memory

module _ (decode : List ℕ → Text) (memory memory' : List ℕ)
    (fd iovs_ptr iovs_len nwritten_ptr errno : ℕ) where
  abbrev Reported : Type 0
  Reported = IsReported memory memory' fd iovs_ptr iovs_len nwritten_ptr errno

  abbrev bytes : List ℕ
  bytes = pieces iovs_len memory iovs_ptr

  abbrev total : ℕ
  total = stated iovs_len memory iovs_ptr

  answered-IsReported :
      (o : Option (List ℕ))
      → gather iovs_len memory iovs_ptr ≡ some (bytes, total)
      → length bytes ≤ total
      → (fd ≡ stdout) ⊎ (fd ≡ stderr)
      → set_uint32 memory nwritten_ptr total ≡ o
      → answer errno_success o ≡ some (errno, memory')
      → Reported
  unfolding first second
  answered-IsReported none g le open' s q = absurd cc
  answered-IsReported (some m) g le open' s q = (
    open',
    sym (ap first q),
    g,
    le,
    set_uint32-IsWritten memory memory' nwritten_ptr total (s ∙ ap some (ap second q)),
  )

  gathered-IsReported :
      gather iovs_len memory iovs_ptr ≡ some (bytes, total)
      → (fd ≡ stdout) ⊎ (fd ≡ stderr)
      → (write_gathered decode memory fd nwritten_ptr (gather iovs_len memory iovs_ptr)).result
        ≡ some (errno, memory')
      → Reported
  gathered-IsReported g open' q =
      answered-IsReported (set_uint32 memory nwritten_ptr total) g
        (subst IsCounted g (gather-IsCounted iovs_len memory iovs_ptr)) open' refl
        (sym (ap (λ o. (write_gathered decode memory fd nwritten_ptr o).result) g) ∙ q)

  refused : (a b : ℕ) → (not (fd == a) && not (fd == b)) ≡ true → (fd ≢ a) × (fd ≢ b)
  refused a b h = ((λ p. ground (arith, h, p)), (λ p. ground (arith, h, p)))

  allowed : (a b : ℕ) → (not (fd == a) && not (fd == b)) ≡ false → (fd ≡ a) ⊎ (fd ≡ b)
  allowed a b h = ground (arith, h)

  chosen-IsReported :
      (b : Bool)
      → gather iovs_len memory iovs_ptr ≡ some (bytes, total)
      → (not (fd == stdout) && not (fd == stderr)) ≡ b
      → (if b
          then record { logged = []; result = some (errno_badf, memory) }
          else write_gathered decode memory fd nwritten_ptr
              (gather iovs_len memory iovs_ptr)).result
        ≡ some (errno, memory')
      → IsRefused memory memory' fd errno ⊎ Reported
  unfolding first second
  chosen-IsReported true g h q =
      let r = refused stdout stderr h in inl (r.0, r.1, sym (ap first q), sym (ap second q))
  chosen-IsReported false g h q = inr (gathered-IsReported g (allowed stdout stderr h) q)

  -- A call that returns refuses another descriptor, or reports.
  write_fd-IsReported :
      gather iovs_len memory iovs_ptr ≡ some (bytes, total)
      → (write_fd decode memory fd iovs_ptr iovs_len nwritten_ptr).result ≡ some (errno, memory')
      → IsRefused memory memory' fd errno ⊎ Reported
  unfolding write_fd
  write_fd-IsReported g e = chosen-IsReported (not (fd == stdout) && not (fd == stderr)) g refl e

word_at-get :
    (memory : List ℕ) (p : ℕ)
    → p + 4 ≤ length memory
    → get_uint32 memory p ≡ some (word_at memory p)
word_at-get memory p h =
    let (v, e) = get_uint32-Returns memory p h in e ∙ ap some (sym (ap or_zero e))

-- The loop joins the pieces from its front.
gather-pieces :
    (n : ℕ) (memory : List ℕ) (p : ℕ)
    → p + 8 * n ≤ length memory
    → gather n memory p ≡ some (pieces n memory p, stated n memory p)
unfolding gather
gather-pieces zero memory p h = refl
gather-pieces (suc n) memory p h =
    let e = word_at-get memory p (omega (arith, h)) in
    let f = word_at-get memory (p + 4) (omega (arith, h)) in
    let g = gather-pieces n memory (p + 8) (omega (arith, h)) in
    let a = pieces-front n memory p in let b = stated-front n memory p in cc

write_fd-Returns :
    (decode : List ℕ → Text) (memory : List ℕ) (fd iovs_ptr iovs_len nwritten_ptr : ℕ)
    → iovs_ptr + 8 * iovs_len ≤ length memory
    → nwritten_ptr + 4 ≤ length memory
    → Returns (write_fd decode memory fd iovs_ptr iovs_len nwritten_ptr).result
unfolding write_fd
write_fd-Returns decode memory fd iovs_ptr iovs_len nwritten_ptr h k =
    chosen (not (fd == stdout) && not (fd == stderr))
  where
    written_result :
        (o : Option (List ℕ × ℕ))
        → Returns o
        → Returns (write_gathered decode memory fd nwritten_ptr o).result
    written_result none (a, e) = absurd cc
    written_result (some (_, total)) r =
        let (m, e) = set_uint32-Returns memory nwritten_ptr total k in
        ((errno_success, m), ap (answer errno_success) e)

    chosen :
        (b : Bool)
        → Returns
            (if b
              then record { logged = []; result = some (errno_badf, memory) }
              else write_gathered decode memory fd nwritten_ptr
                  (gather iovs_len memory iovs_ptr)).result
    chosen true = ((errno_badf, memory), refl)
    chosen false =
        written_result (gather iovs_len memory iovs_ptr)
          (_, gather-pieces iovs_len memory iovs_ptr h)

-- With the vectors and the place for the result inside the memory, the call returns. It refuses
-- another descriptor than 1 and 2 with EBADF and leaves the memory as it was; or it succeeds, and
-- has written one word: the sum of the lengths that the vectors state, modulo 2 ^ 32. It has joined
-- the bytes that the vectors point to, in their order, which are no more than that sum. All other
-- bytes of the memory are as before.
pub write_fd-IsWritten :
    (decode : List ℕ → Text) (memory : List ℕ) (fd iovs_ptr iovs_len nwritten_ptr : ℕ)
    → iovs_ptr + 8 * iovs_len ≤ length memory
    → nwritten_ptr + 4 ≤ length memory
    → (errno : ℕ) × (memory' : List ℕ) × ((write_fd decode memory fd iovs_ptr iovs_len
          nwritten_ptr).result
        ≡ some (errno, memory'))
      × (IsRefused memory memory' fd errno
          ⊎ IsReported memory memory' fd iovs_ptr iovs_len nwritten_ptr errno)
write_fd-IsWritten decode memory fd iovs_ptr iovs_len nwritten_ptr h k =
    let (r, e) = write_fd-Returns decode memory fd iovs_ptr iovs_len nwritten_ptr h k in
    let g = gather-pieces iovs_len memory iovs_ptr h in
    (r.0, r.1, e, write_fd-IsReported decode memory r.1 fd iovs_ptr iovs_len nwritten_ptr r.0 g e)
