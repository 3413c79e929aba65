-- ===== src/Pool/Pick.antt =====
-- Which worker a new transaction goes to: `#pickSlot` of packages/core/src/pool.ts.
use coraza_node.Base.{
  ℕ, suc, ◌+◌, ◌%◌, ◌≤◌, ◌<◌, ◌≡◌, refl, sym, ap, subst, true, false, List, [], ◌∷◌, ltb, length,
  get_or, Bool-cases, inl, inr, arith, All, dec_lt,
}
use coraza_node.Pool.{WorkerSlot, empty_slot, pick_loop, pick_slot}

abbrev pub busy_at : List WorkerSlot → ℕ → ℕ
busy_at slots i = (get_or slots i empty_slot).busy

abbrev Least : (ℕ → ℕ) → (bound r : ℕ) → Type 0
Least f bound r = (r < bound) × ((j : ℕ) → j < bound → f r ≤ f j)

below_suc :
    (f : ℕ → ℕ) (index b : ℕ)
    → ((j : ℕ) → j < index → b ≤ f j)
    → b ≤ f index
    → (j : ℕ) → j < suc index
    → b ≤ f j
below_suc f index b h e j lt = elim (dec_lt j index) [
  | yes l ↦ h j l
  | no q ↦ let i : index ≡ j = omega arith in subst (λ x. b ≤ f x) i e
]

shift : (index k : ℕ) → index + suc k ≡ suc index + k
shift index k = omega arith

smaller : (a b c : ℕ) → ltb a b ≡ true → b ≤ c → a ≤ c
smaller a b c h k = ground arith

not_smaller : (a b c : ℕ) → ltb a b ≡ false → c ≡ a → b ≤ c
not_smaller a b c h e = ground arith

least_test : (a b : ℕ) → b ≤ a → ltb a b ≡ false
least_test a b h = ground arith

-- The loop's invariant: the best so far is the least count among the slots before the index.
pick_loop-Least :
    (f : ℕ → ℕ) (slots : List WorkerSlot) (index best best_busy : ℕ)
    → ((k : ℕ) → k < length slots → f (index + k) ≡ busy_at slots k)
    → f best ≡ best_busy
    → best < index + length slots
    → ((j : ℕ) → j < index → best_busy ≤ f j)
    → Least f (index + length slots) (pick_loop slots index best best_busy)
unfolding pick_loop
pick_loop-Least f [] index best best_busy at e lt least =
    (lt, λ j l. subst (λ x. x ≤ f j) (sym e) (least j (omega arith)))
pick_loop-Least f (s ∷ slots) index best best_busy at e lt least =
    let start : index + 0 ≡ index = omega arith in
    let here : f index ≡ s.busy = subst (λ x. f x ≡ s.busy) start (at 0 (omega arith)) in
    let later : (k : ℕ) → k < length slots → f (suc index + k) ≡ busy_at slots k =
      λ k l. subst (λ x. f x ≡ busy_at slots k) (shift index k) (at (suc k) (omega arith)) in
    let bound : suc index + length slots ≡ index + suc (length slots) = omega arith in
    elim (Bool-cases (ltb s.busy best_busy)) [
      | inl c ↦ rw c (
          subst (λ n. Least f n (pick_loop slots (suc index) index s.busy)) bound
            (pick_loop-Least f slots (suc index) index s.busy later here (omega arith) (
              below_suc f index s.busy (λ j l. smaller s.busy best_busy (f j) c (least j l))
                (omega (here, arith)))))
      | inr c ↦ rw c (
          subst (λ n. Least f n (pick_loop slots (suc index) best best_busy)) bound
            (pick_loop-Least f slots (suc index) best best_busy later e (omega arith)
              (below_suc f index best_busy least (not_smaller s.busy best_busy (f index) c here))))
    ]

-- The slot that the loop starts at is kept where none is less busy.
pick_loop-first :
    (slots : List WorkerSlot) (index best best_busy : ℕ)
    → All (λ s. best_busy ≤ s.busy) slots
    → pick_loop slots index best best_busy ≡ best
unfolding pick_loop
pick_loop-first [] index best best_busy h = refl
pick_loop-first (s ∷ slots) index best best_busy h =
    rw (least_test s.busy best_busy h.0) (pick_loop-first slots (suc index) best best_busy h.1)

least_everywhere :
    (b : ℕ) (slots : List WorkerSlot)
    → ((j : ℕ) → j < length slots → b ≤ busy_at slots j)
    → All (λ s. b ≤ s.busy) slots
least_everywhere b [] h = tt
least_everywhere b (s ∷ slots) h =
    (h 0 (omega arith), least_everywhere b slots λ j l. h (suc j) (omega arith))

-- With at least one slot, the chosen index is a slot's, and no slot is less busy than the chosen one.
pub pick_slot-Least :
    (slots : List WorkerSlot) (rr : ℕ)
    → 0 < length slots
    → (pick_slot slots rr < length slots)
      × All (λ s. busy_at slots (pick_slot slots rr) ≤ s.busy) slots
unfolding pick_slot
pick_slot-Least slots rr lt =
    let zero_add : (k : ℕ) → 0 + k ≡ k = λ k. omega arith in
    let first = rr % length slots in
    let l =
      subst (λ n. Least (busy_at slots) n (pick_loop slots 0 first (busy_at slots first)))
        (zero_add (length slots))
        (pick_loop-Least (busy_at slots) slots 0 first _ (λ k _. ap (busy_at slots) (zero_add k))
          refl (omega arith) (λ j m. ground arith)) in
    (l.0, least_everywhere _ slots l.1)

-- Where no slot is less busy than the one that round-robin points at, that one is chosen.
pick_slot-first :
    (slots : List WorkerSlot) (rr : ℕ)
    → All (λ s. busy_at slots (rr % length slots) ≤ s.busy) slots
    → pick_slot slots rr ≡ rr % length slots
unfolding pick_slot
pick_slot-first slots rr h = pick_loop-first slots 0 (rr % length slots) _ h
