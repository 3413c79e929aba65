-- ===== src/Pool/Rotation/Indices.antt =====
-- Lists of worker indices without repetition, and what a swap does to them.
use coraza_node.Base.{
  ℕ, zero, suc, ◌≤◌, ◌<◌, ◌≡◌, ◌≢◌, refl, sym, ap, Bool, true, false, ◌||◌, List, [], ◌∷◌, ◌++◌,
  Option, none, some, some_eq, ◌==◌, length, get_or, get_elem?, set, All, if◌then◌else◌, arith, inl,
  inr, ◌⊎◌, subst, ◌∙◌, dec_lt,
}
use coraza_node.Pool.Rotation.{contains, index_of, one_further}

abbrev pub IsDistinct : List ℕ → Type 0
IsDistinct [] = Unit
IsDistinct (x ∷ xs) = (contains x xs ≡ false) × IsDistinct xs

pub contains-set :
    (v y : ℕ) (xs : List ℕ) (i : ℕ)
    → v ≢ y
    → contains v xs ≡ false
    → contains v (set xs i y) ≡ false
contains-set v y [] i d h = refl
contains-set v y (x ∷ xs) zero d h = ground (arith, h, d)
contains-set v y (x ∷ xs) (suc i) d h = ground (arith, h, contains-set v y xs i d)

pub set-IsDistinct :
    (y : ℕ) (xs : List ℕ) (i : ℕ) → contains y xs ≡ false → IsDistinct xs → IsDistinct (set xs i y)
set-IsDistinct y [] i h s = tt
set-IsDistinct y (x ∷ xs) zero h (g, s) = (ground (arith, h), s)
set-IsDistinct y (x ∷ xs) (suc i) h (g, s) =
    (contains-set x y xs i (differ x y _ h) g, set-IsDistinct y xs i (ground (arith, h)) s)
  where
    differ : (x y : ℕ) (b : Bool) → ((x == y) || b) ≡ false → x ≢ y
    differ x y b h = ground (arith, h)

pub set-All :
    {A : Type 0} (P : A → Type 0) (y : A) (xs : List A) (i : ℕ)
    → P y
    → All P xs
    → All P (set xs i y)
set-All P y [] i p h = tt
set-All P y (x ∷ xs) zero p (h, hs) = (p, hs)
set-All P y (x ∷ xs) (suc i) p (h, hs) = (h, set-All P y xs i p hs)

pub map-All :
    {A : Type 0} (P Q : A → Type 0) (xs : List A) → ((x : A) → P x → Q x) → All P xs → All Q xs
map-All P Q [] f h = tt
map-All P Q (x ∷ xs) f (h, hs) = (f x h, map-All P Q xs f hs)

-- An element that is there is below a bound of all.
pub contains-bound : (m v : ℕ) (xs : List ℕ) → All (λ x. x < m) xs → m ≤ v → contains v xs ≡ false
contains-bound m v [] h le = refl
contains-bound m v (x ∷ xs) (h, hs) le = ground (arith, h, le, contains-bound m v xs hs le)

contains-index_of : (v : ℕ) (xs : List ℕ) → contains v xs ≡ false → index_of v xs ≡ none
unfolding index_of
contains-index_of v [] h = refl
contains-index_of v (x ∷ xs) h =
    rw (first (x == v) _ h) (ap one_further (contains-index_of v xs (rest (x == v) _ h)))
  where
    first : (a b : Bool) → (a || b) ≡ false → a ≡ false
    first a b h = ground (arith, h)

    rest : (a b : Bool) → (a || b) ≡ false → b ≡ false
    rest a b h = ground (arith, h)

pub index_of-bound :
    (m v i : ℕ) (xs : List ℕ) → index_of v xs ≡ some i → All (λ x. x < m) xs → v < m
index_of-bound m v i xs e h = elim (dec_lt v m) [
  | yes lt ↦ lt
  | no ge ↦
      absurd
        (differ (sym (contains-index_of v xs (contains-bound m v xs h (omega (arith, ge)))) ∙ e))
]
  where
    differ : ¬ none ≡ some i
    differ p = cc

-- Where an index is found: at the head, or in the tail.
index_of-cases :
    (v x i : ℕ) (xs : List ℕ)
    → index_of v (x ∷ xs) ≡ some i
    → ((x ≡ v) × (i ≡ 0)) ⊎ ((x ≢ v) × (j : ℕ) × (index_of v xs ≡ some j) × (i ≡ suc j))
unfolding index_of
index_of-cases v x i xs e = found (x == v) refl (index_of v xs) refl e
  where
    found :
        (b : Bool)
        → (x == v) ≡ b
        → (o : Option ℕ) → index_of v xs ≡ o
        → (if b then some 0 else one_further o) ≡ some i
        → ((x ≡ v) × (i ≡ 0)) ⊎ ((x ≢ v) × (j : ℕ) × (index_of v xs ≡ some j) × (i ≡ suc j))
    found true q o p e = inl (ground (arith, q), sym (some_eq e))
    found false q none p e = absurd cc
    found false q (some j) p e = inr (ground (arith, q), j, p, sym (some_eq e))

-- The swap removes the one entry.
pub index_of-set :
    (v y i : ℕ) (xs : List ℕ)
    → index_of v xs ≡ some i
    → IsDistinct xs
    → v ≢ y
    → contains v (set xs i y) ≡ false
index_of-set v y i [] e s d = refl
index_of-set v y i (x ∷ xs) e (g, s) d = elim (index_of-cases v x i xs e) [
  | inl (here, first) ↦
      subst (λ (k : ℕ). contains v (set (x ∷ xs) k y) ≡ false) (sym first)
        (ground (arith, subst (λ (k : ℕ). contains k xs ≡ false) here g, d))
  | inr (there, j, found, later) ↦
      subst (λ (k : ℕ). contains v (set (x ∷ xs) k y) ≡ false) (sym later)
        (ground (arith, there, index_of-set v y j xs found s d))
]

pub get_or-contains : (xs : List ℕ) (i d : ℕ) → i < length xs → contains (get_or xs i d) xs ≡ true
get_or-contains [] i d h = absurd (omega arith)
get_or-contains (x ∷ xs) zero d h = ground arith
get_or-contains (x ∷ xs) (suc i) d h = ground (arith, get_or-contains xs i d)

-- A write at one index, read at another.
pub get_or-set :
    {A : Type 0} (xs : List A) (w v : ℕ) (x d : A)
    → (get_or (set xs w x) v d ≡ get_or xs v d) ⊎ ((v ≡ w) × (get_or (set xs w x) v d ≡ x))
get_or-set [] w v x d = inl refl
get_or-set (y ∷ xs) zero zero x d = inr (refl, refl)
get_or-set (y ∷ xs) zero (suc v) x d = inl refl
get_or-set (y ∷ xs) (suc w) zero x d = inl refl
get_or-set (y ∷ xs) (suc w) (suc v) x d = elim (get_or-set xs w v x d) [
  | inl e ↦ inl e
  | inr p ↦ inr (ap suc p.0, p.1)
]

pub get_or-snoc :
    {A : Type 0} (xs : List A) (x d : A) (v : ℕ)
    → (get_or (xs ++ x ∷ []) v d ≡ get_or xs v d)
      ⊎ ((v ≡ length xs) × (get_or (xs ++ x ∷ []) v d ≡ x))
get_or-snoc [] x d zero = inr (refl, refl)
get_or-snoc [] x d (suc v) = inl refl
get_or-snoc (y ∷ xs) x d zero = inl refl
get_or-snoc (y ∷ xs) x d (suc v) = elim (get_or-snoc xs x d v) [
  | inl e ↦ inl e
  | inr p ↦ inr (ap suc p.0, p.1)
]

pub All-get :
    {A : Type 0} (P : A → Type 0) (xs : List A) (i : ℕ) (x : A)
    → get_elem? xs i ≡ some x
    → All P xs
    → P x
All-get P [] i x e h = absurd cc
All-get P (y ∷ xs) zero x e (h, hs) = subst P (some_eq e) h
All-get P (y ∷ xs) (suc i) x e (h, hs) = All-get P xs i x e hs
