-- ===== src/Transaction/Memory.antt =====
-- The buffers of the methods of packages/core/src/transaction.ts, on every outcome of the module.
use coraza_node.Base.{
  ℕ, zero, suc, ◌≡◌, refl, ap, ◌∙◌, Bool, true, false, List, [], ◌∷◌, Option, none, some, ◌==◌,
  length, if◌then◌else◌, Bool-cases, Option-cases, inl, inr, arith,
}
use coraza_node.Base.Text.{Text}
use coraza_node.Wire.Scratch as Scratch
use coraza_node.Wire.Bundle.{RequestInfo, Body, body_bytes}
use coraza_node.Abi.{
  Export, Rc, rc, negative, trap, Module, Result, ok, err, Trace, M, ◌>>=◌, ◌>>◌, return,
  bind_result, finally, host_free, host_malloc, invoke, of_rc, check, is_zero, is_one,
}
use coraza_node.Abi.Frees.{outstanding, allocated, freed, freed-allocated}
use coraza_node.Transaction.{
  Tx, ensure_open, write_malloc, checked, with_buffer, process_connection, process_request_bundle,
  append_request_body, append_response_body, process_response_body, read_packed, interruption,
  parsed, void, interrupts, append_chunk, response_body,
}

-- A computation that leaves the buffers as they were, on every outcome.
pub record Balanced {A : Type 0} (m : M A) : Type 0 where
  pub same : (t : Trace) → outstanding (m t).1 ≡ outstanding t

pub return-Balanced : {A : Type 0} (a : A) → Balanced (return a)
return-Balanced a = record { same = λ t. refl }

bind_result-Balanced :
    {A B : Type 0} (f : A → M B) (r : Result A × Trace)
    → ((a : A) → Balanced (f a))
    → outstanding (bind_result r f).1 ≡ outstanding r.1
bind_result-Balanced f (ok a, t) h = (h a).same t
bind_result-Balanced f (err e, t) h = refl

pub >>=-Balanced :
    {A B : Type 0} (m : M A) (f : A → M B)
    → Balanced m
    → ((a : A) → Balanced (f a))
    → Balanced (m >>= f)
>>=-Balanced m f b h = record { same = λ t. bind_result-Balanced f (m t) h ∙ b.same t }

ensure_open-Balanced : (tx : Tx) → Balanced (ensure_open tx)
unfolding ensure_open
ensure_open-Balanced tx = elim (Bool-cases tx.is_closed) [
  | inl e ↦ record { same = λ t. rw e }
  | inr e ↦ record { same = λ t. rw e }
]

pub nonzero : (p : ℕ) → (suc p == 0) ≡ false
nonzero p = ground arith

module _ (wasm : Module) where
  of_rc-Balanced : (r : Rc) (t : Trace) → outstanding (of_rc wasm r t).1 ≡ outstanding t
  of_rc-Balanced (rc n) t = refl
  of_rc-Balanced negative t = refl
  of_rc-Balanced trap t = refl

  invoke-Balanced : (e : Export) → Balanced (invoke wasm e)
  unfolding invoke
  invoke-Balanced e = record { same = λ t. of_rc-Balanced (wasm.calls t e) _ }

  check-Balanced : (r : Rc) (op : Text) → Balanced (check wasm r op)
  unfolding check
  check-Balanced negative op = record { same = λ t. refl }
  check-Balanced r op = record { same = λ t. refl }

  pub checked-Balanced : (e : Export) (op : Text) → Balanced (checked wasm e op)
  unfolding checked
  checked-Balanced e op =
      >>=-Balanced (invoke wasm e) _ (invoke-Balanced e)
        λ r. >>=-Balanced (check wasm r op) _ (check-Balanced r op) λ u. return-Balanced r

  -- What an allocation leaves behind: the buffer it answers, or nothing.
  abbrev pub Leaves : Result ℕ → Trace → Trace → Type 0
  Leaves (ok p) t t' = outstanding t' ≡ allocated p (outstanding t)
  Leaves (err e) t t' = outstanding t' ≡ outstanding t

  pub write_malloc-Leaves :
      (bytes : List ℕ) (t : Trace)
      → Leaves (write_malloc wasm bytes t).0 t (write_malloc wasm bytes t).1
  unfolding write_malloc host_malloc
  write_malloc-Leaves [] t = refl
  write_malloc-Leaves (b ∷ bs) t = elim (Option-cases (wasm.mallocs t (suc (length bs)))) [
    | inl e ↦ rw (e, host_malloc) refl
    | inr (zero, e) ↦ rw (e, host_malloc) refl
    | inr (suc p, e) ↦ rw (e, host_malloc, nonzero p) refl
  ]

  -- A balanced call between an allocation and its release.
  bracket :
      {A : Type 0} (r : Result ℕ × Trace) (body : ℕ → M A) (t : Trace)
      → Leaves r.0 t r.1
      → ((ptr : ℕ) → Balanced (body ptr))
      → outstanding (bind_result r (λ ptr. finally (body ptr) (host_free ptr))).1 ≡ outstanding t
  bracket (ok p, t') body t l h =
      ap (freed p) ((h p).same t' ∙ l) ∙ freed-allocated p (outstanding t)
  bracket (err e, t') body t l h = l

  with_buffer-Balanced :
      (bytes : List ℕ) (e : ℕ → Export) (op : Text) → Balanced (with_buffer wasm bytes e op)
  unfolding with_buffer
  with_buffer-Balanced bytes e op = record {
    same = λ t.
        bracket (write_malloc wasm bytes t) (λ ptr. checked wasm (e ptr) op) t
          (write_malloc-Leaves bytes t) (λ ptr. checked-Balanced (e ptr) op);
  }

  void-Balanced : (m : M Rc) → Balanced m → Balanced (void wasm m)
  void-Balanced m b = >>=-Balanced m _ b λ r. return-Balanced tt

  interrupts-Balanced : (m : M Rc) → Balanced m → Balanced (interrupts wasm m)
  interrupts-Balanced m b = >>=-Balanced m _ b λ r. return-Balanced (is_one r)

  choose :
      {J : Type 0} (b : Bool) {m : M (Option J)}
      → Balanced m
      → Balanced (if b then return none else m)
  choose true h = return-Balanced none
  choose false h = h

  guarded : {A : Type 0} (tx : Tx) (m : M A) → Balanced m → Balanced (ensure_open tx >> m)
  guarded tx m b = >>=-Balanced (ensure_open tx) _ (ensure_open-Balanced tx) λ u. b

  append_chunk-Balanced :
      (chunk : List ℕ) (e : ℕ → ℕ → Export) (op : Text) → Balanced (append_chunk wasm chunk e op)
  append_chunk-Balanced [] e op = return-Balanced tt
  append_chunk-Balanced (b ∷ bs) e op =
      void-Balanced (with_buffer wasm (b ∷ bs) (λ ptr. e ptr (suc (length bs))) op)
        (with_buffer-Balanced (b ∷ bs) _ op)

  response_body-Balanced : (id : ℕ) (body : List ℕ) → Balanced (response_body wasm id body)
  response_body-Balanced id [] = checked-Balanced _ _
  response_body-Balanced id (b ∷ bs) = with_buffer-Balanced (b ∷ bs) _ _

  parsed-Balanced :
      {J : Type 0} (o : Option J) (t : Trace) → outstanding (parsed wasm o t).1 ≡ outstanding t
  parsed-Balanced none t = refl
  parsed-Balanced (some j) t = refl

  read_packed-Balanced :
      {J : Type 0} (parse : Text → Option J) (packed : Rc)
      → Balanced (read_packed wasm parse packed)
  unfolding read_packed
  read_packed-Balanced parse negative = record {
    same = λ t. parsed-Balanced (parse (wasm.string_below t)) t;
  }
  read_packed-Balanced parse trap = record {
    same = λ t. parsed-Balanced (parse (wasm.string_below t)) t;
  }
  read_packed-Balanced parse (rc packed) = elim (Bool-cases (packed == 0)) [
    | inl e ↦ record { same = λ t. rw e }
    | inr e ↦ record { same = λ t. rw e (parsed-Balanced _ t) }
  ]

  -- The methods with a buffer of their own leave no buffer behind, on every outcome of the module:
  -- out of memory, a trap in a call, a negative return value or success.
  pub buffers-Balanced :
      (scratch : Scratch.Memory) (header_buf : Option ℕ) (tx : Tx) (req : RequestInfo) (body : Body)
      (addr : Text) (cport sport : ℕ) (chunk : List ℕ)
      → Balanced (process_request_bundle wasm scratch header_buf tx req body)
        × Balanced (process_response_body wasm tx body)
        × Balanced (process_connection wasm tx addr cport sport)
        × Balanced (append_request_body wasm tx chunk)
        × Balanced (append_response_body wasm tx chunk)
  unfolding process_request_bundle process_response_body process_connection append_request_body
      append_response_body
  buffers-Balanced scratch header_buf tx req body addr cport sport chunk = (
    guarded tx _ (interrupts-Balanced _ (with_buffer-Balanced _ _ _)),
    guarded tx _ (interrupts-Balanced _ (response_body-Balanced tx.id (body_bytes body))),
    guarded tx _ (void-Balanced _ (with_buffer-Balanced _ _ _)),
    guarded tx _ (append_chunk-Balanced chunk _ _),
    guarded tx _ (append_chunk-Balanced chunk _ _),
  )

  -- The other methods allocate nothing.
  interruption-Balanced :
      {J : Type 0} (parse : Text → Option J) (tx : Tx) → Balanced (interruption wasm parse tx)
  unfolding interruption
  interruption-Balanced parse tx = guarded tx _ (
      >>=-Balanced (invoke wasm _) _ (invoke-Balanced _) λ has. choose (is_zero has) (
        >>=-Balanced (invoke wasm _) _ (invoke-Balanced _)
          λ packed. read_packed-Balanced parse packed))
