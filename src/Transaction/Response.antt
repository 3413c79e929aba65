-- ===== src/Transaction/Response.antt =====
-- The two buffers of `processResponse` in packages/core/src/transaction.ts.
use coraza_node.Base.{ℕ, ◌≡◌, refl, ap, ◌∙◌, Bool, List, Option, Bool-cases, inl, inr, ◌⊎◌}
use coraza_node.Base.Text.{codes}
use coraza_node.Wire.Utf8.{utf8}
use coraza_node.Wire.Headers.{encode_headers}
use coraza_node.Wire.Bundle.{default_to}
use coraza_node.Abi.{
  Rc, Module, Error, Result, ok, err, Trace, M, ◌>>=◌, return, bind_result, is_one,
}
use coraza_node.Abi.Frees.{outstanding, allocated, freed, freed-freed-allocated}
use coraza_node.Transaction.{
  Tx, ResponseInfo, ensure_open, write_malloc, send_response, process_response, interrupts,
}
use coraza_node.Transaction.Memory.{Leaves, write_malloc-Leaves, checked-Balanced}

module _ (wasm : Module) (tx : Tx) (status : ℕ) (pkt proto : List ℕ) where
  -- The method behind its guard and its encodings.
  abbrev both : M Bool
  both = write_malloc wasm pkt >>= λ p.
      write_malloc wasm proto >>= λ q. interrupts wasm (send_response wasm tx status pkt proto p q)

  -- The buffers as they were, or a throw out of the second allocation with the first buffer left.
  abbrev pub Outcome : Trace → Result Bool × Trace → Type 0
  Outcome t r =
      (outstanding r.1 ≡ outstanding t)
      ⊎ ((p : ℕ) × (e : Error) × (t' : Trace) × (write_malloc wasm pkt t ≡ (ok p, t'))
          × ((write_malloc wasm proto t').0 ≡ err e)
          × (r.0 ≡ err e)
          × (outstanding r.1 ≡ allocated p (outstanding t)))

  close_interrupts :
      (r : Result Rc × Trace)
      → outstanding (bind_result r λ c. return (is_one c)).1 ≡ outstanding r.1
  close_interrupts (ok c, t) = refl
  close_interrupts (err e, t) = refl

  sent :
      (p q : ℕ) (live : List ℕ) (t : Trace)
      → outstanding t ≡ allocated q (allocated p live)
      → outstanding (interrupts wasm (send_response wasm tx status pkt proto p q) t).1 ≡ live
  sent p q live t e =
      close_interrupts (send_response wasm tx status pkt proto p q t)
      ∙ ap (λ l. freed q (freed p l)) ((checked-Balanced wasm _ _).same t ∙ e)
      ∙ freed-freed-allocated p q live

  second :
      (p : ℕ) (t t' : Trace) (r : Result ℕ × Trace)
      → write_malloc wasm pkt t ≡ (ok p, t')
      → write_malloc wasm proto t' ≡ r
      → outstanding t' ≡ allocated p (outstanding t)
      → Leaves wasm r.0 t' r.1
      → Outcome t (bind_result r λ q. interrupts wasm (send_response wasm tx status pkt proto p q))
  second p t t' (ok q, t'') a b e l = inl (sent p q (outstanding t) t'' (l ∙ ap (allocated q) e))
  second p t t' (err x, t'') a b e l = inr (p, x, t', a, ap (λ r. r.0) b, refl, l ∙ e)

  first :
      (t : Trace) (r : Result ℕ × Trace)
      → write_malloc wasm pkt t ≡ r
      → Leaves wasm r.0 t r.1
      → Outcome t (
          bind_result r λ p. write_malloc wasm proto >>= λ q.
          interrupts wasm (send_response wasm tx status pkt proto p q))
  first t (ok p, t') a l =
      second p t t' (write_malloc wasm proto t') a refl l (write_malloc-Leaves wasm proto t')
  first t (err e, t') a l = inl l

  both-Outcome : (t : Trace) → Outcome t (both t)
  both-Outcome t = first t (write_malloc wasm pkt t) refl (write_malloc-Leaves wasm pkt t)

-- `processResponse` leaves the buffers as they were, or it throws the exception of the protocol's
-- allocation, and besides the buffers from before only the header packet's, the first that it
-- allocated, is left.
pub process_response-Outcome :
    (wasm : Module) (header_buf : Option ℕ) (tx : Tx) (res : ResponseInfo) (t : Trace)
    → let packet = (encode_headers res.headers header_buf).0 in
      let proto = utf8 (default_to (codes "HTTP/1.1") res.protocol) in
      (outstanding (process_response wasm header_buf tx res t).1 ≡ outstanding t)
      ⊎ ((p : ℕ) × (e : Error) × (t' : Trace) × (write_malloc wasm packet t ≡ (ok p, t'))
          × ((write_malloc wasm proto t').0 ≡ err e)
          × ((process_response wasm header_buf tx res t).0 ≡ err e)
          × (outstanding (process_response wasm header_buf tx res t).1
              ≡ allocated p (outstanding t)))
unfolding process_response ensure_open
process_response-Outcome wasm header_buf tx res t = elim (Bool-cases tx.is_closed) [
  | inl e ↦ inl (rw e refl)
  | inr e ↦ rw e (both-Outcome wasm tx res.status _ _ t)
]
