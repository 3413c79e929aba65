-- ===== src/Worker/WafLife.antt =====
-- A WAF of packages/core/src/waf.ts from its configuration to its destruction.
use coraza_node.Base.{
  ℕ, zero, suc, ◌≡◌, refl, ap, ◌∙◌, true, false, List, ◌∷◌, length, if◌then◌else◌, ◌==◌, Bool-cases,
  Option-cases, inl, inr,
}
use coraza_node.Base.Text.{Text, codes}
use coraza_node.Wire.Utf8.{utf8}
use coraza_node.Abi.{
  waf_create, Module, destroyed, Result, ok, err, Trace, M, ◌>>=◌, ◌>>◌, return, throw, write,
  finally, host_free, host_malloc, emit, bind_result, out_of_config_memory,
}
use coraza_node.Abi.Frees.{outstanding, freed, freed-allocated}
use coraza_node.Transaction.{checked, number_of}
use coraza_node.Transaction.Memory.{
  Balanced, Leaves, checked-Balanced, return-Balanced, >>=-Balanced, nonzero,
}
use coraza_node.Worker.{Mode, Waf, wrap_directives, from_abi, new_transaction, destroy}

module _ (wasm : Module) where
  created-Balanced :
      (ptr len : ℕ)
      → Balanced {A = Waf} (
          checked wasm (waf_create ptr len) (codes "waf_create") >>= λ r.
          return (record { id = number_of wasm r; is_destroyed = false }))
  created-Balanced ptr len =
      >>=-Balanced (checked wasm _ _) _ (checked-Balanced wasm _ _) λ r. return-Balanced _

  host_malloc-Leaves :
      (size : ℕ) (t : Trace) → Leaves wasm (host_malloc wasm size t).0 t (host_malloc wasm size t).1
  unfolding host_malloc
  host_malloc-Leaves size t = elim (Option-cases (wasm.mallocs t size)) [
    | inl e ↦ rw (e, host_malloc, Leaves) refl
    | inr (p, e) ↦ rw (e, host_malloc, Leaves) refl
  ]

  -- The configuration's buffer, from its address on.
  abbrev configured : List ℕ → ℕ → M Waf
  configured bytes ptr = if ptr == 0 then throw out_of_config_memory else do
    emit (write ptr bytes)
    finally
        (checked wasm (waf_create ptr (length bytes)) (codes "waf_create") >>= λ r.
          return (record { id = number_of wasm r; is_destroyed = false }))
        (host_free ptr)

  configured-frees :
      (bytes : List ℕ) (r : Result ℕ × Trace) (t : Trace)
      → Leaves wasm r.0 t r.1
      → outstanding (bind_result r (configured bytes)).1 ≡ outstanding t
  configured-frees bytes (err e, t') t l = l
  configured-frees bytes (ok zero, t') t l = l
  configured-frees bytes (ok (suc p), t') t l = rw (nonzero p) (
      ap (freed (suc p))
        ((created-Balanced (suc p) (length bytes)).same (write (suc p) bytes ∷ t') ∙ l)
      ∙ freed-allocated (suc p) (outstanding t))

-- Creating a WAF leaves no configuration buffer behind, whatever the module answers: no memory, a
-- trap, a configuration that is refused, or success.
pub from_abi-Balanced :
    (wasm : Module) (rules : Text) (mode : Mode) → Balanced (from_abi wasm rules mode)
unfolding from_abi
from_abi-Balanced wasm rules mode = record {
  same = λ t.
      configured-frees wasm (utf8 (wrap_directives rules mode)) (host_malloc wasm _ t) t
        (host_malloc-Leaves wasm _ t);
}

destroy-is_destroyed :
    (wasm : Module) (waf : Waf) (t : Trace) → (destroy wasm waf t).1.is_destroyed ≡ true
unfolding destroy
destroy-is_destroyed wasm waf t = elim (Bool-cases waf.is_destroyed) [
  | inl e ↦ rw e refl
  | inr e ↦ rw e refl
]

destroyed-idle :
    (wasm : Module) (waf : Waf) (u : Trace)
    → waf.is_destroyed ≡ true
    → (destroy wasm waf u ≡ (ok tt, waf, u)) × (new_transaction wasm waf u ≡ (err destroyed, u))
unfolding destroy new_transaction
destroyed-idle wasm waf u e = (simp e, simp e)

-- Whatever the module answers, `destroy` leaves the WAF destroyed; a later `destroy` on it does
-- nothing and a later `newTransaction` throws, and neither calls the module.
destroy-destroy :
    (wasm : Module) (waf : Waf) (t u : Trace)
    → let waf' = (destroy wasm waf t).1 in
      (waf'.is_destroyed ≡ true)
      × (destroy wasm waf' u ≡ (ok tt, waf', u))
      × (new_transaction wasm waf' u ≡ (err destroyed, u))
destroy-destroy wasm waf t u =
    let d = destroy-is_destroyed wasm waf t in
    let r = destroyed-idle wasm (destroy wasm waf t).1 u d in (d, r.0, r.1)
