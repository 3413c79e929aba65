-- ===== src/Adapter/FailClosed.antt =====
-- When a request gets past the middleware of packages/express/src/index.ts.
use coraza_node.Base.{
  ◌≡◌, refl, ◌≢◌, Bool, true, false, List, [], ◌∷◌, ◌++◌, Option, none, some, map, inl, inr, ◌||◌,
  arith,
}
use coraza_node.Base.{not, ◌&&◌, ◌∙◌, Bool-cases}
use coraza_node.Ignore.Verdict.{Verdict, inspect, skip, skip_body}
use coraza_node.Adapter.{Interruption, Outcome, returned, threw, block, Calls}
use coraza_node.Adapter.Express.{
  Effect, next, log_matched, CorazaExpressOptions, Host, emit_block_sync, emit_block,
  coraza_middleware, emit_verbose, interrupted, pass, bundle_result, engine_result,
  transaction_result, waf_result,
}

abbrev pub is_next : {R : Type 0} → Effect R → Bool
is_next next = true
is_next _ = false

-- Whether the next handler runs.
abbrev pub passes : {R : Type 0} → List (Effect R) → Bool
passes [] = false
passes (e ∷ es) = is_next e || passes es

abbrev pub returns : {A : Type 0} → Outcome A → Bool
returns (returned a) = true
returns (threw e) = false

abbrev pub says : Bool → Outcome Bool → Bool
says b (threw e) = false
says true (returned b) = b
says false (returned b) = not b

-- The WAF let the request through: its transaction is there, and the engine is off or it ran and
-- did not interrupt.
abbrev pub cleared : {R : Type 0} → Calls R → Bool
cleared calls =
    returns calls.waf
    && (returns calls.new_transaction
        && (says true calls.is_rule_engine_off
            || (says false calls.is_rule_engine_off && says false calls.process_request_bundle)))

passes-append :
    {R : Type 0} (xs ys : List (Effect R)) → passes (xs ++ ys) ≡ (passes xs || passes ys)
passes-append [] ys = refl
passes-append (x ∷ xs) ys = ground (arith, passes-append xs ys)

passes-log_matched : {R : Type 0} (rs : List R) → passes (map log_matched rs) ≡ false
passes-log_matched [] = refl
passes-log_matched (r ∷ rs) = passes-log_matched rs

module _ {R : Type 0} (options : CorazaExpressOptions) (host : Host) (calls : Calls R)
    (b : options.on_waf_error ≡ block) (h : host.headers_sent ≡ false) where
  emit_block_sync-passes :
      (it : Interruption) (matched : Option (List R))
      → passes (emit_block_sync options host calls it matched).0 ≡ false
  unfolding emit_block_sync
  emit_block_sync-passes it none = refl
  emit_block_sync-passes it (some rules) =
      passes-append (map log_matched rules) _ ∙ rw (passes-log_matched rules) refl

  emit_verbose-passes :
      (it : Interruption) (o : Outcome (List R))
      → passes (emit_verbose options host calls it o).0 ≡ false
  emit_verbose-passes it (threw e) = refl
  emit_verbose-passes it (returned rules) = emit_block_sync-passes it (some rules)

  emit_block-passes : (o : Option Interruption) → passes (emit_block options host calls o).0 ≡ false
  unfolding emit_block emit_block_sync
  emit_block-passes none = refl
  emit_block-passes (some it) = elim (Bool-cases options.verbose_log) [
    | inl e ↦ rw e (emit_verbose-passes it calls.matched_rules)
    | inr e ↦ rw e (emit_block_sync-passes it none)
  ]

  interrupted-passes :
      (o : Outcome (Option Interruption)) → passes (interrupted options host calls o).0 ≡ false
  interrupted-passes (threw e) = rw (b, h) refl
  interrupted-passes (returned it) = emit_block-passes it

  pass-passes : passes (pass options host calls).0 ≡ true
  pass-passes = elim (Bool-cases options.inspect_response) [
    | inl e ↦ rw e (elim (Bool-cases host.is_sync_tx) [ inl f ↦ rw f refl | inr f ↦ rw f refl ])
    | inr e ↦ rw e refl
  ]

  bundle-passes : (o : Outcome Bool) → passes (bundle_result options host calls o).0 ≡ says false o
  bundle-passes (threw e) = rw (b, h) refl
  bundle-passes (returned true) = interrupted-passes calls.interruption
  bundle-passes (returned false) = pass-passes

  engine-passes :
      (o : Outcome Bool)
      → passes (engine_result options host calls o).0
        ≡ (says true o || (says false o && says false calls.process_request_bundle))
  engine-passes (threw e) = rw (b, h) refl
  engine-passes (returned true) = refl
  engine-passes (returned false) = bundle-passes calls.process_request_bundle

  transaction-passes :
      (o : Outcome (Unit {0}))
      → passes (transaction_result options host calls o).0 ≡ (
          returns o
          && (says true calls.is_rule_engine_off
              || (says false calls.is_rule_engine_off && says false calls.process_request_bundle)))
  transaction-passes (threw e) = rw (b, h) refl
  transaction-passes (returned u) = engine-passes calls.is_rule_engine_off

  waf-passes :
      (o : Outcome (Unit {0}))
      → passes (waf_result options host calls o).0 ≡ (
          returns o
          && (returns calls.new_transaction
              && (says true calls.is_rule_engine_off
                  || (says false calls.is_rule_engine_off
                      && says false calls.process_request_bundle))))
  waf-passes (threw e) = rw (b, h) refl
  waf-passes (returned u) = transaction-passes calls.new_transaction

-- With `onWAFError: 'block'` and the response not yet started, a request that the ignore rules do
-- not skip reaches the next handler exactly where the WAF let it through: a call awaited before the
-- decision that throws never lets it pass, whatever `onBlock` does.
pub coraza_middleware-passes :
    {R : Type 0} (options : CorazaExpressOptions) (host : Host) (calls : Calls R)
    (verdict : Verdict)
    → options.on_waf_error ≡ block
    → host.headers_sent ≡ false
    → verdict ≢ skip
    → passes (coraza_middleware options host calls verdict).0 ≡ cleared calls
unfolding coraza_middleware
coraza_middleware-passes options host calls skip b h v = absurd (v refl)
coraza_middleware-passes options host calls skip_body b h v =
    waf-passes options host calls b h calls.waf
coraza_middleware-passes options host calls inspect b h v =
    waf-passes options host calls b h calls.waf
