-- ===== src/Adapter/Tests.antt =====
-- The adapters' theorems at a WAF whose request phase traps.
use coraza_node.Base.{◌≡◌, refl, ◌≢◌, true, false, [], ◌∷◌, none}
use coraza_node.Base.Text.{codes}
use coraza_node.Ignore.Verdict.{inspect, skip}
use coraza_node.Adapter.{returned, threw, block, Calls, undefined, single, many, headers_of}
use coraza_node.Adapter.Express.{CorazaExpressOptions, Host, coraza_middleware}
use coraza_node.Base.{◌&&◌}
use coraza_node.Adapter.NextAllows.{allows, phase_allows, body_read, run_coraza-allows}
use coraza_node.Adapter.FailClosed.{returns, passes, cleared, coraza_middleware-passes}
use coraza_node.Base.{some}
use coraza_node.Adapter.{internal_error}
use coraza_node.Adapter.Fastify as Fastify
use coraza_node.Base.{◌≤◌}
use coraza_node.Adapter.Nest.{CorazaNestOptions, can_activate}
use coraza_node.Adapter.Nest.Allows.{admits, cleanup_of, can_activate-admits}
use coraza_node.Adapter.Fastify.Hooks.{Sending, text, replaced, on_send, payload_to_bytes}
use coraza_node.Adapter.Fastify.Decided.{decided, on_send-decided}
use coraza_node.Adapter.Express.Hook.{
  Inspection, total, is_inspection, is_original, write_heads, write_heads-total,
}
use coraza_node.Adapter.Fastify.{Reply, pre_handler, untouched, pre_handler-untouched}
use coraza_node.Adapter.Next.{
  cleanup, reads_body, CorazaNextOptions, run_coraza, closes, opened, run_coraza-closes,
}

abbrev trapping : Calls (Unit {0})
trapping = record {
  waf = returned tt;
  new_transaction = returned tt;
  is_rule_engine_off = returned false;
  process_request_bundle = threw (codes "trap");
  interruption = returned none;
  matched_rules = returned [];
  process_logging = threw (codes "trap");
  close = returned tt;
}

abbrev blocking : CorazaExpressOptions
blocking = record { inspect_response = false; on_waf_error = block; verbose_log = false }

abbrev plain_host : Host
plain_host = record { headers_sent = false; is_sync_tx = true; on_block_outcome = returned tt }

abbrev next_options : CorazaNextOptions (Unit {0}) (Unit {0})
next_options = record {
  on_waf_error = block;
  inspect_body = true;
  verbose_log = false;
  wants_ctx = false;
  on_block = λ it rules. returned tt;
}

inspect_differs : inspect ≢ skip
inspect_differs e = cc

header_pairs :
    headers_of (
      (codes "a", many (codes "1" ∷ codes "2" ∷ []))
      ∷ (codes "b", undefined)
      ∷ (codes "c", single (codes "3"))
      ∷ [])
    ≡ (codes "a", codes "1") ∷ (codes "a", codes "2") ∷ (codes "c", codes "3") ∷ []
unfolding headers_of
header_pairs = refl

coraza_middleware-passes_example :
    passes (coraza_middleware blocking plain_host trapping inspect).0 ≡ cleared trapping
coraza_middleware-passes_example =
    coraza_middleware-passes blocking plain_host trapping inspect refl refl inspect_differs

run_coraza-closes_example :
    (run_coraza next_options trapping inspect true (returned tt)).1
    ≡ closes next_options trapping (opened next_options trapping)
run_coraza-closes_example =
    run_coraza-closes next_options trapping inspect true (returned tt) inspect_differs

-- An interruption that reads back as null.
abbrev unreadable : Calls (Unit {0})
unreadable = record trapping {
  process_request_bundle = returned true;
  process_logging = returned tt;
}

null_interruption_allowed :
    allows (run_coraza next_options unreadable inspect true (returned tt)).0 ≡ true
unfolding run_coraza cleanup reads_body
null_interruption_allowed = refl

run_coraza-allows_example :
    allows (run_coraza next_options unreadable inspect true (returned tt)).0 ≡ (
      returns unreadable.waf
      && (returns unreadable.new_transaction
          && (returns unreadable.close
              && (returns unreadable.process_logging
                  && phase_allows unreadable
                      (body_read next_options unreadable inspect true (returned tt))))))
run_coraza-allows_example =
    run_coraza-allows next_options unreadable inspect true (returned tt) refl inspect_differs

abbrev unsent : Reply
unsent = record {
  sent_before = false;
  sent_at_error = false;
  block_outcome = returned tt;
  error_block_outcome = returned tt;
}

trap_blocked : (pre_handler block true unsent trapping inspect).0 ≡ (internal_error, some []) ∷ []
unfolding pre_handler Fastify.emit_block
trap_blocked = refl

pre_handler-untouched_example :
    untouched (pre_handler block true unsent trapping inspect).0
    ≡ (returns trapping.new_transaction && phase_allows trapping (returned tt))
pre_handler-untouched_example =
    pre_handler-untouched true unsent trapping inspect refl refl inspect_differs

abbrev nest_options : CorazaNestOptions (Unit {0}) (Unit {0})
nest_options = record {
  on_waf_error = block;
  verbose_log = true;
  on_block = λ it rules. returned tt;
}

can_activate-admits_example :
    (admits (can_activate nest_options trapping inspect).0 ≡ (
      returns trapping.new_transaction
      && (returns trapping.close
          && (returns trapping.process_logging && phase_allows trapping (returned tt)))))
    × ((can_activate nest_options trapping inspect).1
        ≡ cleanup_of (returns trapping.new_transaction))
can_activate-admits_example = can_activate-admits nest_options trapping inspect refl inspect_differs

-- The body phase interrupts.
abbrev body_blocked : Sending
body_blocked = record {
  process_response = returned false;
  header_interruption = returned none;
  is_processable = returned true;
  process_response_body = returned true;
  body_interruption = returned (some internal_error);
}

body_replaced : on_send body_blocked (text (codes "x")) true ≡ replaced internal_error
unfolding on_send payload_to_bytes
body_replaced = refl

on_send-decided_example :
    on_send body_blocked (text (codes "x")) true ≡ decided body_blocked (text (codes "x"))
on_send-decided_example = on_send-decided body_blocked (text (codes "x"))

-- The inspection of the headers traps.
abbrev trap_inspection : Inspection
trap_inspection = record {
  processed = threw (codes "trap");
  interruption = returned none;
  handled = returned tt;
}

write_heads-total_example :
    (total is_inspection (write_heads (trap_inspection ∷ trap_inspection ∷ []) false) ≤ 1)
    × (total is_original (write_heads (trap_inspection ∷ trap_inspection ∷ []) false) ≡ 2)
write_heads-total_example = write_heads-total (trap_inspection ∷ trap_inspection ∷ []) false
