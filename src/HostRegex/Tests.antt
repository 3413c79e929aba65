-- ===== src/HostRegex/Tests.antt =====
-- Tests of the host's expressions, and the theorems at concrete inputs.
use coraza_node.Base.{◌≡◌, refl, true, false, List, [], ◌∷◌, some, all}
use coraza_node.Base.Text.{codes, text_eq}
use coraza_node.Base.Map.{find, put, delete}
use coraza_node.HostRegex.{Engine, create_host_regex, compile, match, free}
use coraza_node.HostRegex.Translate.{
  translate_pattern, is_supported, is_letter, letters, inline_flags, add_flags, includes,
}
use coraza_node.HostRegex.Flags.{Collects, translate_pattern-block}
use coraza_node.HostRegex.Refine.{
  Call, compiles, matches, frees, handle, verdict, done, run, table_run, run-table_run,
}

-- An engine that knows no syntax: an expression matches its own source.
abbrev literal : Engine
literal source flags = some (text_eq source)

abbrev calls : List Call
calls =
    compiles (codes "(?si)ab")
    ∷ matches 1 (codes "ab")
    ∷ matches 1 (codes "ab")
    ∷ compiles (codes "(?x)ab")
    ∷ frees 1
    ∷ matches 1 (codes "ab")
    ∷ []

rx : Unit {0}
unfolding run compile match free translate_pattern inline_flags letters is_letter add_flags includes
    is_supported find put delete text_eq
rx = tt

memo_answers :
    run literal create_host_regex calls
    ≡ handle 1 ∷ verdict true ∷ verdict true ∷ handle 0 ∷ done ∷ verdict false ∷ []
unfolding rx
memo_answers = refl

run-table_run_example :
    run literal create_host_regex calls ≡ table_run literal (record { live = []; next = 1 }) calls
run-table_run_example = run-table_run literal calls

translate_pattern-block_example :
    let t = translate_pattern (codes "(?sis)ab") in
    (t.ok ≡ all is_supported (codes "sis"))
    × (t.ok ≡ true → (t.source ≡ codes "ab") × Collects [] (codes "sis") t.flags)
unfolding rx
translate_pattern-block_example = translate_pattern-block b's' (codes "is") (codes "ab") refl
