-- ===== src/Crs/Tests.antt =====
-- The configuration's theorem at the default options.
use coraza_node.Base.{◌≡◌, not, ◌&&◌, ◌||◌, []}
use coraza_node.Base.Text.{codes, has}
use coraza_node.Crs.{
  files_to_skip, request_lang_file, response_lang_file, includes, include, crs_files,
  default_exclude,
}
use coraza_node.Crs.Includes.{has_file, includes_iff}

includes_iff_example :
    has
      (includes (files_to_skip default_exclude []) crs_files)
      (include (codes "REQUEST-933-APPLICATION-ATTACK-PHP.conf"))
    ≡ (has crs_files (codes "REQUEST-933-APPLICATION-ATTACK-PHP.conf")
        && not (
            has_file response_lang_file [] (codes "REQUEST-933-APPLICATION-ATTACK-PHP.conf")
            || has_file request_lang_file default_exclude
                (codes "REQUEST-933-APPLICATION-ATTACK-PHP.conf")))
includes_iff_example =
    includes_iff default_exclude [] (codes "REQUEST-933-APPLICATION-ATTACK-PHP.conf")
