-- ===== src/Ignore/Extension.antt =====
-- The extension test of packages/core/src/ignore.ts.
use coraza_node.Base.{
  Bool, true, false, ◌&&◌, ◌||◌, List, [], ◌∷◌, ◌==◌, Option, none, some, if◌then◌else◌, map,
}
use coraza_node.Base.Text.{Text, codes, has, Casing}

-- `DEFAULT_EXTENSIONS`.
abbrev pub default_extensions : List Text
default_extensions = map codes (
    "png" ∷ "jpg" ∷ "jpeg" ∷ "gif" ∷ "webp" ∷ "avif" ∷ "svg" ∷ "ico" ∷ "bmp" ∷ "tiff" ∷ "css" ∷ "js"
    ∷ "mjs" ∷ "map" ∷ "woff" ∷ "woff2" ∷ "ttf" ∷ "otf" ∷ "eot" ∷ "mp4" ∷ "webm" ∷ "ogg" ∷ "mp3"
    ∷ "wav" ∷ "flac" ∷ "pdf" ∷ "txt" ∷ "xml" ∷ "wasm" ∷ [])

-- The tail of `s` behind its last `/`, if it has one: `lastIndexOf` and `slice`.
unfoldable pub after_last_slash : Text → Option Text
after_last_slash [] = none
after_last_slash (c ∷ s) = elim (after_last_slash s) [
  | some t ↦ some t
  | none ↦ if c == b'/' then some s else none
]

unfoldable pub basename : Text → Text
unfolding after_last_slash
basename pathname = elim (after_last_slash pathname) [ none ↦ pathname | some t ↦ t ]

abbrev pub is_nonempty : Text → Bool
is_nonempty [] = false
is_nonempty (c ∷ s) = true

-- The loop over `lower`: at each `.` with something behind it, the rest is a candidate.
unfoldable pub suffix_in : List Text → Text → Bool
unfolding has
suffix_in extensions [] = false
suffix_in extensions (c ∷ s) =
    (c == b'.' && is_nonempty s && has extensions s) || suffix_in extensions s

unfoldable pub extension_matches : Casing → Text → List Text → Bool
extension_matches casing pathname extensions =
    let base = basename pathname in
    if is_nonempty base then suffix_in extensions (casing.to_lower_case base) else false
