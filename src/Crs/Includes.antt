-- ===== src/Crs/Includes.antt =====
-- Which rule files a configuration includes.
use coraza_node.Base.{
  sym, ap, ◌∙◌, ◌≡◌, refl, Bool, false, not, ◌&&◌, ◌||◌, List, [], ◌∷◌, Option, none, some,
  Bool-cases, inl, inr, arith,
}
use coraza_node.Base.Text.{Text, has, text_eq, text_eq_iff}
use coraza_node.Crs.{
  LanguageTag, add_files, add_file, files_to_skip, request_lang_file, response_lang_file, includes,
  include, crs_files,
}

abbrev pub is_file : Option Text → Text → Bool
is_file none f = false
is_file (some g) f = text_eq g f

-- Whether a language of the list has this file.
unfoldable pub has_file : (LanguageTag → Option Text) → List LanguageTag → Text → Bool
has_file file [] f = false
has_file file (lang ∷ langs) f = is_file (file lang) f || has_file file langs f

or_swap : (a b c : Bool) → (a || (b || c)) ≡ ((b || a) || c)
or_swap a b c = ground arith

has-add_file :
    (o : Option Text) (skip : List Text) (f : Text)
    → has (add_file o skip) f ≡ (is_file o f || has skip f)
unfolding has
has-add_file none skip f = refl
has-add_file (some g) skip f = refl

has-add_files :
    (file : LanguageTag → Option Text) (langs : List LanguageTag) (skip : List Text) (f : Text)
    → has (add_files file langs skip) f ≡ (has_file file langs f || has skip f)
unfolding add_files has_file
has-add_files file [] skip f = refl
has-add_files file (lang ∷ langs) skip f =
    has-add_files file langs (add_file (file lang) skip) f
    ∙ ap (λ b. has_file file langs f || b) (has-add_file (file lang) skip f)
    ∙ or_swap (has_file file langs f) (is_file (file lang) f) (has skip f)

same-include : (f g : Text) → text_eq (include f) (include g) ≡ text_eq f g
unfolding text_eq
same-include f g = refl

and_false : (b : Bool) → (b && false) ≡ false
and_false b = ground arith

same :
    (skip : List Text) (file : Text) (files : List Text)
    → has (includes skip files) (include file) ≡ (has files file && not (has skip file))
    → has (includes skip (file ∷ files)) (include file)
      ≡ (has (file ∷ files) file && not (has skip file))
unfolding includes has
same skip file files h =
    let t = (text_eq_iff file file).1 refl in
    elim (Bool-cases (has skip file)) [
      | inl b ↦ rw (b, t) (h ∙ rw b (and_false (has files file)))
      | inr b ↦ rw (b, same-include file file, t) refl
    ]

other :
    (skip : List Text) (file : Text) (files : List Text) (f : Text)
    → text_eq file f ≡ false
    → has (includes skip files) (include f) ≡ (has files f && not (has skip f))
    → has (includes skip (file ∷ files)) (include f) ≡ (has (file ∷ files) f && not (has skip f))
unfolding includes has
other skip file files f e h = elim (Bool-cases (has skip file)) [
  | inl b ↦ rw (b, e) h
  | inr b ↦ rw (b, same-include file f, e) h
]

has-includes :
    (skip files : List Text) (f : Text)
    → has (includes skip files) (include f) ≡ (has files f && not (has skip f))
unfolding includes has
has-includes skip [] f = refl
has-includes skip (file ∷ files) f = elim (Bool-cases (text_eq file f)) [
  | inl e ↦
      rw (sym ((text_eq_iff file f).0 e)) (same skip file files (has-includes skip files file))
  | inr e ↦ other skip file files f e (has-includes skip files f)
]

or_false : (b : Bool) → (b || false) ≡ b
or_false b = ground arith

skipped :
    (exclude outbound_exclude : List LanguageTag) (f : Text)
    → has (files_to_skip exclude outbound_exclude) f
      ≡ (has_file response_lang_file outbound_exclude f || has_file request_lang_file exclude f)
unfolding files_to_skip has
skipped exclude outbound_exclude f =
    has-add_files response_lang_file outbound_exclude _ f
    ∙ ap (λ b. has_file response_lang_file outbound_exclude f || b)
        (has-add_files request_lang_file exclude [] f
          ∙ or_false (has_file request_lang_file exclude f))

-- A rule file is included exactly where it is one of the shipped files and no excluded language has
-- it: a language of `exclude` by its request file, one of `outboundExclude` by its response file.
pub includes_iff :
    (exclude outbound_exclude : List LanguageTag) (f : Text)
    → has (includes (files_to_skip exclude outbound_exclude) crs_files) (include f) ≡ (
        has crs_files f
        && not (
            has_file response_lang_file outbound_exclude f || has_file request_lang_file exclude f))
includes_iff exclude outbound_exclude f =
    has-includes (files_to_skip exclude outbound_exclude) crs_files f
    ∙ ap (λ b. has crs_files f && not b) (skipped exclude outbound_exclude f)
