-- ===== src/Crs.antt =====
-- packages/coreruleset/src/index.ts: the SecLang configuration that activates the Core Rule Set.
pub mod Includes
mod Tests
use coraza_node.Base.{
  ℕ, Bool, true, false, not, List, [], ◌∷◌, ◌++◌, Option, none, some, map, ◌<◌, if◌then◌else◌,
}
use coraza_node.Base.Text.{Text, codes, has}

pub data LanguageTag : Type 0 where
  php java dotnet nodejs iis : LanguageTag

pub data CrsCategory : Type 0 where
  scanner_detection method_enforcement dos_protection protocol_attacks : CrsCategory
  protocol_enforcement lfi rfi rce php_attacks nodejs_attacks xss sqli : CrsCategory
  session_fixation java_attacks blocking_eval outbound_data_leak : CrsCategory
  outbound_sql_error_leak outbound_java_error_leak outbound_php_error_leak : CrsCategory
  outbound_info_leak : CrsCategory

-- `CATEGORY_RANGES`
unfoldable pub category_range : CrsCategory → Text × Text
category_range scanner_detection = (codes "910000", codes "913999")
category_range method_enforcement = (codes "911000", codes "911999")
category_range dos_protection = (codes "912000", codes "912999")
category_range protocol_attacks = (codes "920000", codes "921999")
category_range protocol_enforcement = (codes "920000", codes "920999")
category_range lfi = (codes "930000", codes "930999")
category_range rfi = (codes "931000", codes "931999")
category_range rce = (codes "932000", codes "932999")
category_range php_attacks = (codes "933000", codes "933999")
category_range nodejs_attacks = (codes "934000", codes "934999")
category_range xss = (codes "941000", codes "941999")
category_range sqli = (codes "942000", codes "942999")
category_range session_fixation = (codes "943000", codes "943999")
category_range java_attacks = (codes "944000", codes "944999")
category_range blocking_eval = (codes "949000", codes "949999")
category_range outbound_data_leak = (codes "950000", codes "950999")
category_range outbound_sql_error_leak = (codes "951000", codes "951999")
category_range outbound_java_error_leak = (codes "952000", codes "952999")
category_range outbound_php_error_leak = (codes "953000", codes "953999")
category_range outbound_info_leak = (codes "954000", codes "954999")

-- A number is given by its digits, as the templates print it.
pub record CrsOptions : Type 0 where
  pub paranoia : Option Text
  pub exclude : Option (List LanguageTag)
  pub outbound_exclude : Option (List LanguageTag)
  pub inbound_anomaly_threshold : Option Text
  pub outbound_anomaly_threshold : Option Text
  pub anomaly_block : Option Bool
  pub exclude_categories : List CrsCategory
  pub extra : Option Text

abbrev pub default_exclude : List LanguageTag
default_exclude = php ∷ java ∷ dotnet ∷ []

abbrev pub crs_files : List Text
crs_files =
    codes "REQUEST-901-INITIALIZATION.conf"
    ∷ codes "REQUEST-905-COMMON-EXCEPTIONS.conf"
    ∷ codes "REQUEST-911-METHOD-ENFORCEMENT.conf"
    ∷ codes "REQUEST-913-SCANNER-DETECTION.conf"
    ∷ codes "REQUEST-920-PROTOCOL-ENFORCEMENT.conf"
    ∷ codes "REQUEST-921-PROTOCOL-ATTACK.conf"
    ∷ codes "REQUEST-922-MULTIPART-ATTACK.conf"
    ∷ codes "REQUEST-930-APPLICATION-ATTACK-LFI.conf"
    ∷ codes "REQUEST-931-APPLICATION-ATTACK-RFI.conf"
    ∷ codes "REQUEST-932-APPLICATION-ATTACK-RCE.conf"
    ∷ codes "REQUEST-933-APPLICATION-ATTACK-PHP.conf"
    ∷ codes "REQUEST-934-APPLICATION-ATTACK-GENERIC.conf"
    ∷ codes "REQUEST-941-APPLICATION-ATTACK-XSS.conf"
    ∷ codes "REQUEST-942-APPLICATION-ATTACK-SQLI.conf"
    ∷ codes "REQUEST-943-APPLICATION-ATTACK-SESSION-FIXATION.conf"
    ∷ codes "REQUEST-944-APPLICATION-ATTACK-JAVA.conf"
    ∷ codes "REQUEST-949-BLOCKING-EVALUATION.conf"
    ∷ codes "RESPONSE-950-DATA-LEAKAGES.conf"
    ∷ codes "RESPONSE-951-DATA-LEAKAGES-SQL.conf"
    ∷ codes "RESPONSE-952-DATA-LEAKAGES-JAVA.conf"
    ∷ codes "RESPONSE-953-DATA-LEAKAGES-PHP.conf"
    ∷ codes "RESPONSE-954-DATA-LEAKAGES-IIS.conf"
    ∷ codes "RESPONSE-955-WEB-SHELLS.conf"
    ∷ codes "RESPONSE-959-BLOCKING-EVALUATION.conf"
    ∷ codes "RESPONSE-980-CORRELATION.conf"
    ∷ []

unfoldable pub request_lang_file : LanguageTag → Option Text
request_lang_file php = some (codes "REQUEST-933-APPLICATION-ATTACK-PHP.conf")
request_lang_file java = some (codes "REQUEST-944-APPLICATION-ATTACK-JAVA.conf")
request_lang_file _ = none

unfoldable pub response_lang_file : LanguageTag → Option Text
response_lang_file java = some (codes "RESPONSE-952-DATA-LEAKAGES-JAVA.conf")
response_lang_file php = some (codes "RESPONSE-953-DATA-LEAKAGES-PHP.conf")
response_lang_file iis = some (codes "RESPONSE-954-DATA-LEAKAGES-IIS.conf")
response_lang_file _ = none

abbrev pub add_file : Option Text → List Text → List Text
add_file none skip = skip
add_file (some f) skip = f ∷ skip

-- One of the two loops of `filesToSkip`; the set is a list.
unfoldable pub add_files : (LanguageTag → Option Text) → List LanguageTag → List Text → List Text
add_files file [] skip = skip
add_files file (lang ∷ langs) skip = add_files file langs (add_file (file lang) skip)

unfoldable pub files_to_skip : (exclude outbound_exclude : List LanguageTag) → List Text
files_to_skip exclude outbound_exclude =
    add_files response_lang_file outbound_exclude (add_files request_lang_file exclude [])

abbrev pub include : Text → Text
include file = codes "Include @owasp_crs/" ++ file

unfoldable pub includes : (skip files : List Text) → List Text
includes skip [] = []
includes skip (file ∷ files) =
    if has skip file then includes skip files else include file ∷ includes skip files

unfoldable pub exclude_category : CrsCategory → Text
exclude_category cat =
    let r = category_range cat in codes "SecRuleRemoveById " ++ (r.0 ++ (codes "-" ++ r.1))

abbrev pub or_default : {A : Type 0} → A → Option A → A
or_default d none = d
or_default d (some a) = a

-- The characters of the template that a SecAction line sets.
abbrev pub sec_action : (id setvar : Text) → Text
sec_action id setvar =
    codes "SecAction \"id:"
    ++ (id ++ (codes ",phase:1,nolog,pass,t:none,setvar:tx." ++ (setvar ++ codes "\"")))

unfoldable pub paranoia_action : Text → Text
paranoia_action level = sec_action (codes "900000") (codes "blocking_paranoia_level=" ++ level)

-- The lines before the rule files.
unfoldable pub setup_lines : CrsOptions → List Text
setup_lines o =
    codes "Include @coraza.conf-recommended"
    ∷ codes "Include @crs-setup.conf.example"
    ∷ paranoia_action (or_default (codes "1") o.paranoia)
    ∷ sec_action (codes "900001") (
        codes "inbound_anomaly_score_threshold="
        ++ or_default (codes "5") o.inbound_anomaly_threshold)
    ∷ sec_action (codes "900002") (
        codes "outbound_anomaly_score_threshold="
        ++ or_default (codes "4") o.outbound_anomaly_threshold)
    ∷ (if or_default true o.anomaly_block
        then []
        else sec_action (codes "900003") (codes "early_blocking=0") ∷ [])

abbrev pub extra_part : (trimmed extra : Text) → List Text
extra_part [] extra = []
extra_part (c ∷ s) extra = extra ∷ []

-- The parts of `recommended`. `trim` follows the engine's table of white space.
unfoldable pub recommended_parts : (Text → Text) → CrsOptions → List Text
recommended_parts trim o =
    setup_lines o
    ++ (includes
          (files_to_skip (or_default default_exclude o.exclude) (or_default [] o.outbound_exclude))
          crs_files
        ++ (map exclude_category o.exclude_categories
            ++ extra_part (trim (or_default [] o.extra)) (or_default [] o.extra)))

-- `parts.join('\n') + '\n'`
unfoldable pub lines : List Text → Text
lines [] = codes "\n"
lines (part ∷ []) = part ++ codes "\n"
lines (part ∷ parts) = part ++ (codes "\n" ++ lines parts)

unfoldable pub recommended : (Text → Text) → CrsOptions → Text
recommended trim o = lines (recommended_parts trim o)

abbrev pub or_else : {A : Type 0} → Option A → Option A → Option A
or_else d none = d
or_else d (some a) = some a

-- `{ paranoia, inboundAnomalyThreshold, outboundAnomalyThreshold, anomalyBlock, ...overrides }`
unfoldable pub override :
    (paranoia inbound outbound : Option Text) → Option Bool → CrsOptions → CrsOptions
override paranoia inbound outbound block o = record o {
  paranoia = or_else paranoia o.paranoia;
  inbound_anomaly_threshold = or_else inbound o.inbound_anomaly_threshold;
  outbound_anomaly_threshold = or_else outbound o.outbound_anomaly_threshold;
  anomaly_block = or_else block o.anomaly_block;
}

unfoldable pub balanced : (Text → Text) → CrsOptions → Text
balanced trim o = recommended trim (override (some (codes "1")) none none none o)

unfoldable pub strict : (Text → Text) → CrsOptions → Text
strict trim o = recommended trim (override (some (codes "2")) (some (codes "3")) none none o)

unfoldable pub permissive : (Text → Text) → CrsOptions → Text
permissive trim o =
    recommended trim
      (override (some (codes "1")) (some (codes "10")) (some (codes "8")) (some false) o)
