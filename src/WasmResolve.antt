-- ===== src/WasmResolve.antt =====
-- packages/core/src/wasmResolve.ts: where the module and the worker file are found. The platform's
-- resolver is a parameter; a result is none where the code throws.
use coraza_node.Base.{
  ◌≡◌, Bool, false, [], ◌∷◌, Option, none, some, if◌then◌else◌, Bool-cases, inl, inr,
}
use coraza_node.Base.Text.{Text, codes, text_eq, text_eq_iff}

-- `new URL(s)`, `new URL(relative, base)` and a URL's `protocol`; the URL of the working directory;
-- `createRequire(anchor).resolve` of the package's own description; and `pathToFileURL` of a path
-- beside that file.
pub record Platform (U : Type 0) : Type 0 where
  pub parse : Text → Option U
  pub parse_relative : (relative base : Text) → Option U
  pub protocol : U → Text
  pub cwd_href : Text
  pub package_json : (anchor : Text) → Option Text
  pub file_url : (package_json relative : Text) → U

module _ {U : Type 0} (platform : Platform U) where
  abbrev pub has_file_protocol : Option U → Bool
  has_file_protocol none = false
  has_file_protocol (some u) = text_eq (platform.protocol u) (codes "file:")

  unfoldable pub is_usable_meta_url : Option Text → Bool
  is_usable_meta_url none = false
  is_usable_meta_url (some []) = false
  is_usable_meta_url (some (c ∷ s)) = has_file_protocol (platform.parse (c ∷ s))

  abbrev pub beside : (relative : Text) → Option Text → Option U
  beside relative none = none
  beside relative (some package_json) = some (platform.file_url package_json relative)

  abbrev pub anchor_of : Option Text → Text
  anchor_of none = platform.cwd_href
  anchor_of (some meta_url) =
      if is_usable_meta_url (some meta_url) then meta_url else platform.cwd_href

  unfoldable pub resolve_via_require : (relative : Text) → (meta_url : Option Text) → Option U
  resolve_via_require relative meta_url =
      beside relative (platform.package_json (anchor_of meta_url))

  abbrev pub file_or : Option U → Option U → Option U
  file_or none other = other
  file_or (some u) other = if text_eq (platform.protocol u) (codes "file:") then some u else other

  abbrev pub from_meta : (relative_from_meta : Text) → Option Text → Option U
  from_meta relative_from_meta none = none
  from_meta relative_from_meta (some meta_url) =
      if is_usable_meta_url (some meta_url)
      then platform.parse_relative relative_from_meta meta_url
      else none

  unfoldable pub resolve_asset : (relative relative_from_meta : Text) → Option Text → Option U
  resolve_asset relative relative_from_meta meta_url =
      file_or (from_meta relative_from_meta meta_url) (resolve_via_require relative meta_url)

  -- `defaultWasmPath` and `defaultPoolWorkerPath`, at the value of `import.meta.url`.
  unfoldable pub default_wasm_path : Option Text → Option U
  default_wasm_path meta_url =
      resolve_asset (codes "dist/wasm/coraza.wasm") (codes "./wasm/coraza.wasm") meta_url

  unfoldable pub default_pool_worker_path : Option Text → Option U
  default_pool_worker_path meta_url =
      resolve_asset (codes "dist/pool-worker.mjs") (codes "./pool-worker.mjs") meta_url

  -- Nothing but a file URL is returned.
  abbrev pub IsFile : Option U → Type 0
  IsFile none = Unit
  IsFile (some u) = platform.protocol u ≡ codes "file:"

  module _ (files : (p r : Text) → platform.protocol (platform.file_url p r) ≡ codes "file:") where
    beside-IsFile : (relative : Text) (o : Option Text) → IsFile (beside relative o)
    beside-IsFile relative none = tt
    beside-IsFile relative (some p) = files p relative

    file_or-IsFile : (o other : Option U) → IsFile other → IsFile (file_or o other)
    file_or-IsFile none other h = h
    file_or-IsFile (some u) other h =
        elim (Bool-cases (text_eq (platform.protocol u) (codes "file:"))) [
          | inl e ↦ rw e ((text_eq_iff (platform.protocol u) (codes "file:")).0 e)
          | inr e ↦ rw e h
        ]

    -- Where `pathToFileURL` gives a file URL, so does the resolution of an asset, whatever a bundler
    -- has made of `import.meta.url`.
    resolve_asset-IsFile :
        (relative relative_from_meta : Text) (meta_url : Option Text)
        → IsFile (resolve_asset relative relative_from_meta meta_url)
    unfolding resolve_asset resolve_via_require
    resolve_asset-IsFile relative relative_from_meta meta_url =
        file_or-IsFile (from_meta relative_from_meta meta_url)
          (beside relative (platform.package_json (anchor_of meta_url)))
          (beside-IsFile relative (platform.package_json (anchor_of meta_url)))
