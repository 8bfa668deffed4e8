-- ===== src/Migration/Snapshots.antt =====
-- internal/migration/import.go: `snapshot`. YAML, internal/profile, MD5, `filepath.IsLocal` and the fetcher are the
-- fields of `World`; a text of the old directory is a text of bytes.
pub mod Budget
use Prim.Native.String.{String}
use omihomo.Base.{
  ℕ, ◌+◌, ◌-◌, Bool, true, false, not, ◌&&◌, ◌||◌, List, [], ◌∷◌, Option, none, some, str_eq, ltb,
  ◌==◌, if◌then◌else◌, length, append,
}
use omihomo.Update.Transfer.{size}
use omihomo.Engine.{Profile}
use omihomo.Profile.GroupOptions.{has_prefix}
use omihomo.Migration.Reads.{Old, Read, text, missing, failed, Result, ok, err, read}

-- `provider`
pub record Def : Type 0 where
  pub kind : String
  pub path : String

pub record Doc : Type 0 where
  pub providers : List (String × Def)
  pub rules : List (String × Def)

-- a download that a profile needs
pub record Download : Type 0 where
  pub name : String
  pub of_rules : Bool
  pub url : String
  pub key : String

pub record World : Type 1 where
  pub T : Type 0
  pub yaml : String → Option Doc
  pub Parsed : Type 0
  pub parse : String → Option Parsed
  pub downloads : Parsed → List Download
  pub build : Parsed → List (String × String) → Option Profile
  pub md5 : String → String
  pub is_local : String → Bool
  -- `Get` of the fetcher, with the limit
  pub get : String → (limit : ℕ) → T → Result String × T

-- `state.Snapshot`, with its bodies as texts
pub record Snap : Type 0 where
  pub body : String
  pub providers : List (String × String)

-- an assignment to a map
unfoldable pub put : String → String → List (String × String) → List (String × String)
put k b [] = (k, b) ∷ []
put k b ((k', b') ∷ m) = let rest = put k b m in if str_eq k' k then (k, b) ∷ m else (k', b') ∷ rest

-- a value of a map of definitions, the zero value where there is none
unfoldable pub def_of : String → List (String × Def) → Def
def_of name [] = record { kind = ""; path = "" }
def_of name ((n, d) ∷ ds) = let rest = def_of name ds in if str_eq n name then d else rest

-- the body of a file provider takes the place of the subscription's
unfoldable pub file_taken : (String → ℕ → Result (String × ℕ)) → ℕ → Read → Result (String × ℕ)
file_taken next left (text raw) = next raw (left - size raw)
file_taken next left missing = err "old state lacks a provider"
file_taken next left (failed why) = err why

module _ (w : World) (old : Old) where
  -- the loop over the providers: the body of a file provider, and what is left of the limit
  unfoldable pub file_body : List (String × Def) → ℕ → String → ℕ → Result (String × ℕ)
  file_body [] count body left = ok (body, left)
  file_body ((name, d) ∷ ds) count body left =
      let rest = file_body ds count in
      if not (str_eq d.kind "file")
      then rest body left
      else if not (count == 1) || not (has_prefix "./providers/" d.path) || not (w.is_local d.path)
      then err "old file provider is not a subscription cache"
      else file_taken rest left (read old d.path left)

  -- the cache of a provider at its path, if it has one
  unfoldable pub read_path : Def → ℕ → Read
  read_path d left =
      if not (str_eq d.path "") && w.is_local d.path then read old d.path left else missing

  abbrev cache_name : Download → String
  cache_name p = append (if p.of_rules then "rules" else "proxies") (append "/" (w.md5 p.url))

  -- the cache under the name that mihomo gives it, where the first is missing
  unfoldable pub or_cache : Read → Download → ℕ → Read
  or_cache missing p left = read old (cache_name p) left
  or_cache r p left = r

  abbrev unusable : String → String → Result String
  unusable name why = err (
      append "provider "
        (append name (append " has no usable cache and could not be downloaded: " why)))

  abbrev named : String → Result String → Result String
  named name (ok body) = ok body
  named name (err why) = unusable name why

  -- the download, where both are missing
  unfoldable pub or_get : Read → Download → ℕ → w.T → Result String × w.T
  or_get (text body) p left t = (ok body, t)
  or_get (failed why) p left t = (err why, t)
  or_get missing p left t =
      if left == 0
      then (err "old state exceeds the import size limit", t)
      else let (r, u) = w.get p.url left t in (named p.name r, u)

  abbrev def_for : Doc → Download → Def
  def_for doc p = if p.of_rules then def_of p.name doc.rules else def_of p.name doc.providers

  -- the body of one provider
  unfoldable pub provider_body : Doc → Download → ℕ → w.T → Result String × w.T
  provider_body doc p left t = or_get (or_cache (read_path (def_for doc p) left) p left) p left t

  -- the loop over the downloads: the bodies, and what is left of the limit
  unfoldable pub bodies_of :
      Doc
      → List Download
      → List (String × String)
      → ℕ
      → w.T
      → Result (List (String × String) × ℕ) × w.T
  bodies_of doc [] bodies left t = (ok (bodies, left), t)
  bodies_of doc (p ∷ ps) bodies left t =
      let (r, u) = provider_body doc p left t in
      let rest = bodies_of doc ps in
      elim r [
        | err why ↦ (err why, u)
        | ok body ↦ rest (put p.key body bodies) (left - size body) u
      ]

  abbrev pub Taken : Type 0
  Taken = (Snap × Profile) × ℕ

  abbrev pub built : w.Parsed → String → Result (List (String × String) × ℕ) → Result Taken
  built d body (err why) = err why
  built d body (ok (bodies, left)) = elim (w.build d bodies) [
    | none ↦ err "cached subscription has no usable profile"
    | some p ↦ ok ((record { body = body; providers = bodies }, p), left)
  ]

  -- `snapshot` from the parsing of the body on
  unfoldable pub parsed_snapshot : Doc → String → ℕ → w.T → Result Taken × w.T
  parsed_snapshot doc body left t = elim (w.parse body) [
    | none ↦ (err "cached subscription could not be parsed", t)
    | some d ↦
        if ltb 64 (length (w.downloads d))
        then (err "cached subscription has too many providers", t)
        else let (r, u) = bodies_of doc (w.downloads d) [] left t in (built d body r, u)
  ]

  unfoldable pub read_snapshot : Doc → Result (String × ℕ) → w.T → Result Taken × w.T
  read_snapshot doc (err why) t = (err why, t)
  read_snapshot doc (ok (body, left)) t = parsed_snapshot doc body left t

  -- `snapshot`, with what is left of the limit behind it
  unfoldable pub snapshot : String → ℕ → w.T → Result Taken × w.T
  snapshot body left t = elim (w.yaml body) [
    | none ↦ (err "cached YAML is malformed", t)
    | some doc ↦ read_snapshot doc (file_body doc.providers (length doc.providers) body left) t
  ]
