-- ===== src/Cli/Cutover.antt =====
-- internal/cli/cutover.go: the files of a cutover, `move`, `stripPrivileges`, `writeSettings`, and the stack of
-- what takes them back. A call of the operating system does what it is for or fails, as `fault` says. The files that
-- a claim writes itself, the owner and the drop-in of the socket, are kept beside the others: no step back
-- takes them back.
pub mod Stack
pub mod Run
pub mod Restores
pub mod Write
pub mod Writes
pub mod Whole
pub mod Recovers
pub mod Find
use Prim.Native.String.{String}
use omihomo.Base.{
  ℕ, ◌+◌, Bool, true, false, not, ◌&&◌, ◌||◌, List, [], ◌∷◌, ◌++◌, Option, none, some, str_eq,
  append, ◌==◌, if◌then◌else◌,
}
use omihomo.Migration.Install.{Host, Errors, Import}

-- the three directories that a cutover works in: /, the home and the config of the account
pub data Root : Type 0 where
  system home config : Root

pub record Key : Type 0 where
  pub root : Root
  pub name : String

-- what stands at a name; of the attributes of a file, the two that a cutover reads
pub data Node : Type 0 where
  file : (text : String) → (mode : ℕ) → (capability acl : Option String) → Node
  link directory other : Node

abbrev pub Files : Type 0
Files = Key → Option Node

abbrev pub same_root : Root → Root → Bool
same_root system system = true
same_root home home = true
same_root config config = true
same_root _ _ = false

unfoldable pub same_key : Key → Key → Bool
same_key k l = same_root k.root l.root && str_eq k.name l.name

unfoldable pub set : Key → Option Node → Files → Files
unfolding same_key
set k v fs l = if same_key k l then v else fs l

abbrev pub mihomo : Key
mihomo = record { root = system; name = "usr/bin/mihomo" }

-- one step that takes back: the closures that `undo` holds
pub data Undo : Type 0 where
  rename_back : (backup original : Key) → Undo
  remove : Key → Undo
  remove_if_there : Key → Undo
  restore : (mode : ℕ) → (capability acl : Option String) → Undo

abbrev pub or_keep : Option String → Option String → Option String
or_keep none now = now
or_keep (some v) now = some v

abbrev pub restored : ℕ → Option String → Option String → Option Node → Option Node
restored mode cap acl (some (file text m c a)) =
    some (file text mode (or_keep cap c) (or_keep acl a))
restored mode cap acl _ = none

-- a step that works; none where it cannot
unfoldable pub revert : Undo → Files → Option Files
revert (rename_back backup original) fs = elim (fs backup) [
  | none ↦ none
  | some v ↦ some (set original (some v) (set backup none fs))
]
revert (remove k) fs = elim (fs k) [ none ↦ none | some v ↦ some (set k none fs) ]
revert (remove_if_there k) fs = some (set k none fs)
revert (restore mode cap acl) fs = elim (restored mode cap acl (fs mihomo)) [
  | none ↦ none
  | some v ↦ some (set mihomo (some v) fs)
]

-- the files that `claim` writes: the owner of the installation, and the drop-in of the socket
pub record Claimed : Type 0 where
  pub owner : Option String
  pub socket_drop_in : Option String

-- the world of a cutover: systemd, the clock, and what `cutover` has as functions
pub record Machine : Type 1 where
  pub host : Host
  pub fault : String → Key → host.T → Option String × host.T
  pub nanoseconds : host.T → String
  pub userctl : List String → host.T → (Bool × Option String) × host.T
  pub systemctl : List String → host.T → Option String × host.T
  -- the error, what stands at the drop-in of tailscaled afterwards, which the daemon that the claim
  -- starts may write, and the two files that the claim itself writes
  pub claim : Claimed → host.T → (Option String × Option Node × Claimed) × host.T
  pub apply : host.T → (Option String × Option Node) × host.T
  pub check : Bool → host.T → (Option String × Option Node) × host.T

-- `cutover`, with the files: `undo` has the last step first. `clobbered` is whether a backup took the place of
-- another file, which its name, of the time, is to prevent.
pub record Cutover (m : Machine) : Type 0 where
  pub world : m.host.T
  pub files : Files
  pub claimed : Claimed
  pub undo : List Undo
  pub discard : List Key
  pub staged : Option (Import m.host)
  pub had_tailscale : Bool
  pub clobbered : Bool

abbrev pub is_some : Option Node → Bool
is_some none = false
is_some (some v) = true

abbrev pub backup_of : String → Key → Key
backup_of time k = record k { name = append k.name (append ".cutover-" time) }

module _ (m : Machine) where
  abbrev pub Outcome : Type 0
  Outcome = Errors × Cutover m

  -- a call that may fail
  unfoldable pub attempt : String → Key → (Cutover m → Outcome) → Cutover m → Outcome
  attempt what k then_ c =
      let (x, t) = m.fault what k c.world in
      let d = record c { world = t } in elim x [ some why ↦ (why ∷ [], d) | none ↦ then_ d ]

  abbrev pub pushed : Undo → Cutover m → Cutover m
  pushed u c = record c { undo = u ∷ c.undo }

  -- the rename of `move`
  abbrev pub moved : Key → Key → Option Node → Cutover m → Cutover m
  moved k backup v c = record c {
    files = set k none (set backup v c.files);
    undo = rename_back backup k ∷ c.undo;
    discard = c.discard ++ backup ∷ [];
    clobbered = c.clobbered || is_some (c.files backup);
  }

  unfoldable pub move_found : Key → Option Node → Cutover m → Outcome
  move_found k none c = ([], c)
  move_found k (some v) c =
      let backup = backup_of (m.nanoseconds c.world) k in
      attempt "rename" k (λ d. ([], moved k backup (some v) d)) c

  -- `move`
  unfoldable pub move : Key → Cutover m → Outcome
  move k c = attempt "lstat" k (λ d. move_found k (d.files k) d) c

  -- a step after another that did not fail
  unfoldable pub and_then : Outcome → (Cutover m → Outcome) → Outcome
  and_then r f = elim r.0 [ w ∷ ws ↦ r | [] ↦ f r.1 ]

  unfoldable pub move_all : List Key → Cutover m → Outcome
  move_all [] c = ([], c)
  move_all (k ∷ ks) c = and_then (move k c) (move_all ks)

  -- the file with another mode and other attributes
  abbrev pub changed : String → ℕ → Option String → Option String → Cutover m → Cutover m
  changed text mode cap acl c = record c {
    files = set mihomo (some (file text mode cap acl)) c.files;
  }

  -- the removal of an attribute, if the file has it
  unfoldable pub drop_attribute :
      String → Option String → Cutover m → (Cutover m → Outcome) → Outcome
  drop_attribute what none c next = next c
  drop_attribute what (some v) c next = attempt what mihomo next c

  -- `stripPrivileges` of a regular file, once its attributes are read
  unfoldable pub strip : String → ℕ → Option String → Option String → Cutover m → Outcome
  strip text mode cap acl c =
      attempt "chmod" mihomo
        (λ d.
          drop_attribute "fremovexattr security.capability" cap (changed text 0o700 cap acl d) (λ e.
            drop_attribute "fremovexattr system.posix_acl_access" acl
              (changed text 0o700 none acl e)
              (λ f.
                attempt "chmod" mihomo (λ g. ([], changed text 0o755 none none g))
                  (changed text 0o700 none none f))))
        (pushed (restore mode cap acl) c)

  unfoldable pub strip_found : Option Node → Cutover m → Outcome
  strip_found none c = ([], c)
  strip_found (some (file text mode cap acl)) c =
      attempt "stat" mihomo
        (attempt "fgetxattr security.capability" mihomo
          (attempt "fgetxattr system.posix_acl_access" mihomo (strip text mode cap acl)))
        c
  strip_found (some link) c = ("too many levels of symbolic links" ∷ [], c)
  strip_found (some directory) c = ("old mihomo is not a regular file" ∷ [], c)
  strip_found (some other) c = ("old mihomo is not a regular file" ∷ [], c)

  -- `stripPrivileges`
  unfoldable pub strip_privileges : Cutover m → Outcome
  strip_privileges c = attempt "open" mihomo (λ d. strip_found (d.files mihomo) d) c
