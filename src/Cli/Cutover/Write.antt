-- ===== src/Cli/Cutover/Write.antt =====
-- internal/cli/cutover.go: `writeSettings`; `files` is what `settings.Encode` gives.
use Prim.Native.String.{String}
use omihomo.Base.{List, [], ◌∷◌, Option, none, some, append}
use omihomo.Cli.Cutover.{
  Key, config, Node, file, link, directory, set, remove, Machine, Cutover, Outcome, attempt,
}

abbrev pub settings_dir : Key
settings_dir = record { root = config; name = "omihomo" }

abbrev pub settings_file : String → Key
settings_file name = record { root = config; name = append "omihomo/" name }

module _ (m : Machine) where
  -- something new, and its removal on the stack
  abbrev pub created : Key → Node → Cutover m → Cutover m
  created k v c = record c { files = set k (some v) c.files; undo = remove k ∷ c.undo }

  abbrev pub filled : Key → Node → Cutover m → Cutover m
  filled k v c = record c { files = set k (some v) c.files }

  abbrev pub blank : Node
  blank = file "" 0o600 none none

  -- the file once it is there: its owner, its text, and its end
  unfoldable pub fill : Key → String → (Cutover m → Outcome m) → Cutover m → Outcome m
  fill k text next c =
      attempt m "chown" k
        (attempt m "write" k
          (λ d. attempt m "close" k next (filled k (file text 0o600 none none) d)))
        c

  unfoldable pub create :
      Key → String → (Cutover m → Outcome m) → Option Node → Cutover m → Outcome m
  create k text next (some v) c = ("file exists" ∷ [], c)
  create k text next none c = fill k text next (created k blank c)

  -- the last loop of `writeSettings`
  unfoldable pub write_files : List (String × String) → Cutover m → Outcome m
  write_files [] c = ([], c)
  write_files ((name, text) ∷ fs) c =
      let rest = write_files fs in
      let k = settings_file name in attempt m "create" k (λ d. create k text rest (d.files k) d) c

  -- the directory, if it is not there
  unfoldable pub make_dir : List (String × String) → Option Node → Cutover m → Outcome m
  make_dir fs (some v) c = write_files fs c
  make_dir fs none c =
      attempt m "lchown" settings_dir (write_files fs) (created settings_dir directory c)

  -- the first loop: nothing is written where one of the files is there
  unfoldable pub unless_there :
      List (String × String) → (Cutover m → Outcome m) → Cutover m → Outcome m
  unless_there [] next c = next c
  unless_there ((name, text) ∷ fs) next c =
      let rest = unless_there fs next in
      attempt m "lstat" (settings_file name)
        (λ d. elim (d.files (settings_file name)) [ some v ↦ ([], d) | none ↦ rest d ]) c

  unfoldable pub write_into : List (String × String) → Option Node → Cutover m → Outcome m
  write_into fs (some link) c = ([], c)
  write_into fs v c =
      unless_there fs (attempt m "mkdir" settings_dir (λ d. make_dir fs (d.files settings_dir) d)) c

  -- `writeSettings`
  unfoldable pub write_settings : List (String × String) → Cutover m → Outcome m
  write_settings fs c =
      attempt m "lstat" settings_dir (λ d. write_into fs (d.files settings_dir) d) c
