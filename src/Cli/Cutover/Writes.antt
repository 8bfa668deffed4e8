-- ===== src/Cli/Cutover/Writes.antt =====
-- Writing the settings files keeps what takes them back.
use Prim.Native.String.{String}
use omihomo.Base.{List, [], ◌∷◌, Option, none, some, ◌≡◌, refl, ap, ◌∙◌, split_option}
use omihomo.Cli.Cutover.{
  Key, Node, file, link, directory, other, Files, set, remove, revert, Machine, Cutover, Outcome,
  attempt,
}
use omihomo.Cli.Cutover.Stack.{revert-remove, set-set}
use omihomo.Cli.Cutover.Write.{
  settings_dir, settings_file, created, filled, blank, fill, create, write_files, make_dir,
  unless_there, write_into, write_settings,
}
use omihomo.Cli.Cutover.Restores.{Undoes, Keeps, attempt-Keeps, pushed-Undoes}

module _ (m : Machine) (o : Files) where
  created-Undoes :
      (k : Key) (v : Node) (c : Cutover m)
      → Undoes m o c
      → c.files k ≡ none
      → Undoes m o (created m k v c)
  created-Undoes k v c h e =
      pushed-Undoes m o c (remove k) (set k (some v) c.files) h (revert-remove k v c.files e)

  fill-Keeps :
      (k : Key) (text : String) (next : Cutover m → Outcome m) (c : Cutover m)
      → Undoes m o c
      → c.files k ≡ none
      → ((d : Cutover m) → Undoes m o d → Keeps m o (next d))
      → Keeps m o (fill m k text next (created m k (blank m) c))
  unfolding fill
  fill-Keeps k text next c h e hn =
      let new = created m k (blank m) c in
      let hc : Undoes m o new = created-Undoes k (blank m) c h e in
      attempt-Keeps m o _ k _ new hc (λ t.
        attempt-Keeps m o _ k _ (record new { world = t }) hc
          (λ u.
            let full = file text 0o600 none none in
            let hf : Undoes m o (filled m k full (record new { world = u })) =
              pushed-Undoes m o c (remove k) (set k (some full) new.files) h (
                ap (revert (remove k)) (set-set k (some full) (some (blank m)) c.files)
                ∙ revert-remove k full c.files e) in
            attempt-Keeps m o _ k _ (filled m k full (record new { world = u })) hf
              (λ x. hn (record (filled m k full (record new { world = u })) { world = x }) hf)))

  create-Keeps :
      (k : Key) (text : String) (next : Cutover m → Outcome m) (v : Option Node) (c : Cutover m)
      → Undoes m o c
      → c.files k ≡ v
      → ((d : Cutover m) → Undoes m o d → Keeps m o (next d))
      → Keeps m o (create m k text next v c)
  unfolding create
  create-Keeps k text next none c h e hn = fill-Keeps k text next c h e hn
  create-Keeps k text next (some v) c h e hn = h

  write_files-Keeps :
      (fs : List (String × String)) (c : Cutover m) → Undoes m o c → Keeps m o (write_files m fs c)
  unfolding write_files
  write_files-Keeps [] c h = h
  write_files-Keeps ((name, text) ∷ fs) c h =
      let k = settings_file name in
      attempt-Keeps m o _ k _ c h (λ t.
        create-Keeps k text (write_files m fs) (c.files k) (record c { world = t }) h refl
          (write_files-Keeps fs))

  make_dir-Keeps :
      (fs : List (String × String)) (v : Option Node) (c : Cutover m)
      → Undoes m o c
      → c.files settings_dir ≡ v
      → Keeps m o (make_dir m fs v c)
  unfolding make_dir
  make_dir-Keeps fs (some v) c h e = write_files-Keeps fs c h
  make_dir-Keeps fs none c h e =
      let new = created m settings_dir directory c in
      let hc : Undoes m o new = created-Undoes settings_dir directory c h e in
      attempt-Keeps m o _ _ _ new hc (λ t. write_files-Keeps fs (record new { world = t }) hc)

  unless_there-Keeps :
      (fs : List (String × String)) (next : Cutover m → Outcome m) (c : Cutover m)
      → Undoes m o c
      → ((d : Cutover m) → Undoes m o d → Keeps m o (next d))
      → Keeps m o (unless_there m fs next c)
  unfolding unless_there
  unless_there-Keeps [] next c h hn = hn c h
  unless_there-Keeps ((name, text) ∷ fs) next c h hn = attempt-Keeps m o _ _ _ c h (λ t.
      split_option (Keeps m o) (c.files (settings_file name)) _ _
        (λ e. unless_there-Keeps fs next (record c { world = t }) h hn) (λ v e. h))

  into-Keeps :
      (fs : List (String × String)) (c : Cutover m)
      → Undoes m o c
      → Keeps m o (
          unless_there m fs
            (attempt m "mkdir" settings_dir (λ d. make_dir m fs (d.files settings_dir) d))
            c)
  into-Keeps fs c h = unless_there-Keeps fs _ c h (λ d hd.
      attempt-Keeps m o _ _ _ d hd
        (λ t. make_dir-Keeps fs (d.files settings_dir) (record d { world = t }) hd refl))

  write_into-Keeps :
      (fs : List (String × String)) (v : Option Node) (c : Cutover m)
      → Undoes m o c
      → Keeps m o (write_into m fs v c)
  unfolding write_into
  write_into-Keeps fs none c h = into-Keeps fs c h
  write_into-Keeps fs (some (file t n a b)) c h = into-Keeps fs c h
  write_into-Keeps fs (some link) c h = h
  write_into-Keeps fs (some directory) c h = into-Keeps fs c h
  write_into-Keeps fs (some other) c h = into-Keeps fs c h

  pub write_settings-Keeps :
      (fs : List (String × String)) (c : Cutover m)
      → Undoes m o c
      → Keeps m o (write_settings m fs c)
  unfolding write_settings
  write_settings-Keeps fs c h =
      attempt-Keeps m o _ _ _ c h
        (λ t. write_into-Keeps fs (c.files settings_dir) (record c { world = t }) h)
