-- ===== src/Migration/Install.antt =====
-- internal/migration/import.go: `emptyState`, `Commit`, `Rollback` and `Finish` of an `Import`. The
-- directories are what they hold, none where there is none. A call of the operating system does what it is for
-- or fails, as `fault` says.
pub mod Restores
use Prim.Native.String.{String}
use omihomo.Base.{
  ℕ, Bool, true, false, not, ◌&&◌, ◌||◌, List, [], ◌∷◌, ◌++◌, Option, none, some, str_eq,
  if◌then◌else◌,
}

pub data FileKind : Type 0 where
  regular directory other : FileKind

pub record Child : Type 0 where
  pub name : String
  pub kind : FileKind

-- an entry of a state directory, with what it holds if it is a directory itself
pub record DirEntry : Type 0 where
  pub name : String
  pub kind : FileKind
  pub children : List Child

abbrev pub Dir : Type 0
Dir = List DirEntry

pub data Call : Type 0 where
  list_target make_temporary remove_temporary : Call
  list_child : (name : String) → Call
  rename_away install rename_back take_out put_back : Call

-- `fault` is the error of a call, if it fails
pub record Host : Type 1 where
  pub T : Type 0
  pub fault : Call → T → Option String × T

-- an error, no text where there is none: `errors.Join` is ◌++◌
abbrev pub Errors : Type 0
Errors = List String

-- `Import`, and the directories of its `target`, its `Dir` and its `backup`; `backed_up` is whether `backup` is
-- not empty
pub record Import (h : Host) : Type 0 where
  pub world : h.T
  pub target : Option Dir
  pub staged : Option Dir
  pub backup : Option Dir
  pub backed_up : Bool
  pub installed : Bool

abbrev is_regular : FileKind → Bool
is_regular regular = true
is_regular _ = false

abbrev is_directory : FileKind → Bool
is_directory directory = true
is_directory _ = false

-- the children that a directory may have
unfoldable pub ignored : String → List Child → Bool
ignored name [] = true
ignored name (c ∷ []) = str_eq name "core" && str_eq c.name "cache.db" && is_regular c.kind
ignored name (c ∷ d ∷ cs) = false

abbrev exists_already : Errors
exists_already = "daemon state already exists; refusing to replace it with an old install" ∷ []

module _ (h : Host) where
  -- a call of the operating system
  unfoldable pub call : {A : Type 0} → Call → (String → h.T → A) → (h.T → A) → h.T → A
  call c broken worked t =
      let (x, u) = h.fault c t in elim x [ some why ↦ broken why u | none ↦ worked u ]

  -- the loop of `emptyState`
  unfoldable pub empty_entries : Dir → h.T → Errors × h.T
  unfolding ignored call
  empty_entries [] t = ([], t)
  empty_entries (e ∷ es) t =
      let rest = empty_entries es in
      if str_eq e.name "owner" && is_regular e.kind
      then rest t
      else if (str_eq e.name "core" || str_eq e.name "subscriptions") && is_directory e.kind
      then call (list_child e.name) (λ why u. (why ∷ [], u))
          (λ u. if ignored e.name e.children then rest u else (exists_already, u)) t
      else (exists_already, t)

  -- `emptyState`
  unfoldable pub empty_state : Option Dir → h.T → Errors × h.T
  unfolding empty_entries
  empty_state none t = ([], t)
  empty_state (some es) t = call list_target (λ why u. (why ∷ [], u)) (empty_entries es) t

  -- the first rename of `Commit`, from the target to the backup
  unfoldable pub move_away : Import h → Errors × Import h
  unfolding call
  move_away m = elim m.target [
    | none ↦ ([], m)
    | some d ↦
        call rename_away (λ why u. (why ∷ [], record m { world = u }))
          (λ u. ([], record m { world = u; target = none; backup = some d; backed_up = true }))
          m.world
  ]

  -- the second, from the staging directory to the target; the target is put back if it fails
  unfoldable pub move_in : Import h → Errors × Import h
  unfolding call
  move_in m =
      call install
        (λ why u.
          if m.backed_up
          then call rename_back (λ again v. (why ∷ again ∷ [], record m { world = v }))
              (λ v. (why ∷ [], record m { world = v; target = m.backup; backup = none })) u
          else (why ∷ [], record m { world = u }))
        (λ u. ([], record m { world = u; target = m.staged; staged = none; installed = true }))
        m.world

  -- `Commit`
  unfoldable pub commit : Import h → Errors × Import h
  unfolding empty_state move_away move_in
  commit m =
      let (found, t) = empty_state m.target m.world in
      elim found [
        | w ∷ ws ↦ (w ∷ ws, record m { world = t })
        | [] ↦
            call make_temporary (λ why u. (why ∷ [], record m { world = u }))
              (call remove_temporary (λ why u. (why ∷ [], record m { world = u }))
                (λ u.
                  let (failed, n) = move_away (record m { world = u }) in
                  elim failed [ w ∷ ws ↦ (w ∷ ws, n) | [] ↦ move_in n ]))
              t
      ]

  -- `Rollback`
  unfoldable pub rollback : Import h → Errors × Import h
  unfolding call
  rollback m =
      if not m.installed
      then ([], m)
      else call take_out (λ why u. (why ∷ [], record m { world = u }))
          (λ u.
            let out = record m { world = u; target = none; staged = m.target; installed = false } in
            if m.backed_up
            then call put_back (λ why v. (why ∷ [], record out { world = v }))
                (λ v. ([], record out { world = v; target = m.backup; backup = none })) u
            else ([], out))
          m.world

  -- `Finish`; whether the removal works is not asked
  unfoldable pub finish : Import h → Import h
  finish m = if m.backed_up then record m { backup = none; backed_up = false } else m
