-- ===== src/Migration/Install/Restores.antt =====
-- What an import leaves of the previous state directory.
use Prim.Native.String.{String}
use omihomo.Base.{
  Bool, true, false, not, [], ◌∷◌, ◌++◌, Option, none, some, ◌≡◌, refl, sym, ap, ◌∙◌, ◌⊎◌, inl, inr,
  split_option, split_bool,
}
use omihomo.Migration.Install.{
  Host, install, rename_away, rename_back, take_out, put_back, make_temporary, remove_temporary,
  Errors, Import, Dir, call, empty_state, move_away, move_in, commit, rollback,
}

abbrev pub failed : Errors → Bool
failed [] = false
failed (w ∷ ws) = true

abbrev is_there : Option Dir → Bool
is_there none = false
is_there (some d) = true

module _ (h : Host) where
  split_failed {ℓ} :
      {A : Type 0} (P : A → Type ℓ) (found : Errors) (f : String → Errors → A) (g : A)
      → ((w : String) (ws : Errors) → found ≡ w ∷ ws → P (f w ws))
      → (found ≡ [] → P g)
      → P (elim found [ w ∷ ws ↦ f w ws | [] ↦ g ])
  split_failed P [] f g hf hg = hg refl
  split_failed P (w ∷ ws) f g hf hg = hf w ws refl

  -- an import that `Prepare` has staged
  pub record Staged (m : Import h) : Type 0 where
    pub not_installed : m.installed ≡ false
    pub not_backed_up : m.backed_up ≡ false
    pub no_backup : m.backup ≡ none

  -- the outcomes of `Commit`: the import is installed, nothing has moved, or the previous directory
  -- stays where it was saved
  data Committed (m : Import h) (r : Errors × Import h) : Type 0 where
    done :
        r.0 ≡ []
        → r.1.target ≡ m.staged
        → r.1.backup ≡ m.target
        → r.1.installed ≡ true
        → r.1.backed_up ≡ is_there m.target
        → Committed m r
    kept :
        failed r.0 ≡ true
        → r.1.target ≡ m.target
        → r.1.staged ≡ m.staged
        → r.1.installed ≡ false
        → Committed m r
    saved :
        failed r.0 ≡ true
        → r.1.target ≡ none
        → r.1.backup ≡ m.target
        → r.1.staged ≡ m.staged
        → r.1.installed ≡ false
        → Committed m r

  -- what holds between the two renames
  record Away (m n : Import h) : Type 0 where
    target : n.target ≡ none
    backup : n.backup ≡ m.target
    staged : n.staged ≡ m.staged
    installed : n.installed ≡ false
    backed_up : n.backed_up ≡ is_there m.target

  move_in-Committed : (m n : Import h) → Away m n → Committed m (move_in h n)
  unfolding move_in call
  move_in-Committed m n a =
      let (x, u) = h.fault install n.world in
      split_option (Committed m) x _ _ (λ e. done refl a.staged a.backup refl a.backed_up)
        (λ why e.
          split_bool (Committed m) n.backed_up _ _
            (λ k.
              split_option (Committed m) (h.fault rename_back u).0 _ _
                (λ f. kept refl a.backup a.staged a.installed)
                (λ again f. saved refl a.target a.backup a.staged a.installed))
            (λ k. saved refl a.target a.backup a.staged a.installed))

  abbrev and_in : Errors × Import h → Errors × Import h
  and_in r = elim r.0 [ w ∷ ws ↦ (w ∷ ws, r.1) | [] ↦ move_in h r.1 ]

  -- the renames of an import whose checks have passed
  renames-Committed :
      (m n : Import h)
      → Staged n
      → n.target ≡ m.target
      → n.staged ≡ m.staged
      → Committed m (and_in (move_away h n))
  unfolding move_away call
  renames-Committed m n w et es =
      let P = λ (r : Errors × Import h). Committed m (and_in r) in
      split_option P n.target _ _
        (λ gone. move_in-Committed m n (record {
          target = gone;
          backup = w.no_backup ∙ sym gone ∙ et;
          staged = es;
          installed = w.not_installed;
          backed_up = w.not_backed_up ∙ ap is_there (sym gone ∙ et);
        }))
        (λ d there.
          let (x, u) = h.fault rename_away n.world in
          split_option P x _ _
            (λ e.
              move_in-Committed m
                (record n { world = u; target = none; backup = some d; backed_up = true })
                (record {
                  target = refl;
                  backup = sym there ∙ et;
                  staged = es;
                  installed = w.not_installed;
                  backed_up = ap is_there (sym there ∙ et);
                }))
            (λ why e. kept refl et es w.not_installed))

  commit-Committed : (m : Import h) → Staged m → Committed m (commit h m)
  unfolding commit call
  commit-Committed m w =
      let unmoved : (why : String) (ws : Errors) (t : h.T)
          → Committed m (why ∷ ws, record m { world = t }) =
        λ why ws t. kept refl refl refl w.not_installed in
      let (found, t) = empty_state h m.target m.world in
      split_failed (Committed m) found _ _ (λ y ys e. unmoved y ys t)
        (λ e.
          let (x, u) = h.fault make_temporary t in
          split_option (Committed m) x _ _
            (λ f.
              let (y, v) = h.fault remove_temporary u in
              split_option (Committed m) y _ _
                (λ k.
                  renames-Committed m (record m { world = v })
                    (record {
                      not_installed = w.not_installed;
                      not_backed_up = w.not_backed_up;
                      no_backup = w.no_backup;
                    })
                    refl refl)
                (λ why k. unmoved why [] v))
            (λ why f. unmoved why [] u))

  -- the previous directory is back, and the import is staged again; or an error was reported, and the
  -- previous directory is in the backup
  abbrev pub Restored : Import h → Errors → Import h → Type 0
  Restored m errors n =
      ((n.target ≡ m.target) × (n.staged ≡ m.staged))
      ⊎ ((failed errors ≡ true) × (n.backup ≡ m.target))

  not_there : (d : Option Dir) → is_there d ≡ false → none ≡ d
  not_there none e = refl
  not_there (some d) e = cc e

  failed-append : (xs ys : Errors) → failed ys ≡ true → failed (xs ++ ys) ≡ true
  failed-append [] ys e = e
  failed-append (x ∷ xs) ys e = refl

  append-failed : (xs ys : Errors) → failed xs ≡ true → failed (xs ++ ys) ≡ true
  append-failed [] ys e = cc e
  append-failed (x ∷ xs) ys e = refl

  rollback-done :
      (m n : Import h) (errors : Errors)
      → n.target ≡ m.staged
      → n.backup ≡ m.target
      → n.installed ≡ true
      → n.backed_up ≡ is_there m.target
      → Restored m (errors ++ (rollback h n).0) (rollback h n).1
  unfolding rollback call
  rollback-done m n errors et eb ei ek =
      let P = λ (u : Errors × Import h). Restored m (errors ++ u.0) u.1 in
      let (x, t) = h.fault take_out n.world in
      split_bool P (not n.installed) _ _ (λ e. cc (e, ei))
        (λ e.
          split_option P x _ _
            (λ f.
              split_bool P n.backed_up _ _
                (λ k.
                  split_option P (h.fault put_back t).0 _ _ (λ g. inl (eb, et))
                    (λ why g. inr (failed-append errors (why ∷ []) refl, eb)))
                (λ k. inl (not_there m.target (sym ek ∙ k), et)))
            (λ why f. inr (failed-append errors (why ∷ []) refl, eb)))

  rollback-Committed :
      (m : Import h) (r : Errors × Import h)
      → Committed m r
      → Restored m (r.0 ++ (rollback h r.1).0) (rollback h r.1).1
  unfolding rollback
  rollback-Committed m r (done e et eb ei ek) = rollback-done m r.1 r.0 et eb ei ek
  rollback-Committed m r (kept e et es ei) = rw ei (inl (et, es))
  rollback-Committed m r (saved e et eb es ei) = rw ei (inr (append-failed r.0 [] e, eb))

-- A rollback after a commit, whatever failed in either, leaves the previous state directory in its place and the
-- import staged; or an error was reported and the previous directory is in the backup.
pub rollback-commit :
    (h : Host) (m : Import h)
    → Staged h m
    → Restored h m ((commit h m).0 ++ (rollback h (commit h m).1).0) (rollback h (commit h m).1).1
rollback-commit h m w = rollback-Committed h m (commit h m) (commit-Committed h m w)
