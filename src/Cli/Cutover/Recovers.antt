-- ===== src/Cli/Cutover/Recovers.antt =====
-- A cutover that fails leaves the files as they were.
use omihomo.Base.{
  Bool, true, false, List, [], ◌∷◌, Option, Option-cases, none, some, ◌≡◌, refl, ◌∙◌, ◌⊎◌, inl, inr,
  split_option,
}
use omihomo.Migration.Install.{Errors}
use omihomo.Migration.Install.Restores.{failed}
use omihomo.Cli.Cutover.{Files, Undo, revert, Machine, Cutover, Outcome, attempt}
use omihomo.Cli.Cutover.Stack.{undone}
use omihomo.Cli.Cutover.Restores.{Undoes, attempt-All}
use omihomo.Cli.Cutover.Whole.{install-Keeps}
use omihomo.Cli.Cutover.Run.{
  Plan, drop_in, systemctl, userctl, only_if, any_of, install, also, join_all, last_steps, reverted,
  undo_one, undo_all, roll_back, services, recover, settle, proceed, cut_over,
}

undone-nil : (fs : Files) → undone [] fs ≡ some fs
unfolding undone
undone-nil fs = refl

module _ (m : Machine) where
  -- a step that leaves the files, and whether a file was lost
  abbrev Same : Cutover m → Outcome m → Type 0
  Same c r = (r.1.files ≡ c.files) × (r.1.clobbered ≡ c.clobbered)

  also-Same :
      (c : Cutover m) (r : Outcome m) (f : Cutover m → Outcome m)
      → Same c r
      → ((d : Cutover m) → Same d (f d))
      → Same c (also m r f)
  also-Same c r f (e, k) h = let (e2, k2) = h r.1 in (e2 ∙ e, k2 ∙ k)

  only_if-Same :
      (b : Bool) (f : Cutover m → Outcome m) (c : Cutover m)
      → Same c (f c)
      → Same c (only_if m b f c)
  only_if-Same true f c h = h
  only_if-Same false f c h = (refl, refl)

  roll_back-Same : (c : Cutover m) → Same c (roll_back m c)
  unfolding roll_back
  roll_back-Same c = split_option (Same c) c.staged _ _ (λ e. (refl, refl)) (λ i e. (refl, refl))

  AllSame : List (Cutover m → Outcome m) → Type 0
  AllSame [] = Unit
  AllSame (f ∷ fs) = ((d : Cutover m) → Same d (f d)) × AllSame fs

  join_all-Same :
      (fs : List (Cutover m → Outcome m)) (c : Cutover m) (r : Outcome m)
      → AllSame fs
      → Same c r
      → Same c (join_all m fs r)
  unfolding join_all AllSame
  join_all-Same [] c r h e = e
  join_all-Same (f ∷ fs) c r (h, hs) e = join_all-Same fs c (also m r f) hs (also-Same c r f e h)

  last_steps-AllSame : (p : Plan) → AllSame (last_steps m p)
  unfolding AllSame userctl systemctl
  last_steps-AllSame p = (
    roll_back-Same,
    (
      (λ d. only_if-Same (any_of m p.units) (userctl m ("daemon-reload" ∷ [])) d (refl, refl)),
      (
        (λ d. only_if-Same d.had_tailscale (systemctl m ("daemon-reload" ∷ [])) d (refl, refl)),
        (
          (λ d.
              only_if-Same d.had_tailscale (systemctl m ("try-restart" ∷ "tailscaled.service" ∷ []))
                d (refl, refl)),
          (
            (λ d. only_if-Same (any_of m p.active) (userctl m ("start" ∷ p.active)) d (refl, refl)),
            tt,
          ),
        ),
      ),
    ),
  )

  -- every call that takes a step back works
  abbrev pub Undoable : Type 0
  Undoable = (t : m.host.T) → (m.fault "undo" drop_in t).0 ≡ none

  undo_one-reverts :
      (u : Undo) (c : Cutover m) (gs : Files)
      → Undoable
      → revert u c.files ≡ some gs
      → ((undo_one m u c).1.files ≡ gs) × ((undo_one m u c).1.clobbered ≡ c.clobbered)
  unfolding undo_one attempt
  undo_one-reverts u c gs h e = rw (undo_one, attempt, h c.world, e) (refl, refl)

  no_step :
      {A : Type 0} (u : Undo) (us : List Undo) (fs : Files) (o : Files)
      → revert u fs ≡ none
      → undone (u ∷ us) fs ≡ some o
      → A
  unfolding undone
  no_step u us fs o e h = cc (rw (undone, e) at h)

  undo_all-undone :
      (us : List Undo) (c : Cutover m) (o : Files)
      → Undoable
      → undone us c.files ≡ some o
      → ((undo_all m us c).1.files ≡ o) × ((undo_all m us c).1.clobbered ≡ c.clobbered)
  unfolding undo_all undone
  undo_all-undone [] c o h e = (cc e, refl)
  undo_all-undone (u ∷ us) c o h e = elim (Option-cases (revert u c.files)) [
    | inl stuck ↦ no_step u us c.files o stuck e
    | inr (gs, went) ↦
        let (now, same) = undo_one-reverts u c gs h went in
        let next : undone us (undo_one m u c).1.files ≡ some o = rw now (rw (undone, went) at e) in
        let (done_all, same_all) = undo_all-undone us (undo_one m u c).1 o h next in
        (done_all, same_all ∙ same)
  ]

  reverted-clobbered :
      (gs : Option Files) (c : Cutover m) → (reverted m gs c).1.clobbered ≡ c.clobbered
  reverted-clobbered none c = refl
  reverted-clobbered (some fs) c = refl

  undo_one-clobbered : (u : Undo) (c : Cutover m) → (undo_one m u c).1.clobbered ≡ c.clobbered
  unfolding undo_one
  undo_one-clobbered u c =
      let P = λ (r : Outcome m). r.1.clobbered ≡ c.clobbered in
      attempt-All m P "undo" drop_in _ c (λ why t. refl)
        (λ t. reverted-clobbered (revert u c.files) (record c { world = t }))

  undo_all-clobbered :
      (us : List Undo) (c : Cutover m) → (undo_all m us c).1.clobbered ≡ c.clobbered
  unfolding undo_all
  undo_all-clobbered [] c = refl
  undo_all-clobbered (u ∷ us) c = undo_all-clobbered us (undo_one m u c).1 ∙ undo_one-clobbered u c

  -- a cutover whose steps lead back to some files
  recover-Restores :
      (p : Plan) (r : Outcome m) (o : Files)
      → Undoable
      → Undoes m o r.1
      → ((recover m p r).1.files ≡ o) ⊎ ((recover m p r).1.clobbered ≡ true)
  unfolding recover join_all systemctl
  recover-Restores p r o h back =
      let stopped = also m r (systemctl m ("stop" ∷ services)) in
      let undo = also m stopped (λ c. undo_all m c.undo c) in
      let (later, kept) =
        join_all-Same (last_steps m p) undo.1 undo (last_steps-AllSame p) (refl, refl) in
      elim back [
        | inl lost ↦ inr (kept ∙ undo_all-clobbered stopped.1.undo stopped.1 ∙ lost)
        | inr leads ↦
            let (now, same) = undo_all-undone stopped.1.undo stopped.1 o h leads in
            inl (later ∙ now)
      ]

  settle-Restores :
      (p : Plan) (r : Outcome m) (o : Files)
      → Undoable
      → Undoes m o r.1
      → failed r.0 ≡ true
      → ((settle m p r).1.files ≡ o) ⊎ ((settle m p r).1.clobbered ≡ true)
  unfolding settle
  settle-Restores p ([], c) o h back e = cc e
  settle-Restores p (w ∷ ws, c) o h back e = recover-Restores p (w ∷ ws, c) o h back

  proceed-Restores :
      (p : Plan) (stopped : Errors) (c : Cutover m) (o : Files)
      → Undoable
      → Undoes m o c
      → c.files ≡ o
      → failed (install m p c).0 ≡ true
      → ((proceed m p stopped c).1.files ≡ o) ⊎ ((proceed m p stopped c).1.clobbered ≡ true)
  unfolding proceed
  proceed-Restores p (w ∷ ws) c o h back same e = inl same
  proceed-Restores p [] c o h back same e =
      settle-Restores p (install m p c) o h (install-Keeps m o p c back) e

-- A cutover that fails before its end, at whatever step, ends with the files that it began with, those aside that
-- the claim itself writes, the owner and the drop-in of the socket, if the calls that take steps back work and no backup took the place of a file.
pub cut_over-Restores :
    (m : Machine) (p : Plan) (c : Cutover m)
    → Undoable m
    → c.undo ≡ []
    → failed (install m p (systemctl m ("stop" ∷ services) c).1).0 ≡ true
    → ((cut_over m p c).1.files ≡ c.files) ⊎ ((cut_over m p c).1.clobbered ≡ true)
unfolding cut_over systemctl
cut_over-Restores m p c h empty e =
    let stopped = systemctl m ("stop" ∷ services) c in
    proceed-Restores m p stopped.0 stopped.1 c.files h (inr (rw empty (undone-nil c.files))) refl e
