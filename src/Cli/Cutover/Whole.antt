-- ===== src/Cli/Cutover/Whole.antt =====
-- A cutover that fails leaves the files as they were.
use Prim.Native.String.{String}
use omihomo.Base.{
  Bool, true, false, ◌&&◌, [], ◌∷◌, Option, Option-cases, none, some, ◌≡◌, refl, ap, ◌∙◌, inl, inr,
  arith, split_option,
}
use omihomo.Cli.Cutover.{
  Key, Node, Files, set, rename_back, remove_if_there, revert, Machine, Cutover, Outcome, attempt,
  moved, backup_of, move_found, move, and_then,
}
use omihomo.Cli.Cutover.Stack.{undone, undone-step, revert-rename, set-set, set-id}
use omihomo.Cli.Cutover.Writes.{write_settings-Keeps}
use omihomo.Cli.Cutover.Restores.{
  Undoes, Keeps, attempt-All, and_then-Keeps, moved-Undoes, move-Keeps, move_all-Keeps,
  strip_privileges-Keeps,
}
use omihomo.Cli.Cutover.Run.{
  Plan, drop_in, launcher, hooks, unit_keys, userctl, only_if, any_of, commit_staged, is_staged,
  drop_in_found, move_drop_in, written, claim, apply, check, move_old, take_over, install,
}

module _ (m : Machine) (o : Files) where
  -- whatever the claim writes at the drop-in, the steps lead to the same files
  abbrev Absorbs : Cutover m → Type 0
  Absorbs c = (v : Option Node) → Undoes m o (record c { files = set drop_in v c.files })

  abbrev Ready : Outcome m → Type 0
  Ready r = Keeps m o r × (r.0 ≡ [] → Absorbs r.1)

  attempt-Ready :
      (what : String) (k : Key) (next : Cutover m → Outcome m) (c : Cutover m)
      → Undoes m o c
      → ((t : m.host.T) → Ready (next (record c { world = t })))
      → Ready (attempt m what k next c)
  attempt-Ready what k next c h hn = attempt-All m Ready what k next c (λ why t. (h, λ e. cc e)) hn

  moved-Absorbs :
      (b : Key) (v : Node) (c : Cutover m)
      → Undoes m o c
      → c.files drop_in ≡ some v
      → Absorbs (moved m drop_in b (some v) c)
  moved-Absorbs b v c (inl lost) e x = inl (rw lost refl)
  moved-Absorbs b v c (inr h) e x = elim (Option-cases (c.files b)) [
    | inl free ↦ inr (
        undone-step (rename_back b drop_in) c.undo c.files _ (
          ap (revert (rename_back b drop_in)) (set-set drop_in x none (set b (some v) c.files))
          ∙ revert-rename drop_in b x v c.files e free)
        ∙ h)
    | inr (w, there) ↦ inl (rw there (ground arith))
  ]

  move-Ready :
      (v : Node) (c : Cutover m)
      → Undoes m o c
      → c.files drop_in ≡ some v
      → Ready (move m drop_in c)
  unfolding move move_found
  move-Ready v c h e = attempt-Ready _ drop_in _ c h (λ t. rw e (
      attempt-Ready _ drop_in _ (record c { world = t }) h
        (λ u.
          let b = backup_of (m.nanoseconds t) drop_in in
          let d = record c { world = u } in
          (moved-Undoes m o drop_in b v d h e, λ z. moved-Absorbs b v d h e))))

  found-Ready :
      (v : Option Node) (c : Cutover m)
      → Undoes m o c
      → c.files drop_in ≡ v
      → Ready (drop_in_found m v c)
  unfolding drop_in_found revert
  found-Ready (some v) c h e = move-Ready v (record c { had_tailscale = true }) h e
  found-Ready none c (inl lost) e = (inl lost, λ z x. inl lost)
  found-Ready none c (inr h) e =
      let back : (gs : Files)
          → set drop_in none gs ≡ c.files
          → undone (remove_if_there drop_in ∷ c.undo) gs ≡ some o =
        λ gs q. undone-step (remove_if_there drop_in) c.undo c.files gs (ap some q) ∙ h in
      (
        inr (back c.files (set-id drop_in none c.files e)),
        λ z x. inr (
            back (set drop_in x c.files)
              (set-set drop_in none x c.files ∙ set-id drop_in none c.files e)),
      )

  move_drop_in-Ready : (c : Cutover m) → Undoes m o c → Ready (move_drop_in m c)
  unfolding move_drop_in
  move_drop_in-Ready c h =
      attempt-Ready _ drop_in _ c h
        (λ t. found-Ready (c.files drop_in) (record c { world = t }) h refl)

  only_if-Keeps :
      (b : Bool) (f : Cutover m → Outcome m) (c : Cutover m)
      → Undoes m o c
      → Keeps m o (f c)
      → Keeps m o (only_if m b f c)
  only_if-Keeps true f c h hf = hf
  only_if-Keeps false f c h hf = h

  commit_staged-Keeps : (c : Cutover m) → Undoes m o c → Keeps m o (commit_staged m c)
  unfolding commit_staged
  commit_staged-Keeps c h = split_option (Keeps m o) c.staged _ _ (λ e. h) (λ i e. h)

  move_old-Keeps : (p : Plan) (c : Cutover m) → Undoes m o c → Keeps m o (move_old m p c)
  unfolding move_old userctl
  move_old-Keeps p c h = and_then-Keeps m o _ _ (only_if-Keeps (any_of m p.units) _ c h h) (λ c1 h1.
      and_then-Keeps m o _ _ (commit_staged-Keeps c1 h1) (λ c2 h2.
        and_then-Keeps m o _ _
          (only_if-Keeps (is_staged m c2 && p.has_config) _ c2 h2
            (write_settings-Keeps m o p.encoded c2 h2))
          (λ c3 h3. and_then-Keeps m o _ _ (move_all-Keeps m o (unit_keys p.units) c3 h3) (λ c4 h4.
            and_then-Keeps m o _ _ (only_if-Keeps (any_of m p.units) _ c4 h4 h4) (λ c5 h5.
              and_then-Keeps m o _ _ (move_all-Keeps m o hooks c5 h5) (λ c6 h6.
                and_then-Keeps m o _ _ (strip_privileges-Keeps m o c6 h6) (λ c7 h7.
                  only_if-Keeps p.remove_launcher _ c7 h7 (move-Keeps m o launcher c7 h7))))))))

  and_then-Ready :
      (r : Outcome m) (f : Cutover m → Outcome m)
      → Keeps m o r
      → ((c : Cutover m) → Undoes m o c → Ready (f c))
      → Ready (and_then m r f)
  unfolding and_then
  and_then-Ready ([], c) f h hf = hf c h
  and_then-Ready (w ∷ ws, c) f h hf = (h, λ e. cc e)

  after-Ready :
      (r : Outcome m) (f : Cutover m → Outcome m)
      → Ready r
      → ((c : Cutover m) → Absorbs c → Keeps m o (f c))
      → Keeps m o (and_then m r f)
  unfolding and_then
  after-Ready ([], c) f (h, ready) hf = hf c (ready refl)
  after-Ready (w ∷ ws, c) f (h, ready) hf = h

  absorbed-Ready :
      (r : (Option String × Option Node) × m.host.T) (c : Cutover m)
      → Absorbs c
      → Ready (written m r c)
  unfolding written
  absorbed-Ready ((x, v), t) c h = (h v, λ e w. rw (set-set drop_in w v c.files) (h w))

  only_if-Ready :
      (b : Bool) (f : Cutover m → Outcome m) (c : Cutover m)
      → Undoes m o c
      → Absorbs c
      → Ready (f c)
      → Ready (only_if m b f c)
  only_if-Ready true f c k h hf = hf
  only_if-Ready false f c k h hf = (k, λ e. h)

  and_then-Absorbs :
      (r : Outcome m) (f : Cutover m → Outcome m)
      → Ready r
      → ((c : Cutover m) → Undoes m o c → Absorbs c → Ready (f c))
      → Ready (and_then m r f)
  unfolding and_then
  and_then-Absorbs ([], c) f (k, ready) hf = hf c k (ready refl)
  and_then-Absorbs (w ∷ ws, c) f (k, ready) hf = (k, λ e. cc e)

  claim-Ready : (c : Cutover m) → Absorbs c → Ready (claim m c)
  unfolding claim
  claim-Ready c h =
      let x = m.claim c.claimed c.world in
      absorbed-Ready ((x.0.0, x.0.1), x.1) (record c { claimed = x.0.2 }) h

  take_over-Keeps : (p : Plan) (c : Cutover m) → Absorbs c → Keeps m o (take_over m p c)
  unfolding take_over apply check
  take_over-Keeps p c h =
      (and_then-Absorbs _ _ (claim-Ready c h) (λ d k hd.
        and_then-Absorbs _ _
          (only_if-Ready (is_staged m d && p.has_config) (apply m) d k hd
            (absorbed-Ready (m.apply d.world) d hd))
          (λ e x he. absorbed-Ready (m.check p.running e.world) e he))).0

  -- Wherever a cutover stops, the steps on its stack lead back to the files that it began with, unless a backup
  -- took the place of a file.
  pub install-Keeps : (p : Plan) (c : Cutover m) → Undoes m o c → Keeps m o (install m p c)
  unfolding install
  install-Keeps p c h =
      after-Ready _ _ (and_then-Ready _ _ (move_old-Keeps p c h) move_drop_in-Ready)
        (take_over-Keeps p)
