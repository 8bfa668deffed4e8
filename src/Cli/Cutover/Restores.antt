-- ===== src/Cli/Cutover/Restores.antt =====
-- Each step of a cutover keeps what takes it back.
use Prim.Native.String.{String}
use omihomo.Base.{
  ℕ, true, List, [], ◌∷◌, Option, Option-cases, none, some, ◌≡◌, refl, ap, ◌∙◌, ◌⊎◌, inl, inr,
  arith, split_option,
}
use omihomo.Cli.Cutover.{
  Key, Node, file, link, directory, other, Files, set, mihomo, Undo, rename_back, restore, revert,
  Machine, Cutover, or_keep, changed, Outcome, attempt, pushed, moved, move_found, move, and_then,
  move_all, drop_attribute, strip, strip_found, strip_privileges,
}
use omihomo.Cli.Cutover.Stack.{undone, undone-step, revert-rename, set-here, set-set, set-id}

-- what holds of a call that fails and of what follows one that does not
pub attempt-All :
    (m : Machine) (P : Outcome m → Type 0) (what : String) (k : Key) (next : Cutover m → Outcome m)
    (c : Cutover m)
    → ((why : String) (t : m.host.T) → P (why ∷ [], record c { world = t }))
    → ((t : m.host.T) → P (next (record c { world = t })))
    → P (attempt m what k next c)
unfolding attempt
attempt-All m P what k next c hb hn =
    let (x, t) = m.fault what k c.world in split_option P x _ _ (λ e. hn t) (λ why e. hb why t)

module _ (m : Machine) (o : Files) where
  -- a backup took the place of a file, or the steps that take back lead to these files
  abbrev pub Undoes : Cutover m → Type 0
  Undoes c = (c.clobbered ≡ true) ⊎ (undone c.undo c.files ≡ some o)

  abbrev pub Keeps : Outcome m → Type 0
  Keeps r = Undoes r.1

  pub attempt-Keeps :
      (what : String) (k : Key) (next : Cutover m → Outcome m) (c : Cutover m)
      → Undoes c
      → ((t : m.host.T) → Keeps (next (record c { world = t })))
      → Keeps (attempt m what k next c)
  attempt-Keeps what k next c h hn = attempt-All m Keeps what k next c (λ why t. h) hn

  pub and_then-Keeps :
      (r : Outcome m) (f : Cutover m → Outcome m)
      → Keeps r
      → ((c : Cutover m) → Undoes c → Keeps (f c))
      → Keeps (and_then m r f)
  unfolding and_then
  and_then-Keeps ([], c) f h hf = hf c h
  and_then-Keeps (w ∷ ws, c) f h hf = h

  -- a step on the stack for a change of the files
  pub pushed-Undoes :
      (c : Cutover m) (u : Undo) (gs : Files)
      → Undoes c
      → revert u gs ≡ some c.files
      → Undoes (record c { files = gs; undo = u ∷ c.undo })
  pushed-Undoes c u gs (inl lost) e = inl lost
  pushed-Undoes c u gs (inr h) e = inr (undone-step u c.undo c.files gs e ∙ h)

  pub moved-Undoes :
      (k b : Key) (v : Node) (c : Cutover m)
      → Undoes c
      → c.files k ≡ some v
      → Undoes (moved m k b (some v) c)
  moved-Undoes k b v c (inl lost) e = inl (rw lost refl)
  moved-Undoes k b v c (inr h) e = elim (Option-cases (c.files b)) [
    | inl free ↦ inr (
        undone-step (rename_back b k) c.undo c.files _ (revert-rename k b none v c.files e free)
        ∙ h)
    | inr (w, there) ↦ inl (rw there (ground arith))
  ]

  move_found-Keeps :
      (k : Key) (v : Option Node) (c : Cutover m)
      → Undoes c
      → c.files k ≡ v
      → Keeps (move_found m k v c)
  unfolding move_found
  move_found-Keeps k none c h e = h
  move_found-Keeps k (some v) c h e =
      attempt-Keeps "rename" k _ c h (λ t. moved-Undoes k _ v (record c { world = t }) h e)

  pub move-Keeps : (k : Key) (c : Cutover m) → Undoes c → Keeps (move m k c)
  unfolding move
  move-Keeps k c h =
      attempt-Keeps "lstat" k _ c h
        (λ t. move_found-Keeps k (c.files k) (record c { world = t }) h refl)

  pub move_all-Keeps : (ks : List Key) (c : Cutover m) → Undoes c → Keeps (move_all m ks c)
  unfolding move_all
  move_all-Keeps [] c h = h
  move_all-Keeps (k ∷ ks) c h =
      and_then-Keeps (move m k c) (move_all m ks) (move-Keeps k c h) (move_all-Keeps ks)

  kept_or : (v : Option String) → or_keep v none ≡ v
  kept_or none = refl
  kept_or (some x) = refl

  same_or : (v : Option String) → or_keep v v ≡ v
  same_or none = refl
  same_or (some x) = refl

  module _ (b : Cutover m) (text : String) (mode : ℕ) (cap acl : Option String) where
    -- a state while mihomo loses its attributes: what it has lost is on the stack
    record Stripped (c : Cutover m) : Type 0 where
      mode_now : ℕ
      cap_now : Option String
      acl_now : Option String
      stack : c.undo ≡ restore mode cap acl ∷ b.undo
      same : c.clobbered ≡ b.clobbered
      there : c.files mihomo ≡ some (file text mode_now cap_now acl_now)
      cap_back : or_keep cap cap_now ≡ cap
      acl_back : or_keep acl acl_now ≡ acl
      rest : set mihomo (some (file text mode cap acl)) c.files ≡ b.files

    Stripped-Undoes : (c : Cutover m) → Stripped c → Undoes b → Undoes c
    unfolding revert
    Stripped-Undoes c s (inl lost) = inl (s.same ∙ lost)
    Stripped-Undoes c s (inr h) = inr (
        ap (λ (us : List Undo). undone us c.files) s.stack
        ∙ undone-step (restore mode cap acl) b.undo b.files c.files
            (rw (revert, s.there, s.cap_back, s.acl_back) (ap some s.rest))
        ∙ h)

    changed-Stripped :
        (c : Cutover m) (n : ℕ) (v w : Option String)
        → Stripped c
        → or_keep cap v ≡ cap
        → or_keep acl w ≡ acl
        → Stripped (changed m text n v w c)
    changed-Stripped c n v w s hv hw = record {
      mode_now = n;
      cap_now = v;
      acl_now = w;
      stack = s.stack;
      same = s.same;
      there = set-here mihomo (some (file text n v w)) c.files;
      cap_back = hv;
      acl_back = hw;
      rest = set-set mihomo _ _ c.files ∙ s.rest;
    }

    -- the same state at another time
    later : (c : Cutover m) (t : m.host.T) → Stripped c → Stripped (record c { world = t })
    later c t s = record {
      mode_now = s.mode_now;
      cap_now = s.cap_now;
      acl_now = s.acl_now;
      stack = s.stack;
      same = s.same;
      there = s.there;
      cap_back = s.cap_back;
      acl_back = s.acl_back;
      rest = s.rest;
    }

    attempt-Stripped :
        (what : String) (next : Cutover m → Outcome m) (c : Cutover m)
        → Undoes b
        → Stripped c
        → ((d : Cutover m) → Stripped d → Keeps (next d))
        → Keeps (attempt m what mihomo next c)
    attempt-Stripped what next c h s hn =
        attempt-Keeps what mihomo next c (Stripped-Undoes c s h)
          (λ t. hn (record c { world = t }) (later c t s))

    drop_attribute-Stripped :
        (what : String) (v : Option String) (c : Cutover m) (next : Cutover m → Outcome m)
        → Undoes b
        → Stripped c
        → ((d : Cutover m) → Stripped d → Keeps (next d))
        → Keeps (drop_attribute m what v c next)
    unfolding drop_attribute
    drop_attribute-Stripped what none c next h s hn = hn c s
    drop_attribute-Stripped what (some v) c next h s hn = attempt-Stripped what next c h s hn

    strip-Keeps :
        Undoes b
        → b.files mihomo ≡ some (file text mode cap acl)
        → Keeps (strip m text mode cap acl b)
    unfolding strip
    strip-Keeps h e =
        let first : Stripped (pushed m (restore mode cap acl) b) = record {
          mode_now = mode;
          cap_now = cap;
          acl_now = acl;
          stack = refl;
          same = refl;
          there = e;
          cap_back = same_or cap;
          acl_back = same_or acl;
          rest = set-id mihomo _ b.files e;
        } in
        attempt-Stripped _ _ _ h first (λ d s.
          drop_attribute-Stripped _ _ _ _ h
            (changed-Stripped d _ cap acl s (same_or cap) (same_or acl))
            (λ f s2.
              drop_attribute-Stripped _ _ _ _ h
                (changed-Stripped f _ none acl s2 (kept_or cap) (same_or acl))
                (λ g s3.
                  attempt-Stripped _ _ _ h
                    (changed-Stripped g _ none none s3 (kept_or cap) (kept_or acl))
                    (λ i s4.
                      Stripped-Undoes _
                        (changed-Stripped i _ none none s4 (kept_or cap) (kept_or acl)) h))))

  strip_found-Keeps :
      (v : Option Node) (c : Cutover m) → Undoes c → c.files mihomo ≡ v → Keeps (strip_found m v c)
  unfolding strip_found
  strip_found-Keeps none c h e = h
  strip_found-Keeps (some (file text mode cap acl)) c h e = attempt-Keeps _ _ _ c h (λ t.
      attempt-Keeps _ _ _ (record c { world = t }) h
        (λ u.
          attempt-Keeps _ _ _ (record c { world = u }) h
            (λ x. strip-Keeps (record c { world = x }) text mode cap acl h e)))
  strip_found-Keeps (some link) c h e = h
  strip_found-Keeps (some directory) c h e = h
  strip_found-Keeps (some other) c h e = h

  pub strip_privileges-Keeps : (c : Cutover m) → Undoes c → Keeps (strip_privileges m c)
  unfolding strip_privileges
  strip_privileges-Keeps c h =
      attempt-Keeps _ _ _ c h
        (λ t. strip_found-Keeps (c.files mihomo) (record c { world = t }) h refl)
