-- ===== src/Daemon/Commit/Keeps.antt =====
-- `commitSettings` and `apply` keep the daemon and the engine in agreement, whatever fails.
use omihomo.Base.{
  split_ite, Bool, true, false, not, ◌&&◌, ◌||◌, Option, none, some, ◌≡◌, refl, ◌∙◌, split_option,
  split_bool, arith,
}
use omihomo.Protocol.{
  Error, Settings, Entries, prune_categories, Settings-discrete, Entries-discrete,
}
use omihomo.Engine.{Engine, Contract, Profile, Failure}
use omihomo.Daemon.State.{Outside, NoFalseStop, Stored, Server}
use omihomo.Daemon.Publish.{publish}
use omihomo.Daemon.Check.{check_settings}
use omihomo.Daemon.Check.Rules.{check_rules}
use omihomo.Daemon.Agrees.{
  RunsAs, Agrees, Frame, Frame-refl, Frame-RunsAs, Frame-Agrees, publish-Frame, touch,
}
use omihomo.Daemon.Run.{same_bool, save_settings, reapply, rollback}
use omihomo.Daemon.Run.Apply.{reapply-Reapplied, rollback-RolledBack}
use omihomo.Daemon.Run.Start.{save_settings-Saved}
use omihomo.Daemon.Commit.{
  missing_destination, sync_host, sync_if, revert, finish_commit, commit_settings, apply,
}

module _ {e : Engine} {o : Outside} (c : Contract e) (h : NoFalseStop o) where
  sync_host-Frame : (up : Bool) (s : Server e o) → Frame c s (sync_host up s).1
  unfolding sync_host
  sync_host-Frame up s =
      split_option (λ (r : Option Failure × Server e o). Frame c s r.1) o.tailscale_sync _ _
        (λ _. Frame-refl c s) (λ sync _. touch c s (sync up s.outside).1 s.downloads)

  sync_if-Frame :
      (cond up : Bool) (before : Option Failure) (s : Server e o)
      → Frame c s (sync_if cond up before s).1
  unfolding sync_if
  sync_if-Frame cond up before s =
      split_bool (λ (r : Option Failure × Server e o). Frame c s r.1) cond _ _
        (λ _. sync_host-Frame up s) (λ _. Frame-refl c s)

  -- a server whose engine runs `next` and `p`, while its own settings may be older
  record Ahead (next : Stored) (p : Profile) (s : Server e o) : Type 0 where
    profile : s.profile ≡ p
    runs_it : RunsAs c next p s

  Frame-Ahead :
      (next : Stored) (p : Profile) (s t : Server e o)
      → Frame c s t
      → Ahead next p s
      → Ahead next p t
  Frame-Ahead next p s t f a = record {
    profile = f.profile ∙ a.profile;
    runs_it = Frame-RunsAs c next p s t f a.runs_it;
  }

  Ahead-Agrees :
      (next : Stored) (p : Profile) (s : Server e o)
      → Ahead next p s
      → s.settings ≡ next
      → Agrees c s
  Ahead-Agrees next p s a x = record { runs_it = ground (arith, a.runs_it, a.profile, x) }

  revert-Agrees :
      (failure : Error) (prev next : Stored) (p : Profile) (s : Server e o)
      → s.settings ≡ prev
      → Ahead next p s
      → Agrees c (revert failure prev next p s).1
  unfolding revert
  revert-Agrees failure prev next p s old a =
      let was = prev.settings.tailscale in
      let changed = not (same_bool next.settings.tailscale was) in
      let s1 = (sync_if (changed && not was) false none s).1 in
      let f1 = sync_if-Frame (changed && not was) false none s in
      let a1 = Frame-Ahead next p s s1 f1 a in
      let b = rollback-RolledBack c h false prev p next p s1 a1.runs_it in
      let s2 = (rollback false prev p s1).1 in
      let x1 = (sync_if (changed && not was) false none s).0 in
      let f3 = sync_if-Frame (changed && was) true x1 s2 in
      let x3 = (sync_if (changed && was) true x1 s2).0 in
      let s3 = (sync_if (changed && was) true x1 s2).1 in
      let s3' = record s3 { settings = next } in
      let profile2 : s2.profile ≡ p = b.kept.profile ∙ a1.profile in
      split_bool (λ (r : Option Error × Server e o). Agrees c r.1) (rollback false prev p s1).0 _ _
        (λ yes.
          Ahead-Agrees prev p s3
            (Frame-Ahead prev p s2 s3 f3 (record { profile = profile2; runs_it = b.restored yes }))
            (f3.settings ∙ b.kept.settings ∙ f1.settings ∙ old))
        (λ no.
          let a3 =
            Frame-Ahead next p s2 s3 f3
              (record { profile = profile2; runs_it = b.not_restored no }) in
          Frame-Agrees c s3' _ (sync_if-Frame changed next.settings.tailscale x3 s3')
            (Ahead-Agrees next p s3' (record { profile = a3.profile; runs_it = a3.runs_it }) refl))

  revert-fails :
      (failure : Error) (prev next : Stored) (p : Profile) (s : Server e o)
      → (revert failure prev next p s).0 ≡ none
      → ⊥
  unfolding revert
  revert-fails failure prev next p s =
      let was = prev.settings.tailscale in
      let changed = not (same_bool next.settings.tailscale was) in
      let s1 = (sync_if (changed && not was) false none s).1 in
      split_bool (λ (r : Option Error × Server e o). r.0 ≡ none → ⊥) (rollback false prev p s1).0 _
        _ (λ _ y. cc) (λ _ y. cc)

  -- What a commit of `next` leaves: agreement, and where it succeeds `next`, in memory and on disk.
  pub record Committed (next : Stored) (r : Option Error × Server e o) : Type 0 where
    pub agrees : Agrees c r.1
    pub done : r.0 ≡ none → r.1.settings ≡ next
    pub written : r.0 ≡ none → r.1.disk.settings ≡ next

  revert-Committed :
      (failure : Error) (prev next : Stored) (p : Profile) (s : Server e o)
      → s.settings ≡ prev
      → Ahead next p s
      → Committed next (revert failure prev next p s)
  revert-Committed failure prev next p s old a = record {
    agrees = revert-Agrees failure prev next p s old a;
    done = λ y. elim (revert-fails failure prev next p s y) [ ];
    written = λ y. elim (revert-fails failure prev next p s y) [ ];
  }

  finish_commit-Committed :
      (prev next : Stored) (p : Profile) (turn_on : Bool) (s : Server e o)
      → s.settings ≡ prev
      → Ahead next p s
      → Committed next (finish_commit prev next p turn_on s)
  unfolding finish_commit
  finish_commit-Committed prev next p turn_on s old a =
      let f = sync_if-Frame turn_on true none s in
      let s' = (sync_if turn_on true none s).1 in
      let a' = Frame-Ahead next p s s' f a in
      let v = save_settings-Saved c h next s' in
      let s'' = (save_settings next s').1 in
      let a'' : Ahead next p s'' = record {
        profile = v.profile ∙ a'.profile;
        runs_it = ground (arith, v.engine, v.state, a'.runs_it);
      } in
      split_option (λ (r : Option Error × Server e o). Committed next r)
        (sync_if turn_on true none s).0 _ _
        (λ _.
          split_option (λ (r : Option Error × Server e o). Committed next r)
            (save_settings next s').0 _ _
            (λ y. record {
              agrees = Ahead-Agrees next p s'' a'' (v.done y);
              done = λ _. v.done y;
              written = λ _. v.written y;
            })
            (λ z y. revert-Committed z prev next p s'' (v.failed z y ∙ f.settings ∙ old) a''))
        (λ g _. revert-Committed _ prev next p s' (f.settings ∙ old) a')

  refused : (next : Stored) (x : Error) (t : Server e o) → Agrees c t → Committed next (some x, t)
  refused next x t a = record { agrees = a; done = λ y. cc; written = λ y. cc }

  -- `commitSettings` leaves the daemon and the engine in agreement whatever fails, and where it
  -- succeeds the new settings are those in memory and on disk.
  pub commit_settings-Committed :
      (next : Stored) (s : Server e o)
      → Agrees c s
      → Committed next (commit_settings next s.profile s)
  unfolding commit_settings
  commit_settings-Committed next s a =
      let was = s.settings.settings.tailscale in
      let up = next.settings.tailscale in
      let changed = not (same_bool up was) in
      let f1 = sync_if-Frame (changed && not up) false none s in
      let s1 = (sync_if (changed && not up) false none s).1 in
      let b =
        reapply-Reapplied c h s.settings s.profile false next s.profile s1
          (Frame-RunsAs c s.settings s.profile s s1 f1 a.runs_it) in
      let s2 = (reapply false next s.profile s1).1 in
      let old : s2.settings ≡ s.settings = b.kept.settings ∙ f1.settings in
      let same : s2.profile ≡ s.profile = b.kept.profile ∙ f1.profile in
      let f3 = sync_if-Frame (changed && not up) was none s2 in
      let s3 = (sync_if (changed && not up) was none s2).1 in
      split_option (λ (r : Option Error × Server e o). Committed next r)
        (sync_if (changed && not up) false none s).0 _ _
        (λ _.
          split_option (λ (r : Option Error × Server e o). Committed next r)
            (reapply false next s.profile s1).0 _ _
            (λ y.
              finish_commit-Committed s.settings next s.profile (changed && up) s2 old
                (record { profile = same; runs_it = b.done y }))
            (λ x y. refused next _ s3 (
              Frame-Agrees c s2 s3 f3
                (record { runs_it = ground (arith, b.failed x y, old, same) }))))
        (λ g _. refused next _ s1 (Frame-Agrees c s s1 f1 a))

  -- What `apply` leaves: it agrees with the engine, a refusal of the settings or the rules changes
  -- nothing, and a success makes them the daemon's.
  pub record AppliedSettings (new : Settings) (rules : Entries) (s : Server e o)
      (r : Option Error × Server e o) : Type 0 where
    pub agrees : Agrees c r.1
    pub checked :
        r.0 ≡ none
        → (check_settings new ≡ none)
          × (check_rules o rules ≡ none)
          × (missing_destination new s.profile ≡ false)
    pub done :
        r.0 ≡ none
        → r.1.settings ≡ record s.settings { settings = new; rules = prune_categories rules }
    pub refused_settings : (x : Error) → check_settings new ≡ some x → (r.0 ≡ some x) × (r.1 ≡ s)
    pub refused_rules :
        (x : Error)
        → check_settings new ≡ none
        → check_rules o rules ≡ some x
        → (r.0 ≡ some x) × (r.1 ≡ s)

  -- an apply that is refused behind the checks of the settings and the rules
  refused_late :
      (new : Settings) (rules : Entries) (s : Server e o) (x : Error) (t : Server e o)
      → check_settings new ≡ none
      → check_rules o rules ≡ none
      → Agrees c t
      → AppliedSettings new rules s (some x, t)
  refused_late new rules s x t ok1 ok2 a = record {
    agrees = a;
    checked = λ y. cc;
    done = λ y. cc;
    refused_settings = λ x y. cc;
    refused_rules = λ x y z. cc;
  }

  -- an apply that succeeds
  applied :
      (new : Settings) (rules : Entries) (s t : Server e o)
      → check_settings new ≡ none
      → check_rules o rules ≡ none
      → missing_destination new s.profile ≡ false
      → Agrees c t
      → t.settings ≡ record s.settings { settings = new; rules = prune_categories rules }
      → AppliedSettings new rules s (none, t)
  applied new rules s t ok1 ok2 here a x = record {
    agrees = a;
    checked = λ _. (ok1, ok2, here);
    done = λ _. x;
    refused_settings = λ x y. cc;
    refused_rules = λ x y z. cc;
  }

  -- `apply` puts new settings and rules into force as a whole or not at all.
  pub apply_lem :
      (new : Settings) (rules : Entries) (s : Server e o)
      → Agrees c s
      → AppliedSettings new rules s (apply new rules s)
  unfolding apply
  apply_lem new rules s a =
      let next = record s.settings { settings = new; rules = prune_categories rules } in
      let old = s.settings.settings in
      let k = commit_settings-Committed next s a in
      let t = (commit_settings next s.profile s).1 in
      let f = publish-Frame c t in
      let P : Option Error × Server e o → Type 0 = λ r. AppliedSettings new rules s r in
      split_option P (check_settings new) _ _
        (λ ok1.
          split_option P (check_rules o rules) _ _
            (λ ok2.
              split_bool P (missing_destination new s.profile) _ _
                (λ gone. refused_late new rules s _ s ok1 ok2 a)
                (λ here.
                  let committed =
                    split_option P (commit_settings next s.profile s).0 (none, publish t)
                      (λ y. (some y, t))
                      (λ z.
                        applied new rules s _ ok1 ok2 here (Frame-Agrees c t _ f k.agrees)
                          (f.settings ∙ k.done z))
                      (λ w z. refused_late new rules s w t ok1 ok2 k.agrees) in
                  split_bool P
                    ((new.tailscale && not old.tailscale
                        || new.tailnet_proxy && not old.tailnet_proxy)
                      && not (o.tailscale_present s.outside))
                    _ _ (λ absent. refused_late new rules s _ s ok1 ok2 a)
                    (λ present.
                      split_ite P (Settings-discrete new old) _ _
                        (λ same.
                          split_ite P (Entries-discrete (prune_categories rules) s.settings.rules) _
                            _
                            (λ same_rules.
                              applied new rules s s ok1 ok2 here a (rw same (rw same_rules refl)))
                            (λ _. committed))
                        (λ _. committed))))
            (λ x ok2. record {
              agrees = a;
              checked = λ y. cc;
              done = λ y. cc;
              refused_settings = λ x y. cc;
              refused_rules = λ x y z. (cc, refl);
            }))
        (λ x bad1. record {
          agrees = a;
          checked = λ y. cc;
          done = λ y. cc;
          refused_settings = λ x y. (cc, refl);
          refused_rules = λ x y z. cc;
        })
