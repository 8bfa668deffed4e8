-- ===== src/Daemon/Subscriptions/Keeps.antt =====
-- The operations on subscriptions keep the daemon and the engine in agreement, whatever fails.
use omihomo.Base.{
  keep, not, ◌&&◌, String, Bool, true, false, Option, none, some, ◌≡◌, refl, ◌∙◌, ap, if◌then◌else◌,
  split_option, split_bool, arith, any, str_eq,
}
use omihomo.Protocol.{Error}
use omihomo.Engine.{Engine, Contract, Profile, Failure, split_except, no_profile}
use omihomo.Daemon.State.{
  Outside, NoFalseStop, Stored, Server, Subscription, Subscriptions, Snapshot,
}
use omihomo.Daemon.Publish.{publish, is_up, is_running}
use omihomo.Daemon.Agrees.{RunsAs, Agrees, Frame-Agrees, Kept-Agrees, publish-Frame}
use omihomo.Daemon.Run.{load_profile, rollback, accept_content, sub_file}
use omihomo.Daemon.Run.Apply.{rollback-RolledBack, accept_content-Reapplied, accept_content-Frame}
use omihomo.Daemon.Subscriptions.{
  has_id, split_found, find_sub, save_subs, update_sub, save_snapshot, remove_snapshot,
  finish_activate, activate_subscription, remove_found,
}

module _ {e : Engine} {o : Outside} (c : Contract e) (h : NoFalseStop o) where
  -- `t` runs as `s` does: only the subscriptions and the files may be others
  pub record Stays (s t : Server e o) : Type 0 where
    pub engine : t.engine ≡ s.engine
    pub settings : t.settings ≡ s.settings
    pub profile : t.profile ≡ s.profile
    pub state : t.state ≡ s.state

  pub Stays-RunsAs :
      (st : Stored) (p : Profile) (s t : Server e o) → Stays s t → RunsAs c st p s → RunsAs c st p t
  Stays-RunsAs st p s t k r = ground (arith, k.engine, k.state)

  pub Stays-Agrees : (s t : Server e o) → Stays s t → Agrees c s → Agrees c t
  Stays-Agrees s t k a = record {
    runs_it = ground (arith, k.engine, k.state, k.settings, k.profile, a.runs_it);
  }

  pub Stays-trans : (s t u : Server e o) → Stays s t → Stays t u → Stays s u
  Stays-trans s t u p q = record {
    engine = q.engine ∙ p.engine;
    settings = q.settings ∙ p.settings;
    profile = q.profile ∙ p.profile;
    state = q.state ∙ p.state;
  }

  stays : (s : Server e o) → Stays s s
  stays s = record { engine = refl; settings = refl; profile = refl; state = refl }

  pub save_subs-Stays : (next : Subscriptions) (s : Server e o) → Stays s (save_subs next s).1
  unfolding save_subs
  save_subs-Stays next s =
      split_option (λ (r : Option Error × Server e o). Stays s r.1)
        (o.write_fault sub_file s.outside).0 _ _
        (λ _. record { engine = refl; settings = refl; profile = refl; state = refl })
        (λ _ _. record { engine = refl; settings = refl; profile = refl; state = refl })

  pub update_sub-Stays :
      (id : String) (edit : Subscription → Subscription) (s : Server e o)
      → Stays s (update_sub id edit s).1
  unfolding update_sub
  update_sub-Stays id edit s =
      split_bool (λ (r : Option Error × Server e o). Stays s r.1) (any (has_id id) s.subs.list) _ _
        (λ _. save_subs-Stays _ s) (λ _. stays s)

  pub save_snapshot-Stays :
      (id : String) (v : Snapshot) (s : Server e o) → Stays s (save_snapshot id v s).1
  unfolding save_snapshot
  save_snapshot-Stays id v s =
      split_option (λ (r : Option Failure × Server e o). Stays s r.1) (o.write_fault id s.outside).0
        _ _ (λ _. record { engine = refl; settings = refl; profile = refl; state = refl })
        (λ _ _. record { engine = refl; settings = refl; profile = refl; state = refl })

  pub remove_snapshot-Stays : (id : String) (s : Server e o) → Stays s (remove_snapshot id s)
  unfolding remove_snapshot
  remove_snapshot-Stays id s =
      split_option (λ (t : Server e o). Stays s t) (o.write_fault id s.outside).0 _ _
        (λ _. record { engine = refl; settings = refl; profile = refl; state = refl })
        (λ _ _. record { engine = refl; settings = refl; profile = refl; state = refl })

  pub publish-Agrees : (s : Server e o) → Agrees c s → Agrees c (publish s)
  publish-Agrees s = Frame-Agrees c s (publish s) (publish-Frame c s)

  -- the settings and the profile that a call began with, while the engine runs another profile
  pub record Trying (settings : Stored) (prev p : Profile) (s : Server e o) : Type 0 where
    pub settings_kept : s.settings ≡ settings
    pub profile_kept : s.profile ≡ prev
    pub runs_it : RunsAs c settings p s

  pub Stays-Trying :
      (settings : Stored) (prev p : Profile) (s t : Server e o)
      → Stays s t
      → Trying settings prev p s
      → Trying settings prev p t
  Stays-Trying settings prev p s t k r = record {
    settings_kept = k.settings ∙ r.settings_kept;
    profile_kept = k.profile ∙ r.profile_kept;
    runs_it = Stays-RunsAs settings p s t k r.runs_it;
  }

  -- The way back after accepted content could not be stored: the old profile runs again, or the new
  -- one is the daemon's.
  pub rollback_or_adopt-Agrees :
      (direct : Bool) (settings : Stored) (p prev : Profile) (subs : Subscriptions) (s : Server e o)
      → Trying settings prev p s
      → Agrees c (
          if (rollback direct settings prev s).0
          then (rollback direct settings prev s).1
          else record (rollback direct settings prev s).1 { subs = subs; profile = p })
  rollback_or_adopt-Agrees direct settings p prev subs s r =
      let b = rollback-RolledBack c h direct settings prev settings p s r.runs_it in
      let ks = b.kept.settings ∙ r.settings_kept in
      let kp = b.kept.profile ∙ r.profile_kept in
      split_bool (λ (t : Server e o). Agrees c t) (rollback direct settings prev s).0 _ _
        (λ yes. record { runs_it = ground (arith, b.restored yes, ks, kp) })
        (λ no. record { runs_it = ground (arith, b.not_restored no, ks) })

  -- a profile that the engine already runs becomes the daemon's
  pub adopt-Agrees :
      (settings : Stored) (prev p : Profile) (s : Server e o)
      → Trying settings prev p s
      → RunsAs c s.settings p s
  adopt-Agrees settings prev p s r = ground (arith, r.settings_kept, r.runs_it)

  finish_activate-Agrees :
      (sub : Subscription) (p : Profile) (settings : Stored) (prev : Profile) (subs : Subscriptions)
      (s : Server e o)
      → Trying settings prev p s
      → Agrees c (finish_activate sub p settings prev subs s).1
  unfolding finish_activate
  finish_activate-Agrees sub p settings prev subs s r =
      let next = record subs { active = sub.id } in
      let s1 = (save_subs next s).1 in
      let r1 = Stays-Trying settings prev p s s1 (save_subs-Stays next s) r in
      split_option (λ (r : Option Error × Server e o). Agrees c r.1) (save_subs next s).0 _ _
        (λ _. publish-Agrees _ (record { runs_it = adopt-Agrees settings prev p s1 r1 }))
        (λ _ _. publish-Agrees _ (rollback_or_adopt-Agrees false settings p prev next s1 r1))

  -- accepted content that is to run
  pub accepted :
      (direct : Bool) (p : Profile) (s : Server e o)
      → Agrees c s
      → (accept_content direct s.settings p true s).0 ≡ none
      → Trying s.settings s.profile p (accept_content direct s.settings p true s).1
  accepted direct p s a x =
      let b = accept_content-Reapplied c h direct s.settings s.profile p s a.runs_it in
      record { settings_kept = b.kept.settings; profile_kept = b.kept.profile; runs_it = b.done x }

  -- content that is not accepted, or is not to run, changes nothing that runs
  pub not_accepted :
      (direct : Bool) (p : Profile) (s : Server e o) (x : Error)
      → Agrees c s
      → (accept_content direct s.settings p true s).0 ≡ some x
      → Agrees c (accept_content direct s.settings p true s).1
  not_accepted direct p s x a y =
      let b = accept_content-Reapplied c h direct s.settings s.profile p s a.runs_it in
      Kept-Agrees c s _ b.kept (b.failed x y)

  pub idle-Agrees :
      (direct : Bool) (p : Profile) (s : Server e o)
      → Agrees c s
      → Agrees c (accept_content direct s.settings p false s).1
  idle-Agrees direct p s a = Frame-Agrees c s _ (accept_content-Frame c h direct s.settings p s) a

  -- `activateSubscription` keeps the daemon and the engine in agreement, whatever fails.
  pub activate_subscription-Agrees :
      (name : String) (s : Server e o) → Agrees c s → Agrees c (activate_subscription name s).1
  unfolding activate_subscription
  activate_subscription-Agrees name s a =
      let P : Option Error × Server e o → Type 0 = λ r. Agrees c r.1 in
      split_found P (find_sub o name s.subs) _ _
        (λ sub _.
          split_bool P (has_id s.subs.active sub) _ _ (λ _. a)
            (λ _.
              split_except P (load_profile sub s) _ _
                (λ p _.
                  split_option P (accept_content false s.settings p true s).0 _ _
                    (λ x.
                      finish_activate-Agrees sub p s.settings s.profile s.subs _
                        (accepted false p s a x))
                    (λ y x. not_accepted false p s y a x))
                (λ _ _. a)))
        (λ _ _. a)

  -- the profile of a stopped proxy is not what runs
  down-Agrees :
      (p : Profile) (s : Server e o)
      → is_up s.state ≡ false
      → Agrees c s
      → Agrees c (record s { profile = p })
  down-Agrees p s down a = record { runs_it = ground (arith, a.runs_it) }

  -- `removeSubscription` keeps the daemon and the engine in agreement, whatever fails.
  pub remove_found-Agrees :
      (sub : Subscription) (s : Server e o) → Agrees c s → Agrees c (remove_found sub s).1
  unfolding remove_found is_running
  remove_found-Agrees sub s a =
      let P : Option Error × Server e o → Type 0 = λ r. Agrees c r.1 in
      let active = str_eq s.subs.active sub.id in
      let next : Subscriptions = record {
        active = if active then "" else s.subs.active;
        list = keep (λ x. not (has_id sub.id x)) s.subs.list;
      } in
      let k = save_subs-Stays next s in
      let s1 = (save_subs next s).1 in
      let a1 = Stays-Agrees s s1 k a in
      split_bool P (active && is_up s.state) _ _ (λ _. a)
        (λ idle.
          split_option P (save_subs next s).0 _ _
            (λ _. publish-Agrees _ (
              Stays-Agrees _ _ (remove_snapshot-Stays sub.id _) (
                split_bool (λ (t : Server e o). Agrees c t) active _ _
                  (λ was.
                    down-Agrees no_profile s1 (ap is_up k.state ∙ ground (arith, idle, was)) a1)
                  (λ _. a1))))
            (λ _ _. a1))
