-- ===== src/Daemon/Subscriptions/Asks.antt =====
-- `refresh` and `addSubscription` keep the daemon and the engine in agreement, whatever fails.
use omihomo.Base.{
  ℕ, String, Bool, true, false, ◌∷◌, Option, none, some, ◌≡◌, split_option, split_bool, any, find,
  str_eq, ltb, length, ◌==◌,
}
use omihomo.Protocol.{Error}
use omihomo.Engine.{Engine, Contract, Profile}
use omihomo.Daemon.State.{Outside, NoFalseStop, Stored, Server, Subscription, Subscriptions}
use omihomo.Daemon.Publish.{next_update, publish}
use omihomo.Daemon.Agrees.{Agrees, Frame-Agrees}
use omihomo.Daemon.Run.{accept_content}
use omihomo.Daemon.Subscriptions.{has_id, save_subs, update_sub, save_snapshot}
use omihomo.Daemon.Subscriptions.Times.{ms, may_ask}
use omihomo.Daemon.Subscriptions.Download.{Download, Outcome, ok, failed}
use omihomo.Daemon.Subscriptions.Downloads.{download-Frame}
use omihomo.Daemon.Subscriptions.Refresh.{
  refreshed_record, fail_refresh, record_refresh, store_refresh, accept_as, accept_refresh,
  finish_refresh, ask_server, refresh,
}
use omihomo.Daemon.Subscriptions.Add.{
  asked_at, revert_add, store_add, accept_add, finish_add, forget_asked, may_add, add_subscription,
}
use omihomo.Daemon.Subscriptions.Keeps.{
  Stays-Agrees, Stays-trans, save_subs-Stays, update_sub-Stays, save_snapshot-Stays,
  remove_snapshot-Stays, publish-Agrees, Trying, Stays-Trying, rollback_or_adopt-Agrees,
  adopt-Agrees, accepted, not_accepted, idle-Agrees,
}

module _ {e : Engine} {o : Outside} (c : Contract e) (h : NoFalseStop o) where
  abbrev Sound : Option Error × Server e o → Type 0
  Sound r = Agrees c r.1

  fail_refresh-Agrees :
      (sub : Subscription) (now interval : ℕ) (answered : Bool) (retry_after : ℕ) (why : String)
      (s : Server e o)
      → Agrees c s
      → Agrees c (publish (fail_refresh sub now interval answered retry_after why s))
  unfolding fail_refresh
  fail_refresh-Agrees sub now interval answered retry_after why s a =
      publish-Agrees c h _ (Stays-Agrees c h _ _ (update_sub-Stays c h sub.id _ s) a)

  record_refresh-Agrees :
      (id : String) (dl : Download o.Header) (now : ℕ) (s : Server e o)
      → Agrees c s
      → Agrees c (record_refresh id dl now s).1
  unfolding record_refresh
  record_refresh-Agrees id dl now s a =
      let edit = refreshed_record o now dl.header in
      let b = Stays-Agrees c h s _ (update_sub-Stays c h id edit s) a in
      split_option Sound (update_sub id edit s).0 _ _ (λ _. publish-Agrees c h _ b) (λ _ _. b)

  -- the content of the active subscription is stored while it runs already
  store_active-Agrees :
      (id : String) (dl : Download o.Header) (now : ℕ) (settings : Stored) (prev : Profile)
      (s : Server e o)
      → Trying c h settings prev dl.profile s
      → Agrees c (store_refresh id dl true now settings prev s).1
  unfolding store_refresh
  store_active-Agrees id dl now settings prev s r =
      let s1 = (save_snapshot id dl.snap s).1 in
      let r1 =
        Stays-Trying c h settings prev dl.profile s s1 (save_snapshot-Stays c h id dl.snap s) r in
      split_option Sound (save_snapshot id dl.snap s).0 _ _
        (λ _.
          record_refresh-Agrees id dl now (record s1 { profile = dl.profile })
            (record { runs_it = adopt-Agrees c h settings prev dl.profile s1 r1 }))
        (λ _ _. rollback_or_adopt-Agrees c h false settings dl.profile prev _ s1 r1)

  store_idle-Agrees :
      (id : String) (dl : Download o.Header) (now : ℕ) (settings : Stored) (prev : Profile)
      (s : Server e o)
      → Agrees c s
      → Agrees c (store_refresh id dl false now settings prev s).1
  unfolding store_refresh
  store_idle-Agrees id dl now settings prev s a =
      let a1 = Stays-Agrees c h s _ (save_snapshot-Stays c h id dl.snap s) a in
      split_option Sound (save_snapshot id dl.snap s).0 _ _
        (λ _. record_refresh-Agrees id dl now _ a1) (λ _ _. a1)

  accept_as-Agrees :
      (active : Bool) (sub : Subscription) (dl : Download o.Header) (s : Server e o)
      → Agrees c s
      → Agrees c (accept_as active sub dl s).1
  unfolding accept_as
  accept_as-Agrees true sub dl s a =
      split_option Sound (accept_content false s.settings dl.profile true s).0 _ _
        (λ x.
          store_active-Agrees sub.id dl _ s.settings s.profile _
            (accepted c h false dl.profile s a x))
        (λ y x.
          fail_refresh-Agrees sub _ _ _ 0 y.message _ (not_accepted c h false dl.profile s y a x))
  accept_as-Agrees false sub dl s a =
      let b = idle-Agrees c h false dl.profile s a in
      split_option Sound (accept_content false s.settings dl.profile false s).0 _ _
        (λ _. store_idle-Agrees sub.id dl _ s.settings s.profile _ b)
        (λ y _. fail_refresh-Agrees sub _ _ _ 0 y.message _ b)

  -- The end of a refresh keeps the agreement, for any record that it began with and any download.
  pub finish_refresh-Agrees :
      (sub : Subscription) (x : Outcome (Download o.Header)) (s : Server e o)
      → Agrees c s
      → Agrees c (finish_refresh sub x s).1
  unfolding finish_refresh accept_refresh
  finish_refresh-Agrees sub (ok dl) s a =
      split_bool Sound (any (has_id sub.id) s.subs.list) _ _
        (λ _. accept_as-Agrees (str_eq s.subs.active sub.id) sub dl s a) (λ _. a)
  finish_refresh-Agrees sub (failed x) s a =
      fail_refresh-Agrees sub _ _ x.answered x.retry_after x.error.message s a

  ask_server-Agrees :
      (sub : Subscription) (s : Server e o) → Agrees c s → Agrees c (ask_server sub s).1
  unfolding ask_server
  ask_server-Agrees sub s a =
      finish_refresh-Agrees sub _ _
        (Frame-Agrees c s _ (download-Frame c false sub.name sub.url s) a)

  pub refresh-Agrees :
      (id : String) (manual : Bool) (s : Server e o) → Agrees c s → Agrees c (refresh id manual s).1
  unfolding refresh
  refresh-Agrees id manual s a =
      split_option Sound (find (has_id id) s.subs.list) _ _ (λ _. a)
        λ sub _.
          split_bool Sound manual _ _
            (λ _.
              split_option Sound (may_ask o sub (o.now s.outside)) _ _
                (λ _. ask_server-Agrees sub s a) (λ _ _. a))
            (λ _.
              split_bool Sound (ltb (ms (o.now s.outside)) (next_update sub)) _ _ (λ _. a)
                (λ _. ask_server-Agrees sub s a))

  revert_add-Agrees :
      (initial activate : Bool) (settings : Stored) (prev : Profile) (next : Subscriptions)
      (p : Profile) (s : Server e o)
      → (activate ≡ true → Trying c h settings prev p s)
      → (activate ≡ false → Agrees c s)
      → Agrees c (revert_add initial activate settings prev next p s)
  unfolding revert_add
  revert_add-Agrees initial activate settings prev next p s r a = publish-Agrees c h _ (
      split_bool (λ (t : Server e o). Agrees c t) activate _ _
        (λ x. rollback_or_adopt-Agrees c h initial settings p prev next s (r x)) a)

  store_add-Agrees :
      (initial activate : Bool) (settings : Stored) (prev : Profile) (next : Subscriptions)
      (id : String) (dl : Download o.Header) (s : Server e o)
      → (activate ≡ true → Trying c h settings prev dl.profile s)
      → (activate ≡ false → Agrees c s)
      → Agrees c (store_add initial activate settings prev next id dl s).1
  unfolding store_add
  store_add-Agrees initial activate settings prev next id dl s r a =
      let s1 = (save_snapshot id dl.snap s).1 in
      let s2 = (save_subs next s1).1 in
      let k1 = save_snapshot-Stays c h id dl.snap s in
      let k2 = Stays-trans c h s s1 s2 k1 (save_subs-Stays c h next s1) in
      let k3 = Stays-trans c h s s2 _ k2 (remove_snapshot-Stays c h id s2) in
      let p = dl.profile in
      split_option Sound (save_snapshot id dl.snap s).0 _ _
        (λ _.
          split_option Sound (save_subs next s1).0 _ _
            (λ _. publish-Agrees c h _ (
              split_bool (λ (t : Server e o). Agrees c t) activate _ _
                (λ x. record {
                  runs_it =
                      adopt-Agrees c h settings prev p s2
                        (Stays-Trying c h settings prev p s s2 k2 (r x));
                })
                (λ x. Stays-Agrees c h s s2 k2 (a x))))
            (λ _ _.
              revert_add-Agrees initial activate settings prev next p _
                (λ x. Stays-Trying c h settings prev p s _ k3 (r x))
                (λ x. Stays-Agrees c h s _ k3 (a x))))
        (λ _ _.
          revert_add-Agrees initial activate settings prev next p s1
            (λ x. Stays-Trying c h settings prev p s s1 k1 (r x))
            (λ x. Stays-Agrees c h s s1 k1 (a x)))

  accepted_if :
      (active direct : Bool) (p : Profile) (s : Server e o)
      → Agrees c s
      → (accept_content direct s.settings p active s).0 ≡ none
      → active ≡ true
      → Trying c h s.settings s.profile p (accept_content direct s.settings p active s).1
  accepted_if true direct p s a x _ = accepted c h direct p s a x
  accepted_if false direct p s a x y = cc

  idle_if :
      (active direct : Bool) (p : Profile) (s : Server e o)
      → Agrees c s
      → active ≡ false
      → Agrees c (accept_content direct s.settings p active s).1
  idle_if true direct p s a y = cc
  idle_if false direct p s a _ = idle-Agrees c h direct p s a

  not_accepted_if :
      (active direct : Bool) (p : Profile) (s : Server e o) (x : Error)
      → Agrees c s
      → (accept_content direct s.settings p active s).0 ≡ some x
      → Agrees c (accept_content direct s.settings p active s).1
  not_accepted_if true direct p s x a y = not_accepted c h direct p s x a y
  not_accepted_if false direct p s x a _ = idle-Agrees c h direct p s a

  accept_add-Agrees :
      (initial : Bool) (url : String) (dl : Download o.Header) (s : Server e o)
      → Agrees c s
      → Agrees c (accept_add initial url dl s).1
  unfolding accept_add
  accept_add-Agrees initial url dl s a =
      let s' = record s { outside = (o.new_id s.outside).1 } in
      let a' : Agrees c s' = record { runs_it = a.runs_it } in
      let activate = str_eq s.subs.active "" in
      split_option Sound (accept_content initial s.settings dl.profile activate s').0 _ _
        (λ x.
          store_add-Agrees initial activate s.settings s.profile _ (o.new_id s.outside).0 dl _
            (accepted_if activate initial dl.profile s' a' x)
            (idle_if activate initial dl.profile s' a'))
        (λ y x. not_accepted_if activate initial dl.profile s' y a' x)

  -- The end of `addSubscription` keeps the agreement, for any download.
  pub finish_add-Agrees :
      (initial : Bool) (url : String) (x : Outcome (Download o.Header)) (s : Server e o)
      → Agrees c s
      → Agrees c (finish_add initial url x s).1
  unfolding finish_add
  finish_add-Agrees initial url (ok dl) s a = accept_add-Agrees initial url dl s a
  finish_add-Agrees initial url (failed x) s a = a

  pub add_subscription-Agrees :
      (url : String) (s : Server e o) → Agrees c s → Agrees c (add_subscription url s).1
  unfolding add_subscription forget_asked
  add_subscription-Agrees url s a =
      let s1 = forget_asked s in
      let now = o.now s1.outside in
      let s2 = record s1 { add_asked = (url, now) ∷ s1.add_asked } in
      let initial = length s.subs.list == 0 in
      let a2 : Agrees c s2 = record { runs_it = a.runs_it } in
      split_option Sound (may_add url s) _ _
        (λ _.
          split_option Sound (asked_at url s1.add_asked) _ _
            (λ _.
              finish_add-Agrees initial url _ _
                (Frame-Agrees c s2 _ (download-Frame c initial "(new)" url s2) a2))
            (λ _ _. record { runs_it = a.runs_it }))
        (λ _ _. a)
