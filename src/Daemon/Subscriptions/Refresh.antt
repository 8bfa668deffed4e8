-- ===== src/Daemon/Subscriptions/Refresh.antt =====
-- internal/daemon/subscriptions.go: `refresh`, whose download holds no lock and whose end does, and the
-- refreshes that fall due.
use omihomo.Base.{
  ℕ, ◌*◌, ◌/◌, String, Bool, true, false, List, [], ◌∷◌, map, any, find, keep, Option, none, some,
  str_eq, ltb, leb, if◌then◌else◌, append,
}
use omihomo.Protocol.{Code, Error, rejected, internal}
use omihomo.Engine.{Engine, Profile, Failure}
use omihomo.Daemon.State.{Subscription, Stored, Outside, Server}
use omihomo.Daemon.Publish.{fail, next_update, publish}
use omihomo.Daemon.Run.{rollback, accept_content}
use omihomo.Daemon.Subscriptions.{
  has_id, missing, found, refused, find_sub, update_sub, save_snapshot,
}
use omihomo.Daemon.Subscriptions.Times.{ms, may_ask, failed_record}
use omihomo.Daemon.Subscriptions.Download.{Download, Outcome, ok, failed, download}

-- `time.Second`
abbrev pub second : ℕ
second = 1000000000

abbrev is_rejected : Code → Bool
is_rejected rejected = true
is_rejected _ = false

abbrev pub unsaved_content : Failure → Error
unsaved_content f = fail internal (append "the subscription could not be saved: " f.message)

-- the edit of a refresh that succeeded, at `now`
unfoldable pub refreshed_record : (o : Outside) → ℕ → o.Header → Subscription → Subscription
refreshed_record o now header x = record x {
  updated_at = ms now;
  last_attempt = ms now;
  retry_at = 0;
  held_until = 0;
  last_error = "";
  interval_seconds = o.interval header / second;
  upload = (o.usage header).upload;
  download = (o.usage header).download;
  total = (o.usage header).total;
  expire = (o.usage header).expire;
}

module _ {e : Engine} {o : Outside} where
  -- `failRefresh`; a record that cannot be saved is only logged.
  unfoldable pub fail_refresh : Subscription → ℕ → ℕ → Bool → ℕ → String → Server e o → Server e o
  fail_refresh sub now interval answered retry_after why s =
      (update_sub sub.id (failed_record sub now interval answered retry_after why) s).1

  -- the record of an accepted refresh, once the content is stored
  unfoldable pub record_refresh :
      String → Download o.Header → ℕ → Server e o → Option Error × Server e o
  record_refresh id dl now s =
      let (x, s') = update_sub id (refreshed_record o now dl.header) s in
      elim x [ some y ↦ (some y, s') | none ↦ (none, publish s') ]

  -- the rest of `refresh`, once the content is accepted
  unfoldable pub store_refresh :
      String
      → Download o.Header
      → Bool
      → ℕ
      → Stored
      → Profile
      → Server e o
      → Option Error × Server e o
  store_refresh id dl active now settings prev s =
      let (x, s1) = save_snapshot id dl.snap s in
      let (back, s2) = rollback false settings prev s1 in
      elim x [
        | some f ↦ (
          some (unsaved_content f),
          if active then (if back then s2 else record s2 { profile = dl.profile }) else s1,
        )
        | none ↦
            record_refresh id dl now (if active then record s1 { profile = dl.profile } else s1)
      ]

  -- the content is accepted, and stored as that of `sub`, which is the active one or not
  unfoldable pub accept_as :
      Bool → Subscription → Download o.Header → Server e o → Option Error × Server e o
  accept_as active sub dl s =
      let now = o.now s.outside in
      let (x, s1) = accept_content false s.settings dl.profile active s in
      elim x [
        | some y ↦ (
          some y,
          publish (fail_refresh sub now (o.interval dl.header) (is_rejected y.code) 0 y.message s1),
        )
        | none ↦ store_refresh sub.id dl active now s.settings s.profile s1
      ]

  -- the part of `refresh` that holds `opMu`, for a download of the content
  unfoldable pub accept_refresh :
      Subscription → Download o.Header → Server e o → Option Error × Server e o
  accept_refresh sub dl s =
      if any (has_id sub.id) s.subs.list
      then accept_as (str_eq s.subs.active sub.id) sub dl s
      else (some missing, s)

  -- the same for any outcome of the download
  unfoldable pub finish_refresh :
      Subscription → Outcome (Download o.Header) → Server e o → Option Error × Server e o
  finish_refresh sub (ok dl) s = accept_refresh sub dl s
  finish_refresh sub (failed x) s = (
    some x.error,
    publish (
        fail_refresh sub (o.now s.outside) (sub.interval_seconds * second) x.answered x.retry_after
          x.error.message s),
  )

  -- `refresh` from the download on
  unfoldable pub ask_server : Subscription → Server e o → Option Error × Server e o
  ask_server sub s = let (x, s') = download false sub.name sub.url s in finish_refresh sub x s'

  unfoldable pub refresh : String → Bool → Server e o → Option Error × Server e o
  refresh id manual s = elim (find (has_id id) s.subs.list) [
    | none ↦ (some missing, s)
    | some sub ↦
        if manual
        then (elim (may_ask o sub (o.now s.outside)) [
          | some x ↦ (some x, s)
          | none ↦ ask_server sub s
        ])
        else if ltb (ms (o.now s.outside)) (next_update sub)
        then (none, s)
        else ask_server sub s
  ]

  -- `updateSubscription`
  unfoldable pub update_subscription : String → Server e o → Option Error × Server e o
  update_subscription name s = elim (find_sub o name s.subs) [
    | refused x ↦ (some x, s)
    | found sub ↦ refresh sub.id true s
  ]

  refresh_each : List String → Server e o → Server e o
  refresh_each [] s = s
  refresh_each (id ∷ ids) s = refresh_each ids (refresh id false s).1

  -- `refreshDue`, while the daemon is not told to end
  unfoldable pub refresh_due : Server e o → Server e o
  unfolding refresh_each
  refresh_due s =
      refresh_each
        (map (λ sub. sub.id)
          (keep (λ sub. leb (next_update sub) (ms (o.now s.outside))) s.subs.list))
        s
