-- ===== src/Daemon/Subscriptions/Add.antt =====
-- internal/daemon/subscriptions.go: `addSubscription` and `uniqueName`.
use Prim.Native.String.{String}
use Prim.Native.Nat.{zero, suc}
use omihomo.Base.{
  ◌==◌, ℕ, ◌+◌, ◌-◌, ◌/◌, Bool, List, [], ◌∷◌, ◌++◌, length, any, keep, Option, none, some, str_eq,
  ltb, if◌then◌else◌, append, decimal, len, trim_space,
}
use omihomo.Protocol.{Error, invalid, conflict}
use omihomo.Engine.{Engine, Profile}
use omihomo.Daemon.State.{Subscription, Subscriptions, Stored, Outside, Server}
use omihomo.Daemon.Publish.{fail, publish}
use omihomo.Daemon.Run.{rollback, accept_content}
use omihomo.Daemon.Subscriptions.{save_subs, save_snapshot, remove_snapshot}
use omihomo.Daemon.Subscriptions.Times.{ms, manual_gap}
use omihomo.Daemon.Subscriptions.Download.{Download, Outcome, ok, failed, download}
use omihomo.Daemon.Subscriptions.Refresh.{second, unsaved_content}

-- `profile.MaxTitle`
abbrev pub max_title : ℕ
max_title = 64

-- the first `n` code points of a text
take_text : ℕ → String → String
take_text zero s = ""
take_text (suc n) String.[] = ""
take_text (suc n) (String.◌∷◌ c s) = String.◌∷◌ c (take_text n s)

-- the candidate of `uniqueName` for the number `i`
unfoldable pub numbered : String → ℕ → String
unfolding take_text
numbered name i =
    let suffix = append " " (decimal i) in
    append (trim_space (take_text (max_title - len suffix) name)) suffix

-- the loop of `uniqueName`, on fuel
unfoldable pub unique_from : ℕ → List Subscription → String → ℕ → String → String
unique_from zero subs name i candidate = candidate
unique_from (suc fuel) subs name i candidate =
    let next = unique_from fuel subs name (i + 1) (numbered name i) in
    if any (λ s. str_eq s.name candidate) subs then next else candidate

-- `uniqueName`: with n subscriptions, one of n + 1 different candidates is free
unfoldable pub unique_name : List Subscription → String → String
unique_name subs name = unique_from (length subs + 1) subs name 2 name

abbrev pub has_url : String → Subscription → Bool
has_url url s = str_eq s.url url

-- when a URL was last asked
unfoldable pub asked_at : String → List (String × ℕ) → Option ℕ
asked_at url [] = none
asked_at url ((u, t) ∷ m) = if str_eq u url then some t else asked_at url m

module _ {e : Engine} {o : Outside} where
  -- the record of a new subscription
  unfoldable pub new_record : String → String → Download o.Header → Server e o → Subscription
  new_record id url dl s =
      let now = o.now s.outside in
      let usage = o.usage dl.header in
      record {
        id = id;
        name = unique_name s.subs.list (o.title dl.header url);
        url = url;
        updated_at = ms now;
        interval_seconds = o.interval dl.header / second;
        upload = usage.upload;
        download = usage.download;
        total = usage.total;
        expire = usage.expire;
        last_attempt = ms now;
        retry_at = 0;
        held_until = 0;
        last_error = "";
      }

  -- `revert` of `addSubscription`
  unfoldable pub revert_add :
      Bool → Bool → Stored → Profile → Subscriptions → Profile → Server e o → Server e o
  revert_add initial activate settings prev next p s =
      let (back, s') = rollback initial settings prev s in
      publish
        (if activate then (if back then s' else record s' { subs = next; profile = p }) else s)

  -- the rest of `addSubscription`, once the content is accepted
  unfoldable pub store_add :
      Bool
      → Bool
      → Stored
      → Profile
      → Subscriptions
      → String
      → Download o.Header
      → Server e o
      → Option Error × Server e o
  store_add initial activate settings prev next id dl s =
      let (x, s1) = save_snapshot id dl.snap s in
      let (y, s2) = save_subs next s1 in
      elim x [
        | some f ↦
            (some (unsaved_content f), revert_add initial activate settings prev next dl.profile s1)
        | none ↦ elim y [
          | some z ↦ (
            some z,
            revert_add initial activate settings prev next dl.profile (remove_snapshot id s2),
          )
          | none ↦ (none, publish (if activate then record s2 { profile = dl.profile } else s2))
        ]
      ]

  -- the part of `addSubscription` that holds `opMu`; `initial` says that the list was empty before.
  unfoldable pub accept_add :
      Bool → String → Download o.Header → Server e o → Option Error × Server e o
  accept_add initial url dl s =
      let (id, t) = o.new_id s.outside in
      let sub = new_record id url dl s in
      let activate = str_eq s.subs.active "" in
      let next : Subscriptions = record {
        active = if activate then id else s.subs.active;
        list = s.subs.list ++ sub ∷ [];
      } in
      let (x, s1) =
        accept_content initial s.settings dl.profile activate (record s { outside = t }) in
      elim x [
        | some y ↦ (some y, s1)
        | none ↦ store_add initial activate s.settings s.profile next id dl s1
      ]

  unfoldable pub finish_add :
      Bool → String → Outcome (Download o.Header) → Server e o → Option Error × Server e o
  finish_add initial url (failed x) s = (some x.error, s)
  finish_add initial url (ok dl) s = accept_add initial url dl s

  -- `addAsked` without the URLs that were asked a minute ago or more
  unfoldable pub forget_asked : Server e o → Server e o
  forget_asked s = record s {
    add_asked = keep (λ (u : String × ℕ). ltb (o.now s.outside) (u.1 + manual_gap)) s.add_asked;
  }

  -- the part of `addSubscription` before the download
  unfoldable pub may_add : String → Server e o → Option Error
  may_add url s = elim (o.check_url url) [
    | some f ↦ some (fail invalid (append "the subscription URL is not usable: " f.message))
    | none ↦
        if any (has_url url) s.subs.list
        then some (fail conflict "a subscription with this URL is already added")
        else none
  ]

  unfoldable pub add_subscription : String → Server e o → Option Error × Server e o
  add_subscription url s = elim (may_add url s) [
    | some x ↦ (some x, s)
    | none ↦
        let s1 = forget_asked s in
        let now = o.now s1.outside in
        let initial = length s.subs.list == 0 in
        let s2 = record s1 { add_asked = (url, now) ∷ s1.add_asked } in
        let (x, s3) = download initial "(new)" url s2 in
        elim (asked_at url s1.add_asked) [
          | some at ↦ (
            some (
                fail conflict (
                  append "this URL was asked " (
                    append (o.show_duration at now)
                      (append " ago; try again in " (o.show_duration now (at + manual_gap)))))),
            s1,
          )
          | none ↦ finish_add initial url x s3
        ]
  ]
