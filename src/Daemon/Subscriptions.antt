-- ===== src/Daemon/Subscriptions.antt =====
-- internal/daemon/subscriptions.go: the list of subscriptions, and its operations that ask no server.
pub mod Times
pub mod Download
pub mod Refresh
pub mod Add
pub mod Keeps
pub mod Downloads
pub mod Asks
use omihomo.Base.{
  ◌≡◌, refl, ℕ, zero, suc, ◌+◌, ◌-◌, ◌*◌, ◌/◌, min, max, String, Bool, true, false, not, ◌&&◌, ◌||◌,
  List, [], ◌∷◌, ◌++◌, map, any, find, keep, length, Option, none, some, str_eq, ltb, leb,
  if◌then◌else◌, append, decimal, len, trim_space, codes,
}
use omihomo.Protocol.{Error, State, stopped, not_found, internal, conflict, rejected}
use omihomo.Engine.{Engine, Failure, Except, good, bad, no_profile, Profile}
use omihomo.Daemon.State.{
  Subscription, Subscriptions, Snapshot, Stored, Status, Payload, status_now, nothing, Outside,
  Server,
}
use omihomo.Daemon.Publish.{fail, active_sub, publish, is_running, status_of}
use omihomo.Daemon.Check.{valid_name}
use omihomo.Daemon.Run.{sub_file, load_profile, rollback, accept_content}

abbrev pub has_id : String → Subscription → Bool
has_id id sub = str_eq sub.id id

-- what a search by name gives
pub data Found : Type 0 where
  found : Subscription → Found
  refused : Error → Found

pub split_found {ι} :
    {B : Type 0} (P : B → Type ι) (x : Found) (f : Subscription → B) (g : Error → B)
    → ((sub : Subscription) → x ≡ found sub → P (f sub))
    → ((y : Error) → x ≡ refused y → P (g y))
    → P (elim x [ found sub ↦ f sub | refused y ↦ g y ])
split_found P (found sub) f g h k = h sub refl
split_found P (refused y) f g h k = k y refl

abbrev pub missing : Error
missing = fail not_found "the subscription was removed meanwhile"

-- `store.SaveSnapshot` on a map of files
unfoldable pub put_snapshot :
    String → Snapshot → List (String × Snapshot) → List (String × Snapshot)
put_snapshot id v [] = (id, v) ∷ []
put_snapshot id v ((k, w) ∷ m) =
    let rest = put_snapshot id v m in if str_eq k id then (k, v) ∷ m else (k, w) ∷ rest

-- the records, with the first of this id edited
unfoldable pub edit_first :
    String → (Subscription → Subscription) → List Subscription → List Subscription
edit_first id edit [] = []
edit_first id edit (x ∷ xs) =
    let rest = edit_first id edit xs in if has_id id x then edit x ∷ xs else x ∷ rest

-- `findSub`: a record, or the error
unfoldable pub find_sub : (o : Outside) → String → Subscriptions → Found
find_sub o name subs = elim (valid_name "subscription" name) [
  | some x ↦ refused x
  | none ↦ elim (find (λ s. str_eq s.name name) subs.list) [
    | some sub ↦ found sub
    | none ↦ refused (fail not_found (append "no subscription " (o.quote (codes name))))
  ]
]

abbrev is_stopped : State → Bool
is_stopped stopped = true
is_stopped _ = false

abbrev unsaved : Failure → Error
unsaved f = fail internal (append "the subscriptions could not be saved: " f.message)

module _ {e : Engine} {o : Outside} where
  -- `saveSubs`
  unfoldable pub save_subs : Subscriptions → Server e o → Option Error × Server e o
  save_subs next s =
      let (x, t) = o.write_fault sub_file s.outside in
      elim x [
        | none ↦ (
          none,
          record s { outside = t; disk = record s.disk { subscriptions = next }; subs = next },
        )
        | some f ↦ (some (unsaved f), record s { outside = t })
      ]

  -- `updateSub`
  unfoldable pub update_sub :
      String → (Subscription → Subscription) → Server e o → Option Error × Server e o
  update_sub id edit s =
      if any (has_id id) s.subs.list
      then save_subs (record s.subs { list = edit_first id edit s.subs.list }) s
      else (some missing, s)

  -- `store.SaveSnapshot`
  unfoldable pub save_snapshot : String → Snapshot → Server e o → Option Failure × Server e o
  save_snapshot id v s =
      let (x, t) = o.write_fault id s.outside in
      elim x [
        | none ↦ (
          none,
          record s {
            outside = t;
            disk = record s.disk { snapshots = put_snapshot id v s.disk.snapshots };
          },
        )
        | some f ↦ (some f, record s { outside = t })
      ]

  -- `store.RemoveSnapshot`; its error is only logged.
  unfoldable pub remove_snapshot : String → Server e o → Server e o
  remove_snapshot id s =
      let (x, t) = o.write_fault id s.outside in
      elim x [
        | none ↦ record s {
          outside = t;
          disk = record s.disk {
            snapshots = keep (λ (f : String × Snapshot). not (str_eq f.0 id)) s.disk.snapshots;
          };
        }
        | some f ↦ record s { outside = t }
      ]

  -- the end of `activateSubscription`, once the content is accepted
  unfoldable pub finish_activate :
      Subscription
      → Profile
      → Stored
      → Profile
      → Subscriptions
      → Server e o
      → Option Error × Server e o
  finish_activate sub p settings prev subs s =
      let next = record subs { active = sub.id } in
      let (x, s1) = save_subs next s in
      let (back, s2) = rollback false settings prev s1 in
      elim x [
        | some y ↦ (some y, publish (if back then s2 else record s2 { subs = next; profile = p }))
        | none ↦ (
          none,
          publish
              (record s1 { profile = p; detail = if is_stopped s1.state then "" else s1.detail }),
        )
      ]

  -- `activateSubscription`; the reply is the status, and is not shown here.
  unfoldable pub activate_subscription : String → Server e o → Option Error × Server e o
  activate_subscription name s = elim (find_sub o name s.subs) [
    | refused y ↦ (some y, s)
    | found sub ↦ if has_id s.subs.active sub then (none, s) else elim (load_profile sub s) [
      | bad f ↦ (some (fail rejected (append sub.name (append " cannot be read: " f.message))), s)
      | good p ↦
          let (x, s1) = accept_content false s.settings p true s in
          elim x [
            | some y ↦ (some y, s1)
            | none ↦ finish_activate sub p s.settings s.profile s.subs s1
          ]
    ]
  ]

  -- `removeSubscription`, for the record that `findSub` gave before the lock was taken
  unfoldable pub remove_found : Subscription → Server e o → Option Error × Server e o
  remove_found sub s =
      let active = str_eq s.subs.active sub.id in
      let next : Subscriptions = record {
        active = if active then "" else s.subs.active;
        list = keep (λ x. not (has_id sub.id x)) s.subs.list;
      } in
      let (x, s1) = save_subs next s in
      if active && is_running s
      then (
        some (
            fail conflict (
              append sub.name
                " is running; stop the proxy or activate another subscription first")),
        s,
      )
      else elim x [
        | some y ↦ (some y, s1)
        | none ↦ (
          none,
          publish
              (remove_snapshot sub.id (if active then record s1 { profile = no_profile } else s1)),
        )
      ]

  unfoldable pub remove_subscription : String → Server e o → Option Error × Server e o
  remove_subscription name s = elim (find_sub o name s.subs) [
    | refused y ↦ (some y, s)
    | found sub ↦ remove_found sub s
  ]
