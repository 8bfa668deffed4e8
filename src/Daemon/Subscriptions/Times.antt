-- ===== src/Daemon/Subscriptions/Times.antt =====
-- internal/daemon/subscriptions.go: when a subscription's server may be asked. An instant `now` and a
-- duration are nanoseconds; the records hold milliseconds.
use omihomo.Base.{
  ◌≢◌, ℕ, ◌+◌, ◌-◌, ◌*◌, ◌/◌, ◌≤◌, ◌<◌, min, max, String, Bool, true, ◌&&◌, Option, none, some, ltb,
  if◌then◌else◌, append, arith,
}
use omihomo.Protocol.{Error, conflict}
use omihomo.Daemon.State.{Subscription, Outside}
use omihomo.Daemon.Publish.{fail}

-- `time.Millisecond`, and `manualGap` and `retryFirst`, a minute each
abbrev pub millisecond : ℕ
millisecond = 1000000

abbrev pub manual_gap : ℕ
manual_gap = 60000000000

abbrev pub retry_first : ℕ
retry_first = 60000000000

-- `ms`
abbrev pub ms : ℕ → ℕ
ms t = t / millisecond

-- `mayAsk`
unfoldable pub may_ask : (o : Outside) → Subscription → ℕ → Option Error
may_ask o sub now =
    let at = sub.last_attempt * millisecond in
    if ltb now (at + manual_gap)
    then some (
        fail conflict (
          append sub.name (
            append " was asked " (
              append (o.show_duration at now)
                (append " ago; try again in " (o.show_duration now (at + manual_gap)))))))
    else if ltb (ms now) sub.held_until
    then some (
        fail conflict (
          append sub.name
            (append " cannot be asked again until " (o.show_time (sub.held_until * millisecond)))))
    else none

-- how long `failRefresh` waits
unfoldable pub wait_after : Subscription → ℕ → Bool → ℕ → ℕ
wait_after sub interval answered retry_after =
    let first =
      if ltb sub.last_attempt sub.retry_at && ltb 0 sub.last_attempt
      then 2 * (sub.retry_at - sub.last_attempt) * millisecond
      else retry_first in
    max (if answered then interval else min first interval) retry_after

-- the edit of `failRefresh`
unfoldable pub failed_record :
    Subscription → ℕ → ℕ → Bool → ℕ → String → Subscription → Subscription
failed_record sub now interval answered retry_after why x =
    let retry_at = ms (now + wait_after sub interval answered retry_after) in
    record x {
      last_attempt = ms now;
      retry_at = retry_at;
      last_error = why;
      held_until = if answered then retry_at else x.held_until;
    }

-- After a refresh that failed and that the server answered, `mayAsk` refuses the owner at every instant
-- before the retry time of the record.
pub may_ask-failed_record :
    (o : Outside) (sub x : Subscription) (now interval retry_after : ℕ) (why : String) (later : ℕ)
    → ms later < (failed_record sub now interval true retry_after why x).retry_at
    → may_ask o (failed_record sub now interval true retry_after why x) later ≢ none
unfolding failed_record may_ask
may_ask-failed_record o sub x now interval retry_after why later h k = ground arith

-- Where the server answered, the time of the next attempt is at least a whole interval away, and at
-- least as far away as the server asked for.
pub failed_record-answered :
    (sub x : Subscription) (now interval retry_after : ℕ) (why : String)
    → (ms (now + interval) ≤ (failed_record sub now interval true retry_after why x).retry_at)
      × (ms (now + retry_after) ≤ (failed_record sub now interval true retry_after why x).retry_at)
unfolding failed_record wait_after
failed_record-answered sub x now interval retry_after why = (omega (arith), omega (arith))
