-- ===== src/Alert/Watch.antt =====
-- Evaluate of internal/alert/alert.go: one watch signal, advanced by one poll.
pub mod Diagram
pub mod Lifecycle
pub mod Trace
pub mod Flap
pub mod Outage
pub mod Dropout
use hop_react.Common.{
  ℕ, suc, ◌+◌, Bool, true, false, not, ◌&&◌, ◌||◌, Option, none, some, ltb, leb, leb_ℤ, ◌==◌,
  if◌then◌else◌,
}
use hop_react.Clock.{Time, Duration, zero_time, is_zero, sub}
use hop_react.Models.{State, unknown, ok, pending, alerting, recovering, WatchState}

pub record Policy : Type 0 where
  pub confirm_polls : ℕ

pub record Signal : Type 0 where
  pub at : Time
  pub applicable : Bool

pub data Notice : Type 0 where
  alert recovered : Notice

pub record Outcome : Type 0 where
  pub state : WatchState
  pub notify : Bool
  pub kind : Option Notice
  pub changed : Bool
  pub entering : Bool
  pub observed_moved : Bool

pub record Prefs : Type 0 where
  pub muted : Bool
  pub notify_recovery : Bool

-- Outcome{State: next, Changed: true}.
abbrev pub moved_to : WatchState → Outcome
moved_to next = record {
  state = next;
  notify = false;
  kind = none;
  changed = true;
  entering = false;
  observed_moved = false;
}

-- Outcome{State: next, ObservedMoved: moved}.
abbrev pub stays : WatchState → Bool → Outcome
stays next moved = record {
  state = next;
  notify = false;
  kind = none;
  changed = false;
  entering = false;
  observed_moved = moved;
}

unfoldable pub promote : WatchState → Time → Bool → Outcome
promote next now muted =
    if muted
    then record (moved_to base) { entering = true }
    else record (moved_to
        (record base { notify_count = suc next.notify_count; last_notified = now })) {
          notify = true;
          kind = some alert;
          entering = true;
        }
  where
    base : WatchState
    base = record next {
      state = alerting;
      since = now;
      alerting_since = now;
      consecutive = 0;
      seeded = false;
    }

unfoldable pub recover : WatchState → Time → Bool → Bool → Outcome
recover next now muted notify_recovery =
    if muted || not (ltb 0 next.notify_count) || not notify_recovery
    then moved_to base
    else record (moved_to (record base { last_notified = now })) {
      notify = true;
      kind = some recovered;
    }
  where
    base : WatchState
    base = record next {
      state = ok;
      since = now;
      consecutive = 0;
      alerting_since = zero_time;
      notify_count = 0;
      seeded = false;
    }

-- The part of Evaluate that has nothing to judge.
abbrev pub unjudged : State → WatchState → Time → Bool → Outcome
unjudged unknown next now moved = stays next moved
unjudged _ next now moved = moved_to (record next { state = unknown; since = now; consecutive = 0 })

-- The switch of Evaluate on the stored state; `next` carries the stored counters.
abbrev pub judged : State → WatchState → Time → Bool → ℕ → Prefs → Bool → Outcome
judged unknown next now over confirm prefs moved =
    if over
    then moved_to (record next {
      state = alerting;
      alerting_since = now;
      notify_count = 0;
      seeded = true;
      since = now;
      consecutive = 0;
    })
    else moved_to (record next { state = ok; since = now; consecutive = 0 })
judged ok next now over confirm prefs moved =
    if not over
    then stays (record next { consecutive = 0 }) moved
    else let pend = record next { state = pending; since = now; consecutive = 1 } in
      if leb confirm 1 then promote pend now prefs.muted else moved_to pend
judged pending next now over confirm prefs moved =
    if not over
    then moved_to (record next { state = ok; since = now; consecutive = 0 })
    else let more = record next { consecutive = suc next.consecutive } in
      if leb confirm more.consecutive then promote more now prefs.muted else moved_to more
judged alerting next now over confirm prefs moved =
    if over
    then stays (record next { consecutive = 0 }) moved
    else let back = record next { state = recovering; since = now; consecutive = 1 } in
      if leb confirm 1 then recover back now prefs.muted prefs.notify_recovery else moved_to back
judged recovering next now over confirm prefs moved =
    if over
    then moved_to (record next { state = alerting; since = now; consecutive = 0 })
    else let more = record next { consecutive = suc next.consecutive } in
      if leb confirm more.consecutive
      then recover more now prefs.muted prefs.notify_recovery
      else moved_to more
judged (State.other s) next now over confirm prefs moved =
    moved_to (record next { state = unknown; since = now })

-- `if confirm < 1 { confirm = 1 }`.
abbrev pub confirmations : Policy → ℕ
confirmations pol = if ltb pol.confirm_polls 1 then 1 else pol.confirm_polls

-- Whether there is nothing to judge.
abbrev pub is_blind : Signal → Bool
is_blind obs = not obs.applicable || is_zero obs.at

-- now.Sub(obs.At) >= threshold.
unfoldable pub is_over : Time → Signal → Duration → Bool
is_over now obs threshold = leb_ℤ threshold (sub now obs.at)

unfoldable pub evaluate : Time → Signal → WatchState → Duration → Prefs → Policy → Outcome
evaluate now obs cur threshold prefs pol =
    let next = record cur { observed_at = obs.at } in
    let moved = not (obs.at == cur.observed_at) in
    if is_blind obs
    then unjudged cur.state next now moved
    else judged cur.state next now (is_over now obs threshold) (confirmations pol) prefs moved
