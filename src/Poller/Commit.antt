-- ===== src/Poller/Commit.antt =====
-- The second half of evaluate in internal/poller/poller.go: the breaker, and the transaction that
-- saves states, records events and queues one message for each watch and direction of change.

pub mod Addressed
pub mod Grouping
pub mod Transaction
use hop_react.Common.{
  ℕ, suc, ◌+◌, Bool, true, false, not, ◌&&◌, Option, none, some, List, [], ◌∷◌, ◌++◌, Text, ◌==◌,
  ==_iff, ◌≡◌, ◌↔◌, if◌then◌else◌, length, arith, Key, lookup, insert,
}
use hop_react.Clock.{Time, zero_time}
use hop_react.Clock.Unix.{unix_or_zero}
use hop_react.Models.{Watch, WatchState, State}
use hop_react.Floats.{Float64}
use hop_react.Alert.Watch.{Notice, Policy}
use hop_react.Alert.Feed.{BreakerReason, trip_breaker}
use hop_react.Store.Tables.{Db, NoteKind, RuleTrip, AlertPayload, alert_payload}
use hop_react.Store.States.{save_watch_state, all_watch_state, record_alert_event}
use hop_react.Store.Outbox.{queue_notification}
use hop_react.Store.Watches.{active_watches}
use hop_react.Poller.Label.{rule_label}
use hop_react.Poller.Plan.{Snapshot, all_of, by_key, or_none, Planned, plan, entering}

-- alert.AlertsConfig of internal/config/config.go, as far as evaluate reads it.
pub record AlertsConfig (fl : Float64) : Type 0 where
  pub confirm_polls : ℕ
  pub max_new_alerts_per_poll : ℕ
  pub max_new_alert_fraction : fl.F

-- msgKey. An outcome that notifies has a kind; the empty one stands for the rest.
pub record MsgKey : Type 0 where
  pub watch_id : ℕ
  pub kind : Option Notice

abbrev pub kind_eq : Option Notice → Option Notice → Bool
kind_eq none none = true
kind_eq (some Notice.alert) (some Notice.alert) = true
kind_eq (some Notice.recovered) (some Notice.recovered) = true
kind_eq _ _ = false

abbrev pub key_eq : MsgKey → MsgKey → Bool
key_eq a b = a.watch_id == b.watch_id && kind_eq a.kind b.kind

pub key_eq_iff : (a b : MsgKey) → (key_eq a b ≡ true) ↔ (a ≡ b)
key_eq_iff a b = (λ h. ground arith, λ h. ground arith)

instance abbrev pub msg_key : Key MsgKey
msg_key = record { beq = key_eq; beq_iff = key_eq_iff }

abbrev pub key_of : Planned → MsgKey
key_of pl = record { watch_id = pl.watch.id; kind = pl.out.kind }

abbrev pub note_kind : Option Notice → NoteKind
note_kind (some Notice.recovered) = NoteKind.recovered
note_kind _ = NoteKind.alert

abbrev pub trip : Planned → RuleTrip
trip pl = record {
  label = rule_label pl.rule;
  threshold_hours = pl.rule.threshold_hours;
  last_seen_unix = unix_or_zero pl.out.state.observed_at;
}

abbrev pub name_or : Text → Text → Text
name_or [] label = label
name_or (c ∷ name) label = c ∷ name

abbrev pub new_message : Snapshot → Planned → AlertPayload
new_message snap pl = record {
  kind = note_kind pl.out.kind;
  target_kind = pl.watch.target_kind;
  target_key = pl.watch.target_key;
  target_name =
      name_or (or_none (by_key pl.watch.target_kind pl.watch.target_key (all_of snap))).name
        pl.watch.label;
  rules = [];
}

abbrev pub or_new : AlertPayload → Option AlertPayload → AlertPayload
or_new m none = m
or_new m (some old) = old

-- msgs and msgOrder: the messages in the order of their first trip.
abbrev pub Messages : Type 0
Messages = List (MsgKey × AlertPayload)

unfoldable pub add_trip : Snapshot → Planned → Messages → Messages
add_trip snap pl msgs =
    let m = or_new (new_message snap pl) (lookup (key_of pl) msgs) in
    insert (key_of pl) (record m { rules = m.rules ++ trip pl ∷ [] }) msgs

-- The state that the map read before the transaction has, "" when it has none.
abbrev pub state_before : Option WatchState → State
state_before none = State.other []
state_before (some st) = st.state

module _ (stamp : Time) (snap : Snapshot) (run : ℕ) where
  -- One round of the transaction's first loop. `old` is the database that was read before it.
  unfoldable pub commit_one : Db → Planned → Db × Messages → Db × Messages
  commit_one old pl (db, msgs) =
      let saved = save_watch_state pl.out.state db in
      let noted =
        record_alert_event stamp pl.watch.id pl.rule.id (rule_label pl.rule)
          (state_before (all_watch_state old pl.watch.id pl.rule.id)) pl.out.state.state run
          pl.out.notify saved in
      if not pl.out.changed
      then (if pl.out.observed_moved then saved else db, msgs)
      else (noted, if pl.out.notify then add_trip snap pl msgs else msgs)

  unfoldable pub commit_all : Db → List Planned → Db × Messages → Db × Messages
  commit_all old [] acc = acc
  commit_all old (pl ∷ ps) acc = commit_all old ps (commit_one old pl acc)

-- watchUser.
unfoldable pub watch_user : ℕ → List Watch → ℕ
watch_user w [] = 0
watch_user w (x ∷ xs) = if x.id == w then x.user_id else watch_user w xs

unfoldable pub queue_all : Time → List Watch → Messages → Db → Db
queue_all stamp ws [] db = db
queue_all stamp ws ((k, m) ∷ msgs) db =
    queue_all stamp ws msgs
      (queue_notification stamp (watch_user k.watch_id ws) m.kind (alert_payload m) zero_time db)

pub record EvalResult : Type 0 where
  pub committed : Bool
  pub notified : ℕ
  pub breaker_reason : Option BreakerReason

module _ (fl : Float64) where
  abbrev pub breaker : AlertsConfig fl → List Planned → Option BreakerReason
  breaker cfg planned = trip_breaker fl (record {
    entering = entering planned;
    active_signals = length planned;
    max_per_poll = cfg.max_new_alerts_per_poll;
    max_fraction = cfg.max_new_alert_fraction;
  })

  abbrev pub planned_of : AlertsConfig fl → Time → Snapshot → Db → List Planned
  planned_of cfg now snap db =
      plan now (record { confirm_polls = cfg.confirm_polls }) snap db (active_watches db)

  abbrev pub commit : Time → Snapshot → ℕ → List Planned → Db → Db × EvalResult
  commit stamp snap run planned db =
      let (saved, msgs) = commit_all stamp snap run db planned (db, []) in
      (
        queue_all stamp (active_watches db) msgs saved,
        record { committed = true; notified = length msgs; breaker_reason = none },
      )

  -- `now` is the poller's clock, `stamp` the store's.
  unfoldable pub evaluate : AlertsConfig fl → Time → Time → Snapshot → ℕ → Db → Db × EvalResult
  evaluate cfg now stamp snap run db =
      let planned = planned_of cfg now snap db in
      elim (active_watches db) [
        | [] ↦ (db, record { committed = true; notified = 0; breaker_reason = none })
        | _ ∷ _ ↦ elim (breaker cfg planned) [
          | some reason ↦
              (db, record { committed = false; notified = 0; breaker_reason = some reason })
          | none ↦ commit stamp snap run planned db
        ]
      ]
