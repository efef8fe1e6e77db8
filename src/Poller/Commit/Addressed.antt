-- ===== src/Poller/Commit/Addressed.antt =====
-- Whom the messages of a plan are for.
use hop_react.Common.{ℕ, ◌≡◌, true, List, [], ◌∷◌, ◌++◌, map, All, arith, insert, lookup}
use hop_react.Clock.{Time}
use hop_react.Models.{Rule, Watch}
use hop_react.Store.Tables.{Db, WatchRow, AlertPayload, Payload, alert_payload}
use hop_react.Store.Watches.{scan_watch, all_rules, active_watches}
use hop_react.Store.Battery.Owner.{owns}
use hop_react.Store.Owner.Linked.{has_watch}
use hop_react.Alert.Watch.{Policy}
use hop_react.Poller.Plan.{Snapshot, Planned, plan_rule, plan_rules, plan}
use hop_react.Poller.Commit.{
  MsgKey, msg_key, key_of, Messages, new_message, or_new, trip, add_trip, commit_one, commit_all,
  watch_user,
}

-- The messages in their order, each in a letter to a user who owns a watch row that it is about.
abbrev pub IsAddressed : List WatchRow → Messages → List (ℕ × Payload) → Type 0
IsAddressed rows [] [] = Unit
IsAddressed rows [] (l ∷ ls) = ⊥
IsAddressed rows (km ∷ msgs) [] = ⊥
IsAddressed rows ((k, m) ∷ msgs) ((u, p) ∷ ls) =
    (owns u k.watch_id rows ≡ true) × (p ≡ alert_payload m) × IsAddressed rows msgs ls

abbrev pub Stored : List WatchRow → Watch → Type 0
Stored rows w = has_watch w.id rows ≡ true

abbrev pub ForStored : List WatchRow → Messages → Type 0
ForStored rows = All (λ (km : MsgKey × AlertPayload). has_watch km.0.watch_id rows ≡ true)

abbrev pub PlanStored : List WatchRow → List Planned → Type 0
PlanStored rows = All (λ (pl : Planned). Stored rows pl.watch)

insert-ForStored :
    (rows : List WatchRow) (k : MsgKey) (m : AlertPayload) (msgs : Messages)
    → has_watch k.watch_id rows ≡ true
    → ForStored rows msgs
    → ForStored rows (insert k m msgs)
unfolding insert
insert-ForStored rows k m [] h a = (h, tt)
insert-ForStored rows k m ((j, n) ∷ msgs) h a = ground (arith, insert-ForStored rows k m msgs h a.1)

module _ (stamp : Time) (snap : Snapshot) (run : ℕ) where
  one-ForStored :
      (rows : List WatchRow) (old : Db) (pl : Planned) (acc : Db × Messages)
      → Stored rows pl.watch
      → ForStored rows acc.1
      → ForStored rows (commit_one stamp snap run old pl acc).1
  unfolding commit_one add_trip
  one-ForStored rows old pl (db, msgs) h a =
      let m = or_new (new_message snap pl) (lookup (key_of pl) msgs) in
      ground (
        arith,
        insert-ForStored rows (key_of pl) (record m { rules = m.rules ++ trip pl ∷ [] }) msgs h a,
      )

  pub all-ForStored :
      (rows : List WatchRow) (old : Db) (ps : List Planned) (acc : Db × Messages)
      → PlanStored rows ps
      → ForStored rows acc.1
      → ForStored rows (commit_all stamp snap run old ps acc).1
  unfolding commit_all
  all-ForStored rows old [] acc h a = a
  all-ForStored rows old (pl ∷ ps) acc h a =
      all-ForStored rows old ps (commit_one stamp snap run old pl acc) h.1
        (one-ForStored rows old pl acc h.0 a)

module _ (now : Time) (pol : Policy) (snap : Snapshot) (db : Db) where
  plan-PlanStored-of :
      (rows : List WatchRow) (w : Watch) (rs : List Rule) (ps : List Planned)
      → Stored rows w
      → PlanStored rows ps
      → PlanStored rows (plan_rules now pol snap db w rs ++ ps)
  unfolding plan_rules plan_rule
  plan-PlanStored-of rows w [] ps h hs = hs
  plan-PlanStored-of rows w (r ∷ rs) ps h hs = (h, plan-PlanStored-of rows w rs ps h hs)

  plan-PlanStored :
      (rows : List WatchRow) (ws : List Watch)
      → All (Stored rows) ws
      → PlanStored rows (plan now pol snap db ws)
  unfolding plan
  plan-PlanStored rows [] h = tt
  plan-PlanStored rows (w ∷ ws) h =
      plan-PlanStored-of rows w (all_rules db w.id) (plan now pol snap db ws) h.0
        (plan-PlanStored rows ws h.1)

Stored-more :
    (x : WatchRow) (rows : List WatchRow) (ws : List Watch)
    → All (Stored rows) ws
    → All (Stored (x ∷ rows)) ws
Stored-more x rows [] h = tt
Stored-more x rows (w ∷ ws) h = ground (arith, Stored-more x rows ws h.1)

scan-Stored : (rows : List WatchRow) → All (Stored rows) (map scan_watch rows)
unfolding scan_watch
scan-Stored [] = tt
scan-Stored (x ∷ rows) = (ground arith, Stored-more x rows (map scan_watch rows) (scan-Stored rows))

-- Every watch of the plan is a row of the database.
pub plan_active-PlanStored :
    (now : Time) (pol : Policy) (snap : Snapshot) (db : Db)
    → PlanStored db.watches (plan now pol snap db (active_watches db))
unfolding active_watches
plan_active-PlanStored now pol snap db =
    plan-PlanStored now pol snap db db.watches (map scan_watch db.watches) (scan-Stored db.watches)

watch_user-owns :
    (w : ℕ) (rows : List WatchRow)
    → has_watch w rows ≡ true
    → owns (watch_user w (map scan_watch rows)) w rows ≡ true
unfolding watch_user owns scan_watch
watch_user-owns w [] h = ground (arith, h)
watch_user-owns w (x ∷ rows) h = ground (arith, watch_user-owns w rows)

-- The user that a watch of the database is looked up for owns it.
pub active-owns :
    (w : ℕ) (db : Db)
    → has_watch w db.watches ≡ true
    → owns (watch_user w (active_watches db)) w db.watches ≡ true
unfolding active_watches
active-owns w db = watch_user-owns w db.watches
