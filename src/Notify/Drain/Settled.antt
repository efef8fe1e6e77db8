-- ===== src/Notify/Drain/Settled.antt =====
-- Every message of a drain is settled.
use hop_react.Common.{
  ◌&&◌, ℕ, zero, suc, ◌≤◌, ◌≡◌, refl, false, some, List, [], ◌∷◌, Text, All, arith, nat_key, leb_ℤ,
  leb, Bool-cases, ◌==◌, inl, inr, ◌*◌, ◌+◌,
}
use hop_react.Clock.{Time}
use hop_react.Clock.Unix.{unix, second}
use hop_react.Store.Tables.{Db, NotificationRow}
use hop_react.Store.Outbox.{
  Notification, is_due, pending_notifications, update_note, backoff, mark_notification_sent,
  mark_notification_failed, drop_notification, set_dm_status,
}
use hop_react.Notify.Drain.Groups.{AllGroups, grouped}
use hop_react.Notify.Drain.{
  SendResult, delivered, undeliverable, failed, max_attempts, gave_up, unreachable, discord_id_of,
  Groups, group_by_user, mark_all_sent, drop_all, retry_one, retry_all, drain_user, drain_users,
  drain_once, answered,
}

-- No row with the id is due.
abbrev pub Quiet : Time → ℕ → List NotificationRow → Type 0
Quiet now i = All (λ n. (n.id == i && is_due now n) ≡ false)

-- A change of a row that keeps its id and leaves nothing due.
record IsSettling (now : Time) (f : NotificationRow → NotificationRow) : Type 0 where
  keeps_id : (n : NotificationRow) → (f n).id ≡ n.id
  not_due : (n : NotificationRow) → is_due now (f n) ≡ false

update-Quiet :
    (now : Time) (f : NotificationRow → NotificationRow) (i j : ℕ) (rows : List NotificationRow)
    → IsSettling now f
    → Quiet now j rows
    → Quiet now j (update_note f i rows)
unfolding update_note
update-Quiet now f i j [] s q = tt
update-Quiet now f i j (n ∷ rows) s q =
    (ground (arith, s.not_due n, s.keeps_id n, q.0), update-Quiet now f i j rows s q.1)

update_settles :
    (now : Time) (f : NotificationRow → NotificationRow) (i : ℕ) (rows : List NotificationRow)
    → IsSettling now f
    → Quiet now i (update_note f i rows)
unfolding update_note
update_settles now f i [] s = tt
update_settles now f i (n ∷ rows) s =
    (ground (arith, s.not_due n, s.keeps_id n), update_settles now f i rows s)

minute : (k : ℕ) → 60 * second ≤ backoff k
unfolding backoff
minute zero = ground arith
minute (suc zero) = ground arith
minute (suc (suc zero)) = ground arith
minute (suc (suc (suc zero))) = ground arith
minute (suc (suc (suc (suc zero)))) = ground arith
minute (suc (suc (suc (suc (suc zero))))) = ground arith
minute (suc (suc (suc (suc (suc (suc k)))))) = ground arith

later_not_due : (now k : ℕ) → leb_ℤ (unix (now + backoff k)) (unix now) ≡ false
unfolding unix
later_not_due now k = ground (arith, minute k)

-- One change of the database settles a message, and unsettles none.
abbrev Settles : Time → ℕ → (Db → Db) → Type 0
Settles now i op =
    (db : Db)
    → Quiet now i (op db).notifications
      × ((j : ℕ) → Quiet now j db.notifications → Quiet now j (op db).notifications)

sent_Settles : (now i : ℕ) → Settles now i (mark_notification_sent now i)
unfolding mark_notification_sent
sent_Settles now i db =
    let s : IsSettling now (λ n. record n { sent_at = some (unix now) }) = record {
      keeps_id = λ n. refl;
      not_due = λ n. refl;
    } in
    (update_settles now _ i db.notifications s, λ j. update-Quiet now _ i j db.notifications s)

drop_Settles : (now i : ℕ) (reason : Text) → Settles now i (drop_notification now i reason)
unfolding drop_notification
drop_Settles now i reason db =
    let s : IsSettling now (λ n. record n { sent_at = some (unix now); last_error = some reason }) =
      record { keeps_id = λ n. refl; not_due = λ n. refl } in
    (update_settles now _ i db.notifications s, λ j. update-Quiet now _ i j db.notifications s)

failed_Settles :
    (now i k : ℕ) (reason : Text) → Settles now i (mark_notification_failed now i k reason)
unfolding mark_notification_failed
failed_Settles now i k reason db =
    let s : IsSettling now (λ n. record n {
      attempts = n.attempts + 1;
      last_error = some reason;
      send_after = unix (now + backoff k);
    }) =
      record { keeps_id = λ n. refl; not_due = λ n. ground (arith, later_not_due now k) } in
    (update_settles now _ i db.notifications s, λ j. update-Quiet now _ i j db.notifications s)

-- A series of changes keeps quiet what is quiet, and settles every message of a list.
abbrev SettlesAll : Time → List Notification → (Db → Db) → Type 0
SettlesAll now ns op =
    (db : Db)
    → All (λ n. Quiet now n.row.id (op db).notifications) ns
      × ((j : ℕ) → Quiet now j db.notifications → Quiet now j (op db).notifications)

Settles-then :
    (now : Time) (n : Notification) (ns : List Notification) (one rest : Db → Db)
    → Settles now n.row.id one
    → SettlesAll now ns rest
    → SettlesAll now (n ∷ ns) (λ db. rest (one db))
Settles-then now n ns one rest a b db =
    (((b (one db)).1 n.row.id (a db).0, (b (one db)).0), λ j q. (b (one db)).1 j ((a db).1 j q))

all_sent : (now : Time) (ns : List Notification) → SettlesAll now ns (mark_all_sent now ns)
unfolding mark_all_sent
all_sent now [] db = (tt, λ j q. q)
all_sent now (n ∷ ns) db =
    Settles-then now n ns (mark_notification_sent now n.row.id) (mark_all_sent now ns)
      (sent_Settles now n.row.id) (all_sent now ns) db

all_dropped :
    (now : Time) (reason : Text) (ns : List Notification)
    → SettlesAll now ns (drop_all now reason ns)
unfolding drop_all
all_dropped now reason [] db = (tt, λ j q. q)
all_dropped now reason (n ∷ ns) db =
    Settles-then now n ns (drop_notification now n.row.id reason) (drop_all now reason ns)
      (drop_Settles now n.row.id reason) (all_dropped now reason ns) db

one_retried :
    (now : Time) (reason : Text) (n : Notification) → Settles now n.row.id (retry_one now reason n)
one_retried now reason n db = elim (Bool-cases (leb max_attempts (n.row.attempts + 1))) [
  | inl e ↦ rw e (drop_Settles now n.row.id (gave_up (n.row.attempts + 1) reason) db)
  | inr e ↦ rw e (failed_Settles now n.row.id n.row.attempts reason db)
]

all_retried :
    (now : Time) (reason : Text) (ns : List Notification)
    → SettlesAll now ns (retry_all now reason ns)
unfolding retry_all
all_retried now reason [] db = (tt, λ j q. q)
all_retried now reason (n ∷ ns) db =
    Settles-then now n ns (retry_one now reason n) (retry_all now reason ns)
      (one_retried now reason n) (all_retried now reason ns) db

answer_settles :
    (now u : ℕ) (group : List Notification) (r : SendResult)
    → SettlesAll now group (λ db. (answered now u group r db).0)
unfolding answered set_dm_status
answer_settles now u group delivered db = all_sent now group db
answer_settles now u group (undeliverable reason) db =
    all_dropped now reason group (set_dm_status now u false (some unreachable) db)
answer_settles now u group (failed reason) db = all_retried now reason group db

Quiet-Quiet :
    (now : Time) (a b : List NotificationRow) (ns : List Notification)
    → ((j : ℕ) → Quiet now j a → Quiet now j b)
    → All (λ n. Quiet now n.row.id a) ns
    → All (λ n. Quiet now n.row.id b) ns
Quiet-Quiet now a b [] f h = tt
Quiet-Quiet now a b (n ∷ ns) f h = (f n.row.id h.0, Quiet-Quiet now a b ns f h.1)

module _ {ℓ} {Msg : Type ℓ} (compose : ℕ → List Notification → Msg)
    (send : Text → Msg → SendResult) where
  users_settled :
      (now : Time) (groups : Groups) (db : Db)
      → let rows = (drain_users compose send now groups db).0.notifications in
        AllGroups (λ n. Quiet now n.row.id rows) groups
        × ((j : ℕ) → Quiet now j db.notifications → Quiet now j rows)
  unfolding drain_users
  users_settled now [] db = (tt, λ j q. q)
  users_settled now ((u, group) ∷ groups) db =
      let db' = (drain_user compose send now u group db).0 in
      let here = answer_settles now u group (send (discord_id_of group) (compose u group)) db in
      let there = users_settled now groups db' in
      (
        (
          Quiet-Quiet now db'.notifications
              (drain_users compose send now groups db').0.notifications group there.1 here.0,
          there.0,
        ),
        λ j q. there.1 j (here.1 j q),
      )

  -- A drain settles every message that it takes up, however Discord answers: once it returns, no
  -- row with the id of a message that was pending is due at that time.
  pub drain_once_settles :
      (now : Time) (limit : ℕ) (db : Db)
      → All
          (λ n. Quiet now n.row.id (drain_once compose send now limit db).0.notifications)
          (pending_notifications now limit db)
  unfolding drain_once
  drain_once_settles now limit db =
      let groups = group_by_user (pending_notifications now limit db) [] in
      (grouped (λ n. Quiet now n.row.id (drain_users compose send now groups db).0.notifications)
        (pending_notifications now limit db) [] (users_settled now groups db).0).0
