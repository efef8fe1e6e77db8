-- ===== src/Notify/Drain/Untouched.antt =====
-- A drain writes to the messages that it takes up, and to no other.
use hop_react.Common.{
  ℕ, ◌≡◌, ◌≢◌, refl, ◌∙◌, ◌==◌, Option, none, some, List, [], ◌∷◌, Text, All, arith, if◌then◌else◌,
  ◌+◌, leb, Bool-cases, inl, inr,
}
use hop_react.Clock.{Time}
use hop_react.Store.Tables.{Db, NotificationRow}
use hop_react.Store.Outbox.{
  Notification, pending_notifications, update_note, mark_notification_sent,
  mark_notification_failed, drop_notification, set_dm_status,
}
use hop_react.Notify.Drain.Groups.{AllGroups, ungrouped}
use hop_react.Notify.Drain.{
  SendResult, delivered, undeliverable, failed, max_attempts, gave_up, discord_id_of, Groups,
  group_by_user, mark_all_sent, drop_all, retry_one, retry_all, answered, drain_user, drain_users,
  drain_once,
}

-- The row with the id.
unfoldable pub note_at : ℕ → List NotificationRow → Option NotificationRow
note_at i [] = none
note_at i (n ∷ ns) = if n.id == i then some n else note_at i ns

other_note :
    (f : NotificationRow → NotificationRow) (j i : ℕ) (rows : List NotificationRow)
    → ((n : NotificationRow) → (f n).id ≡ n.id)
    → j ≢ i
    → note_at i (update_note f j rows) ≡ note_at i rows
unfolding note_at update_note
other_note f j i [] k h = refl
other_note f j i (n ∷ rows) k h = ground (arith, k n, other_note f j i rows k h)

-- A change of the database leaves the row with the id as it is.
abbrev Keeps : ℕ → (Db → Db) → Type 0
Keeps i op = (db : Db) → note_at i (op db).notifications ≡ note_at i db.notifications

sent-Keeps : (now j i : ℕ) → j ≢ i → Keeps i (mark_notification_sent now j)
unfolding mark_notification_sent
sent-Keeps now j i h db = other_note _ j i db.notifications (λ n. refl) h

dropped-Keeps : (now j i : ℕ) (reason : Text) → j ≢ i → Keeps i (drop_notification now j reason)
unfolding drop_notification
dropped-Keeps now j i reason h db = other_note _ j i db.notifications (λ n. refl) h

failed-Keeps :
    (now j i k : ℕ) (reason : Text) → j ≢ i → Keeps i (mark_notification_failed now j k reason)
unfolding mark_notification_failed
failed-Keeps now j i k reason h db = other_note _ j i db.notifications (λ n. refl) h

retried-Keeps :
    (now i : ℕ) (reason : Text) (n : Notification) → n.row.id ≢ i → Keeps i (retry_one now reason n)
retried-Keeps now i reason n h db = elim (Bool-cases (leb max_attempts (n.row.attempts + 1))) [
  | inl e ↦ rw e (dropped-Keeps now n.row.id i (gave_up (n.row.attempts + 1) reason) h db)
  | inr e ↦ rw e (failed-Keeps now n.row.id i n.row.attempts reason h db)
]

-- None of the messages has the id.
abbrev Others : ℕ → List Notification → Type 0
Others i = All (λ n. n.row.id ≢ i)

answer-Keeps :
    (now u i : ℕ) (group : List Notification) (r : SendResult)
    → Others i group
    → Keeps i (λ db. (answered now u group r db).0)
unfolding answered set_dm_status mark_all_sent drop_all retry_all drop_notification
answer-Keeps now u i [] delivered h db = refl
answer-Keeps now u i [] (undeliverable reason) h db = refl
answer-Keeps now u i [] (failed reason) h db = refl
answer-Keeps now u i (n ∷ ns) delivered h db =
    answer-Keeps now u i ns delivered h.1 (mark_notification_sent now n.row.id db)
    ∙ sent-Keeps now n.row.id i h.0 db
answer-Keeps now u i (n ∷ ns) (undeliverable reason) h db =
    answer-Keeps now u i ns (undeliverable reason) h.1 (drop_notification now n.row.id reason db)
    ∙ dropped-Keeps now n.row.id i reason h.0 db
answer-Keeps now u i (n ∷ ns) (failed reason) h db =
    answer-Keeps now u i ns (failed reason) h.1 (retry_one now reason n db)
    ∙ retried-Keeps now i reason n h.0 db

module _ {ℓ} {Msg : Type ℓ} (compose : ℕ → List Notification → Msg)
    (send : Text → Msg → SendResult) where
  users-Keeps :
      (now : Time) (i : ℕ) (groups : Groups)
      → AllGroups (λ n. n.row.id ≢ i) groups
      → Keeps i (λ db. (drain_users compose send now groups db).0)
  unfolding drain_users
  users-Keeps now i [] h db = refl
  users-Keeps now i ((u, group) ∷ groups) h db =
      users-Keeps now i groups h.1 (drain_user compose send now u group db).0
      ∙ answer-Keeps now u i group (send (discord_id_of group) (compose u group)) h.0 db

  -- A drain leaves every message that was not pending as it was.
  drain_once_keeps :
      (now : Time) (limit i : ℕ) (db : Db)
      → All (λ n. n.row.id ≢ i) (pending_notifications now limit db)
      → note_at i (drain_once compose send now limit db).0.notifications
        ≡ note_at i db.notifications
  unfolding drain_once
  drain_once_keeps now limit i db h =
      users-Keeps now i (group_by_user (pending_notifications now limit db) [])
        (ungrouped (λ n. n.row.id ≢ i) (pending_notifications now limit db) [] h tt) db
