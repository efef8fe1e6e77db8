-- ===== src/Store/Outbox.antt =====
-- The notifications table and the delivery status of a user, of internal/store/queries.go.
use hop_react.Common.{
  ℕ, ◌+◌, ◌*◌, ◌^◌, Bool, true, false, ◌&&◌, Option, none, some, List, [], ◌∷◌, ◌++◌, Text, ◌==◌,
  if◌then◌else◌, map, take, ltb, leb_ℤ,
}
use hop_react.Clock.{Time, is_zero}
use hop_react.Clock.Unix.{unix, second}
use hop_react.Store.Tables.{Db, NotificationRow, NoteKind, Payload, UserRow, next_id}

abbrev pub ids : List NotificationRow → List ℕ
ids = map (λ n. n.id)

unfoldable pub queue_notification : Time → ℕ → NoteKind → Payload → Time → Db → Db
queue_notification now user kind payload send_after db = record db {
  notifications =
      db.notifications
      ++ record {
        id = next_id (ids db.notifications);
        user_id = user;
        kind = kind;
        payload = payload;
        created_at = unix now;
        send_after = unix (if is_zero send_after then now else send_after);
        attempts = 0;
        sent_at = none;
        last_error = none;
      }
        ∷ [];
}

-- A notification with the account that it goes to.
pub record Notification : Type 0 where
  pub row : NotificationRow
  pub discord_id : Text

unfoldable pub find_user : ℕ → List UserRow → Option UserRow
find_user u [] = none
find_user u (x ∷ xs) = if x.id == u then some x else find_user u xs

abbrev is_unsent : NotificationRow → Bool
is_unsent n = elim n.sent_at [ none ↦ true | some _ ↦ false ]

-- WHERE sent_at IS NULL AND send_after <= now.
abbrev pub is_due : Time → NotificationRow → Bool
is_due now n = is_unsent n && leb_ℤ n.send_after (unix now)

-- The rows of the JOIN with users, in id order.
unfoldable pub due : Time → List UserRow → List NotificationRow → List Notification
due now us [] = []
due now us (n ∷ ns) = elim (find_user n.user_id us) [
  | none ↦ due now us ns
  | some u ↦
      let rest = due now us ns in
      if is_due now n then record { row = n; discord_id = u.discord_id } ∷ rest else rest
]

unfoldable pub pending_notifications : Time → ℕ → Db → List Notification
pending_notifications now limit db = take limit (due now db.users db.notifications)

-- UPDATE notifications … WHERE id = ?.
unfoldable pub update_note :
    (NotificationRow → NotificationRow) → ℕ → List NotificationRow → List NotificationRow
update_note f i [] = []
update_note f i (n ∷ ns) = (if n.id == i then f n else n) ∷ update_note f i ns

unfoldable pub mark_notification_sent : Time → ℕ → Db → Db
mark_notification_sent now i db = record db {
  notifications = update_note (λ n. record n { sent_at = some (unix now) }) i db.notifications;
}

-- time.Duration(1<<min(attempts, 6)) * time.Minute, in nanoseconds.
unfoldable pub backoff : ℕ → ℕ
backoff attempts = 2 ^ (if ltb attempts 6 then attempts else 6) * 60 * second

unfoldable pub mark_notification_failed : Time → ℕ → ℕ → Text → Db → Db
mark_notification_failed now i attempts reason db = record db {
  notifications =
      update_note
        (λ n. record n {
          attempts = n.attempts + 1;
          last_error = some reason;
          send_after = unix (now + backoff attempts);
        })
        i db.notifications;
}

unfoldable pub drop_notification : Time → ℕ → Text → Db → Db
drop_notification now i reason db = record db {
  notifications =
      update_note (λ n. record n { sent_at = some (unix now); last_error = some reason }) i
        db.notifications;
}

unfoldable pub update_user : (UserRow → UserRow) → ℕ → List UserRow → List UserRow
update_user f i [] = []
update_user f i (u ∷ us) = (if u.id == i then f u else u) ∷ update_user f i us

unfoldable pub set_dm_status : Time → ℕ → Bool → Option Text → Db → Db
set_dm_status now u ok reason db = record db {
  users =
      update_user
        (λ x. record x { dm_ok = ok; dm_failed_reason = reason; dm_checked_at = some (unix now) }) u
        db.users;
}
