-- ===== src/Notify/Drain.antt =====
-- DrainOnce of internal/notify/notify.go, with the store's clock standing still while it runs.
--
-- What compose makes of a group, and what Discord answers, are parameters: one drain sends one
-- composed message to an account.
pub mod Groups
pub mod Settled
pub mod Untouched
use hop_react.Common.{
  ℕ, suc, ◌+◌, Bool, true, false, Option, none, some, List, [], ◌∷◌, ◌++◌, Text, length, leb,
  if◌then◌else◌, lookup, insert, nat_key, codes, decimal,
}
use hop_react.Clock.{Time}
use hop_react.Store.Tables.{Db}
use hop_react.Store.Outbox.{
  Notification, pending_notifications, mark_notification_sent, mark_notification_failed,
  drop_notification, set_dm_status,
}

abbrev pub max_attempts : ℕ
max_attempts = 8

-- The error of Sender.Send: none, ErrUndeliverable, or another, with its text.
pub data SendResult : Type 0 where
  delivered : SendResult
  undeliverable : Text → SendResult
  failed : Text → SendResult

abbrev pub Groups : Type 0
Groups = List (ℕ × List Notification)

abbrev pub or_nil : Option (List Notification) → List Notification
or_nil none = []
or_nil (some g) = g

-- byUser, in the order of `order`.
unfoldable pub group_by_user : List Notification → Groups → Groups
group_by_user [] groups = groups
group_by_user (n ∷ ns) groups =
    let u = n.row.user_id in group_by_user ns (insert u (or_nil (lookup u groups) ++ n ∷ []) groups)

abbrev pub discord_id_of : List Notification → Text
discord_id_of [] = []
discord_id_of (n ∷ _) = n.discord_id

unfoldable pub mark_all_sent : Time → List Notification → Db → Db
mark_all_sent now [] db = db
mark_all_sent now (n ∷ ns) db = mark_all_sent now ns (mark_notification_sent now n.row.id db)

unfoldable pub drop_all : Time → Text → List Notification → Db → Db
drop_all now reason [] db = db
drop_all now reason (n ∷ ns) db = drop_all now reason ns (drop_notification now n.row.id reason db)

abbrev pub gave_up : ℕ → Text → Text
gave_up attempts reason =
    codes "giving up after " ++ decimal 20 attempts [] ++ codes " attempts: " ++ reason

abbrev pub retry_one : Time → Text → Notification → Db → Db
retry_one now reason n db =
    if leb max_attempts (n.row.attempts + 1)
    then drop_notification now n.row.id (gave_up (n.row.attempts + 1) reason) db
    else mark_notification_failed now n.row.id n.row.attempts reason db

unfoldable pub retry_all : Time → Text → List Notification → Db → Db
retry_all now reason [] db = db
retry_all now reason (n ∷ ns) db = retry_all now reason ns (retry_one now reason n db)

abbrev pub unreachable : Text
unreachable =
    codes
      "Discord would not deliver the message — check you are still in the HopReact server and that DMs from server members are enabled"

-- The switch over the answer of Discord.
unfoldable pub answered : Time → ℕ → List Notification → SendResult → Db → Db × ℕ
answered now u group delivered db =
    (set_dm_status now u true none (mark_all_sent now group db), length group)
answered now u group (undeliverable reason) db =
    (drop_all now reason group (set_dm_status now u false (some unreachable) db), 0)
answered now u group (failed reason) db = (retry_all now reason group db, 0)

module _ {ℓ} {Msg : Type ℓ} (compose : ℕ → List Notification → Msg)
    (send : Text → Msg → SendResult) where
  abbrev pub drain_user : Time → ℕ → List Notification → Db → Db × ℕ
  drain_user now u group = answered now u group (send (discord_id_of group) (compose u group))

  unfoldable pub drain_users : Time → Groups → Db → Db × ℕ
  drain_users now [] db = (db, 0)
  drain_users now ((u, group) ∷ groups) db =
      let (db', sent) = drain_user now u group db in
      let (db'', rest) = drain_users now groups db' in (db'', sent + rest)

  unfoldable pub drain_once : Time → ℕ → Db → Db × ℕ
  drain_once now limit db =
      drain_users now (group_by_user (pending_notifications now limit db) []) db
