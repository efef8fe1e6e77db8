-- ===== src/System/Invariant.antt =====
-- What every step keeps.
use hop_react.Common.{ℕ, ◌+◌, refl, List, [], ◌∷◌, Text, if_cases, leb}
use hop_react.Clock.{Time}
use hop_react.Store.Tables.{Db}
use hop_react.Store.Outbox.{
  Notification, mark_notification_sent, mark_notification_failed, drop_notification, set_dm_status,
  pending_notifications,
}
use hop_react.Store.Prune.{prune}
use hop_react.Store.Accounts.{
  is_none, find_session, upsert_user, create_session, delete_session, delete_expired_sessions,
}
use hop_react.Store.Owner.Linked.{IsLinked, IsLinkedAfter, same_tables}
use hop_react.Store.Owner.Acts.{act-IsLinked}
use hop_react.Poller.Once.Linked.{poll_once-IsLinked}
use hop_react.Poller.Battery.Commit.Kept.{check_batteries-IsLinked}
use hop_react.Notify.Drain.{
  SendResult, delivered, undeliverable, failed, Groups, group_by_user, mark_all_sent, drop_all,
  retry_one, retry_all, answered, drain_user, drain_users, drain_once, max_attempts,
}
use hop_react.System.{◌⟼◌, ◌⟼*◌}

mark_all_sent-IsLinked :
    (now : Time) (ns : List Notification) (db : Db)
    → IsLinked db
    → IsLinked (mark_all_sent now ns db)
unfolding mark_all_sent mark_notification_sent
mark_all_sent-IsLinked now [] db l = l
mark_all_sent-IsLinked now (n ∷ ns) db l =
    mark_all_sent-IsLinked now ns _ (same_tables db _ refl refl refl refl l)

drop_all-IsLinked :
    (now : Time) (reason : Text) (ns : List Notification) (db : Db)
    → IsLinked db
    → IsLinked (drop_all now reason ns db)
unfolding drop_all drop_notification
drop_all-IsLinked now reason [] db l = l
drop_all-IsLinked now reason (n ∷ ns) db l =
    drop_all-IsLinked now reason ns _ (same_tables db _ refl refl refl refl l)

retry_all-IsLinked :
    (now : Time) (reason : Text) (ns : List Notification) (db : Db)
    → IsLinked db
    → IsLinked (retry_all now reason ns db)
unfolding retry_all drop_notification mark_notification_failed
retry_all-IsLinked now reason [] db l = l
retry_all-IsLinked now reason (n ∷ ns) db l =
    retry_all-IsLinked now reason ns (retry_one now reason n db) (
      if_cases IsLinked (leb max_attempts (n.row.attempts + 1))
        (λ _. same_tables db _ refl refl refl refl l) (λ _. same_tables db _ refl refl refl refl l))

answered-IsLinked :
    (now : Time) (u : ℕ) (group : List Notification) (r : SendResult) (db : Db)
    → IsLinked db
    → IsLinked (answered now u group r db).0
unfolding answered set_dm_status
answered-IsLinked now u group delivered db l =
    same_tables (mark_all_sent now group db) _ refl refl refl refl
      (mark_all_sent-IsLinked now group db l)
answered-IsLinked now u group (undeliverable reason) db l =
    drop_all-IsLinked now reason group _ (same_tables db _ refl refl refl refl l)
answered-IsLinked now u group (failed reason) db l = retry_all-IsLinked now reason group db l

module _ {ℓ} {Msg : Type ℓ} (compose : ℕ → List Notification → Msg)
    (send : Text → Msg → SendResult) where
  drain_users-IsLinked :
      (now : Time) (gs : Groups) (db : Db)
      → IsLinked db
      → IsLinked (drain_users compose send now gs db).0
  unfolding drain_users
  drain_users-IsLinked now [] db l = l
  drain_users-IsLinked now ((u, group) ∷ gs) db l =
      drain_users-IsLinked now gs (drain_user compose send now u group db).0
        (answered-IsLinked now u group _ db l)

  drain_once-IsLinked :
      (now : Time) (limit : ℕ) (db : Db)
      → IsLinked db
      → IsLinked (drain_once compose send now limit db).0
  unfolding drain_once
  drain_once-IsLinked now limit db l =
      drain_users-IsLinked now (group_by_user (pending_notifications now limit db) []) db l

create_session-IsLinked :
    (now : Time) (hash : Text) (u : ℕ) (csrf : Text) (expires : Time) (db : Db)
    → IsLinked db
    → IsLinked (create_session now hash u csrf expires db).0
unfolding create_session
create_session-IsLinked now hash u csrf expires db l =
    if_cases IsLinkedAfter (is_none (find_session hash db.sessions))
      (λ _. same_tables db _ refl refl refl refl l) (λ _. l)

step-IsLinked : {a b : Db} → a ⟼ b → IsLinked a → IsLinked b
unfolding prune upsert_user delete_session delete_expired_sessions
step-IsLinked {a} (◌⟼◌.owner x) l = act-IsLinked x a l
step-IsLinked {a} (◌⟼◌.poll fl cfg now stamp fetched page) l =
    poll_once-IsLinked fl cfg now stamp fetched page a l
step-IsLinked {a} (◌⟼◌.check now stamp nodes cfg limit fetch meanwhile) l =
    check_batteries-IsLinked now stamp nodes cfg limit fetch meanwhile a l
step-IsLinked {a} (◌⟼◌.drain compose send now limit) l =
    drain_once-IsLinked compose send now limit a l
step-IsLinked {a} (◌⟼◌.housekeep now) l = same_tables a _ refl refl refl refl l
step-IsLinked {a} (◌⟼◌.expire now) l = same_tables a _ refl refl refl refl l
step-IsLinked {a} (◌⟼◌.sign_in trim_space now id name avatar) l =
    same_tables a _ refl refl refl refl l
step-IsLinked {a} (◌⟼◌.open_session now hash u csrf expires) l =
    create_session-IsLinked now hash u csrf expires a l
step-IsLinked {a} (◌⟼◌.sign_out hash) l = same_tables a _ refl refl refl refl l

-- Polls, battery checks, drains, housekeeping, sign-ins and the owners' calls, in any order and
-- with any answers of CoreScope and Discord, keep the database linked: every rule and battery rule
-- belongs to a watch that exists, no two rules share an id, and exactly the rules have a state.
pub steps-IsLinked : {a b : Db} → a ⟼* b → IsLinked a → IsLinked b
steps-IsLinked ◌⟼*◌.stay l = l
steps-IsLinked (◌⟼*◌.next s t) l = step-IsLinked t (steps-IsLinked s l)
