-- ===== src/System.antt =====
-- The program as steps on its database: what its loops and its pages call, in any order. Polls and
-- battery checks are those of internal/poller, drains those of internal/notify, housekeeping that of
-- internal/store, and the rest what internal/web calls for a signed-in user or a visitor.
pub mod Invariant
use hop_react.Common.{ℕ, Bool, Option, List, Text}
use hop_react.Clock.{Time}
use hop_react.Models.{Observation, Packet}
use hop_react.Floats.{Float64}
use hop_react.Store.Tables.{Db}
use hop_react.Store.Outbox.{Notification}
use hop_react.Store.Prune.{prune}
use hop_react.Store.Accounts.{upsert_user, create_session, delete_session, delete_expired_sessions}
use hop_react.Store.Owner.Acts.{Act, act}
use hop_react.Poller.Once.{Fetched, PollConfig, poll_once}
use hop_react.Poller.Battery.{BatteryConfig, Answer}
use hop_react.Poller.Battery.Commit.{check_batteries}
use hop_react.Notify.Drain.{SendResult, drain_once}

infix 40 ◌⟼◌
pub data ◌⟼◌ : Db → Db → Type 1 where
  owner : {db : Db} (a : Act) → db ⟼ act a db
  poll :
      {db : Db} (fl : Float64) (cfg : PollConfig fl) (now stamp : Time) (fetched : Fetched)
      (page : Bool → Option (List Packet))
      → db ⟼ poll_once fl cfg now stamp fetched page db
  check :
      {db : Db} (now stamp : Time) (nodes : List Observation) (cfg : BatteryConfig) (limit : ℕ)
      (fetch : Text → Answer) (meanwhile : List Act)
      → db ⟼ check_batteries now stamp nodes cfg limit fetch meanwhile db
  drain :
      {db : Db} {Msg : Type 0} (compose : ℕ → List Notification → Msg)
      (send : Text → Msg → SendResult) (now : Time) (limit : ℕ)
      → db ⟼ (drain_once compose send now limit db).0
  housekeep : {db : Db} (now : Time) → db ⟼ prune now db
  expire : {db : Db} (now : Time) → db ⟼ delete_expired_sessions now db
  sign_in :
      {db : Db} (trim_space : Text → Text) (now : Time) (id name avatar : Text)
      → db ⟼ (upsert_user trim_space now id name avatar db).0
  open_session :
      {db : Db} (now : Time) (hash : Text) (u : ℕ) (csrf : Text) (expires : Time)
      → db ⟼ (create_session now hash u csrf expires db).0
  sign_out : {db : Db} (hash : Text) → db ⟼ delete_session hash db

infix 40 ◌⟼*◌
pub data ◌⟼*◌ : Db → Db → Type 1 where
  stay : {db : Db} → db ⟼* db
  next : {a b c : Db} → a ⟼* b → b ⟼ c → a ⟼* c
