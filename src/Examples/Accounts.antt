-- ===== src/Examples/Accounts.antt =====
-- A visitor who signs in, and a battery report that is stored.
use hop_react.Common.{
  ◌≡◌, ◌+◌, ◌*◌, refl, false, none, some, [], ◌∷◌, text_eq, pos, codes, arith, if◌then◌else◌, ◌&&◌,
  leb_ℤ,
}
use hop_react.Clock.{hour}
use hop_react.Clock.Unix.{unix}
use hop_react.Models.Battery.{BatteryStatus, BatteryReadings}
use hop_react.Store.Tables.{Db, SessionRow}
use hop_react.Store.Outbox.{find_user}
use hop_react.Store.Accounts.{
  find_session, is_none, create_session, with_csrf, session_user, delete_expired_sessions,
  delete_user,
}
use hop_react.Store.Accounts.Sessions.{
  belongs, session_user-create_session, session_user-delete_expired_sessions,
  session_user-delete_user,
}
use hop_react.Store.Battery.Readings.{
  battery_readings_for, save_battery_readings, battery_readings_for-save,
}
use hop_react.Examples.Mesh.{hill}
use hop_react.Examples.Tables.{db, today}

abbrev cookie : SessionRow
cookie = record {
  token_hash = codes "5f1c";
  user_id = 2;
  csrf_token = codes "a1";
  created_at = pos 1_699_000_000;
  expires_at = pos 1_699_999_999;
}

abbrev signed_in : Db
signed_in = record db { sessions = cookie ∷ [] }

session_user-create_session_example :
    session_user
      (today + hour)
      (codes "77aa")
      (create_session today (codes "77aa") 1 (codes "b2") (today + 2 * hour) signed_in).0
    ≡ (if is_none (find_session (codes "77aa") signed_in.sessions)
          && text_eq (codes "77aa") (codes "77aa")
        then (if leb_ℤ (unix (today + 2 * hour)) (unix (today + hour))
            then none
            else with_csrf (codes "b2") (find_user 1 signed_in.users))
        else session_user (today + hour) (codes "77aa") signed_in)
session_user-create_session_example =
    session_user-create_session today (today + hour) (codes "77aa") (codes "77aa") 1 (codes "b2")
      (today + 2 * hour) signed_in

session_user-delete_expired_sessions_example :
    session_user (today + hour) (codes "5f1c") (delete_expired_sessions today signed_in)
    ≡ session_user (today + hour) (codes "5f1c") signed_in
unfolding find_session unix
session_user-delete_expired_sessions_example =
    session_user-delete_expired_sessions today (today + hour) (codes "5f1c") signed_in (refl, tt)
      (ground arith)

session_user-delete_user_example : session_user today (codes "5f1c") (delete_user 2 signed_in) ≡ (
    if belongs 2 (find_session (codes "5f1c") signed_in.sessions)
    then none
    else session_user today (codes "5f1c") signed_in)
unfolding find_session
session_user-delete_user_example =
    session_user-delete_user today 2 (codes "5f1c") signed_in (refl, tt)

abbrev report : BatteryReadings
report = record {
  key = hill;
  status = BatteryStatus.low;
  latest_mv = 3400;
  latest_at = today;
  reporter = codes "Valley";
  stale = false;
  cs_low_mv = 3300;
  cs_critical_mv = 3000;
  samples = record { at = today; mv = 3400 } ∷ [];
  fetched_at = today;
}

battery_readings_for-save_example :
    battery_readings_for hill (save_battery_readings report db)
    ≡ (if text_eq report.key hill then some report else battery_readings_for hill db)
battery_readings_for-save_example =
    battery_readings_for-save report hill db (omega arith) (omega arith) (omega arith, tt)
