-- ===== src/Store/Accounts.antt =====
-- Accounts and sessions: UpsertUser, UserByDiscordID, UserByID, DeleteUser and the sessions of
-- internal/store/queries.go.
pub mod Sessions
use hop_react.Common.{
  ℕ, Bool, true, false, ◌&&◌, Option, none, some, List, [], ◌∷◌, ◌++◌, Text, text_eq, ◌==◌,
  if◌then◌else◌, map, ℤ, leb_ℤ,
}
use hop_react.Clock.{Time}
use hop_react.Clock.Unix.{unix}
use hop_react.Store.Tables.{Db, UserRow, SessionRow, NotificationRow, WatchRow, next_id}
use hop_react.Store.Outbox.{find_user}
use hop_react.Store.Owner.{cascade_watch}

-- nullString; strings.TrimSpace is a parameter.
abbrev pub null_text : (Text → Text) → Text → Option Text
null_text trim_space s = elim (trim_space s) [ [] ↦ none | c ∷ rest ↦ some s ]

-- The INSERT with its ON CONFLICT(discord_id) DO UPDATE.
unfoldable pub put_user : UserRow → List UserRow → List UserRow
put_user u [] = u ∷ []
put_user u (x ∷ xs) =
    if text_eq x.discord_id u.discord_id
    then record x { username = u.username; avatar = u.avatar; last_login_at = u.last_login_at } ∷ xs
    else x ∷ put_user u xs

unfoldable pub user_by_discord_id : Text → List UserRow → Option UserRow
user_by_discord_id d [] = none
user_by_discord_id d (x ∷ xs) = if text_eq x.discord_id d then some x else user_by_discord_id d xs

unfoldable pub upsert_user : (Text → Text) → Time → Text → Text → Text → Db → Db × Option UserRow
upsert_user trim_space now discord_id username avatar db =
    let users =
      put_user
        (record {
          id = next_id (map (λ x. x.id) db.users);
          discord_id = discord_id;
          username = username;
          avatar = null_text trim_space avatar;
          created_at = unix now;
          last_login_at = unix now;
          dm_ok = true;
          dm_failed_reason = none;
          dm_checked_at = none;
          auto_battery = true;
          battery_banner = 0;
        })
        db.users in
    (record db { users = users }, user_by_discord_id discord_id users)

unfoldable pub remove_user : ℕ → List UserRow → List UserRow
remove_user u [] = []
remove_user u (x ∷ xs) = let rest = remove_user u xs in if x.id == u then rest else x ∷ rest

unfoldable pub remove_sessions_of : ℕ → List SessionRow → List SessionRow
remove_sessions_of u [] = []
remove_sessions_of u (s ∷ ss) =
    let rest = remove_sessions_of u ss in if s.user_id == u then rest else s ∷ rest

unfoldable pub remove_notes_of : ℕ → List NotificationRow → List NotificationRow
remove_notes_of u [] = []
remove_notes_of u (n ∷ ns) =
    let rest = remove_notes_of u ns in if n.user_id == u then rest else n ∷ rest

-- ON DELETE CASCADE from users to watches, and on to what refers to them.
unfoldable pub cascade_watches : ℕ → List WatchRow → Db → Db
cascade_watches u [] db = db
cascade_watches u (w ∷ ws) db =
    cascade_watches u ws (if w.user_id == u then cascade_watch w.id db else db)

unfoldable pub delete_user : ℕ → Db → Db
delete_user u db =
    let rest = cascade_watches u db.watches db in
    record rest {
      users = remove_user u rest.users;
      sessions = remove_sessions_of u rest.sessions;
      notifications = remove_notes_of u rest.notifications;
    }

unfoldable pub find_session : Text → List SessionRow → Option SessionRow
find_session hash [] = none
find_session hash (s ∷ ss) = if text_eq s.token_hash hash then some s else find_session hash ss

abbrev pub is_none : Option SessionRow → Bool
is_none none = true
is_none (some _) = false

-- The INSERT, which the primary key refuses for a hash that is there; true where it went through.
unfoldable pub create_session : Time → Text → ℕ → Text → Time → Db → Db × Bool
create_session now hash u csrf expires db =
    if is_none (find_session hash db.sessions)
    then (
      record db {
        sessions =
            db.sessions
            ++ (record {
              token_hash = hash;
              user_id = u;
              csrf_token = csrf;
              created_at = unix now;
              expires_at = unix expires;
            }
                ∷ []);
      },
      true,
    )
    else (db, false)

abbrev pub with_csrf : Text → Option UserRow → Option (UserRow × Text)
with_csrf csrf none = none
with_csrf csrf (some u) = some (u, csrf)

abbrev pub live : Time → Db → Option SessionRow → Option (UserRow × Text)
live now db none = none
live now db (some s) =
    if leb_ℤ s.expires_at (unix now)
    then none
    else with_csrf s.csrf_token (find_user s.user_id db.users)

-- none is ErrNotFound.
unfoldable pub session_user : Time → Text → Db → Option (UserRow × Text)
session_user now hash db = live now db (find_session hash db.sessions)

unfoldable pub remove_session : Text → List SessionRow → List SessionRow
remove_session hash [] = []
remove_session hash (s ∷ ss) =
    let rest = remove_session hash ss in if text_eq s.token_hash hash then rest else s ∷ rest

unfoldable pub delete_session : Text → Db → Db
delete_session hash db = record db { sessions = remove_session hash db.sessions }

-- WHERE expires_at < now.
unfoldable pub keep_live : ℤ → List SessionRow → List SessionRow
keep_live now [] = []
keep_live now (s ∷ ss) =
    let rest = keep_live now ss in if leb_ℤ now s.expires_at then s ∷ rest else rest

unfoldable pub delete_expired_sessions : Time → Db → Db
delete_expired_sessions now db = record db { sessions = keep_live (unix now) db.sessions }
