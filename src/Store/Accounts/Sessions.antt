-- ===== src/Store/Accounts/Sessions.antt =====
-- What a session's token stands for.
use hop_react.Common.{
  ℕ, ◌≡◌, ap, ◌∙◌, refl, Bool, false, ◌&&◌, Option, none, some, List, [], ◌∷◌, ◌++◌, Text, text_eq,
  text_eq_iff, ◌==◌, if◌then◌else◌, ℤ, ◌≤ℤ◌, leb_ℤ, arith,
}
use hop_react.Clock.{Time}
use hop_react.Clock.Unix.{unix}
use hop_react.Store.Tables.{Db, UserRow, SessionRow, WatchRow}
use hop_react.Store.Owner.{cascade_watch}
use hop_react.Store.Outbox.{find_user}
use hop_react.Store.Accounts.{
  find_session, is_none, create_session, with_csrf, live, session_user, keep_live,
  delete_expired_sessions, remove_user, cascade_watches, remove_sessions_of, delete_user,
}

-- The primary key: no hash stands twice.
abbrev pub Keyed : List SessionRow → Type 0
Keyed [] = Unit
Keyed (s ∷ ss) = (find_session s.token_hash ss ≡ none) × Keyed ss

find_session-snoc :
    (hash : Text) (s : SessionRow) (ss : List SessionRow)
    → find_session hash (ss ++ (s ∷ [])) ≡ (
        if is_none (find_session hash ss)
        then (if text_eq s.token_hash hash then some s else none)
        else find_session hash ss)
unfolding find_session
find_session-snoc hash s [] = refl
find_session-snoc hash s (x ∷ ss) = ground (arith, find_session-snoc hash s ss)

Keyed-snoc :
    (s : SessionRow) (ss : List SessionRow)
    → find_session s.token_hash ss ≡ none
    → Keyed ss
    → Keyed (ss ++ (s ∷ []))
unfolding find_session
Keyed-snoc s [] h k = (refl, tt)
Keyed-snoc s (x ∷ ss) h k = (
  ground (
    arith,
    find_session-snoc x.token_hash s ss,
    k.0,
    h,
    text_eq_iff x.token_hash s.token_hash,
    text_eq_iff s.token_hash x.token_hash,
  ),
  Keyed-snoc s ss (ground (arith, h)) k.1,
)

-- The table stays keyed.
pub create_session-Keyed :
    (now : Time) (hash : Text) (u : ℕ) (csrf : Text) (expires : Time) (db : Db)
    → Keyed db.sessions
    → Keyed (create_session now hash u csrf expires db).0.sessions
unfolding create_session
create_session-Keyed now hash u csrf expires db k = ground (
  arith,
  Keyed-snoc
      (record {
        token_hash = hash;
        user_id = u;
        csrf_token = csrf;
        created_at = unix now;
        expires_at = unix expires;
      })
      db.sessions,
)

-- A session that is created resolves to its account and its token until its last second, no
-- longer, and no other hash resolves otherwise than before; a hash that is taken changes nothing.
pub session_user-create_session :
    (now later : Time) (hash other : Text) (u : ℕ) (csrf : Text) (expires : Time) (db : Db)
    → session_user later other (create_session now hash u csrf expires db).0 ≡ (
        if is_none (find_session hash db.sessions) && text_eq hash other
        then (if leb_ℤ (unix expires) (unix later)
            then none
            else with_csrf csrf (find_user u db.users))
        else session_user later other db)
unfolding session_user create_session
session_user-create_session now later hash other u csrf expires db = ground (
  arith,
  text_eq_iff hash other,
  find_session-snoc other
      (record {
        token_hash = hash;
        user_id = u;
        csrf_token = csrf;
        created_at = unix now;
        expires_at = unix expires;
      })
      db.sessions,
)

-- Housekeeping finds no session that was not there.
find_session-keep_live-none :
    (now : ℤ) (hash : Text) (ss : List SessionRow)
    → find_session hash ss ≡ none
    → find_session hash (keep_live now ss) ≡ none
unfolding find_session keep_live
find_session-keep_live-none now hash [] h = refl
find_session-keep_live-none now hash (s ∷ ss) h =
    ground (arith, find_session-keep_live-none now hash ss)

-- What later, at a time when it has expired, is no session anyway.
abbrev unexpired : ℤ → Option SessionRow → Option SessionRow
unexpired now none = none
unexpired now (some s) = if leb_ℤ s.expires_at now then none else some s

find_session-keep_live :
    (now later : ℤ) (hash : Text) (ss : List SessionRow)
    → Keyed ss
    → now ≤ℤ later
    → unexpired later (find_session hash (keep_live now ss))
      ≡ unexpired later (find_session hash ss)
unfolding find_session keep_live
find_session-keep_live now later hash [] k h = refl
find_session-keep_live now later hash (s ∷ ss) k h = ground (
  arith,
  text_eq_iff s.token_hash hash,
  k.0,
  find_session-keep_live-none now hash ss,
  find_session-keep_live now later hash ss k.1 h,
)

-- Housekeeping signs nobody out: with keyed sessions, what a hash resolves to from then on is the same
-- with and without it.
pub session_user-delete_expired_sessions :
    (now later : Time) (hash : Text) (db : Db)
    → Keyed db.sessions
    → unix now ≤ℤ unix later
    → session_user later hash (delete_expired_sessions now db) ≡ session_user later hash db
unfolding session_user delete_expired_sessions
session_user-delete_expired_sessions now later hash db k h =
    ground (arith, find_session-keep_live (unix now) (unix later) hash db.sessions k h)

cascade_watches-same :
    (u : ℕ) (ws : List WatchRow) (db : Db)
    → ((cascade_watches u ws db).users ≡ db.users)
      × ((cascade_watches u ws db).sessions ≡ db.sessions)
unfolding cascade_watches cascade_watch
cascade_watches-same u [] db = (refl, refl)
cascade_watches-same u (w ∷ ws) db =
    let (users, sessions) =
      cascade_watches-same u ws (if w.user_id == u then cascade_watch w.id db else db) in
    (ground (arith, users), ground (arith, sessions))

find_user-remove_user :
    (v u : ℕ) (us : List UserRow)
    → find_user v (remove_user u us) ≡ (if v == u then none else find_user v us)
unfolding find_user remove_user
find_user-remove_user v u [] = ground (arith)
find_user-remove_user v u (x ∷ xs) = ground (arith, find_user-remove_user v u xs)

abbrev pub belongs : ℕ → Option SessionRow → Bool
belongs u none = false
belongs u (some s) = s.user_id == u

find_session-remove_sessions_none :
    (u : ℕ) (hash : Text) (ss : List SessionRow)
    → find_session hash ss ≡ none
    → find_session hash (remove_sessions_of u ss) ≡ none
unfolding find_session remove_sessions_of
find_session-remove_sessions_none u hash [] h = refl
find_session-remove_sessions_none u hash (s ∷ ss) h =
    ground (arith, find_session-remove_sessions_none u hash ss)

find_session-remove_sessions :
    (u : ℕ) (hash : Text) (ss : List SessionRow)
    → Keyed ss
    → find_session hash (remove_sessions_of u ss)
      ≡ (if belongs u (find_session hash ss) then none else find_session hash ss)
unfolding find_session remove_sessions_of
find_session-remove_sessions u hash [] k = refl
find_session-remove_sessions u hash (s ∷ ss) k = ground (
  arith,
  text_eq_iff s.token_hash hash,
  k.0,
  find_session-remove_sessions_none u hash ss,
  find_session-remove_sessions u hash ss k.1,
)

live-gone :
    (now : Time) (u : ℕ) (o : Option SessionRow) (db db' : Db)
    → ((v : ℕ) → find_user v db'.users ≡ (if v == u then none else find_user v db.users))
    → live now db' (if belongs u o then none else o) ≡ (if belongs u o then none else live now db o)
live-gone now u none db db' h = refl
live-gone now u (some s) db db' h = ground (arith, h s.user_id)

-- With keyed sessions, an account that is deleted is signed out everywhere, and nobody else is: a hash
-- whose session was its own resolves to nothing, any other to what it did.
pub session_user-delete_user :
    (now : Time) (u : ℕ) (hash : Text) (db : Db)
    → Keyed db.sessions
    → session_user now hash (delete_user u db)
      ≡ (if belongs u (find_session hash db.sessions) then none else session_user now hash db)
unfolding session_user delete_user
session_user-delete_user now u hash db k =
    let (users, sessions) = cascade_watches-same u db.watches db in
    let found : find_session hash (delete_user u db).sessions ≡ (
        if belongs u (find_session hash db.sessions) then none else find_session hash db.sessions) =
      ground (arith, sessions, find_session-remove_sessions u hash db.sessions k) in
    ap (live now (delete_user u db)) found
    ∙ live-gone now u (find_session hash db.sessions) db (delete_user u db)
        (λ v. ground (arith, users, find_user-remove_user v u db.users))
