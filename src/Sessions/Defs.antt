-- ===== src/Sessions/Defs.antt =====
-- backend/app/services/session_service.py, the class SessionService: the rows of sys_user_session
-- and dim_user_credential in the order in which they were inserted, and the methods on them.
-- Times are whole seconds, as the columns keep them.
use bormo_stats.Base.{
  ℕ, ◌+◌, ◌≡◌, Bool, true, false, not, ◌&&◌, ◌||◌, Option, none, some, List, [], ◌∷◌, ◌++◌, map,
  ltb, leb, length, if◌then◌else◌,
}
use bormo_stats.Base.Text.{codes_eq}
use bormo_stats.Base.Results.{Result, ok, err}
use bormo_stats.Sessions.Table.{Text, find_row, finals, select}
use bormo_stats.Sessions.Tokens.{ParsedSession, session_token, parse_session_token}

-- What the service uses of app.core.security: `hash_secret`, with the salt it draws, and
-- `verify_secret`.
pub record Hasher : Type 0 where
  pub hash_secret : Text → Text → Option Text
  pub verify_secret : Text → Text → Bool

-- A hash is not empty, and accepted for its secret.
abbrev pub IsHasher : Hasher → Type 0
IsHasher h =
    (salt secret stored : Text)
    → h.hash_secret salt secret ≡ some stored
    → (ltb 0 (length stored) ≡ true) × (h.verify_secret secret stored ≡ true)

-- A row of sys_user_session.
pub record SessionRow : Type 0 where
  pub session_id : Text
  pub user_id : Text
  pub token_hash : Text
  pub created_at : ℕ
  pub expires_at : ℕ
  pub revoked_at : Option ℕ
  pub updated_at : ℕ

abbrev pub session_key : SessionRow → Text
session_key r = r.session_id

abbrev pub session_version : SessionRow → ℕ
session_version r = r.updated_at

-- `sys_user_session FINAL`
abbrev pub sessions : List SessionRow → List SessionRow
sessions rows = finals session_key session_version rows

abbrev pub session_of : Text → List SessionRow → Option SessionRow
session_of sid rows = find_row session_key session_version sid (sessions rows)

-- `SESSION_TTL`: thirty days
abbrev pub session_ttl : ℕ
session_ttl = 2592000

pub record IssuedSession : Type 0 where
  pub session_id : Text
  pub token : Text
  pub expires_at : ℕ

unfoldable pub insert_session :
    Text
    → Text
    → Text
    → ℕ
    → List SessionRow
    → Option Text
    → Option (IssuedSession × List SessionRow)
unfolding session_token
insert_session session_id secret user_id now rows none = none
insert_session session_id secret user_id now rows (some token_hash) = some (
  record {
    session_id = session_id;
    token = session_token session_id secret;
    expires_at = now + session_ttl;
  },
  rows
      ++ record {
        session_id = session_id;
        user_id = user_id;
        token_hash = token_hash;
        created_at = now;
        expires_at = now + session_ttl;
        revoked_at = none;
        updated_at = now;
      }
        ∷ [],
)

-- `create_session`, with the id, the secret and the salt that it draws; a hash that fails raises
-- before anything is inserted
unfoldable pub create_session :
    Hasher
    → Text
    → Text
    → Text
    → Text
    → ℕ
    → List SessionRow
    → Option (IssuedSession × List SessionRow)
unfolding insert_session
create_session h session_id secret salt user_id now rows =
    insert_session session_id secret user_id now rows (h.hash_secret salt secret)

abbrev pub is_live : SessionRow → Bool
is_live r = elim r.revoked_at [ none ↦ true | some t ↦ false ]

unfoldable pub authenticate_row : Hasher → Text → ℕ → Option SessionRow → Option (Text × ℕ)
authenticate_row h secret now none = none
authenticate_row h secret now (some r) =
    if not (is_live r) || not (h.verify_secret secret r.token_hash)
    then none
    else if leb r.expires_at now
    then none
    else some (r.user_id, r.expires_at)

unfoldable pub authenticate_parsed :
    Hasher → ℕ → List SessionRow → Option ParsedSession → Option (Text × ℕ)
unfolding find_row finals authenticate_row
authenticate_parsed h now rows none = none
authenticate_parsed h now rows (some p) =
    authenticate_row h p.secret now (session_of p.session_id rows)

-- `authenticate`
unfoldable pub authenticate : Hasher → Text → ℕ → List SessionRow → Option (Text × ℕ)
unfolding parse_session_token authenticate_parsed
authenticate h token now rows = authenticate_parsed h now rows (parse_session_token token)

-- the row that is inserted to revoke a session
abbrev pub revoked : ℕ → SessionRow → SessionRow
revoked now r = record r { revoked_at = some now; updated_at = now }

unfoldable pub revoke_first : ℕ → List SessionRow → List SessionRow → Bool × List SessionRow
revoke_first now rows [] = (false, rows)
revoke_first now rows (r ∷ found) = (true, rows ++ revoked now r ∷ [])

abbrev pub is_session : Text → SessionRow → Bool
is_session sid r = codes_eq r.session_id sid && is_live r

unfoldable pub revoke_parsed : ℕ → List SessionRow → Option ParsedSession → Bool × List SessionRow
unfolding finals select codes_eq revoke_first
revoke_parsed now rows none = (false, rows)
revoke_parsed now rows (some p) =
    revoke_first now rows
      (select session_key session_version (is_session p.session_id) (sessions rows))

-- `revoke`
unfoldable pub revoke : Text → ℕ → List SessionRow → Bool × List SessionRow
unfolding parse_session_token revoke_parsed
revoke token now rows = revoke_parsed now rows (parse_session_token token)

-- the rows that were found are inserted again, as revoked
unfoldable pub revoke_found : ℕ → List SessionRow → List SessionRow → ℕ × List SessionRow
revoke_found now rows [] = (0, rows)
revoke_found now rows (r ∷ found) = (length (r ∷ found), rows ++ map (revoked now) (r ∷ found))

abbrev pub is_of_user : Text → SessionRow → Bool
is_of_user user_id r = codes_eq r.user_id user_id && is_live r

-- `revoke_all_for_user`
unfoldable pub revoke_all_for_user : Text → ℕ → List SessionRow → ℕ × List SessionRow
unfolding finals select codes_eq revoke_found
revoke_all_for_user user_id now rows =
    revoke_found now rows (select session_key session_version (is_of_user user_id) (sessions rows))

abbrev pub is_other : Text → Text → SessionRow → Bool
is_other user_id keep r =
    codes_eq r.user_id user_id && not (codes_eq r.session_id keep) && is_live r

-- `revoke_other_sessions`
unfoldable pub revoke_other_sessions : Text → Text → ℕ → List SessionRow → ℕ × List SessionRow
unfolding finals select codes_eq revoke_found
revoke_other_sessions user_id keep now rows =
    revoke_found now rows
      (select session_key session_version (is_other user_id keep) (sessions rows))

-- A row of dim_user_credential.
pub record Credential : Type 0 where
  pub user_id : Text
  pub password_hash : Text
  pub updated_at : ℕ

abbrev pub credential_key : Credential → Text
credential_key r = r.user_id

abbrev pub credential_version : Credential → ℕ
credential_version r = r.updated_at

pub data PasswordError : Type 0 where
  too_short : PasswordError
  hash_failed : PasswordError

unfoldable pub insert_credential :
    Text → ℕ → List Credential → Option Text → Result PasswordError (List Credential)
insert_credential user_id now rows none = err hash_failed
insert_credential user_id now rows (some stored) =
    ok (rows ++ record { user_id = user_id; password_hash = stored; updated_at = now } ∷ [])

-- `set_password`
unfoldable pub set_password :
    Hasher → Text → Text → Text → ℕ → List Credential → Result PasswordError (List Credential)
unfolding insert_credential
set_password h salt user_id password now rows =
    if ltb (length password) 8
    then err too_short
    else insert_credential user_id now rows (h.hash_secret salt password)

unfoldable pub check_stored : Hasher → Text → Option Credential → Bool
check_stored h password none = false
check_stored h password (some r) =
    ltb 0 (length r.password_hash) && h.verify_secret password r.password_hash

-- `check_password`
unfoldable pub check_password : Hasher → Text → Text → List Credential → Bool
unfolding find_row finals check_stored
check_password h user_id password rows = check_stored h password (
    find_row credential_key credential_version user_id
      (finals credential_key credential_version rows))
