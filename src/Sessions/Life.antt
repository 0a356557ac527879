-- ===== src/Sessions/Life.antt =====
-- `create_session` and `authenticate`.
use mathlib.Core.Path.{subst}
use bormo_stats.Base.{
  ℕ, ◌+◌, ◌<◌, ◌≡◌, refl, ap, ◌∙◌, Bool, true, false, Option, none, some, List, [], ◌∷◌, ◌++◌, leb,
  if◌then◌else◌, arith,
}
use bormo_stats.Base.Text.{codes_eq, codes_eq_refl}
use bormo_stats.Base.Results.{some_injective}
use bormo_stats.Sessions.Table.{Text, find_row}
use bormo_stats.Sessions.Latest.{prefer}
use bormo_stats.Sessions.Changes.{find_row-finals}
use bormo_stats.Sessions.Tokens.{ParsedSession, session_token}
use bormo_stats.Sessions.RoundTrip.{
  IsToken, IsSolid, strip-solid, parse_session_token-session_token,
}
use bormo_stats.Sessions.Defs.{
  Hasher, IsHasher, SessionRow, session_key, session_version, session_of, session_ttl,
  IssuedSession, insert_session, create_session, authenticate_row, authenticate,
}
use bormo_stats.Sessions.Revocation.{IsClocked}
use bormo_stats.Sessions.Authority.{answer-parsed}

-- What is read of each session after a row was inserted.
pub session_of-insert :
    (k : Text) (now : ℕ) (rows : List SessionRow) (r : SessionRow)
    → r.updated_at ≡ now
    → IsClocked now rows
    → session_of k (rows ++ r ∷ [])
      ≡ (if codes_eq r.session_id k then some r else session_of k rows)
unfolding find_row
session_of-insert k now rows r e b =
    find_row-finals session_key session_version k now rows (r ∷ []) (refl, tt) (e, tt) b
    ∙ by_flag (codes_eq r.session_id k)
  where
    by_flag :
        (same : Bool)
        → prefer session_key session_version (if same then some r else none) (session_of k rows)
          ≡ (if same then some r else session_of k rows)
    by_flag true = refl
    by_flag false = refl

issued_row : Text → Text → Text → ℕ → SessionRow
issued_row session_id user_id token_hash now = record {
  session_id = session_id;
  user_id = user_id;
  token_hash = token_hash;
  created_at = now;
  expires_at = now + session_ttl;
  revoked_at = none;
  updated_at = now;
}

answer_issued :
    (h : Hasher) (sid secret user_id stored : Text) (now later : ℕ) (rows : List SessionRow)
    → h.verify_secret secret stored ≡ true
    → IsClocked now rows
    → IsToken (record { session_id = sid; secret = secret })
    → IsSolid (session_token sid secret)
    → later < now + session_ttl
    → authenticate h
        (session_token sid secret)
        later
        (rows ++ issued_row sid user_id stored now ∷ [])
      ≡ some (user_id, now + session_ttl)
unfolding authenticate_row issued_row
answer_issued h sid secret user_id stored now later rows v b t s l =
    let r = issued_row sid user_id stored now in
    let q : ParsedSession = record { session_id = sid; secret = secret } in
    let (_, back) = parse_session_token-session_token (session_token sid secret) q in
    let live : leb (now + session_ttl) later ≡ false = ground arith in
    answer-parsed h (session_token sid secret) later (rows ++ r ∷ []) q
      (back (strip-solid (session_token sid secret) s, t))
    ∙ ap (authenticate_row h secret later) (session_of-insert sid now rows r refl b)
    ∙ rw (codes_eq_refl sid, v, live) refl

created_lem :
    (h : Hasher) (sid secret salt user_id : Text) (now later : ℕ) (rows after : List SessionRow)
    (issued : IssuedSession) (stored : Option Text)
    → IsHasher h
    → h.hash_secret salt secret ≡ stored
    → IsClocked now rows
    → IsToken (record { session_id = sid; secret = secret })
    → IsSolid (session_token sid secret)
    → later < now + session_ttl
    → insert_session sid secret user_id now rows stored ≡ some (issued, after)
    → authenticate h issued.token later after ≡ some (user_id, issued.expires_at)
unfolding insert_session issued_row
created_lem h sid secret salt user_id now later rows after issued none k e b t s l c = cc
created_lem h sid secret salt user_id now later rows after issued (some stored) k e b t s l c =
    let both = some_injective c in
    subst (λ x. authenticate h x.0.token later x.1 ≡ some (user_id, x.0.expires_at)) both
      (answer_issued h sid secret user_id stored now later rows (k salt secret stored e).1 b t s l)

-- The token that `create_session` issues is accepted by `authenticate` at every time before it
-- expires, for the user it was issued to, and with the time of expiry that was issued: where a hash
-- is accepted for its secret, no row was written later than the time of the call, and the id and
-- the secret that were drawn make a token without white space that can be parsed.
pub authenticate-create_session :
    (h : Hasher) (sid secret salt user_id : Text) (now later : ℕ) (rows after : List SessionRow)
    (issued : IssuedSession)
    → IsHasher h
    → IsClocked now rows
    → IsToken (record { session_id = sid; secret = secret })
    → IsSolid (session_token sid secret)
    → later < now + session_ttl
    → create_session h sid secret salt user_id now rows ≡ some (issued, after)
    → authenticate h issued.token later after ≡ some (user_id, issued.expires_at)
unfolding create_session
authenticate-create_session h sid secret salt user_id now later rows after issued k b t s l c =
    created_lem h sid secret salt user_id now later rows after issued (h.hash_secret salt secret) k
      refl b t s l c
