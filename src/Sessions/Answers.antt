-- ===== src/Sessions/Answers.antt =====
-- `authenticate` on a row that was inserted again as revoked.
use mathlib.Core.Path.{subst}
use bormo_stats.Base.{
  ℕ, ◌≡◌, refl, ap, ◌∙◌, Bool, true, false, not, ◌&&◌, ◌||◌, Option, none, some, List, [], ◌∷◌, leb,
  if◌then◌else◌, arith,
}
use bormo_stats.Base.Text.{codes_eq}
use bormo_stats.Base.Results.{some_injective}
use bormo_stats.Sessions.Table.{Text, codes_eq-same, find_row}
use bormo_stats.Sessions.Changes.{changed}
use bormo_stats.Sessions.Defs.{
  Hasher, SessionRow, session_key, session_version, sessions, session_of, is_live, authenticate_row,
  revoked, is_session, is_of_user, is_other,
}

-- What is found by a key has that key.
pub find_row-key :
    (k : Text) (t : List SessionRow) (r : SessionRow)
    → find_row session_key session_version k t ≡ some r
    → codes_eq r.session_id k ≡ true
unfolding find_row
find_row-key k [] r h = cc
find_row-key k (s ∷ t) r h = by_flag (codes_eq s.session_id k) refl h (find_row-key k t r)
  where
    by_flag :
        (same : Bool)
        → codes_eq s.session_id k ≡ same
        → (if same then some s else find_row session_key session_version k t) ≡ some r
        → (find_row session_key session_version k t ≡ some r → codes_eq r.session_id k ≡ true)
        → codes_eq r.session_id k ≡ true
    by_flag true e q ih = subst (λ x. codes_eq x.session_id k ≡ true) (some_injective q) e
    by_flag false e q ih = ih q

-- The row that a query read, with the key that it asked for.
unfoldable pub IsRead : Text → Option SessionRow → Type 0
IsRead k o = (r : SessionRow) → o ≡ some r → codes_eq r.session_id k ≡ true

pub session_of-IsRead : (k : Text) (rows : List SessionRow) → IsRead k (session_of k rows)
unfolding IsRead
session_of-IsRead k rows r h = find_row-key k (sessions rows) r h

-- A row that is revoked if `b` and if it is not revoked yet.
revoked_row :
    (h : Hasher) (secret : Text) (now later : ℕ) (r : SessionRow) (b live : Bool)
    → is_live r ≡ live
    → authenticate_row h secret later (some (if b && live then revoked now r else r))
      ≡ (if b then none else authenticate_row h secret later (some r))
unfolding authenticate_row
revoked_row h secret now later r true true e = refl
revoked_row h secret now later r true false e = rw e refl
revoked_row h secret now later r false live e = refl

pub changed_session :
    (h : Hasher) (secret k sid : Text) (now later : ℕ) (o : Option SessionRow)
    → IsRead k o
    → authenticate_row h secret later
        (changed session_key session_version (is_session sid) (revoked now) (λ r. refl) o)
      ≡ (if codes_eq k sid then none else authenticate_row h secret later o)
unfolding authenticate_row IsRead
changed_session h secret k sid now later none i = ground arith
changed_session h secret k sid now later (some r) i =
    let same = codes_eq-same r.session_id k sid (i r refl) in
    ap (λ b. authenticate_row h secret later (some (if b && is_live r then revoked now r else r)))
      same
    ∙ revoked_row h secret now later r (codes_eq k sid) (is_live r) refl

-- What is left of an answer when a user's sessions are revoked.
abbrev pub unless_user : Text → Option (Text × ℕ) → Option (Text × ℕ)
unless_user user_id none = none
unless_user user_id (some (u, e)) = if codes_eq u user_id then none else some (u, e)

user_row :
    (h : Hasher) (secret user_id : Text) (later : ℕ) (r : SessionRow)
    → (if codes_eq r.user_id user_id then none else authenticate_row h secret later (some r))
      ≡ unless_user user_id (authenticate_row h secret later (some r))
unfolding authenticate_row
user_row h secret user_id later r =
    by_flags (codes_eq r.user_id user_id)
      (not (is_live r) || not (h.verify_secret secret r.token_hash)) (leb r.expires_at later) refl
  where
    by_flags :
        (same bad over : Bool)
        → codes_eq r.user_id user_id ≡ same
        → (if same
            then none
            else if bad
            then none
            else if over
            then none
            else some (r.user_id, r.expires_at))
          ≡ unless_user user_id
              (if bad then none else if over then none else some (r.user_id, r.expires_at))
    by_flags true true over e = refl
    by_flags false true over e = refl
    by_flags true false true e = refl
    by_flags false false true e = refl
    by_flags true false false e = rw e refl
    by_flags false false false e = rw e refl

pub changed_user :
    (h : Hasher) (secret user_id : Text) (now later : ℕ) (o : Option SessionRow)
    → authenticate_row h secret later
        (changed session_key session_version (is_of_user user_id) (revoked now) (λ r. refl) o)
      ≡ unless_user user_id (authenticate_row h secret later o)
unfolding authenticate_row
changed_user h secret user_id now later none = refl
changed_user h secret user_id now later (some r) =
    revoked_row h secret now later r (codes_eq r.user_id user_id) (is_live r) refl
    ∙ user_row h secret user_id later r

pub changed_other :
    (h : Hasher) (secret k user_id keep : Text) (now later : ℕ) (o : Option SessionRow)
    → IsRead k o
    → authenticate_row h secret later
        (changed session_key session_version (is_other user_id keep) (revoked now) (λ r. refl) o)
      ≡ (if codes_eq k keep
          then authenticate_row h secret later o
          else unless_user user_id (authenticate_row h secret later o))
unfolding authenticate_row IsRead
changed_other h secret k user_id keep now later none i = ground arith
changed_other h secret k user_id keep now later (some r) i =
    ap
      (λ b.
        authenticate_row h secret later
          (some (if codes_eq r.user_id user_id && not b && is_live r then revoked now r else r)))
      (codes_eq-same r.session_id k keep (i r refl))
    ∙ by_flag (codes_eq k keep)
  where
    by_flag :
        (kept : Bool)
        → authenticate_row h secret later (
            some (if codes_eq r.user_id user_id && not kept && is_live r then revoked now r else r))
          ≡ (if kept
              then authenticate_row h secret later (some r)
              else unless_user user_id (authenticate_row h secret later (some r)))
    by_flag kept =
        revoked_row h secret now later r (codes_eq r.user_id user_id && not kept) (is_live r) refl
        ∙ by_flags (codes_eq r.user_id user_id) kept (user_row h secret user_id later r)
      where
        by_flags :
            (same kept : Bool)
            → (if same then none else authenticate_row h secret later (some r))
              ≡ unless_user user_id (authenticate_row h secret later (some r))
            → (if same && not kept then none else authenticate_row h secret later (some r)) ≡ (
                if kept
                then authenticate_row h secret later (some r)
                else unless_user user_id (authenticate_row h secret later (some r)))
        by_flags true true e = refl
        by_flags true false e = e
        by_flags false true e = refl
        by_flags false false e = e
