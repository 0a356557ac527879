-- ===== src/Sessions/Forever.antt =====
-- Sequences of calls of SessionService after `revoke`.
use mathlib.Core.Path.{subst}
use bormo_stats.Base.{
  ℕ, ◌≡◌, refl, ap, sym, ◌∙◌, Bool, true, false, ◌&&◌, Option, none, some, List, [], ◌∷◌,
  if◌then◌else◌,
}
use bormo_stats.Base.Text.{codes_eq}
use bormo_stats.Base.Results.{some_injective}
use bormo_stats.Sessions.Table.{Text, select}
use bormo_stats.Sessions.Changes.{changed}
use bormo_stats.Sessions.Tokens.{ParsedSession, parse_session_token}
use bormo_stats.Sessions.Defs.{
  Hasher, SessionRow, session_key, session_version, sessions, session_of, create_session, is_live,
  authenticate_row, authenticate, revoked, is_session, revoke_parsed, revoke, is_of_user,
  revoke_all_for_user, is_other, revoke_other_sessions,
}
use bormo_stats.Sessions.Revocation.{IsClocked, session_of-found}
use bormo_stats.Sessions.Answers.{IsRead, session_of-IsRead}
use bormo_stats.Sessions.Authority.{answer-parsed, revoke-rows}
use bormo_stats.Sessions.Kept.{
  Call, sign_in, sign_out, sign_out_user, sign_out_others, step, run, IsFresh, IsLater, IsDead,
  later-IsClocked, found-IsClocked, IsKept, sign_in-IsKept, found-IsKept,
}

refused_rows :
    (token : Text) (now : ℕ) (rows : List SessionRow)
    → parse_session_token token ≡ none
    → (revoke token now rows).1 ≡ rows
unfolding revoke revoke_parsed
refused_rows token now rows e = ap (λ o. (revoke_parsed now rows o).1) e

sign_out-IsKept :
    (k token : Text) (now : ℕ) (o : Option ParsedSession) (rows : List SessionRow)
    → parse_session_token token ≡ o
    → IsKept k now rows
    → IsKept k now (revoke token now rows).1
sign_out-IsKept k token now (some p) rows e h =
    subst (IsKept k now) (sym (revoke-rows token now rows p e))
      (found-IsKept k now (is_session p.session_id) rows h)
sign_out-IsKept k token now none rows e h =
    subst (IsKept k now) (sym (refused_rows token now rows e)) h

step-IsKept :
    (h : Hasher) (k : Text) (now : ℕ) (call : Call) (rows : List SessionRow)
    → IsFresh k call
    → IsKept k now rows
    → IsKept k now (step h now call rows)
unfolding step create_session revoke_all_for_user revoke_other_sessions
step-IsKept h k now (sign_in sid secret salt user_id) rows f d =
    sign_in-IsKept k now sid secret user_id (h.hash_secret salt secret) rows f d
step-IsKept h k now (sign_out token) rows f d =
    sign_out-IsKept k token now (parse_session_token token) rows refl d
step-IsKept h k now (sign_out_user user_id) rows f d =
    found-IsKept k now (is_of_user user_id) rows d
step-IsKept h k now (sign_out_others user_id keep) rows f d =
    found-IsKept k now (is_other user_id keep) rows d

run-IsDead :
    (h : Hasher) (k : Text) (last : ℕ) (calls : List (ℕ × Call)) (rows : List SessionRow)
    → IsLater k last calls
    → IsKept k last rows
    → IsDead k (run h calls rows)
unfolding run IsKept
run-IsDead h k last [] rows l (b, d) = d
run-IsDead h k last ((now, call) ∷ calls) rows (after, f, l) (b, d) =
    run-IsDead h k now calls (step h now call rows) l
      (step-IsKept h k now call rows f (later-IsClocked last now rows after b, d))

IsRead-key : (k : Text) (s : SessionRow) → IsRead k (some s) → codes_eq s.session_id k ≡ true
unfolding IsRead
IsRead-key k s f = f s refl

-- After `revoke` no row of the session is live.
revoke-IsKept :
    (token : Text) (now : ℕ) (rows : List SessionRow) (p : ParsedSession)
    → IsClocked now rows
    → parse_session_token token ≡ some p
    → IsKept p.session_id now (revoke token now rows).1
unfolding IsKept IsDead
revoke-IsKept token now rows p b e =
    let found = select session_key session_version (is_session p.session_id) (sessions rows) in
    let same = sym (revoke-rows token now rows p e) in
    (
      subst (IsClocked now) same (found-IsClocked now rows found b),
      λ r q. settled (session_of p.session_id rows) (session_of-IsRead p.session_id rows) r (
          sym (session_of-found p.session_id now (is_session p.session_id) rows b)
          ∙ ap (session_of p.session_id) same
          ∙ q),
    )
  where
    settled :
        (o : Option SessionRow)
        → IsRead p.session_id o
        → (r : SessionRow)
        → changed session_key session_version (is_session p.session_id) (revoked now) (λ s. refl) o
          ≡ some r
        → is_live r ≡ false
    settled none f r q = cc
    settled (some s) f r q =
        by_flags (codes_eq s.session_id p.session_id) (is_live s) refl (IsRead-key p.session_id s f)
          q
      where
        by_flags :
            (same live : Bool)
            → is_live s ≡ live
            → same ≡ true
            → some (if same && live then revoked now s else s) ≡ some r
            → is_live r ≡ false
        by_flags true true m k u = subst (λ x. is_live x ≡ false) (some_injective u) refl
        by_flags true false m k u = subst (λ x. is_live x ≡ false) (some_injective u) m
        by_flags false live m k u = cc

dead_answer :
    (h : Hasher) (secret k : Text) (later : ℕ) (o : Option SessionRow)
    → ((r : SessionRow) → o ≡ some r → is_live r ≡ false)
    → authenticate_row h secret later o ≡ none
unfolding authenticate_row
dead_answer h secret k later none d = refl
dead_answer h secret k later (some r) d = rw (d r refl) refl

-- Once a token was given to `revoke`, no token of its session is ever accepted again, whatever
-- sessions are issued or revoked afterwards: where the clock does not go back, no row was written
-- later than the time of that call, and no later session draws the same id.
pub revoked_forever :
    (h : Hasher) (token other : Text) (now later : ℕ) (calls : List (ℕ × Call))
    (rows : List SessionRow) (p q : ParsedSession)
    → IsClocked now rows
    → parse_session_token token ≡ some p
    → parse_session_token other ≡ some q
    → q.session_id ≡ p.session_id
    → IsLater p.session_id now calls
    → authenticate h other later (run h calls (revoke token now rows).1) ≡ none
unfolding IsDead
revoked_forever h token other now later calls rows p q b e f same l =
    let after = run h calls (revoke token now rows).1 in
    let dead =
      run-IsDead h p.session_id now calls (revoke token now rows).1 l
        (revoke-IsKept token now rows p b e) in
    answer-parsed h other later after q f
    ∙ dead_answer h q.secret q.session_id later (session_of q.session_id after)
        (λ r u. dead r (ap (λ x. session_of x after) (sym same) ∙ u))
