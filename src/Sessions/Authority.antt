-- ===== src/Sessions/Authority.antt =====
-- `authenticate` after `revoke`, `revoke_all_for_user` and `revoke_other_sessions`.
use bormo_stats.Base.{
  ℕ, ◌≡◌, refl, ap, sym, ◌∙◌, Bool, true, false, Option, none, some, List, [], ◌∷◌, if◌then◌else◌,
}
use bormo_stats.Base.Text.{codes_eq}
use bormo_stats.Sessions.Table.{Text, select}
use bormo_stats.Sessions.Latest.{finals-IsDistinct}
use bormo_stats.Sessions.Tokens.{ParsedSession, parse_session_token}
use bormo_stats.Sessions.Defs.{
  Hasher, SessionRow, session_key, session_version, sessions, session_of, is_live, authenticate_row,
  authenticate_parsed, authenticate, revoke_first, is_session, revoke_parsed, revoke, revoke_found,
  is_of_user, revoke_all_for_user, is_other, revoke_other_sessions,
}
use bormo_stats.Sessions.Revocation.{IsClocked, session_of-found, only, select-session}
use bormo_stats.Sessions.Answers.{
  session_of-IsRead, changed_session, unless_user, changed_user, changed_other,
}

pub answer-parsed :
    (h : Hasher) (token : Text) (now : ℕ) (rows : List SessionRow) (q : ParsedSession)
    → parse_session_token token ≡ some q
    → authenticate h token now rows ≡ authenticate_row h q.secret now (session_of q.session_id rows)
unfolding authenticate authenticate_parsed
answer-parsed h token now rows q e = ap (authenticate_parsed h now rows) e

first_found :
    (now : ℕ) (rows : List SessionRow) (o : Option SessionRow)
    → (revoke_first now rows (only o)).1 ≡ (revoke_found now rows (only o)).1
unfolding revoke_first revoke_found only
first_found now rows none = refl
first_found now rows (some r) = by_flag (is_live r)
  where
    by_flag :
        (live : Bool)
        → (revoke_first now rows (if live then r ∷ [] else [])).1
          ≡ (revoke_found now rows (if live then r ∷ [] else [])).1
    by_flag true = refl
    by_flag false = refl

pub revoke-rows :
    (token : Text) (now : ℕ) (rows : List SessionRow) (p : ParsedSession)
    → parse_session_token token ≡ some p
    → (revoke token now rows).1
      ≡ (revoke_found now rows
          (select session_key session_version (is_session p.session_id) (sessions rows))).1
unfolding revoke revoke_parsed
revoke-rows token now rows p e =
    let one =
      select-session p.session_id (sessions rows)
        (finals-IsDistinct session_key session_version rows) in
    ap (λ o. (revoke_parsed now rows o).1) e
    ∙ ap (λ l. (revoke_first now rows l).1) one
    ∙ first_found now rows (session_of p.session_id rows)
    ∙ ap (λ l. (revoke_found now rows l).1) (sym one)

-- After `revoke` of a token, no token of that session is accepted any more, and every other token
-- is answered as before: where no row was written later than the time of the call.
pub authenticate-revoke :
    (h : Hasher) (token other : Text) (now later : ℕ) (rows : List SessionRow) (p q : ParsedSession)
    → IsClocked now rows
    → parse_session_token token ≡ some p
    → parse_session_token other ≡ some q
    → authenticate h other later (revoke token now rows).1
      ≡ (if codes_eq q.session_id p.session_id then none else authenticate h other later rows)
authenticate-revoke h token other now later rows p q b e f =
    answer-parsed h other later (revoke token now rows).1 q f
    ∙ ap (λ t. authenticate_row h q.secret later (session_of q.session_id t))
        (revoke-rows token now rows p e)
    ∙ ap (authenticate_row h q.secret later)
        (session_of-found q.session_id now (is_session p.session_id) rows b)
    ∙ changed_session h q.secret q.session_id p.session_id now later (session_of q.session_id rows)
        (session_of-IsRead q.session_id rows)
    ∙ ap (λ a. if codes_eq q.session_id p.session_id then none else a)
        (sym (answer-parsed h other later rows q f))

-- After `revoke_all_for_user` no token of the user is accepted, and every other token is answered
-- as before: where no row was written later than the time of the call.
pub authenticate-revoke_all_for_user :
    (h : Hasher) (user_id other : Text) (now later : ℕ) (rows : List SessionRow) (q : ParsedSession)
    → IsClocked now rows
    → parse_session_token other ≡ some q
    → authenticate h other later (revoke_all_for_user user_id now rows).1
      ≡ unless_user user_id (authenticate h other later rows)
unfolding revoke_all_for_user
authenticate-revoke_all_for_user h user_id other now later rows q b f =
    answer-parsed h other later (revoke_all_for_user user_id now rows).1 q f
    ∙ ap (authenticate_row h q.secret later)
        (session_of-found q.session_id now (is_of_user user_id) rows b)
    ∙ changed_user h q.secret user_id now later (session_of q.session_id rows)
    ∙ ap (unless_user user_id) (sym (answer-parsed h other later rows q f))

-- After `revoke_other_sessions` a token of the session to keep is answered as before, and of every
-- other one what `revoke_all_for_user` leaves: where no row was written later than the time of the
-- call.
pub authenticate-revoke_other_sessions :
    (h : Hasher) (user_id keep other : Text) (now later : ℕ) (rows : List SessionRow)
    (q : ParsedSession)
    → IsClocked now rows
    → parse_session_token other ≡ some q
    → authenticate h other later (revoke_other_sessions user_id keep now rows).1 ≡ (
        if codes_eq q.session_id keep
        then authenticate h other later rows
        else unless_user user_id (authenticate h other later rows))
unfolding revoke_other_sessions
authenticate-revoke_other_sessions h user_id keep other now later rows q b f =
    answer-parsed h other later (revoke_other_sessions user_id keep now rows).1 q f
    ∙ ap (authenticate_row h q.secret later)
        (session_of-found q.session_id now (is_other user_id keep) rows b)
    ∙ changed_other h q.secret q.session_id user_id keep now later (session_of q.session_id rows)
        (session_of-IsRead q.session_id rows)
    ∙ ap (λ a. if codes_eq q.session_id keep then a else unless_user user_id a)
        (sym (answer-parsed h other later rows q f))
