-- ===== src/Sessions/Kept.antt =====
-- The calls of the service, and the rows of one session under each.
use mathlib.Core.Path.{subst}
use bormo_stats.Base.{
  ℕ, ◌+◌, ◌≤◌, ◌≡◌, refl, sym, ◌∙◌, Bool, true, false, Option, none, some, List, [], ◌∷◌, ◌++◌, map,
  if◌then◌else◌, arith,
}
use bormo_stats.Base.Text.{codes_eq}
use bormo_stats.Base.Results.{some_injective}
use bormo_stats.Sessions.Table.{Text, select}
use bormo_stats.Sessions.Changes.{changed}
use bormo_stats.Sessions.Defs.{
  Hasher, SessionRow, session_key, session_version, sessions, session_of, session_ttl,
  IssuedSession, insert_session, create_session, is_live, revoked, revoke, revoke_found,
  revoke_all_for_user, revoke_other_sessions,
}
use bormo_stats.Sessions.Revocation.{IsClocked, session_of-found}
use bormo_stats.Sessions.Life.{session_of-insert}

-- A call of a method that writes rows, with what it draws.
pub data Call : Type 0 where
  sign_in : (sid secret salt user_id : Text) → Call
  sign_out : (token : Text) → Call
  sign_out_user : (user_id : Text) → Call
  sign_out_others : (user_id keep : Text) → Call

unfoldable pub created_rows :
    List SessionRow → Option (IssuedSession × List SessionRow) → List SessionRow
created_rows rows none = rows
created_rows rows (some (issued, after)) = after

-- The rows after a call at a time.
unfoldable pub step : Hasher → ℕ → Call → List SessionRow → List SessionRow
unfolding create_session revoke revoke_all_for_user revoke_other_sessions created_rows
step h now (sign_in sid secret salt user_id) rows =
    created_rows rows (create_session h sid secret salt user_id now rows)
step h now (sign_out token) rows = (revoke token now rows).1
step h now (sign_out_user user_id) rows = (revoke_all_for_user user_id now rows).1
step h now (sign_out_others user_id keep) rows = (revoke_other_sessions user_id keep now rows).1

unfoldable pub run : Hasher → List (ℕ × Call) → List SessionRow → List SessionRow
unfolding step
run h [] rows = rows
run h ((now, call) ∷ calls) rows = run h calls (step h now call rows)

-- The clock does not go back, and no new session draws the id.
abbrev pub IsFresh : Text → Call → Type 0
IsFresh k (sign_in sid secret salt user_id) = codes_eq sid k ≡ false
IsFresh k (sign_out token) = Unit
IsFresh k (sign_out_user user_id) = Unit
IsFresh k (sign_out_others user_id keep) = Unit

abbrev pub IsLater : Text → ℕ → List (ℕ × Call) → Type 0
IsLater k last [] = Unit
IsLater k last ((now, call) ∷ calls) = (last ≤ now) × IsFresh k call × IsLater k now calls

-- No row of the session can be accepted.
unfoldable pub IsDead : Text → List SessionRow → Type 0
IsDead k rows = (r : SessionRow) → session_of k rows ≡ some r → is_live r ≡ false

pub append-IsClocked :
    (now : ℕ) (rows rs : List SessionRow)
    → IsClocked now rows
    → IsClocked now rs
    → IsClocked now (rows ++ rs)
append-IsClocked now [] rs h k = k
append-IsClocked now (r ∷ rows) rs (h, hs) k = (h, append-IsClocked now rows rs hs k)

pub later-IsClocked :
    (last now : ℕ) (rows : List SessionRow) → last ≤ now → IsClocked last rows → IsClocked now rows
later-IsClocked last now [] l h = tt
later-IsClocked last now (r ∷ rows) l (h, hs) = (omega arith, later-IsClocked last now rows l hs)

pub revoked-IsClocked :
    (now : ℕ) (found : List SessionRow) → IsClocked now (map (revoked now) found)
revoked-IsClocked now [] = tt
revoked-IsClocked now (r ∷ found) = (omega arith, revoked-IsClocked now found)

pub found-IsClocked :
    (now : ℕ) (rows found : List SessionRow)
    → IsClocked now rows
    → IsClocked now (revoke_found now rows found).1
unfolding revoke_found
found-IsClocked now rows [] h = h
found-IsClocked now rows (r ∷ found) h =
    append-IsClocked now rows (map (revoked now) (r ∷ found)) h (revoked-IsClocked now (r ∷ found))

pub found-IsDead :
    (k : Text) (now : ℕ) (c : SessionRow → Bool) (rows : List SessionRow)
    → IsClocked now rows
    → IsDead k rows
    → IsDead k (revoke_found now rows (select session_key session_version c (sessions rows))).1
unfolding IsDead
found-IsDead k now c rows b d r e =
    settled (session_of k rows) d (sym (session_of-found k now c rows b) ∙ e)
  where
    settled :
        (o : Option SessionRow)
        → ((s : SessionRow) → o ≡ some s → is_live s ≡ false)
        → changed session_key session_version c (revoked now) (λ s. refl) o ≡ some r
        → is_live r ≡ false
    settled none f q = cc
    settled (some s) f q = by_flag (c s) q
      where
        by_flag : (b : Bool) → some (if b then revoked now s else s) ≡ some r → is_live r ≡ false
        by_flag true p = subst (λ x. is_live x ≡ false) (some_injective p) refl
        by_flag false p = f r p

-- What a call keeps.
unfoldable pub IsKept : Text → ℕ → List SessionRow → Type 0
IsKept k now rows = IsClocked now rows × IsDead k rows

pub sign_in-IsKept :
    (k : Text) (now : ℕ) (sid secret user_id : Text) (stored : Option Text) (rows : List SessionRow)
    → codes_eq sid k ≡ false
    → IsKept k now rows
    → IsKept k now (created_rows rows (insert_session sid secret user_id now rows stored))
unfolding created_rows insert_session IsKept IsDead
sign_in-IsKept k now sid secret user_id none rows f h = h
sign_in-IsKept k now sid secret user_id (some stored) rows f (b, d) =
    let row : SessionRow = record {
      session_id = sid;
      user_id = user_id;
      token_hash = stored;
      created_at = now;
      expires_at = now + session_ttl;
      revoked_at = none;
      updated_at = now;
    } in
    (
      append-IsClocked now rows (row ∷ []) b (omega arith, tt),
      λ r e. d r (sym (session_of-insert k now rows row refl b ∙ rw f refl) ∙ e),
    )

pub found-IsKept :
    (k : Text) (now : ℕ) (c : SessionRow → Bool) (rows : List SessionRow)
    → IsKept k now rows
    → IsKept k now (revoke_found now rows (select session_key session_version c (sessions rows))).1
unfolding IsKept
found-IsKept k now c rows (b, d) = (
  found-IsClocked now rows (select session_key session_version c (sessions rows)) b,
  found-IsDead k now c rows b d,
)
