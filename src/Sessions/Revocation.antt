-- ===== src/Sessions/Revocation.antt =====
-- Which rows a revocation finds, and what is read of a session after it.
use bormo_stats.Base.{
  ℕ, ◌≡◌, refl, ap, sym, ◌∙◌, Bool, true, false, ◌&&◌, Option, none, some, List, [], ◌∷◌, ◌++◌, map,
  if◌then◌else◌, append-nil,
}
use bormo_stats.Base.Text.{codes_eq, codes_eq_sound}
use bormo_stats.Sessions.Table.{Text, find_row, select, IsBefore, IsDistinct}
use bormo_stats.Sessions.Changes.{changed, find_row-changed}
use bormo_stats.Sessions.Defs.{
  SessionRow, session_key, session_version, sessions, session_of, is_live, revoked, is_session,
  revoke_found,
}

-- No row was written after this time.
abbrev pub IsClocked : ℕ → List SessionRow → Type 0
IsClocked now rows = IsBefore session_key session_version now rows

pub session_of-found :
    (sid : Text) (now : ℕ) (c : SessionRow → Bool) (rows : List SessionRow)
    → IsClocked now rows
    → session_of sid
        (revoke_found now rows (select session_key session_version c (sessions rows))).1
      ≡ changed session_key session_version c (revoked now) (λ r. refl) (session_of sid rows)
unfolding revoke_found
session_of-found sid now c rows b =
    by_found (select session_key session_version c (sessions rows)) (
      find_row-changed session_key session_version c (revoked now) (λ r. refl) now (λ r. refl) sid
        rows b)
  where
    by_found :
        (found : List SessionRow)
        → session_of sid (rows ++ map (revoked now) found)
          ≡ changed session_key session_version c (revoked now) (λ r. refl) (session_of sid rows)
        → session_of sid (revoke_found now rows found).1
          ≡ changed session_key session_version c (revoked now) (λ r. refl) (session_of sid rows)
    by_found [] h = ap (session_of sid) (sym (append-nil rows)) ∙ h
    by_found (r ∷ found) h = h

-- The query by id finds at most one row.
unfoldable pub only : Option SessionRow → List SessionRow
only none = []
only (some r) = if is_live r then r ∷ [] else []

select-absent :
    (sid : Text) (t : List SessionRow)
    → find_row session_key session_version sid t ≡ none
    → select session_key session_version (is_session sid) t ≡ []
unfolding select find_row
select-absent sid [] h = refl
select-absent sid (r ∷ t) h = by_flag (codes_eq r.session_id sid) h (select-absent sid t)
  where
    by_flag :
        (same : Bool)
        → (if same then some r else find_row session_key session_version sid t) ≡ none
        → (find_row session_key session_version sid t ≡ none
            → select session_key session_version (is_session sid) t ≡ [])
        → (if same && is_live r
            then r ∷ select session_key session_version (is_session sid) t
            else select session_key session_version (is_session sid) t)
          ≡ []
    by_flag true q ih = cc
    by_flag false q ih = ih q

pub select-session :
    (sid : Text) (t : List SessionRow)
    → IsDistinct session_key session_version t
    → select session_key session_version (is_session sid) t
      ≡ only (find_row session_key session_version sid t)
unfolding select find_row only
select-session sid [] d = refl
select-session sid (r ∷ t) (d, ds) =
    by_flags (codes_eq r.session_id sid) (is_live r) refl refl (select-session sid t ds)
  where
    alone :
        codes_eq r.session_id sid ≡ true
        → select session_key session_version (is_session sid) t ≡ []
    alone e = select-absent sid t (
        ap (λ x. find_row session_key session_version x t) (sym (codes_eq_sound r.session_id sid e))
        ∙ d)

    by_flags :
        (same live : Bool)
        → codes_eq r.session_id sid ≡ same
        → is_live r ≡ live
        → select session_key session_version (is_session sid) t
          ≡ only (find_row session_key session_version sid t)
        → (if same && live
            then r ∷ select session_key session_version (is_session sid) t
            else select session_key session_version (is_session sid) t)
          ≡ only (if same then some r else find_row session_key session_version sid t)
    by_flags true true e l ih = rw (alone e, l) refl
    by_flags true false e l ih = rw (alone e, l) refl
    by_flags false live e l ih = ih
