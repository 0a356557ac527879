-- ===== src/Sessions/Passwords.antt =====
-- `set_password` and `check_password` over the functions of app.core.security.
use mathlib.Core.Path.{subst}
use bormo_stats.Base.{
  ℕ, ◌≤◌, ◌≡◌, refl, ap, ◌∙◌, Bool, true, false, Option, none, some, List, [], ◌∷◌, ◌++◌, ltb,
  length, if◌then◌else◌, arith,
}
use bormo_stats.Base.Text.{codes_eq, codes_eq_refl}
use bormo_stats.Base.Results.{ok, err, ok_injective}
use bormo_stats.Sessions.Table.{Text, find_row, IsBefore}
use bormo_stats.Sessions.Changes.{find_row-finals}
use bormo_stats.Sessions.Secrets.{Crypto, IsCrypto, hash_secret, verify_secret}
use bormo_stats.Sessions.Hashing.{verify_secret-hash_secret, hash_secret-not_empty}
use bormo_stats.Sessions.Defs.{
  Hasher, IsHasher, Credential, credential_key, credential_version, too_short, insert_credential,
  set_password, check_stored, check_password,
}

-- The functions of app.core.security are what the service relies on.
abbrev pub security : Crypto → Hasher
security c = record {
  hash_secret = λ salt secret. hash_secret c salt secret;
  verify_secret = λ secret stored. verify_secret c secret stored;
}

pub security-IsHasher : (c : Crypto) → IsCrypto c → IsHasher (security c)
security-IsHasher c k salt secret stored e = (
  hash_secret-not_empty c salt secret stored e,
  (verify_secret-hash_secret c salt secret stored k e).0,
)

-- What a user's check is after a password was stored.
abbrev pub IsStored : Hasher → Text → Text → List Credential → List Credential → Type 0
IsStored h user_id password rows after =
    (check_password h user_id password after ≡ true)
    × ((other guess : Text)
        → codes_eq user_id other ≡ false
        → check_password h other guess after ≡ check_password h other guess rows)

inserted-IsStored :
    (h : Hasher) (user_id password stored : Text) (now : ℕ) (rows : List Credential)
    → (ltb 0 (length stored) ≡ true) × (h.verify_secret password stored ≡ true)
    → IsBefore credential_key credential_version now rows
    → IsStored h user_id password rows
        (rows ++ record { user_id = user_id; password_hash = stored; updated_at = now } ∷ [])
unfolding check_password check_stored find_row
inserted-IsStored h user_id password stored now rows (full, v) b =
    let row : Credential = record { user_id = user_id; password_hash = stored; updated_at = now } in
    let read = λ (k : Text).
      find_row-finals credential_key credential_version k now rows (row ∷ []) (refl, tt) (refl, tt)
        b in
    (
      ap (check_stored h password) (read user_id) ∙ rw (codes_eq_refl user_id, full, v) refl,
      λ other guess e. ap (check_stored h guess) (read other) ∙ rw e refl,
    )

insert-IsStored :
    (h : Hasher) (salt user_id password : Text) (now : ℕ) (rows after : List Credential)
    (o : Option Text)
    → IsHasher h
    → IsBefore credential_key credential_version now rows
    → h.hash_secret salt password ≡ o
    → insert_credential user_id now rows o ≡ ok after
    → IsStored h user_id password rows after
unfolding insert_credential
insert-IsStored h salt user_id password now rows after none k b e i = cc
insert-IsStored h salt user_id password now rows after (some stored) k b e i =
    subst (IsStored h user_id password rows) (ok_injective i)
      (inserted-IsStored h user_id password stored now rows (k salt password stored e) b)

-- A password that `set_password` takes has at least eight characters, is accepted for its user by
-- `check_password`, and changes no answer for any other user: where hashes are not empty and are
-- accepted for their secrets, and no credential was written later than the time of the call.
pub check_password-set_password :
    (h : Hasher) (salt user_id password : Text) (now : ℕ) (rows after : List Credential)
    → IsHasher h
    → IsBefore credential_key credential_version now rows
    → set_password h salt user_id password now rows ≡ ok after
    → (8 ≤ length password) × IsStored h user_id password rows after
unfolding set_password
check_password-set_password h salt user_id password now rows after k b e =
    by_flag (ltb (length password) 8) refl e
  where
    by_flag :
        (short : Bool)
        → ltb (length password) 8 ≡ short
        → (if short
            then err too_short
            else insert_credential user_id now rows (h.hash_secret salt password))
          ≡ ok after
        → (8 ≤ length password) × IsStored h user_id password rows after
    by_flag true s i = cc
    by_flag false s i = (
      ground arith,
      insert-IsStored h salt user_id password now rows after (h.hash_secret salt password) k b refl
          i,
    )
