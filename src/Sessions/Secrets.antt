-- ===== src/Sessions/Secrets.antt =====
-- backend/app/core/security.py: `hash_secret`, `verify_secret` and `needs_rehash`. Texts and bytes
-- are lists of numbers. The functions of the libraries are an interface.
use bormo_stats.Base.{
  ℕ, ◌≡◌, Bool, false, not, Option, none, some, List, [], ◌∷◌, ◌++◌, ◌==◌, length, if◌then◌else◌,
  All,
}
use bormo_stats.Base.Text.{codes, codes_eq, starts_with}
use bormo_stats.Sessions.Table.{Text}

-- hashlib.scrypt (secret, salt, n, r, p, length; a ValueError is `none`), base64 without padding,
-- `str` and `int` of a number, and the hexadecimal SHA-256 digest.
pub record Crypto : Type 0 where
  pub scrypt : Text → Text → ℕ → ℕ → ℕ → ℕ → Option Text
  pub b64encode : Text → Text
  pub b64decode : Text → Option Text
  pub str : ℕ → Text
  pub int : Text → Option ℕ
  pub sha256_hex : Text → Text

-- No `$` in a text.
abbrev pub IsPlain : Text → Type 0
IsPlain s = All (λ c. (c == 36) ≡ false) s

-- What the libraries document: base64 and decimal numbers are read back and hold no `$`, and a
-- digest has the length that was asked for.
pub record IsCrypto (c : Crypto) : Type 0 where
  pub decode-encode : (b : Text) → c.b64decode (c.b64encode b) ≡ some b
  pub encode-IsPlain : (b : Text) → IsPlain (c.b64encode b)
  pub int-str : (n : ℕ) → c.int (c.str n) ≡ some n
  pub str-IsPlain : (n : ℕ) → IsPlain (c.str n)
  pub length-scrypt :
      (secret salt : Text) (n r p len : ℕ) (d : Text)
      → c.scrypt secret salt n r p len ≡ some d
      → length d ≡ len

abbrev pub scrypt_n : ℕ
scrypt_n = 16384

abbrev pub scrypt_r : ℕ
scrypt_r = 8

abbrev pub scrypt_p : ℕ
scrypt_p = 1

abbrev pub scrypt_dklen : ℕ
scrypt_dklen = 32

-- `"$".join`
unfoldable pub join_dollar : List Text → Text
join_dollar [] = []
join_dollar (p ∷ []) = p
join_dollar (p ∷ q ∷ ps) = p ++ 36 ∷ join_dollar (q ∷ ps)

-- `split("$")`
unfoldable pub push : ℕ → List Text → List Text
push c [] = (c ∷ []) ∷ []
push c (p ∷ ps) = (c ∷ p) ∷ ps

unfoldable pub split_dollar : Text → List Text
unfolding push
split_dollar [] = [] ∷ []
split_dollar (c ∷ s) = let rest = split_dollar s in if c == 36 then [] ∷ rest else push c rest

abbrev pub hash_parts : Crypto → Text → Text → List Text
hash_parts c salt digest =
    codes "scrypt"
    ∷ c.str scrypt_n
    ∷ c.str scrypt_r
    ∷ c.str scrypt_p
    ∷ c.b64encode salt
    ∷ c.b64encode digest
    ∷ []

unfoldable pub hashed : Crypto → Text → Option Text → Option Text
unfolding join_dollar
hashed c salt none = none
hashed c salt (some digest) = some (join_dollar (hash_parts c salt digest))

-- `hash_secret`, with the salt that it draws
unfoldable pub hash_secret : Crypto → Text → Text → Option Text
unfolding hashed
hash_secret c salt secret =
    hashed c salt (c.scrypt secret salt scrypt_n scrypt_r scrypt_p scrypt_dklen)

-- the digest of the secret, compared with the stored one
unfoldable pub same_digest : Option Text → Text → Bool
same_digest none expected = false
same_digest (some actual) expected = codes_eq actual expected

unfoldable pub verify_scrypt :
    Crypto → Text → Option ℕ → Option ℕ → Option ℕ → Option Text → Option Text → Bool
unfolding same_digest
verify_scrypt c secret (some n) (some r) (some p) (some expected) (some salt) =
    same_digest (c.scrypt secret salt n r p (length expected)) expected
verify_scrypt c secret _ _ _ _ _ = false

unfoldable pub verify_parts : Crypto → Text → List Text → Bool
unfolding verify_scrypt codes_eq
verify_parts c secret (kind ∷ n ∷ r ∷ p ∷ salt ∷ digest ∷ []) =
    if codes_eq kind (codes "scrypt")
    then verify_scrypt c secret (c.int n) (c.int r) (c.int p) (c.b64decode digest)
        (c.b64decode salt)
    else false
verify_parts c secret (kind ∷ digest ∷ []) =
    if codes_eq kind (codes "sha256") then codes_eq (c.sha256_hex secret) digest else false
verify_parts c secret _ = false

-- `verify_secret`: a ValueError on the way means false
unfoldable pub verify_secret : Crypto → Text → Text → Bool
unfolding split_dollar verify_parts
verify_secret c secret stored_hash = verify_parts c secret (split_dollar stored_hash)

-- `needs_rehash`
unfoldable pub needs_rehash : Crypto → Text → Bool
unfolding starts_with join_dollar
needs_rehash c stored_hash = not (
    starts_with
      (join_dollar (codes "scrypt" ∷ c.str scrypt_n ∷ c.str scrypt_r ∷ c.str scrypt_p ∷ [] ∷ []))
      stored_hash)
