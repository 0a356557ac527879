-- ===== src/Sessions/Hashing.antt =====
-- `hash_secret`, `verify_secret` and `needs_rehash` on each other's results.
use mathlib.Core.Path.{subst}
use bormo_stats.Base.{
  ltb, ◌≡◌, refl, ap, ◌∙◌, true, false, not, Option, none, some, List, [], ◌∷◌, ◌++◌, length, All,
  arith,
}
use bormo_stats.Base.Text.{codes, codes_eq, codes_eq_refl, starts_with}
use bormo_stats.Base.Results.{some_injective}
use bormo_stats.Sessions.Table.{Text}
use bormo_stats.Sessions.Secrets.{
  Crypto, IsCrypto, IsPlain, scrypt_n, scrypt_r, scrypt_p, scrypt_dklen, join_dollar, push,
  split_dollar, hash_parts, hashed, hash_secret, same_digest, verify_scrypt, verify_parts,
  verify_secret, needs_rehash,
}

split-plain : (p : Text) → IsPlain p → split_dollar p ≡ p ∷ []
unfolding split_dollar push
split-plain [] h = refl
split-plain (c ∷ p) (h, hs) = rw (h, split-plain p hs) refl

split-dollar : (p s : Text) → IsPlain p → split_dollar (p ++ 36 ∷ s) ≡ p ∷ split_dollar s
unfolding split_dollar push
split-dollar [] s h = refl
split-dollar (c ∷ p) s (h, hs) = rw (h, split-dollar p s hs) refl

-- Plain parts are read back.
split-join :
    (p : Text) (ps : List Text)
    → All IsPlain (p ∷ ps)
    → split_dollar (join_dollar (p ∷ ps)) ≡ p ∷ ps
unfolding join_dollar
split-join p [] (h, hs) = split-plain p h
split-join p (q ∷ ps) (h, hs) =
    split-dollar p (join_dollar (q ∷ ps)) h ∙ ap (λ t. p ∷ t) (split-join q ps hs)

starts_with-append : (p q s : Text) → starts_with (p ++ q) (p ++ s) ≡ starts_with q s
unfolding starts_with
starts_with-append [] q s = refl
starts_with-append (c ∷ p) q s = ground (arith, starts_with-append p q s)

-- The same first part, and the `$` after it.
starts_with-dollar : (p q s : Text) → starts_with (p ++ 36 ∷ q) (p ++ 36 ∷ s) ≡ starts_with q s
unfolding starts_with
starts_with-dollar p q s = starts_with-append p (36 ∷ q) (36 ∷ s)

starts_with_nil : (s : Text) → starts_with [] s ≡ true
unfolding starts_with
starts_with_nil s = refl

parts-IsPlain :
    (c : Crypto) (salt digest : Text) → IsCrypto c → All IsPlain (hash_parts c salt digest)
parts-IsPlain c salt digest k =
    let n = k.str-IsPlain scrypt_n in
    let r = k.str-IsPlain scrypt_r in
    let p = k.str-IsPlain scrypt_p in
    (
      (refl, (refl, (refl, (refl, (refl, (refl, tt)))))),
      (n, (r, (p, (k.encode-IsPlain salt, (k.encode-IsPlain digest, tt))))),
    )

verify_hashed :
    (c : Crypto) (secret salt digest : Text)
    → IsCrypto c
    → c.scrypt secret salt scrypt_n scrypt_r scrypt_p scrypt_dklen ≡ some digest
    → verify_secret c secret (join_dollar (hash_parts c salt digest)) ≡ true
unfolding verify_secret verify_parts verify_scrypt same_digest codes_eq
verify_hashed c secret salt digest k h =
    let read : split_dollar (join_dollar (hash_parts c salt digest)) ≡ hash_parts c salt digest =
      split-join (codes "scrypt")
        (c.str scrypt_n
          ∷ c.str scrypt_r
          ∷ c.str scrypt_p
          ∷ c.b64encode salt
          ∷ c.b64encode digest
          ∷ [])
        (parts-IsPlain c salt digest k) in
    let len = k.length-scrypt secret salt scrypt_n scrypt_r scrypt_p scrypt_dklen digest h in
    rw read (
      rw
        (
          k.int-str scrypt_n,
          k.int-str scrypt_r,
          k.int-str scrypt_p,
          k.decode-encode digest,
          k.decode-encode salt,
          len,
          h,
        )
        (codes_eq_refl digest))

fresh_hashed :
    (c : Crypto) (salt digest : Text)
    → needs_rehash c (join_dollar (hash_parts c salt digest)) ≡ false
unfolding needs_rehash join_dollar
fresh_hashed c salt digest =
    let n = c.str scrypt_n in
    let r = c.str scrypt_r in
    let p = c.str scrypt_p in
    let end : Text = p ++ 36 ∷ [] in
    let rest : Text = p ++ 36 ∷ (c.b64encode salt ++ 36 ∷ c.b64encode digest) in
    ap not (
      starts_with-dollar (codes "scrypt") (n ++ 36 ∷ (r ++ 36 ∷ end)) (n ++ 36 ∷ (r ++ 36 ∷ rest))
      ∙ starts_with-dollar n (r ++ 36 ∷ end) (r ++ 36 ∷ rest)
      ∙ starts_with-dollar r end rest
      ∙ starts_with-dollar p [] (c.b64encode salt ++ 36 ∷ c.b64encode digest)
      ∙ starts_with_nil (c.b64encode salt ++ 36 ∷ c.b64encode digest))

hashed_lem :
    (c : Crypto) (secret salt stored : Text) (digest : Option Text)
    → IsCrypto c
    → c.scrypt secret salt scrypt_n scrypt_r scrypt_p scrypt_dklen ≡ digest
    → hashed c salt digest ≡ some stored
    → (verify_secret c secret stored ≡ true) × (needs_rehash c stored ≡ false)
unfolding hashed
hashed_lem c secret salt stored none k h e = cc
hashed_lem c secret salt stored (some digest) k h e =
    subst (λ t. (verify_secret c secret t ≡ true) × (needs_rehash c t ≡ false)) (some_injective e)
      (verify_hashed c secret salt digest k h, fresh_hashed c salt digest)

-- The hash that `hash_secret` stores for a secret, whatever the salt, is accepted for that secret
-- by `verify_secret`, and `needs_rehash` leaves it: where the libraries' functions read back what
-- they write, and write no `$`.
pub verify_secret-hash_secret :
    (c : Crypto) (salt secret stored : Text)
    → IsCrypto c
    → hash_secret c salt secret ≡ some stored
    → (verify_secret c secret stored ≡ true) × (needs_rehash c stored ≡ false)
unfolding hash_secret
verify_secret-hash_secret c salt secret stored k e =
    hashed_lem c secret salt stored (c.scrypt secret salt scrypt_n scrypt_r scrypt_p scrypt_dklen) k
      refl e

hashed-not_empty :
    (c : Crypto) (salt stored : Text) (digest : Option Text)
    → hashed c salt digest ≡ some stored
    → ltb 0 (length stored) ≡ true
unfolding hashed join_dollar
hashed-not_empty c salt stored none e = cc
hashed-not_empty c salt stored (some digest) e =
    let s = join_dollar (hash_parts c salt digest) in
    subst (λ t. ltb 0 (length t) ≡ true) (some_injective e) (ground arith)

pub hash_secret-not_empty :
    (c : Crypto) (salt secret stored : Text)
    → hash_secret c salt secret ≡ some stored
    → ltb 0 (length stored) ≡ true
unfolding hash_secret
hash_secret-not_empty c salt secret stored e =
    hashed-not_empty c salt stored (c.scrypt secret salt scrypt_n scrypt_r scrypt_p scrypt_dklen) e
