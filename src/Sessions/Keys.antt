-- ===== src/Sessions/Keys.antt =====
-- `parse_api_key` on the texts that `generate_api_key` writes, and on legacy keys.
use mathlib.Core.Path.{subst}
use bormo_stats.Base.{
  ℕ, zero, suc, ◌≤◌, ◌≡◌, ◌≢◌, refl, ap, sym, ◌∙◌, Bool, true, false, not, ◌&&◌, ◌||◌, none, some,
  [], ◌∷◌, ◌++◌, ltb, length, length-append, if◌then◌else◌, arith,
}
use bormo_stats.Base.Text.{codes, strip, starts_with}
use bormo_stats.Base.Results.{some_injective}
use bormo_stats.Sessions.Table.{Text}
use bormo_stats.Sessions.Tokens.{
  take, drop, all_hex, not_empty, ParsedApiKey, api_key, legacy_key_id, well_formed, parse_key,
  parse_api_key,
}
use bormo_stats.Sessions.RoundTrip.{IsSolid, strip-solid}

take-append : (n : ℕ) (s t : Text) → length s ≡ n → take n (s ++ t) ≡ s
unfolding take
take-append zero [] t h = refl
take-append zero (c ∷ s) t h = cc
take-append (suc n) [] t h = cc
take-append (suc n) (c ∷ s) t h = ap (λ r. c ∷ r) (take-append n s t (omega arith))

drop-append : (n : ℕ) (s t : Text) → length s ≡ n → drop n (s ++ t) ≡ t
unfolding drop
drop-append zero [] t h = refl
drop-append zero (c ∷ s) t h = cc
drop-append (suc n) [] t h = cc
drop-append (suc n) (c ∷ s) t h = drop-append n s t (omega arith)

drop_one-append : (n c : ℕ) (s t : Text) → length s ≡ n → drop (suc n) (s ++ c ∷ t) ≡ t
unfolding drop
drop_one-append zero c [] t h = refl
drop_one-append zero c (d ∷ s) t h = cc
drop_one-append (suc n) c [] t h = cc
drop_one-append (suc n) c (d ∷ s) t h = drop_one-append n c s t (omega arith)

long_enough :
    (id secret : Text)
    → length id ≡ 16
    → not_empty secret ≡ true
    → ltb 21 (length (api_key id secret)) ≡ true
unfolding api_key
long_enough id [] h k = cc
long_enough id (c ∷ s) h k = let len = length-append id (95 ∷ c ∷ s) in ground arith

-- A key as `generate_api_key` writes it, of an id of sixteen hexadecimal digits and a secret that
-- is not empty, is read back by `parse_api_key` as that id and secret, and not as a legacy key:
-- where it holds no white space and has at most 256 characters.
pub parse_api_key-api_key :
    (sha256_hex : Text → Text) (id secret : Text)
    → length id ≡ 16
    → all_hex id ≡ true
    → not_empty secret ≡ true
    → IsSolid (api_key id secret)
    → length (api_key id secret) ≤ 256
    → parse_api_key sha256_hex (api_key id secret)
      ≡ some (record { key_id = id; secret = secret; legacy = false })
unfolding parse_api_key parse_key well_formed starts_with api_key drop
parse_api_key-api_key sha256_hex id secret h hex full solid l =
    let long = long_enough id secret h full in
    let fits : ltb 256 (length (api_key id secret)) ≡ false = ground arith in
    rw
      (
        strip-solid (api_key id secret) solid,
        fits,
        long,
        drop-append 16 id (95 ∷ secret) h,
        take-append 16 id (95 ∷ secret) h,
        hex,
        drop_one-append 16 95 id secret h,
      )
      refl

hex-take : (n : ℕ) (s : Text) → all_hex s ≡ true → all_hex (take n s) ≡ true
unfolding take all_hex
hex-take zero s h = refl
hex-take (suc n) [] h = refl
hex-take (suc n) (c ∷ s) h = ground (arith, hex-take n s)

-- What a key is read as: a legacy key has the id of its digest, any other an id of hexadecimal
-- digits.
abbrev IsKind : ParsedApiKey → Type 0
IsKind p =
    (p.legacy ≡ true → (t : Text) × (p.key_id ≡ codes "legacy_" ++ t))
    × (p.legacy ≡ false → all_hex p.key_id ≡ true)

parse_key-IsKind :
    (sha256_hex : Text → Text) (key : Text) (p : ParsedApiKey)
    → parse_key sha256_hex key ≡ some p
    → IsKind p
unfolding parse_key well_formed legacy_key_id
parse_key-IsKind sha256_hex key p h =
    by_flags (not (not_empty key) || ltb 256 (length key)) (starts_with (codes "bsk_") key)
      (ltb 21 (length key) && starts_with (95 ∷ []) (drop 20 key)) (all_hex (take 16 (drop 4 key)))
      refl h
  where
    by_flags :
        (bad new shape hex : Bool)
        → all_hex (take 16 (drop 4 key)) ≡ hex
        → (if bad
            then none
            else if new
            then (if not (shape && hex)
                then none
                else some (record {
                  key_id = take 16 (drop 4 key);
                  secret = drop 21 key;
                  legacy = false;
                }))
            else some (record {
              key_id = codes "legacy_" ++ take 24 (sha256_hex key);
              secret = key;
              legacy = true;
            }))
          ≡ some p
        → IsKind p
    by_flags true new shape hex e k = cc
    by_flags false true true true e k = subst IsKind (some_injective k) ((λ q. cc), (λ q. e))
    by_flags false true true false e k = cc
    by_flags false true false hex e k = cc
    by_flags false false shape hex e k =
        subst IsKind (some_injective k) ((λ q. (take 24 (sha256_hex key), refl)), (λ q. cc))

not_hex : (t : Text) → all_hex (codes "legacy_" ++ t) ≡ false
unfolding all_hex
not_hex t = refl

-- The id of a legacy key is never the id of a key of the present form: no key of one kind is
-- looked up as one of the other.
pub parse_api_key-kinds_apart :
    (sha256_hex : Text → Text) (one other : Text) (p q : ParsedApiKey)
    → parse_api_key sha256_hex one ≡ some p
    → parse_api_key sha256_hex other ≡ some q
    → p.legacy ≡ true
    → q.legacy ≡ false
    → p.key_id ≢ q.key_id
unfolding parse_api_key
parse_api_key-kinds_apart sha256_hex one other p q h k l m e =
    let (t, old) = (parse_key-IsKind sha256_hex (strip one) p h).0 l in
    let hex = (parse_key-IsKind sha256_hex (strip other) q k).1 m in
    let same : all_hex (codes "legacy_" ++ t) ≡ true = ap all_hex (sym old ∙ e) ∙ hex in
    let bad : false ≡ true = sym (not_hex t) ∙ same in cc
