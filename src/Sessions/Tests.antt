-- ===== src/Sessions/Tests.antt =====
-- Examples: a session from its start to its end, API keys and passwords.
use bormo_stats.Base.{◌≤◌, ◌≡◌, ◌↔◌, ◌≢◌, refl, true, false, none, some, List, [], ◌∷◌, arith}
use bormo_stats.Base.Text.{starts_with, lstrip, codes, codes_eq, strip, is_space}
use bormo_stats.Sessions.Table.{Text}
use bormo_stats.Sessions.Secrets.{
  join_dollar, hash_parts, hashed, hash_secret, verify_secret, needs_rehash,
}
use bormo_stats.Sessions.Hashing.{verify_secret-hash_secret}
use bormo_stats.Sessions.Tokens.{
  take, drop, partition, all_hex, parse_parts, parse_stripped, legacy_key_id, well_formed,
  parse_key, ParsedSession, session_token, parse_session_token, api_key, parse_api_key,
}
use bormo_stats.Sessions.RoundTrip.{IsToken, IsSolid, parse_session_token-session_token}
use bormo_stats.Sessions.Keys.{parse_api_key-api_key, parse_api_key-kinds_apart}
use bormo_stats.Sessions.Defs.{
  SessionRow, insert_session, create_session, authenticate, revoke, revoke_all_for_user,
  revoke_other_sessions, set_password, insert_credential,
}
use bormo_stats.Sessions.Authority.{
  authenticate-revoke, authenticate-revoke_all_for_user, authenticate-revoke_other_sessions,
}
use bormo_stats.Sessions.Revocation.{IsClocked}
use bormo_stats.Sessions.Life.{authenticate-create_session}
use bormo_stats.Sessions.Forever.{revoked_forever}
use bormo_stats.Sessions.Kept.{sign_in, sign_out_user, run}
use bormo_stats.Sessions.Answers.{unless_user}
use bormo_stats.Sessions.Passwords.{IsStored, security-IsHasher, check_password-set_password}
use bormo_stats.Sessions.Toy.{fill, toy, toy-IsCrypto, hasher, stored}

verify_secret-hash_secret_example :
    (verify_secret toy (codes "k") stored ≡ true) × (needs_rehash toy stored ≡ false)
unfolding hash_secret hashed
verify_secret-hash_secret_example =
    verify_secret-hash_secret toy (codes "salt") (codes "k") stored toy-IsCrypto refl

abbrev parsed : ParsedSession
parsed = record { session_id = codes "0a"; secret = codes "k" }

abbrev parsed_other : ParsedSession
parsed_other = record { session_id = codes "1b"; secret = codes "k" }

parse_session_token-session_token_example :
    (parse_session_token (codes " bss_0a_k ") ≡ some parsed)
    ↔ ((strip (codes " bss_0a_k ") ≡ session_token (codes "0a") (codes "k")) × IsToken parsed)
parse_session_token-session_token_example =
    parse_session_token-session_token (codes " bss_0a_k ") parsed

abbrev key_id : Text
key_id = codes "0123456789abcdef"

IsSolid-key : IsSolid (api_key key_id (codes "k"))
unfolding is_space api_key
IsSolid-key = (
  refl,
  (
    refl,
    (
      refl,
      (
        refl,
        (
          refl,
          (
            refl,
            (
              refl,
              (
                refl,
                (
                  refl,
                  (
                    refl,
                    (
                      refl,
                      (
                        refl,
                        (
                          refl,
                          (
                            refl,
                            (refl, (refl, (refl, (refl, (refl, (refl, (refl, (refl, tt)))))))),
                          ),
                        ),
                      ),
                    ),
                  ),
                ),
              ),
            ),
          ),
        ),
      ),
    ),
  ),
)

parse_api_key-api_key_example :
    parse_api_key (λ s. s) (api_key key_id (codes "k"))
    ≡ some (record { key_id = key_id; secret = codes "k"; legacy = false })
unfolding all_hex is_space api_key
parse_api_key-api_key_example =
    parse_api_key-api_key (λ s. s) key_id (codes "k") (omega arith) refl refl IsSolid-key
      (omega arith)

-- a new key, an old one
parse_api_key-kinds_apart_example : codes "legacy_abc" ≢ key_id
unfolding parse_api_key parse_key well_formed legacy_key_id take drop strip lstrip is_space
    starts_with all_hex
parse_api_key-kinds_apart_example =
    parse_api_key-kinds_apart (λ s. s) (codes "abc") (codes "bsk_0123456789abcdef_k")
      (record { key_id = codes "legacy_abc"; secret = codes "abc"; legacy = true })
      (record { key_id = key_id; secret = codes "k"; legacy = false }) refl refl refl refl

abbrev row : Text → Text → SessionRow
row sid user_id = record {
  session_id = sid;
  user_id = user_id;
  token_hash = stored;
  created_at = 1;
  expires_at = 100;
  revoked_at = none;
  updated_at = 1;
}

abbrev rows : List SessionRow
rows = row (codes "0a") (codes "ann") ∷ row (codes "1b") (codes "ann") ∷ []

clocked : IsClocked 5 rows
clocked = (omega arith, (omega arith, tt))

parsed-token : parse_session_token (codes "bss_0a_k") ≡ some parsed
unfolding parse_session_token parse_stripped strip lstrip is_space starts_with drop partition
    parse_parts all_hex
parsed-token = refl

parsed-other_token : parse_session_token (codes "bss_1b_k") ≡ some parsed_other
unfolding parse_session_token parse_stripped strip lstrip is_space starts_with drop partition
    parse_parts all_hex
parsed-other_token = refl

authenticate-revoke_example :
    authenticate hasher (codes "bss_1b_k") 6 (revoke (codes "bss_0a_k") 5 rows).1
    ≡ authenticate hasher (codes "bss_1b_k") 6 rows
unfolding codes_eq
authenticate-revoke_example =
    authenticate-revoke hasher (codes "bss_0a_k") (codes "bss_1b_k") 5 6 rows parsed parsed_other
      clocked parsed-token parsed-other_token

authenticate-revoke_all_for_user_example :
    authenticate hasher (codes "bss_1b_k") 6 (revoke_all_for_user (codes "bob") 5 rows).1
    ≡ unless_user (codes "bob") (authenticate hasher (codes "bss_1b_k") 6 rows)
authenticate-revoke_all_for_user_example =
    authenticate-revoke_all_for_user hasher (codes "bob") (codes "bss_1b_k") 5 6 rows parsed_other
      clocked parsed-other_token

authenticate-revoke_other_sessions_example :
    authenticate hasher
      (codes "bss_0a_k")
      6
      (revoke_other_sessions (codes "ann") (codes "0a") 5 rows).1
    ≡ authenticate hasher (codes "bss_0a_k") 6 rows
unfolding codes_eq
authenticate-revoke_other_sessions_example =
    authenticate-revoke_other_sessions hasher (codes "ann") (codes "0a") (codes "bss_0a_k") 5 6 rows
      parsed clocked parsed-token

revoked_forever_example :
    authenticate hasher (codes "bss_0a_k") 9 (
      run hasher
        ((6, sign_in (codes "2c") (codes "k") (codes "salt") (codes "ann"))
          ∷ (7, sign_out_user (codes "bob"))
          ∷ [])
        (revoke (codes "bss_0a_k") 5 rows).1)
    ≡ none
unfolding codes_eq
revoked_forever_example =
    revoked_forever hasher (codes "bss_0a_k") (codes "bss_0a_k") 5 9
      ((6, sign_in (codes "2c") (codes "k") (codes "salt") (codes "ann"))
        ∷ (7, sign_out_user (codes "bob"))
        ∷ [])
      rows parsed parsed clocked parsed-token parsed-token refl
      (omega arith, refl, (omega arith, tt, tt))

authenticate-create_session_example :
    authenticate hasher (codes "bss_0a_k") 9 (
      row (codes "1b") (codes "ann")
      ∷ record {
        session_id = codes "0a";
        user_id = codes "bob";
        token_hash = stored;
        created_at = 5;
        expires_at = 2592005;
        revoked_at = none;
        updated_at = 5;
      }
      ∷ [])
    ≡ some (codes "bob", 2592005)
unfolding create_session insert_session session_token hash_secret hashed all_hex is_space
authenticate-create_session_example =
    authenticate-create_session hasher (codes "0a") (codes "k") (codes "salt") (codes "bob") 5 9
      (row (codes "1b") (codes "ann") ∷ [])
      (row (codes "1b") (codes "ann")
        ∷ record {
          session_id = codes "0a";
          user_id = codes "bob";
          token_hash = stored;
          created_at = 5;
          expires_at = 2592005;
          revoked_at = none;
          updated_at = 5;
        }
        ∷ [])
      (record { session_id = codes "0a"; token = codes "bss_0a_k"; expires_at = 2592005 })
      (security-IsHasher toy toy-IsCrypto) (omega arith, tt) (refl, refl, omega arith)
      (refl, (refl, (refl, (refl, (refl, (refl, (refl, (refl, tt)))))))) (omega arith) refl

abbrev long_stored : Text
long_stored = join_dollar (hash_parts toy (codes "salt") (fill 32 (codes "12345678")))

check_password-set_password_example :
    (8 ≤ 8)
    × IsStored hasher
        (codes "ann")
        (codes "12345678")
        []
        (record { user_id = codes "ann"; password_hash = long_stored; updated_at = 5 } ∷ [])
unfolding set_password insert_credential hash_secret hashed
check_password-set_password_example =
    check_password-set_password hasher (codes "salt") (codes "ann") (codes "12345678") 5 []
      (record { user_id = codes "ann"; password_hash = long_stored; updated_at = 5 } ∷ [])
      (security-IsHasher toy toy-IsCrypto) tt refl
