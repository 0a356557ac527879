-- ===== src/Sessions/Tokens.antt =====
-- The texts of session tokens (`parse_session_token`, `create_session`) and of API keys
-- (`generate_api_key`, `legacy_key_id`, `parse_api_key`).
use bormo_stats.Base.{
  ℕ, zero, suc, Bool, true, false, not, ◌&&◌, ◌||◌, Option, none, some, [], ◌∷◌, ◌++◌, ltb, leb,
  ◌==◌, length, if◌then◌else◌,
}
use bormo_stats.Base.Text.{codes, strip, starts_with}
use bormo_stats.Sessions.Table.{Text}

-- `text[:n]` and `text[n:]`
unfoldable pub take : ℕ → Text → Text
take zero s = []
take (suc n) [] = []
take (suc n) (c ∷ s) = c ∷ take n s

unfoldable pub drop : ℕ → Text → Text
drop zero s = s
drop (suc n) [] = []
drop (suc n) (c ∷ s) = drop n s

-- `_HEX`
abbrev pub is_hex : ℕ → Bool
is_hex c = leb 48 c && leb c 57 || leb 97 c && leb c 102

unfoldable pub all_hex : Text → Bool
all_hex [] = true
all_hex (c ∷ s) = is_hex c && all_hex s

abbrev pub not_empty : Text → Bool
not_empty [] = false
not_empty (c ∷ s) = true

-- `partition("_")`: what stands before the first one, and after it
unfoldable pub partition : Text → Text × Option Text
partition [] = ([], none)
partition (c ∷ s) =
    let (before, after) = partition s in if c == 95 then ([], some s) else (c ∷ before, after)

pub record ParsedSession : Type 0 where
  pub session_id : Text
  pub secret : Text

-- `f"{SESSION_PREFIX}{session_id}_{secret}"`
unfoldable pub session_token : Text → Text → Text
session_token session_id secret = codes "bss_" ++ (session_id ++ 95 ∷ secret)

unfoldable pub parse_parts : Text × Option Text → Option ParsedSession
unfolding all_hex
parse_parts (session_id, none) = none
parse_parts (session_id, some secret) =
    if not (not_empty session_id && not_empty secret) || not (all_hex session_id)
    then none
    else some (record { session_id = session_id; secret = secret })

unfoldable pub parse_stripped : Text → Option ParsedSession
unfolding starts_with drop partition parse_parts
parse_stripped token =
    if not (starts_with (codes "bss_") token) || ltb 256 (length token)
    then none
    else parse_parts (partition (drop 4 token))

-- `parse_session_token`
unfoldable pub parse_session_token : Text → Option ParsedSession
unfolding strip parse_stripped
parse_session_token raw = parse_stripped (strip raw)

pub record ParsedApiKey : Type 0 where
  pub key_id : Text
  pub secret : Text
  pub legacy : Bool

-- `f"{KEY_PREFIX}{key_id}_{secret}"`
unfoldable pub api_key : Text → Text → Text
api_key key_id secret = codes "bsk_" ++ (key_id ++ 95 ∷ secret)

-- `legacy_key_id`; `sha256_hex` is the library's digest
unfoldable pub legacy_key_id : (Text → Text) → Text → Text
unfolding take
legacy_key_id sha256_hex raw_key = codes "legacy_" ++ take 24 (sha256_hex raw_key)

-- `well_formed`
unfoldable pub well_formed : Text → Bool
unfolding starts_with take drop all_hex
well_formed key =
    ltb 21 (length key) && starts_with (95 ∷ []) (drop 20 key) && all_hex (take 16 (drop 4 key))

unfoldable pub parse_key : (Text → Text) → Text → Option ParsedApiKey
unfolding starts_with well_formed legacy_key_id take drop
parse_key sha256_hex key =
    if not (not_empty key) || ltb 256 (length key)
    then none
    else if starts_with (codes "bsk_") key
    then (if not (well_formed key)
        then none
        else some (record { key_id = take 16 (drop 4 key); secret = drop 21 key; legacy = false }))
    else some (record { key_id = legacy_key_id sha256_hex key; secret = key; legacy = true })

-- `parse_api_key`
unfoldable pub parse_api_key : (Text → Text) → Text → Option ParsedApiKey
unfolding strip parse_key
parse_api_key sha256_hex raw_key = parse_key sha256_hex (strip raw_key)
