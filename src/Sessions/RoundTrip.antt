-- ===== src/Sessions/RoundTrip.antt =====
-- `parse_session_token` on the texts that `create_session` writes, and on all others.
use mathlib.Core.Path.{subst}
use mathlib.Core.List.{reverse-reverse, reverse-append}
use bormo_stats.Base.{
  ℕ, ◌≤◌, ◌≡◌, ◌↔◌, refl, ap, sym, ◌∙◌, Bool, true, false, not, ◌&&◌, ◌||◌, Option, none, some, [],
  ◌∷◌, ◌++◌, ltb, ◌==◌, length, if◌then◌else◌, arith, All, reverse,
}
use bormo_stats.Base.Text.{codes, is_space, lstrip, strip, starts_with}
use bormo_stats.Base.Results.{some_injective}
use bormo_stats.Sessions.Table.{Text}
use bormo_stats.Sessions.Tokens.{
  drop, all_hex, not_empty, partition, ParsedSession, session_token, parse_parts, parse_stripped,
  parse_session_token,
}

-- What a token may hold.
abbrev pub IsToken : ParsedSession → Type 0
IsToken p =
    (not_empty p.session_id && not_empty p.secret ≡ true)
    × (all_hex p.session_id ≡ true)
    × (length (session_token p.session_id p.secret) ≤ 256)

partition-hex : (s t : Text) → all_hex s ≡ true → partition (s ++ 95 ∷ t) ≡ (s, some t)
unfolding partition all_hex
partition-hex [] t h = refl
partition-hex (c ∷ s) t h =
    let rest = partition-hex s t (ground arith) in
    let other : (c == 95) ≡ false = ground arith in rw (rest, other) refl

-- The two parts and what stood between them.
abbrev IsParted : Text → Text × Option Text → Type 0
IsParted s (before, none) = Unit
IsParted s (before, some after) = s ≡ before ++ 95 ∷ after

cons-IsParted :
    (c : ℕ) (s : Text) (r : Text × Option Text)
    → IsParted s r
    → IsParted (c ∷ s) (if c == 95 then ([], some s) else (c ∷ r.0, r.1))
cons-IsParted c s (before, none) h = by_flag (c == 95) (λ e. ground arith)
  where
    by_flag :
        (sep : Bool)
        → (sep ≡ true → c ≡ 95)
        → IsParted (c ∷ s) (if sep then ([], some s) else (c ∷ before, none))
    by_flag true e = ap (λ x. x ∷ s) (e refl)
    by_flag false e = tt
cons-IsParted c s (before, some after) h = by_flag (c == 95) (λ e. ground arith)
  where
    by_flag :
        (sep : Bool)
        → (sep ≡ true → c ≡ 95)
        → IsParted (c ∷ s) (if sep then ([], some s) else (c ∷ before, some after))
    by_flag true e = ap (λ x. x ∷ s) (e refl)
    by_flag false e = ap (λ t. c ∷ t) h

partition-IsParted : (s : Text) → IsParted s (partition s)
unfolding partition
partition-IsParted [] = tt
partition-IsParted (c ∷ s) = cons-IsParted c s (partition s) (partition-IsParted s)

starts-drop : (p s : Text) → starts_with p s ≡ true → s ≡ p ++ drop (length p) s
unfolding starts_with drop
starts-drop [] s h = refl
starts-drop (c ∷ p) [] h = cc
starts-drop (c ∷ p) (d ∷ s) h =
    let same : d ≡ c = ground arith in
    let rest : s ≡ p ++ drop (length p) s = starts-drop p s (ground arith) in
    rw same (ap (λ t. c ∷ t) rest)

-- What `parse_parts` reads.
abbrev Reads : Text → Text → ParsedSession → Type 0
Reads id secret p =
    (p ≡ record { session_id = id; secret = secret })
    × (not_empty id && not_empty secret ≡ true)
    × (all_hex id ≡ true)

read_parts :
    (id secret : Text) (p : ParsedSession)
    → parse_parts (id, some secret) ≡ some p
    → Reads id secret p
unfolding parse_parts
read_parts id secret p h = by_flags (not_empty id && not_empty secret) (all_hex id) refl refl h
  where
    by_flags :
        (full hex : Bool)
        → (not_empty id && not_empty secret) ≡ full
        → all_hex id ≡ hex
        → (if not full || not hex then none else some (record { session_id = id; secret = secret }))
          ≡ some p
        → Reads id secret p
    by_flags true true e f h = (sym (some_injective h), e, f)
    by_flags true false e f h = cc
    by_flags false hex e f h = cc

finish :
    (token : Text) (r : Text × Option Text) (p : ParsedSession)
    → token ≡ codes "bss_" ++ drop 4 token
    → length token ≤ 256
    → IsParted (drop 4 token) r
    → parse_parts r ≡ some p
    → (token ≡ session_token p.session_id p.secret) × IsToken p
unfolding session_token parse_parts
finish token (id, none) p t l d h = cc
finish token (id, some secret) p t l d h =
    let (e, full, hex) = read_parts id secret p h in
    let q : ParsedSession = record { session_id = id; secret = secret } in
    let whole : token ≡ session_token id secret = t ∙ ap (λ x. codes "bss_" ++ x) d in
    subst (λ x. (token ≡ session_token x.session_id x.secret) × IsToken x) (sym e)
      (whole, (full, hex, subst (λ x. length x ≤ 256) whole l))

parse_stripped-fields :
    (token : Text) (p : ParsedSession)
    → parse_stripped token ≡ some p
    → (token ≡ session_token p.session_id p.secret) × IsToken p
unfolding parse_stripped
parse_stripped-fields token p h =
    by_flags (starts_with (codes "bss_") token) (ltb 256 (length token)) refl refl h
  where
    by_flags :
        (starts over : Bool)
        → starts_with (codes "bss_") token ≡ starts
        → ltb 256 (length token) ≡ over
        → (if not starts || over then none else parse_parts (partition (drop 4 token))) ≡ some p
        → (token ≡ session_token p.session_id p.secret) × IsToken p
    by_flags true false e f k =
        finish token (partition (drop 4 token)) p (starts-drop (codes "bss_") token e)
          (ground arith) (partition-IsParted (drop 4 token)) k
    by_flags true true e f k = cc
    by_flags false over e f k = cc

parse_stripped-token :
    (p : ParsedSession) → IsToken p → parse_stripped (session_token p.session_id p.secret) ≡ some p
unfolding parse_stripped session_token starts_with drop parse_parts
parse_stripped-token p (full, hex, l) =
    let fits : ltb 256 (length (session_token p.session_id p.secret)) ≡ false = ground arith in
    rw (fits, partition-hex p.session_id p.secret hex, full, hex) refl

-- `parse_session_token` reads a text exactly as the session id and the secret from which the text,
-- without white space at its ends, is written: where the id is of hexadecimal digits, neither part is
-- empty, and the token has at most 256 characters.
pub parse_session_token-session_token :
    (raw : Text) (p : ParsedSession)
    → (parse_session_token raw ≡ some p)
      ↔ ((strip raw ≡ session_token p.session_id p.secret) × IsToken p)
unfolding parse_session_token
parse_session_token-session_token raw p = (
  λ h. parse_stripped-fields (strip raw) p h,
  λ h. ap parse_stripped h.0 ∙ parse_stripped-token p h.1,
)

-- Texts without white space.
abbrev pub IsSolid : Text → Type 0
IsSolid s = All (λ c. is_space c ≡ false) s

append-IsSolid : (s t : Text) → IsSolid s → IsSolid t → IsSolid (s ++ t)
append-IsSolid [] t h k = k
append-IsSolid (c ∷ s) t (h, hs) k = (h, append-IsSolid s t hs k)

reverse-IsSolid : (s : Text) → IsSolid s → IsSolid (reverse s)
reverse-IsSolid [] h = h
reverse-IsSolid (c ∷ s) (h, hs) =
    subst IsSolid (sym (reverse-append (c ∷ []) s))
      (append-IsSolid (reverse s) (c ∷ []) (reverse-IsSolid s hs) (h, tt))

lstrip-solid : (s : Text) → IsSolid s → lstrip s ≡ s
unfolding lstrip
lstrip-solid [] h = refl
lstrip-solid (c ∷ s) (h, hs) = rw h refl

-- Such texts stay as they are without the white space at their ends.
pub strip-solid : (s : Text) → IsSolid s → strip s ≡ s
unfolding strip
strip-solid s h =
    rw (lstrip-solid s h, lstrip-solid (reverse s) (reverse-IsSolid s h)) (reverse-reverse s)
