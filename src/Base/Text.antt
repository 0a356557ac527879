-- ===== src/Base/Text.antt =====
-- Python text operations on lists of code points: `str.strip`, `startswith` and case folding.
use Prim.Native.Char.{code}
use Prim.Native.Nat.{ℕ, ◌+◌}
use Prim.Native.String.{String}
use mathlib.Core.Path.{◌≡◌, refl}
use native.Mathlib.Omega.{arith}
use mathlib.Core.Bool.{Bool, true, false, ◌&&◌, ◌||◌}
use mathlib.Core.List.{List, [], ◌∷◌, reverse}
use bormo_stats.Base.Tests.{leb, ◌==◌, if◌then◌else◌}

-- The code points of a text.
abbrev pub codes : String → List ℕ
codes String.[] = []
codes (String.◌∷◌ c s) = code c ∷ codes s

-- `str.isspace` of one code point, with the Unicode white space of Python's `str.strip`.
unfoldable pub is_space : ℕ → Bool
is_space c =
    leb 9 c && leb c 13
    || leb 28 c && leb c 32
    || c == 0x85
    || c == 0xa0
    || c == 0x1680
    || leb 0x2000 c && leb c 0x200a
    || c == 0x2028
    || c == 0x2029
    || c == 0x202f
    || c == 0x205f
    || c == 0x3000

unfoldable pub lstrip : List ℕ → List ℕ
unfolding is_space
lstrip [] = []
lstrip (c ∷ s) = let rest = lstrip s in if is_space c then rest else c ∷ s

-- `str.strip`
unfoldable pub strip : List ℕ → List ℕ
unfolding lstrip
strip s = reverse (lstrip (reverse (lstrip s)))

-- `text == other` on code points
unfoldable pub codes_eq : List ℕ → List ℕ → Bool
codes_eq [] [] = true
codes_eq (c ∷ s) (d ∷ t) = c == d && codes_eq s t
codes_eq _ _ = false

-- Case folding of one code point, as far as it yields one ASCII letter: the capitals, the long s
-- and the Kelvin sign. All others fold to texts that hold no ASCII letter on its own, or stay.
unfoldable pub fold_code : ℕ → ℕ
fold_code c =
    if leb 65 c && leb c 90
    then c + 32
    else if c == 0x17f
    then 115
    else if c == 0x212a
    then 107
    else c

-- `text.startswith(prefix)`
unfoldable pub starts_with : List ℕ → List ℕ → Bool
starts_with [] s = true
starts_with (c ∷ p) [] = false
starts_with (c ∷ p) (d ∷ s) = c == d && starts_with p s

-- `needle in text`
unfoldable pub contains : List ℕ → List ℕ → Bool
unfolding starts_with
contains needle [] = starts_with needle []
contains needle (c ∷ s) = let rest = contains needle s in starts_with needle (c ∷ s) || rest

pub codes_eq_refl : (s : List ℕ) → codes_eq s s ≡ true
unfolding codes_eq
codes_eq_refl [] = refl
codes_eq_refl (c ∷ s) = ground (arith, codes_eq_refl s)

pub codes_eq_sound : (s t : List ℕ) → codes_eq s t ≡ true → s ≡ t
unfolding codes_eq
codes_eq_sound [] [] h = refl
codes_eq_sound [] (d ∷ t) h = cc
codes_eq_sound (c ∷ s) [] h = cc
codes_eq_sound (c ∷ s) (d ∷ t) h =
    let first : c ≡ d = ground arith in
    let rest : s ≡ t = codes_eq_sound s t (ground arith) in rw (first, rest) refl

pub codes_eq_comm : (s t : List ℕ) → codes_eq s t ≡ codes_eq t s
unfolding codes_eq
codes_eq_comm [] [] = refl
codes_eq_comm [] (d ∷ t) = refl
codes_eq_comm (c ∷ s) [] = refl
codes_eq_comm (c ∷ s) (d ∷ t) = ground (arith, codes_eq_comm s t)
