-- ===== src/Sessions/Table.antt =====
-- A table of the warehouse that keeps, for each key, the row with the largest version, and the one
-- inserted last among equal versions: what `SELECT … FINAL` reads.
use bormo_stats.Base.{
  ℕ, ◌≤◌, ◌≡◌, refl, ap, sym, ◌∙◌, Bool, true, Option, none, some, List, [], ◌∷◌, leb,
  if◌then◌else◌, arith, All,
}
use bormo_stats.Base.Text.{codes_eq, codes_eq_sound, codes_eq_refl}

abbrev pub Text : Type 0
Text = List ℕ

pub codes_eq-same : (a b k : Text) → codes_eq a b ≡ true → codes_eq a k ≡ codes_eq b k
codes_eq-same a b k h = ap (λ x. codes_eq x k) (codes_eq_sound a b h)

pub codes_eq-apart :
    (a b k : Text) → codes_eq a k ≡ true → codes_eq b k ≡ true → codes_eq a b ≡ true
codes_eq-apart a b k h i =
    let same : a ≡ b = codes_eq_sound a k h ∙ sym (codes_eq_sound b k i) in
    ap (λ x. codes_eq a x) (sym same) ∙ codes_eq_refl a

module _ {R : Type 0} (key : R → Text) (version : R → ℕ) where
  unfoldable pub find_row : Text → List R → Option R
  unfolding codes_eq
  find_row k [] = none
  find_row k (r ∷ t) = let rest = find_row k t in if codes_eq (key r) k then some r else rest

  -- One more row.
  unfoldable pub upsert : R → List R → List R
  unfolding codes_eq
  upsert r [] = r ∷ []
  upsert r (s ∷ t) =
      let rest = upsert r t in
      if codes_eq (key s) (key r)
      then (if leb (version s) (version r) then r else s) ∷ t
      else s ∷ rest

  unfoldable pub merge : List R → List R → List R
  unfolding upsert
  merge t [] = t
  merge t (r ∷ rs) = merge (upsert r t) rs

  -- The rows that `FINAL` keeps, of all rows in the order in which they were inserted.
  unfoldable pub finals : List R → List R
  unfolding merge
  finals rows = merge [] rows

  unfoldable pub select : (R → Bool) → List R → List R
  select c [] = []
  select c (r ∷ t) = let rest = select c t in if c r then r ∷ rest else rest

  -- Each key has one row.
  abbrev pub IsDistinct : List R → Type 0
  IsDistinct [] = Unit
  IsDistinct (r ∷ t) = (find_row (key r) t ≡ none) × IsDistinct t

  -- No row has a later version.
  abbrev pub IsBefore : ℕ → List R → Type 0
  IsBefore now t = All (λ r. version r ≤ now) t

  -- Which row a key has after one more row.
  unfoldable pub replaced : R → Option R → R
  replaced r none = r
  replaced r (some s) = if leb (version s) (version r) then r else s

  pub find_row-upsert :
      (k : Text) (r : R) (t : List R)
      → find_row k (upsert r t)
        ≡ (if codes_eq (key r) k then some (replaced r (find_row k t)) else find_row k t)
  unfolding find_row upsert replaced
  find_row-upsert k r [] = refl
  find_row-upsert k r (s ∷ t) =
      let one = codes_eq-same (key s) (key r) k in
      let two = codes_eq-apart (key s) (key r) k in ground (arith, find_row-upsert k r t)
