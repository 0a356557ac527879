-- ===== src/Sessions/Changes.antt =====
-- What `FINAL` reads after one row was inserted, and after the rows that a query selects were
-- inserted again with other values.
use bormo_stats.Base.{
  ℕ, ◌≡◌, refl, ap, sym, ◌∙◌, Bool, true, false, Option, none, some, List, [], ◌∷◌, ◌++◌, map,
  if◌then◌else◌,
}
use bormo_stats.Base.Text.{codes_eq, codes_eq_sound}
use bormo_stats.Sessions.Table.{Text, find_row, merge, finals, select, IsDistinct, IsBefore}
use bormo_stats.Sessions.Latest.{
  prefer, IsNow, find_row-merge, finals-IsDistinct, merge-IsBefore, merge-append,
}

module _ {R : Type 0} (key : R → Text) (version : R → ℕ) where
  pub finals-IsBefore :
      (now : ℕ) (rows : List R)
      → IsBefore key version now rows
      → IsBefore key version now (finals key version rows)
  unfolding finals
  finals-IsBefore now rows h = merge-IsBefore key version now [] rows tt h

  finals-append :
      (rows rs : List R)
      → finals key version (rows ++ rs) ≡ merge key version (finals key version rows) rs
  unfolding finals
  finals-append rows rs = merge-append key version [] rows rs

  -- Rows inserted now are read from then on, and the other keys as before.
  pub find_row-finals :
      (k : Text) (now : ℕ) (rows rs : List R)
      → IsDistinct key version rs
      → IsNow key version now rs
      → IsBefore key version now rows
      → find_row key version k (finals key version (rows ++ rs))
        ≡ prefer key version
            (find_row key version k rs)
            (find_row key version k (finals key version rows))
  find_row-finals k now rows rs d n b =
      ap (find_row key version k) (finals-append rows rs)
      ∙ find_row-merge key version k now (finals key version rows) rs d n
          (finals-IsBefore now rows b)

  module _ (c : R → Bool) (f : R → R) (same_key : (r : R) → key (f r) ≡ key r) where
    -- What is inserted for a row, and what is read of it then.
    abbrev chosen : Option R → Option R
    chosen none = none
    chosen (some s) = if c s then some (f s) else none

    abbrev pub changed : Option R → Option R
    changed none = none
    changed (some s) = some (if c s then f s else s)

    select-none :
        (k : Text) (t : List R)
        → find_row key version k t ≡ none
        → find_row key version k (map f (select key version c t)) ≡ none
    unfolding select find_row
    select-none k [] h = refl
    select-none k (s ∷ t) h = by_flags (c s) (codes_eq (key s) k) refl h (select-none k t)
      where
        by_flags :
            (b same : Bool)
            → codes_eq (key s) k ≡ same
            → (if same then some s else find_row key version k t) ≡ none
            → (find_row key version k t ≡ none
                → find_row key version k (map f (select key version c t)) ≡ none)
            → find_row key version k
                (map f (if b then s ∷ select key version c t else select key version c t))
              ≡ none
        by_flags b true e q ih = cc
        by_flags false false e q ih = ih q
        by_flags true false e q ih = rw (same_key s, e) (ih q)

    find_row-select :
        (k : Text) (t : List R)
        → IsDistinct key version t
        → find_row key version k (map f (select key version c t))
          ≡ chosen (find_row key version k t)
    unfolding select find_row
    find_row-select k [] d = refl
    find_row-select k (s ∷ t) (d, ds) =
        by_flags (c s) (codes_eq (key s) k) refl refl (find_row-select k t ds)
      where
        alone :
            codes_eq (key s) k ≡ true
            → find_row key version k (map f (select key version c t)) ≡ none
        alone e =
            select-none k t
              (ap (λ x. find_row key version x t) (sym (codes_eq_sound (key s) k e)) ∙ d)

        by_flags :
            (b same : Bool)
            → c s ≡ b
            → codes_eq (key s) k ≡ same
            → find_row key version k (map f (select key version c t))
              ≡ chosen (find_row key version k t)
            → find_row key version k
                (map f (if b then s ∷ select key version c t else select key version c t))
              ≡ chosen (if same then some s else find_row key version k t)
        by_flags true true q e ih = rw (same_key s, e, q) refl
        by_flags false true q e ih = rw q (alone e)
        by_flags true false q e ih = rw (same_key s, e) ih
        by_flags false false q e ih = ih

    select-IsDistinct :
        (t : List R)
        → IsDistinct key version t
        → IsDistinct key version (map f (select key version c t))
    unfolding select
    select-IsDistinct [] d = tt
    select-IsDistinct (s ∷ t) (d, ds) = by_flag (c s) (select-IsDistinct t ds)
      where
        by_flag :
            (b : Bool)
            → IsDistinct key version (map f (select key version c t))
            → IsDistinct key version
                (map f (if b then s ∷ select key version c t else select key version c t))
        by_flag true ih = (
          ap (λ x. find_row key version x (map f (select key version c t))) (same_key s)
              ∙ select-none (key s) t d,
          ih,
        )
        by_flag false ih = ih

    module _ (now : ℕ) (at_now : (r : R) → version (f r) ≡ now) where
      select-IsNow : (t : List R) → IsNow key version now (map f (select key version c t))
      unfolding select
      select-IsNow [] = tt
      select-IsNow (s ∷ t) = by_flag (c s) (select-IsNow t)
        where
          by_flag :
              (b : Bool)
              → IsNow key version now (map f (select key version c t))
              → IsNow key version now
                  (map f (if b then s ∷ select key version c t else select key version c t))
          by_flag true ih = (at_now s, ih)
          by_flag false ih = ih

      -- The selected rows are read with their new values, and the others as before.
      pub find_row-changed :
          (k : Text) (rows : List R)
          → IsBefore key version now rows
          → find_row key version k
              (finals key version (rows ++ map f (select key version c (finals key version rows))))
            ≡ changed (find_row key version k (finals key version rows))
      find_row-changed k rows b =
          let t = finals key version rows in
          let d = finals-IsDistinct key version rows in
          find_row-finals k now rows (map f (select key version c t)) (select-IsDistinct t d)
            (select-IsNow t) b
          ∙ ap (λ o. prefer key version o (find_row key version k t)) (find_row-select k t d)
          ∙ settled (find_row key version k t)
        where
          settled : (o : Option R) → prefer key version (chosen o) o ≡ changed o
          settled none = refl
          settled (some s) = by_flag (c s)
            where
              by_flag :
                  (b : Bool)
                  → prefer key version (if b then some (f s) else none) (some s)
                    ≡ some (if b then f s else s)
              by_flag true = refl
              by_flag false = refl
