-- ===== src/Sessions/Latest.antt =====
-- `FINAL` after rows were inserted.
use bormo_stats.Base.{
  ℕ, ◌≤◌, ◌≡◌, refl, ap, sym, ◌∙◌, Bool, true, false, Option, none, some, List, [], ◌∷◌, ◌++◌, leb,
  if◌then◌else◌, arith, All,
}
use bormo_stats.Base.Text.{codes_eq, codes_eq_sound, codes_eq_comm}
use bormo_stats.Sessions.Table.{
  Text, find_row, upsert, merge, finals, IsDistinct, IsBefore, replaced, find_row-upsert,
}

module _ {R : Type 0} (key : R → Text) (version : R → ℕ) where
  upsert-IsDistinct :
      (r : R) (t : List R)
      → IsDistinct key version t
      → IsDistinct key version (upsert key version r t)
  unfolding upsert find_row
  upsert-IsDistinct r [] h = (refl, tt)
  upsert-IsDistinct r (s ∷ t) (h, hs) =
      by_flags (codes_eq (key s) (key r)) (leb (version s) (version r)) refl
        (upsert-IsDistinct r t hs)
    where
      by_flags :
          (same later : Bool)
          → codes_eq (key s) (key r) ≡ same
          → IsDistinct key version (upsert key version r t)
          → IsDistinct key version
              (if same then (if later then r else s) ∷ t else s ∷ upsert key version r t)
      by_flags true true e ih =
          let known : key r ≡ key s = sym (codes_eq_sound (key s) (key r) e) in
          (ap (λ k. find_row key version k t) known ∙ h, hs)
      by_flags true false e ih = (h, hs)
      by_flags false later e ih =
          let apart : codes_eq (key r) (key s) ≡ false = codes_eq_comm (key r) (key s) ∙ e in
          let kept : (if codes_eq (key r) (key s)
                then some (replaced key version r (find_row key version (key s) t))
                else find_row key version (key s) t)
              ≡ none =
            rw apart h in
          (find_row-upsert key version (key s) r t ∙ kept, ih)

  merge-IsDistinct :
      (t rs : List R) → IsDistinct key version t → IsDistinct key version (merge key version t rs)
  unfolding merge
  merge-IsDistinct t [] h = h
  merge-IsDistinct t (r ∷ rs) h =
      merge-IsDistinct (upsert key version r t) rs (upsert-IsDistinct r t h)

  pub finals-IsDistinct : (rows : List R) → IsDistinct key version (finals key version rows)
  unfolding finals
  finals-IsDistinct rows = merge-IsDistinct [] rows tt

  upsert-IsBefore :
      (now : ℕ) (r : R) (t : List R)
      → version r ≤ now
      → IsBefore key version now t
      → IsBefore key version now (upsert key version r t)
  unfolding upsert
  upsert-IsBefore now r [] h k = (h, tt)
  upsert-IsBefore now r (s ∷ t) h (k, ks) =
      by_flags (codes_eq (key s) (key r)) (leb (version s) (version r))
        (upsert-IsBefore now r t h ks)
    where
      by_flags :
          (same later : Bool)
          → IsBefore key version now (upsert key version r t)
          → IsBefore key version now
              (if same then (if later then r else s) ∷ t else s ∷ upsert key version r t)
      by_flags true true ih = (h, ks)
      by_flags true false ih = (k, ks)
      by_flags false later ih = (k, ih)

  pub merge-IsBefore :
      (now : ℕ) (t rs : List R)
      → IsBefore key version now t
      → IsBefore key version now rs
      → IsBefore key version now (merge key version t rs)
  unfolding merge
  merge-IsBefore now t [] h k = h
  merge-IsBefore now t (r ∷ rs) h (k, ks) =
      merge-IsBefore now (upsert key version r t) rs (upsert-IsBefore now r t k h) ks

  pub merge-append :
      (t rs ss : List R)
      → merge key version t (rs ++ ss) ≡ merge key version (merge key version t rs) ss
  unfolding merge
  merge-append t [] ss = refl
  merge-append t (r ∷ rs) ss = merge-append (upsert key version r t) rs ss

  -- Rows that were inserted now, one for each key, are read, and otherwise what was there.
  abbrev pub prefer : Option R → Option R → Option R
  prefer none b = b
  prefer (some r) b = some r

  -- All the rows are of this version.
  abbrev pub IsNow : ℕ → List R → Type 0
  IsNow now rs = All (λ r. version r ≡ now) rs

  replaced-now :
      (k : Text) (now : ℕ) (r : R) (t : List R)
      → version r ≡ now
      → IsBefore key version now t
      → replaced key version r (find_row key version k t) ≡ r
  unfolding replaced find_row
  replaced-now k now r [] h b = refl
  replaced-now k now r (s ∷ t) h (b, bs) = ground (arith, replaced-now k now r t h bs)

  pub find_row-merge :
      (k : Text) (now : ℕ) (t rs : List R)
      → IsDistinct key version rs
      → IsNow now rs
      → IsBefore key version now t
      → find_row key version k (merge key version t rs)
        ≡ prefer (find_row key version k rs) (find_row key version k t)
  unfolding merge find_row
  find_row-merge k now t [] d n b = refl
  find_row-merge k now t (r ∷ rs) (d, ds) (n, ns) b =
      let first : version r ≤ now = omega arith in
      find_row-merge k now (upsert key version r t) rs ds ns (upsert-IsBefore now r t first b)
      ∙ ap (λ o. prefer (find_row key version k rs) o) (find_row-upsert key version k r t)
      ∙ by_flag (codes_eq (key r) k) refl
    where
      by_flag :
          (same : Bool)
          → codes_eq (key r) k ≡ same
          → prefer (find_row key version k rs) (
              if same
              then some (replaced key version r (find_row key version k t))
              else find_row key version k t)
            ≡ prefer (if same then some r else find_row key version k rs) (find_row key version k t)
      by_flag true e =
          let alone : find_row key version k rs ≡ none =
            ap (λ x. find_row key version x rs) (sym (codes_eq_sound (key r) k e)) ∙ d in
          rw (alone, replaced-now k now r t n b) refl
      by_flag false e = refl
