-- ===== src/Economics/Repeats.antt =====
-- `add_buyouts` on a report that was read before.
use mathlib.Core.Path.{subst}
use bormo_stats.Base.{
  ◌+◌, ℕ, suc, String, ◌≡◌, refl, ap, sym, ◌∙◌, Bool, true, false, Option, none, some, List, [],
  ◌∷◌, length, if◌then◌else◌, arith, All, eq_iff, eq_refl,
}
use bormo_stats.Base.Int.{ℤ, ◌-ℤ◌, is_zero}
use bormo_stats.Base.Results.{Result, ok, err, ok_injective}
use bormo_stats.Economics.State.{Key, key_eq, Domestic, Buyout, Economics, find_key}
use bormo_stats.Economics.Buyouts.{
  EconomicsError, RawBuyout, parse_buyout, cons_result, parse_buyouts, buyout_eq, identity, add_new,
  add_buyout, after_turn, add_buyout_list, add_parsed, add_buyouts,
}

same_amount : (a : ℤ) → is_zero (a -ℤ a) ≡ true
unfolding ◌-ℤ◌
same_amount a = ground arith

buyout_eq_refl : (b : Buyout) → buyout_eq b b ≡ true
unfolding buyout_eq
buyout_eq_refl b =
    rw
      (
        eq_refl b.sku,
        eq_refl b.posting_number,
        eq_refl b.offer_id,
        eq_refl b.title,
        same_amount b.quantity,
        same_amount b.gross,
        same_amount b.receipt,
        same_amount b.deduction,
      )
      refl

key_refl : (k : Key) → key_eq k k ≡ true
key_refl (a, b) = rw (eq_refl a, eq_refl b) refl

key_sound : (j k : Key) → key_eq j k ≡ true → j ≡ k
key_sound (a, b) (c, d) h =
    let (p, _) = eq_iff a c in
    let (q, _) = eq_iff b d in
    let first : a ≡ c = p (ground arith) in
    let second : b ≡ d = q (ground arith) in rw (first, second) refl

-- The row is among those that were read, with the same figures.
abbrev IsSeen : Economics → Buyout → Type 0
IsSeen e b = (s : Buyout) × (find_key (identity b) e.seen_buyouts ≡ some s) × (buyout_eq s b ≡ true)

-- What was read before stays.
abbrev Extends : Economics → Economics → Type 0
Extends e d =
    (k : Key) (s : Buyout) → find_key k e.seen_buyouts ≡ some s → find_key k d.seen_buyouts ≡ some s

find_new :
    (k j : Key) (v s : Buyout) (m : List (Key × Buyout))
    → find_key j m ≡ none
    → find_key k m ≡ some s
    → find_key k ((j, v) ∷ m) ≡ some s
unfolding find_key
find_new k j v s m h i = by_flag (key_eq k j) (key_sound k j)
  where
    by_flag :
        (same : Bool) → (same ≡ true → k ≡ j) → (if same then some v else find_key k m) ≡ some s
    by_flag true q = let e : find_key k m ≡ none = ap (λ x. find_key x m) (q refl) ∙ h in cc
    by_flag false q = i

find_first : (k : Key) (v : Buyout) (m : List (Key × Buyout)) → find_key k ((k, v) ∷ m) ≡ some v
unfolding find_key
find_first k v m = rw (key_refl k) refl

new-seen :
    (month : String) (b : Buyout) (d : Option Domestic) (e : Economics)
    → (add_new month b d e).seen_buyouts ≡ (identity b, b) ∷ e.seen_buyouts
unfolding add_new
new-seen month b none e = refl
new-seen month b (some d) e = refl

-- What a turn leaves: if it goes on, its row was read, and those before it still are.
abbrev Reads : Buyout → Economics → Bool × Economics → Type 0
Reads b e (went_on, d) = went_on ≡ true → IsSeen d b × Extends e d

known-Reads :
    (b s : Buyout) (e : Economics)
    → find_key (identity b) e.seen_buyouts ≡ some s
    → (same : Bool) → buyout_eq s b ≡ same
    → Reads b e (
        if same
        then (true, record e { buyout_overlap_count = suc e.buyout_overlap_count })
        else (false, e))
known-Reads b s e h true q t = ((s, h, q), λ k v i. i)
known-Reads b s e h false q t = cc

turn-Reads :
    (month : String) (b : Buyout) (e : Economics) (o : Option Buyout)
    → find_key (identity b) e.seen_buyouts ≡ o
    → Reads b e (add_buyout month b o e)
unfolding add_buyout
turn-Reads month b e none h t =
    let d = find_key (identity b) e.domestic_sales in
    let seen = sym (new-seen month b d e) in
    (
      (
        b,
        subst (λ m. find_key (identity b) m ≡ some b) seen
            (find_first (identity b) b e.seen_buyouts),
        buyout_eq_refl b,
      ),
      λ k v i.
          subst (λ m. find_key k m ≡ some v) seen (find_new k (identity b) b v e.seen_buyouts h i),
    )
turn-Reads month b e (some s) h t = known-Reads b s e h (buyout_eq s b) refl t

still : (b : Buyout) (d f : Economics) → Extends d f → IsSeen d b → IsSeen f b
still b d f grow (s, found, same) = (s, grow (identity b) s found, same)

-- A run that succeeds has read all its rows, and kept those before.
list-Reads :
    (month : String) (bs : List Buyout) (e : Economics)
    → (add_buyout_list month bs e).0 ≡ ok tt
    → All (IsSeen (add_buyout_list month bs e).1) bs × Extends e (add_buyout_list month bs e).1
unfolding add_buyout_list
list-Reads month [] e h = (tt, λ k s i. i)
list-Reads month (b ∷ bs) e h =
    by_turn (add_buyout month b (find_key (identity b) e.seen_buyouts) e)
      (turn-Reads month b e (find_key (identity b) e.seen_buyouts) refl) (list-Reads month bs) h
  where
    by_turn :
        (turn : Bool × Economics)
        → Reads b e turn
        → ((d : Economics)
            → (add_buyout_list month bs d).0 ≡ ok tt
            → All (IsSeen (add_buyout_list month bs d).1) bs
              × Extends d (add_buyout_list month bs d).1)
        → (after_turn turn.0 (add_buyout_list month bs) turn.1).0 ≡ ok tt
        → All (IsSeen (after_turn turn.0 (add_buyout_list month bs) turn.1).1) (b ∷ bs)
          × Extends e (after_turn turn.0 (add_buyout_list month bs) turn.1).1
    by_turn (true, d) r ih q =
        let (read, grow) = r refl in
        let (seen, more) = ih d q in
        ((still b d (add_buyout_list month bs d).1 more read, seen), λ k s i. more k s (grow k s i))
    by_turn (false, d) r ih q = cc

abbrev counted : Economics → ℕ → Result {0, 0} EconomicsError Unit × Economics
counted e n = (ok tt, record e { buyout_overlap_count = n })

-- Where all rows were read before, a run only counts them.
list-seen :
    (month : String) (bs : List Buyout) (e : Economics)
    → All (IsSeen e) bs
    → add_buyout_list month bs e ≡ counted e (length bs + e.buyout_overlap_count)
unfolding add_buyout_list add_buyout after_turn
list-seen month [] e h = ap (counted e) (omega arith)
list-seen month (b ∷ bs) e ((s, found, same), rest) =
    let d : Economics = record e { buyout_overlap_count = suc e.buyout_overlap_count } in
    rw (found, same) (rw (list-seen month bs d rest) (ap (counted e) (omega arith)))

length-cons_result :
    (first : Result EconomicsError Buyout) (rest : Result EconomicsError (List Buyout)) (n : ℕ)
    (bs : List Buyout)
    → ((cs : List Buyout) → rest ≡ ok cs → length cs ≡ n)
    → cons_result first rest ≡ ok bs
    → length bs ≡ suc n
unfolding cons_result
length-cons_result (err x) rest n bs h e = cc
length-cons_result (ok b) (err x) n bs h e = cc
length-cons_result (ok b) (ok cs) n bs h e =
    ap length (sym (ok_injective e)) ∙ ap (λ m. suc m) (h cs refl)

length-parse_buyouts :
    (seen : List Key) (rows : List RawBuyout) (bs : List Buyout)
    → parse_buyouts seen rows ≡ ok bs
    → length bs ≡ length rows
unfolding parse_buyouts
length-parse_buyouts seen [] bs e = ap length (sym (ok_injective e))
length-parse_buyouts seen (row ∷ rows) bs e =
    length-cons_result (parse_buyout seen row)
      (parse_buyouts ((row.posting_number, row.sku) ∷ seen) rows) (length rows) bs
      (λ cs h. length-parse_buyouts ((row.posting_number, row.sku) ∷ seen) rows cs h) e

again_lem :
    (month later : String) (parsed : Result EconomicsError (List Buyout)) (n : ℕ) (e : Economics)
    → ((bs : List Buyout) → parsed ≡ ok bs → length bs ≡ n)
    → (add_parsed month parsed e).0 ≡ ok tt
    → let d = (add_parsed month parsed e).1 in
      add_parsed later parsed d ≡ counted d (n + d.buyout_overlap_count)
unfolding add_parsed
again_lem month later (err x) n e h k = cc
again_lem month later (ok bs) n e h k =
    let d = (add_buyout_list month bs e).1 in
    list-seen later bs d (list-Reads month bs e k).0
    ∙ ap (λ m. counted d (m + d.buyout_overlap_count)) (h bs refl)

-- A buyout report that was read without an exception can be read again, for the same or another
-- day: the second call succeeds too and changes nothing but the count of overlaps, which grows by
-- the number of the rows.
pub add_buyouts-again :
    (month later : String) (rows : List RawBuyout) (e : Economics)
    → (add_buyouts month rows e).0 ≡ ok tt
    → let d = (add_buyouts month rows e).1 in
      add_buyouts later rows d
      ≡ (ok tt, record d { buyout_overlap_count = length rows + d.buyout_overlap_count })
unfolding add_buyouts
add_buyouts-again month later rows e h =
    again_lem month later (parse_buyouts [] rows) (length rows) e
      (λ bs k. length-parse_buyouts [] rows bs k) h
