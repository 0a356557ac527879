-- ===== src/Migrations/Scanning.antt =====
-- The scan of a text never fails, goes on where a prefix left it, and appends to the statements.
use bormo_stats.Base.{
  ℕ, ◌≡◌, refl, ap, ◌∙◌, Bool, true, false, not, ◌&&◌, Option, none, some, List, [], ◌∷◌, ◌++◌,
  append_assoc, reverse, arith,
}
use bormo_stats.Base.Text.{strip}
use bormo_stats.Migrations.Statements.{
  Scan, start, is_dash, pop_buffer, add_statement, end_statement, comment_char, open_comment,
  toggle_quote, text_char, scan_char, and_then, scan, finish, split_sql_statements,
}

abbrev is_empty : List ℕ → Bool
is_empty [] = true
is_empty (c ∷ b) = false

-- Outside a comment, a dash read last is at the end of the buffer: the buffer is not empty.
abbrev IsScan : Scan → Type 0
IsScan st = is_dash st.previous && not st.in_line_comment && is_empty st.buffer ≡ false

abbrev Succeeds : Option Scan → Type 0
Succeeds none = ⊥
Succeeds (some st) = IsScan st

comment_char-IsScan : (c : ℕ) (st : Scan) → st.in_line_comment ≡ true → IsScan (comment_char c st)
unfolding comment_char
comment_char-IsScan c st h = ground arith

text_char-IsScan : (c : ℕ) (st : Scan) → IsScan (text_char c st)
unfolding text_char
text_char-IsScan c st = ground arith

open_comment-IsScan :
    (st : Scan) (b : List ℕ) → is_empty b ≡ false → Succeeds (open_comment st (pop_buffer b))
unfolding open_comment pop_buffer
open_comment-IsScan st [] h = cc
open_comment-IsScan st (c ∷ b) h = refl

scan_char-IsScan : (c : ℕ) (st : Scan) → IsScan st → Succeeds (scan_char c st)
unfolding scan_char
scan_char-IsScan c st h = ground (
  arith,
  comment_char-IsScan c st,
  text_char-IsScan c (toggle_quote c st),
  open_comment-IsScan st st.buffer,
)

scan-Succeeds : (sql : List ℕ) (o : Option Scan) → Succeeds o → Succeeds (and_then (scan sql) o)
unfolding scan
scan-Succeeds sql none h = h
scan-Succeeds [] (some st) h = h
scan-Succeeds (c ∷ cs) (some st) h = scan-Succeeds cs (scan_char c st) (scan_char-IsScan c st h)

finish_lem : (o : Option Scan) → Succeeds o → (r : List (List ℕ)) × (finish o ≡ some r)
unfolding finish
finish_lem none h = elim h [ ]
finish_lem (some st) h = (end_statement st, refl)

-- Every text is split: no dash is ever taken from an empty buffer.
pub split_sql_statements-total :
    (sql : List ℕ) → (r : List (List ℕ)) × (split_sql_statements sql ≡ some r)
unfolding split_sql_statements
split_sql_statements-total sql = finish_lem (scan sql start) (scan-Succeeds sql (some start) refl)

scan_from-append :
    (a b : List ℕ) (o : Option Scan)
    → and_then (scan (a ++ b)) o ≡ and_then (scan b) (and_then (scan a) o)
unfolding scan
scan_from-append a b none = refl
scan_from-append [] b (some st) = refl
scan_from-append (c ∷ a) b (some st) = scan_from-append a b (scan_char c st)

pub scan-append : (a b : List ℕ) (st : Scan) → scan (a ++ b) st ≡ and_then (scan b) (scan a st)
scan-append a b st = scan_from-append a b (some st)

-- With more statements before those of the scan.
abbrev pub after_statements : List (List ℕ) → Scan → Scan
after_statements done st = record st { statements = done ++ st.statements }

add_statement-append :
    (done more : List (List ℕ)) (s : List ℕ)
    → add_statement (done ++ more) s ≡ done ++ add_statement more s
unfolding add_statement
add_statement-append done more [] = refl
add_statement-append done more (c ∷ s) = append_assoc done more ((c ∷ s) ∷ [])

end_statement-append :
    (done : List (List ℕ)) (st : Scan)
    → end_statement (after_statements done st) ≡ done ++ end_statement st
unfolding end_statement
end_statement-append done st = add_statement-append done st.statements (strip (reverse st.buffer))

abbrev map_scan : (Scan → Scan) → Option Scan → Option Scan
map_scan f none = none
map_scan f (some st) = some (f st)

toggle_quote-after :
    (done : List (List ℕ)) (c : ℕ) (st : Scan)
    → toggle_quote c (after_statements done st) ≡ after_statements done (toggle_quote c st)
unfolding toggle_quote
toggle_quote-after done c st = ground arith

text_char-after :
    (done : List (List ℕ)) (c : ℕ) (st : Scan)
    → text_char c (after_statements done st) ≡ after_statements done (text_char c st)
unfolding text_char
text_char-after done c st = ground (arith, end_statement-append done st)

comment_char-after :
    (done : List (List ℕ)) (c : ℕ) (st : Scan)
    → comment_char c (after_statements done st) ≡ after_statements done (comment_char c st)
unfolding comment_char
comment_char-after done c st = ground arith

open_comment-after :
    (done : List (List ℕ)) (st : Scan) (b : Option (List ℕ))
    → open_comment (after_statements done st) b
      ≡ map_scan (after_statements done) (open_comment st b)
unfolding open_comment
open_comment-after done st none = refl
open_comment-after done st (some b) = refl

scan_char-after :
    (done : List (List ℕ)) (c : ℕ) (st : Scan)
    → scan_char c (after_statements done st) ≡ map_scan (after_statements done) (scan_char c st)
unfolding scan_char
scan_char-after done c st = ground (
  arith,
  comment_char-after done c st,
  open_comment-after done st (pop_buffer st.buffer),
  toggle_quote-after done c st,
  text_char-after done c (toggle_quote c st),
)

abbrev pub prepend : List (List ℕ) → Option (List (List ℕ)) → Option (List (List ℕ))
prepend done none = none
prepend done (some r) = some (done ++ r)

finish-after :
    (done : List (List ℕ)) (sql : List ℕ) (o : Option Scan)
    → finish (and_then (scan sql) (map_scan (after_statements done) o))
      ≡ prepend done (finish (and_then (scan sql) o))
unfolding finish scan
finish-after done sql none = refl
finish-after done [] (some st) = ap some (end_statement-append done st)
finish-after done (c ∷ cs) (some st) =
    ap (λ o. finish (and_then (scan cs) o)) (scan_char-after done c st)
    ∙ finish-after done cs (scan_char c st)

-- The scan as a semicolon outside quotes and comments leaves it.
abbrev pub restarted : Scan
restarted = record start { previous = some 59 }

scan_char-restarted : (c : ℕ) → scan_char c restarted ≡ scan_char c start
unfolding scan_char toggle_quote text_char
scan_char-restarted c = ground arith

scan-restarted : (sql : List ℕ) → finish (scan sql restarted) ≡ finish (scan sql start)
unfolding finish scan
scan-restarted [] = refl
scan-restarted (c ∷ cs) = ap (λ o. finish (and_then (scan cs) o)) (scan_char-restarted c)

-- What follows such a semicolon is split as a text of its own.
pub finish-restarted :
    (done : List (List ℕ)) (sql : List ℕ)
    → finish (scan sql (after_statements done restarted)) ≡ prepend done (split_sql_statements sql)
unfolding split_sql_statements
finish-restarted done sql =
    finish-after done sql (some restarted) ∙ ap (prepend done) (scan-restarted sql)
