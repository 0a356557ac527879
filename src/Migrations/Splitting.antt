-- ===== src/Migrations/Splitting.antt =====
-- What the statements of a text are: a semicolon outside quotes and comments ends one, and a line
-- comment is not part of any.
use bormo_stats.Base.{
  ℕ, ◌≡◌, refl, ap, sym, ◌∙◌, Bool, true, false, not, ◌&&◌, Option, none, some, List, [], ◌∷◌, ◌++◌,
  append-nil, ◌==◌, arith,
}
use bormo_stats.Base.{All}
use bormo_stats.Migrations.Statements.{
  Scan, start, is_dash, outside, pop_buffer, end_statement, comment_char, open_comment,
  toggle_quote, text_char, scan_char, and_then, scan, finish, split_sql_statements,
}
use bormo_stats.Migrations.Scanning.{
  scan-append, after_statements, prepend, restarted, finish-restarted,
}

-- The scan of a text ends outside quotes and comments.
abbrev pub ends_outside : Option Scan → Bool
ends_outside none = false
ends_outside (some st) = outside st && not st.in_line_comment

unfoldable pub is_closed : List ℕ → Bool
is_closed sql = ends_outside (scan sql start)

-- An open quote or comment would go on; a closed text is ended by the semicolon.
semicolon_ends :
    (st : Scan)
    → ends_outside (some st) ≡ true
    → scan_char 59 st ≡ some (after_statements (end_statement st) restarted)
unfolding scan_char toggle_quote text_char
semicolon_ends st h = ground (arith, append-nil (end_statement st))

some_lem : {xs ys : List (List ℕ)} → some xs ≡ some ys → xs ≡ ys
some_lem e = cc

split_after :
    (b : List ℕ) (o : Option Scan) (done : List (List ℕ))
    → ends_outside o ≡ true
    → finish o ≡ some done
    → finish (and_then (scan (59 ∷ b)) o) ≡ prepend done (split_sql_statements b)
unfolding scan finish
split_after b none done h e = cc
split_after b (some st) done h e =
    ap (λ o. finish (and_then (scan b) o)) (semicolon_ends st h)
    ∙ finish-restarted (end_statement st) b
    ∙ ap (λ d. prepend d (split_sql_statements b)) (some_lem e)

-- The statements of a text that ends outside quotes and comments, a semicolon and another text are
-- those of the first text followed by those of the second.
pub split_sql_statements-append :
    (a b : List ℕ) (done more : List (List ℕ))
    → is_closed a ≡ true
    → split_sql_statements a ≡ some done
    → split_sql_statements b ≡ some more
    → split_sql_statements (a ++ (59 ∷ b)) ≡ some (done ++ more)
unfolding split_sql_statements is_closed
split_sql_statements-append a b done more closed ea eb =
    ap finish (scan-append a (59 ∷ b) start)
    ∙ split_after b (scan a start) done closed ea
    ∙ ap (prepend done) eb

-- No end of line.
abbrev pub IsLine : List ℕ → Type 0
IsLine = All λ c. c == 10 ≡ false

-- The text does not end in a dash, as the scan sees it.
abbrev pub ends_in_dash : Option Scan → Bool
ends_in_dash none = false
ends_in_dash (some st) = is_dash st.previous

in_comment :
    (comment b : List ℕ) (st : Scan)
    → IsLine comment
    → st.in_line_comment ≡ true
    → scan (comment ++ (10 ∷ b)) st
      ≡ scan b (record st { in_line_comment = false; buffer = 10 ∷ st.buffer; previous = some 10 })
unfolding scan scan_char comment_char
in_comment [] b st line h = ground arith
in_comment (c ∷ comment) b st line h =
    ground (arith, in_comment comment b (record st { previous = some c }) line.1)

first_dash :
    (st : Scan)
    → ends_outside (some st) ≡ true
    → is_dash st.previous ≡ false
    → scan_char 45 st ≡ some (record st { buffer = 45 ∷ st.buffer; previous = some 45 })
unfolding scan_char toggle_quote text_char
first_dash st h k = ground arith

second_dash :
    (st : Scan)
    → ends_outside (some st) ≡ true
    → scan_char 45 (record st { buffer = 45 ∷ st.buffer; previous = some 45 })
      ≡ some (record st { in_line_comment = true; previous = none })
unfolding scan_char open_comment pop_buffer
second_dash st h = ground arith

line_end :
    (st : Scan)
    → ends_outside (some st) ≡ true
    → scan_char 10 st
      ≡ some (record st { in_line_comment = false; buffer = 10 ∷ st.buffer; previous = some 10 })
unfolding scan_char toggle_quote text_char
line_end st h = ground arith

comment_opens :
    (comment b : List ℕ) (o : Option Scan)
    → IsLine comment
    → ends_outside o ≡ true
    → ends_in_dash o ≡ false
    → and_then (scan (45 ∷ 45 ∷ (comment ++ (10 ∷ b)))) o ≡ and_then (scan (10 ∷ b)) o
unfolding scan
comment_opens comment b none line h k = refl
comment_opens comment b (some st) line h k =
    ap (and_then (scan (45 ∷ (comment ++ (10 ∷ b))))) (first_dash st h k)
    ∙ ap (and_then (scan (comment ++ (10 ∷ b)))) (second_dash st h)
    ∙ in_comment comment b (record st { in_line_comment = true; previous = none }) line refl
    ∙ sym (ap (and_then (scan b)) (line_end st h))

-- A line comment that starts outside quotes and other comments, and not right after a dash,
-- changes nothing: the statements are those of the text with only its end of line.
pub split_sql_statements-skips_comments :
    (a comment b : List ℕ)
    → is_closed a ≡ true
    → ends_in_dash (scan a start) ≡ false
    → IsLine comment
    → split_sql_statements (a ++ (45 ∷ 45 ∷ (comment ++ (10 ∷ b))))
      ≡ split_sql_statements (a ++ (10 ∷ b))
unfolding split_sql_statements is_closed
split_sql_statements-skips_comments a comment b closed dash line = ap finish (
    scan-append a (45 ∷ 45 ∷ (comment ++ (10 ∷ b))) start
    ∙ comment_opens comment b (scan a start) line closed dash
    ∙ sym (scan-append a (10 ∷ b) start))
