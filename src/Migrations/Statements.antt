-- ===== src/Migrations/Statements.antt =====
-- `split_sql_statements`, one character at a time.
use bormo_stats.Base.{
  ℕ, Bool, true, false, not, ◌&&◌, Option, none, some, List, [], ◌∷◌, ◌++◌, reverse, ◌==◌,
  if◌then◌else◌,
}
use bormo_stats.Base.Text.{strip}

-- The variables of the loop. `buffer` has its last character first.
pub record Scan : Type 0 where
  pub statements : List (List ℕ)
  pub buffer : List ℕ
  pub in_single : Bool
  pub in_double : Bool
  pub in_line_comment : Bool
  pub previous : Option ℕ

abbrev pub start : Scan
start = record {
  statements = [];
  buffer = [];
  in_single = false;
  in_double = false;
  in_line_comment = false;
  previous = none;
}

abbrev pub is_dash : Option ℕ → Bool
is_dash none = false
is_dash (some c) = c == 45

abbrev pub outside : Scan → Bool
outside st = not st.in_single && not st.in_double

-- `buffer.pop()`: an IndexError, `none`, where the buffer is empty
unfoldable pub pop_buffer : List ℕ → Option (List ℕ)
pop_buffer [] = none
pop_buffer (c ∷ b) = some b

-- `"".join(buffer).strip()`, kept unless it is empty
unfoldable pub add_statement : List (List ℕ) → List ℕ → List (List ℕ)
add_statement done [] = done
add_statement done (c ∷ s) = done ++ ((c ∷ s) ∷ [])

unfoldable pub end_statement : Scan → List (List ℕ)
unfolding add_statement
end_statement st = add_statement st.statements (strip (reverse st.buffer))

-- within a comment
unfoldable pub comment_char : ℕ → Scan → Scan
comment_char c st =
    if c == 10
    then record st { in_line_comment = false; buffer = c ∷ st.buffer; previous = some c }
    else record st { previous = some c }

-- the second dash: the first one leaves the buffer
unfoldable pub open_comment : Scan → Option (List ℕ) → Option Scan
open_comment st none = none
open_comment st (some b) = some (record st { buffer = b; in_line_comment = true; previous = none })

unfoldable pub toggle_quote : ℕ → Scan → Scan
toggle_quote c st =
    if c == 39 && not st.in_double
    then record st { in_single = not st.in_single }
    else if c == 34 && not st.in_single
    then record st { in_double = not st.in_double }
    else st

unfoldable pub text_char : ℕ → Scan → Scan
unfolding end_statement
text_char c st =
    if c == 59 && outside st
    then record st { statements = end_statement st; buffer = []; previous = some c }
    else record st { buffer = c ∷ st.buffer; previous = some c }

-- one turn of the loop
unfoldable pub scan_char : ℕ → Scan → Option Scan
unfolding comment_char open_comment pop_buffer toggle_quote text_char
scan_char c st =
    if st.in_line_comment
    then some (comment_char c st)
    else if c == 45 && (is_dash st.previous && outside st)
    then open_comment st (pop_buffer st.buffer)
    else some (text_char c (toggle_quote c st))

abbrev pub and_then : (Scan → Option Scan) → Option Scan → Option Scan
and_then f none = none
and_then f (some st) = f st

unfoldable pub scan : List ℕ → Scan → Option Scan
unfolding scan_char
scan [] st = some st
scan (c ∷ cs) st = and_then (scan cs) (scan_char c st)

unfoldable pub finish : Option Scan → Option (List (List ℕ))
unfolding end_statement
finish none = none
finish (some st) = some (end_statement st)

-- `split_sql_statements`; `none` is an IndexError.
unfoldable pub split_sql_statements : List ℕ → Option (List (List ℕ))
unfolding scan finish
split_sql_statements sql = finish (scan sql start)
