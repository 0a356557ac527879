-- ===== src/Actions/Settings.antt =====
-- The settings of marketplace writes, from the environment: the kill switch and the run's budget.
use mathlib.Core.Option
use bormo_stats.Base.{
  ℕ, ◌+◌, ◌-◌, ◌*◌, ◌≤◌, max, String, Bool, true, false, ◌&&◌, ◌||◌, Option, none, some, List, [],
  ◌∷◌, map, arith, leb, ◌==◌, if◌then◌else◌,
}
use bormo_stats.Base.Text.{codes, codes_eq, strip, fold_code}

-- `text in {…}` for texts given by their code points
among : List ℕ → List String → Bool
among s [] = false
among s (w ∷ ws) = codes_eq s (codes w) || among s ws

-- `actions_enabled`, on the value of MARKETPLACE_ACTIONS_ENABLED (`none` when it is not set)
unfoldable pub actions_enabled : Option String → Bool
unfolding strip fold_code codes_eq among
actions_enabled none = false
actions_enabled (some value) =
    among (map fold_code (strip (codes value))) ("1" ∷ "true" ∷ "yes" ∷ "on" ∷ [])

-- The digits of a Python integer literal as `int` reads it, with single `_` between digits.
-- `after` tells whether a digit stands right before.
digits : Bool → ℕ → List ℕ → Option ℕ
digits after n [] = if after then some n else none
digits after n (c ∷ s) =
    let number = digits true (n * 10 + (c - 48)) s in
    let gap = digits false n s in
    if leb 48 c && leb c 57 then number else if after && c == 95 then gap else none

unsigned : Bool → List ℕ → Option (Bool × ℕ)
unfolding digits
unsigned minus s = Option.map (λ n. (minus, n)) (digits false 0 s)

signed : List ℕ → Option (Bool × ℕ)
unfolding unsigned
signed [] = none
signed (c ∷ s) =
    if c == 45
    then unsigned true s
    else if c == 43
    then unsigned false s
    else unsigned false (c ∷ s)

-- `int(text)`: the sign (`true` for minus) and the absolute value; `none` is the ValueError.
parse_int : List ℕ → Option (Bool × ℕ)
unfolding strip signed
parse_int text = signed (strip text)

abbrev pub default_max_actions_per_run : ℕ
default_max_actions_per_run = 100

at_least_one : Option (Bool × ℕ) → ℕ
at_least_one none = default_max_actions_per_run
at_least_one (some (true, n)) = 1
at_least_one (some (false, n)) = max 1 n

-- `os.getenv(name, "")`
setting_text : Option String → List ℕ
setting_text none = []
setting_text (some value) = codes value

-- `max_actions_per_run`, on the value of MARKETPLACE_ACTIONS_MAX_PER_RUN
unfoldable pub max_actions_per_run : Option String → ℕ
unfolding parse_int at_least_one setting_text
max_actions_per_run value = at_least_one (parse_int (setting_text value))

-- A run may always make one change.
pub max_actions_per_run-pos : (value : Option String) → 1 ≤ max_actions_per_run value
unfolding max_actions_per_run
max_actions_per_run-pos value = ground arith
