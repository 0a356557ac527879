-- ===== src/Http/Circuit.antt =====
-- The circuit breaker of the client.
use bormo_stats.Base.{ℕ, ◌+◌, ◌*◌, max, Bool, true, false, Option, none, some, leb, if◌then◌else◌}

pub record Config : Type 0 where
  pub max_attempts : ℕ
  pub circuit_failure_threshold : ℕ
  pub circuit_reset_seconds : ℕ

-- What `JsonHttpClient.__init__` makes of its arguments.
unfoldable pub make_config : ℕ → ℕ → ℕ → Config
make_config max_attempts threshold reset = record {
  max_attempts = max 1 max_attempts;
  circuit_failure_threshold = max 1 threshold;
  circuit_reset_seconds = max 1 reset;
}

pub record Client : Type 0 where
  pub failure_count : ℕ
  pub open_until : Option ℕ
  pub closed : Bool

abbrev pub new_client : Client
new_client = record { failure_count = 0; open_until = none; closed = false }

-- `close`; closing twice is closing once.
unfoldable pub close : Client → Client
close c = record c { closed = true }

check_until : ℕ → Client → Option ℕ → Option Client
check_until now c none = some c
check_until now c (some t) =
    if leb t now then some (record c { open_until = none; failure_count = 0 }) else none

-- `_check_circuit`: the client to go on with, or `none` for CircuitOpenError.
unfoldable pub check_circuit : ℕ → Client → Option Client
unfolding check_until
check_circuit now c = check_until now c c.open_until

unfoldable pub record_success : Client → Client
record_success c = record c { failure_count = 0; open_until = none }

unfoldable pub record_failure : Config → ℕ → Client → Client
record_failure cfg now c =
    if leb cfg.circuit_failure_threshold (c.failure_count + 1)
    then record c {
      failure_count = c.failure_count + 1;
      open_until = some (now + 1000 * cfg.circuit_reset_seconds);
    }
    else record c { failure_count = c.failure_count + 1 }
