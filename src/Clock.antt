-- ===== src/Clock.antt =====
-- Instants of Go's package time: nanoseconds since the zero time (year 1), so that the zero time
-- is 0. Instants before it are not represented.
use multi_derp.Base.{Bool, bool_eq, ltb, nat_eq, option_eq, string_eq, ℕ, ◌*◌, ◌+◌, ◌==◌}

abbrev pub Instant : Type 0
Instant = ℕ

abbrev pub second : ℕ
second = 1_000_000_000

abbrev pub is_zero : Instant → Bool
is_zero t = t == 0

abbrev pub before : Instant → Instant → Bool
before a b = ltb a b

-- `time.Unix(s, 0)`: 62135596800 seconds lie between the zero time and 1970.
abbrev pub unix_time : ℕ → Instant
unix_time s = (62_135_596_800 + s) * second
