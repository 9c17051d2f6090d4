-- ===== src/Db/Cells.antt =====
-- Cells of SQLite rows. A double is its 64-bit pattern and an int64_t its two's complement pattern:
-- the repositories copy such values and never compute with them. A NULL cell is `none`.
use syrius_orbit_daemon.Common.{
  ℕ, Bool, not, Option, none, some, Bytes, nat_eq, is_empty, if◌then◌else◌,
}

abbrev pub Double : Type 0
Double = ℕ

abbrev pub Int32 : Type 0
Int32 = ℕ

abbrev pub Int64 : Type 0
Int64 = ℕ

-- `flag ? 1 : 0`.
abbrev pub bind_bool : Bool → ℕ
bind_bool flag = if flag then 1 else 0

-- `getInt() != 0`.
abbrev pub get_bool : ℕ → Bool
get_bool n = not (nat_eq n 0)

-- An empty text is bound as NULL.
abbrev pub bind_nonempty : Bytes → Option Bytes
bind_nonempty s = if not (is_empty s) then some s else none
