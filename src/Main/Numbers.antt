-- ===== src/Main/Numbers.antt =====
-- What src/main.cpp uses of the standard library for numbers: std::to_string and std::stoi in base
-- 10, and the conversion of an int to std::uint16_t.
pub mod Laws
use Prim.Native.Nat.{◌/◌}
use syrius_orbit_daemon.Common.{
  ℕ, zero, suc, ◌+◌, ◌-◌, ◌*◌, ◌%◌, ◌^◌, Bool, true, false, ◌&&◌, ◌||◌, Option, none, some, List,
  [], ◌∷◌, ◌++◌, Bytes, ltb, leb, nat_eq, if◌then◌else◌, ◌>>=◌,
}

-- An int: `negsuc k` is -(k + 1).
pub data ℤ : Type 0 where
  pos negsuc : ℕ → ℤ

-- The digits of a number, its last digit last; a number takes fewer rounds than it counts.
unfoldable pub decimal : ℕ → ℕ → Bytes
decimal zero n = (48 + n) ∷ []
decimal (suc rounds) n = elim (ltb n 10) [
  | true ↦ (48 + n) ∷ []
  | false ↦ decimal rounds (n / 10) ++ ((48 + n % 10) ∷ [])
]

-- std::to_string of an unsigned number.
unfoldable pub to_string : ℕ → Bytes
to_string n = decimal n n

abbrev pub is_digit : ℕ → Bool
is_digit c = leb 48 c && leb c 57

abbrev pub is_space : ℕ → Bool
is_space c = (leb 9 c && leb c 13) || nat_eq c 32

unfoldable pub skip_spaces : Bytes → Bytes
skip_spaces [] = []
skip_spaces (c ∷ cs) = let rest = skip_spaces cs in if is_space c then rest else c ∷ cs

-- The value of the digits up to the first other character, behind a value that was read.
unfoldable pub digits : ℕ → Bytes → ℕ
digits acc [] = acc
digits acc (c ∷ cs) = let rest = digits (acc * 10 + (c - 48)) cs in if is_digit c then rest else acc

unfoldable pub magnitude : Bytes → Option ℕ
magnitude [] = none
magnitude (c ∷ cs) = if is_digit c then some (digits 0 (c ∷ cs)) else none

abbrev pub minus : ℕ → ℤ
minus zero = pos 0
minus (suc k) = negsuc k

-- An int has 32 bits.
abbrev pub to_int : ℤ → Option ℤ
to_int (pos n) = if ltb n (2 ^ 31) then some (pos n) else none
to_int (negsuc k) = if ltb k (2 ^ 31) then some (negsuc k) else none

unfoldable pub signed : Bytes → Option ℤ
signed [] = none
signed (c ∷ cs) =
    if nat_eq c 45
    then (magnitude cs >>= λ n. some (minus n))
    else if nat_eq c 43
    then (magnitude cs >>= λ n. some (pos n))
    else (magnitude (c ∷ cs) >>= λ n. some (pos n))

-- std::stoi; `none` for std::invalid_argument and std::out_of_range.
unfoldable pub stoi : Bytes → Option ℤ
stoi s = signed (skip_spaces s) >>= to_int

-- static_cast<std::uint16_t>.
abbrev pub uint16 : ℤ → ℕ
uint16 (pos n) = n % 2 ^ 16
uint16 (negsuc k) = 2 ^ 16 - 1 - k % 2 ^ 16
