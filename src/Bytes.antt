-- ===== src/Bytes.antt =====
-- The operations of std::string that the topic code calls: find, substr and the prefix test.
pub mod Laws
use syrius_orbit_daemon.Common.{
  ℕ, zero, suc, ◌≡◌, Bool, true, false, ◌&&◌, Option, none, some, List, [], ◌∷◌, Bytes, nat_eq,
  if◌then◌else◌,
}

-- take and drop over the native numbers: substr(0, n) and substr(n), for n within the size.
abbrev pub take : ℕ → Bytes → Bytes
take zero s = []
take (suc n) [] = []
take (suc n) (b ∷ s) = b ∷ take n s

abbrev pub drop : ℕ → Bytes → Bytes
drop zero s = s
drop (suc n) [] = []
drop (suc n) (b ∷ s) = drop n s

abbrev pub next_index : Option ℕ → Option ℕ
next_index none = none
next_index (some i) = some (suc i)

-- s.find(c); npos is `none`.
unfoldable pub find : ℕ → Bytes → Option ℕ
find c [] = none
find c (b ∷ s) = let rest = find c s in if nat_eq b c then some 0 else next_index rest

-- s.rfind(p, 0) == 0.
unfoldable pub starts_with : Bytes → Bytes → Bool
starts_with [] s = true
starts_with (b ∷ p) [] = false
starts_with (b ∷ p) (c ∷ s) = nat_eq b c && starts_with p s
