-- ===== src/Common/Text.antt =====
-- std::string: the list of its bytes, its equality, and literals.
use Prim.Native.Nat.{ℕ}
use Prim.Native.Char.{code}
use Prim.Native.String.{String}
use native.Mathlib.Decide.{ℕ_discrete}
use mathlib.Core.Path.{◌≡◌, refl}
use mathlib.Core.Logic.{◌↔◌, ◌≢◌}
use mathlib.Core.Bool.{Bool, true, false, ◌&&◌}
use mathlib.Core.List.{List, [], ◌∷◌}
use native.Mathlib.Omega.{arith}
use syrius_orbit_daemon.Common.Tests.{nat_eq}

abbrev pub Bytes : Type 0
Bytes = List ℕ

abbrev pub codes : String → Bytes
codes String.[] = []
codes (String.◌∷◌ c s) = code c ∷ codes s

-- A string literal of the source.
abbrev pub text : String → Bytes
text = codes

-- operator== of std::string.
infix 50 ◌==◌
unfoldable pub ◌==◌ : Bytes → Bytes → Bool
[] == [] = true
[] == (b ∷ bs) = false
(a ∷ as') == [] = false
(a ∷ as') == (b ∷ bs) = nat_eq a b && (as' == bs)

pub ==_iff : (a b : Bytes) → ((a == b) ≡ true) ↔ (a ≡ b)
unfolding ◌==◌
==_iff [] [] = ground arith
==_iff [] (b ∷ bs) = ground arith
==_iff (a ∷ as') [] = ground arith
==_iff (a ∷ as') (b ∷ bs) = ground (arith, ==_iff as' bs)

pub ==_refl : (a : Bytes) → (a == a) ≡ true
==_refl a = (==_iff a a).1 refl

pub ==_false : (a b : Bytes) → a ≢ b → (a == b) ≡ false
==_false a b h = ground (arith, ==_iff a b)

pub ==_apart : (a b : Bytes) → (a == b) ≡ false → a ≢ b
==_apart a b h e = cc (h, (==_iff a b).1 e)

pub text_discrete : Discrete Bytes
text_discrete = hlevel ℕ_discrete

pub IsText-set : IsSet Bytes
IsText-set = hlevel
