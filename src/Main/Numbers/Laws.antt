-- ===== src/Main/Numbers/Laws.antt =====
-- Numbers written by to_string are read back by stoi.
use Prim.Native.Nat.{◌/◌}
use syrius_orbit_daemon.Common.{
  ℕ, zero, suc, ◌+◌, ◌-◌, ◌*◌, ◌%◌, ◌^◌, ◌≤◌, ◌<◌, ◌≡◌, refl, sym, ap, ◌∙◌, true, false, some, [],
  ◌∷◌, ◌++◌, Bytes, All, Bool-cases, inl, inr, arith, subst, ◌≢◌, ltb,
}
use syrius_orbit_daemon.Main.Numbers.{
  ℤ, pos, negsuc, decimal, to_string, skip_spaces, digits, magnitude, signed, stoi, uint16,
}

abbrev IsDigit : ℕ → Type 0
IsDigit c = (48 ≤ c) × (c ≤ 57)

digits-append :
    (s : Bytes) (c acc : ℕ)
    → All IsDigit s
    → IsDigit c
    → digits acc (s ++ (c ∷ [])) ≡ digits acc s * 10 + (c - 48)
unfolding digits
digits-append [] c acc h k = ground arith
digits-append (d ∷ ds) c acc h k = ground (arith, digits-append ds c (acc * 10 + (d - 48)) h.1 k)

All-append : (s : Bytes) (c : ℕ) → All IsDigit s → IsDigit c → All IsDigit (s ++ (c ∷ []))
All-append [] c h k = (k, tt)
All-append (d ∷ ds) c h k = (h.0, All-append ds c h.1 k)

decimal_one : (rounds n : ℕ) → ltb n 10 ≡ true → decimal (suc rounds) n ≡ (48 + n) ∷ []
unfolding decimal
decimal_one rounds n h = rw (h, decimal) refl

decimal_more :
    (rounds n : ℕ)
    → ltb n 10 ≡ false
    → decimal (suc rounds) n ≡ decimal rounds (n / 10) ++ ((48 + n % 10) ∷ [])
unfolding decimal
decimal_more rounds n h = rw (h, decimal) refl

-- A text of digits, with its value.
abbrev Writes : ℕ → Bytes → Type 0
Writes n s = All IsDigit s × (digits 0 s ≡ n)

one-Writes : (n : ℕ) → ltb n 10 ≡ true → Writes n ((48 + n) ∷ [])
unfolding digits
one-Writes n h = ground arith

-- The rounds are enough: the digits stand for the number.
decimal-Writes : (rounds n : ℕ) → n ≤ rounds → Writes n (decimal rounds n)
decimal-Writes zero n h = unfold decimal in one-Writes n (ground arith)
decimal-Writes (suc rounds) n h = elim (Bool-cases (ltb n 10)) [
  | inl small ↦ subst (Writes n) (sym (decimal_one rounds n small)) (one-Writes n small)
  | inr big ↦
      let (front, value) = decimal-Writes rounds (n / 10) (ground arith) in
      let back : IsDigit (48 + n % 10) = omega arith in
      subst (Writes n) (sym (decimal_more rounds n big)) (
        All-append (decimal rounds (n / 10)) (48 + n % 10) front back,
        digits-append (decimal rounds (n / 10)) (48 + n % 10) 0 front back
            ∙ (ap (λ v. v * 10 + (48 + n % 10 - 48)) value ∙ omega arith),
      )
]

-- Reading a text of digits.
signed-digits :
    (c : ℕ) (cs : Bytes)
    → IsDigit c
    → signed (skip_spaces (c ∷ cs)) ≡ some (pos (digits 0 (c ∷ cs)))
unfolding signed skip_spaces magnitude
signed-digits c cs h = ground arith

stoi-digits :
    (s : Bytes) (n : ℕ)
    → s ≢ []
    → All IsDigit s
    → digits 0 s ≡ n
    → n < 2 ^ 31
    → stoi s ≡ some (pos n)
unfolding stoi
stoi-digits [] n full h value small = absurd (full refl)
stoi-digits (c ∷ cs) n full h value small = rw (signed-digits c cs h.0) (ground arith)

append-nonempty : (s : Bytes) (c : ℕ) → s ++ (c ∷ []) ≢ []
append-nonempty [] c h = cc
append-nonempty (d ∷ ds) c h = cc

decimal-nonempty : (rounds n : ℕ) → decimal rounds n ≢ []
decimal-nonempty zero n h = unfold decimal in cc
decimal-nonempty (suc rounds) n h = elim (Bool-cases (ltb n 10)) [
  | inl small ↦ cc (decimal_one rounds n small, h)
  | inr big ↦
      append-nonempty (decimal rounds (n / 10)) (48 + n % 10) (sym (decimal_more rounds n big) ∙ h)
]

-- A number that fits in an int is read back from its decimal text.
pub stoi-to_string : (n : ℕ) → n < 2 ^ 31 → stoi (to_string n) ≡ some (pos n)
unfolding to_string
stoi-to_string n h =
    let (front, value) = decimal-Writes n n (omega arith) in
    stoi-digits (decimal n n) n (decimal-nonempty n n) front value h

-- A port that is written and read again is the same port.
pub port-round_trip :
    (n : ℕ) → n < 2 ^ 16 → (z : ℤ) × (stoi (to_string n) ≡ some z) × (uint16 z ≡ n)
port-round_trip n h = (pos n, stoi-to_string n (omega arith), omega arith)

pub uint16-lt : (z : ℤ) → uint16 z < 2 ^ 16
uint16-lt (pos n) = omega arith
uint16-lt (negsuc k) = omega arith
