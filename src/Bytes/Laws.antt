-- ===== src/Bytes/Laws.antt =====
-- find, substr and the prefix test against concatenation.
use syrius_orbit_daemon.Common.{
  ℕ, zero, suc, ◌+◌, ◌≡◌, ◌≢◌, refl, ap, true, none, some, [], ◌∷◌, ◌++◌, Bytes, length, All, arith,
}
use syrius_orbit_daemon.Bytes.{take, drop, find, starts_with}

-- No byte of the text is `c`.
abbrev pub Free : ℕ → Bytes → Type 0
Free c = All λ b. b ≢ c

pub take-append : (a s : Bytes) → take (length a) (a ++ s) ≡ a
take-append [] s = refl
take-append (b ∷ a) s = ap (λ (t : Bytes). b ∷ t) (take-append a s)

pub drop-append : (a s : Bytes) → drop (length a) (a ++ s) ≡ s
drop-append [] s = refl
drop-append (b ∷ a) s = drop-append a s

pub drop-append_suc : (a s : Bytes) (c : ℕ) → drop (suc (length a)) (a ++ (c ∷ s)) ≡ s
drop-append_suc [] s c = refl
drop-append_suc (b ∷ a) s c = drop-append_suc a s c

pub length-append : (a s : Bytes) → length (a ++ s) ≡ length a + length s
length-append [] s = omega arith
length-append (b ∷ a) s = omega (arith, length-append a s)

pub find-append : (c : ℕ) (a s : Bytes) → Free c a → find c (a ++ (c ∷ s)) ≡ some (length a)
unfolding find
find-append c [] s h = ground arith
find-append c (b ∷ a) s h = ground (arith, find-append c a s h.1, h.0)

pub find-Free : (c : ℕ) (s : Bytes) → Free c s → find c s ≡ none
unfolding find
find-Free c [] h = refl
find-Free c (b ∷ s) h = ground (arith, find-Free c s h.1, h.0)

pub Free-of_find : (c : ℕ) (s : Bytes) → find c s ≡ none → Free c s
unfolding find
Free-of_find c [] h = tt
Free-of_find c (b ∷ s) h = (ground arith, Free-of_find c s (ground arith))

-- Where `find` stops: the text before the first `c`, and the text after it.
pub find_sound :
    (c i : ℕ) (s : Bytes)
    → find c s ≡ some i
    → (a : Bytes) × (r : Bytes) × (s ≡ a ++ (c ∷ r)) × Free c a × (length a ≡ i)
unfolding find
find_sound c i [] h = cc
find_sound c zero (b ∷ s) h = ([], s, ground arith, tt, refl)
find_sound c (suc i) (b ∷ s) h =
    let (a, r, e, f, l) = find_sound c i s (ground arith) in
    (b ∷ a, r, ap (λ (t : Bytes). b ∷ t) e, (ground arith, f), ap suc l)

pub starts_with-append : (p s : Bytes) → starts_with p (p ++ s) ≡ true
unfolding starts_with
starts_with-append [] s = refl
starts_with-append (b ∷ p) s = ground (arith, starts_with-append p s)

pub starts_with_sound : (p s : Bytes) → starts_with p s ≡ true → s ≡ p ++ drop (length p) s
unfolding starts_with
starts_with_sound [] s h = refl
starts_with_sound (b ∷ p) [] h = cc
starts_with_sound (b ∷ p) (c ∷ s) h = ground (arith, starts_with_sound p s)
