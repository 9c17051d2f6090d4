-- ===== src/Config/Layers.antt =====
-- Override layers configurations: the default is its unit on both sides and layers can be grouped.
use syrius_orbit_daemon.Common.{◌≡◌, refl, sym, Eq, Bool-cases, inl, inr}
use syrius_orbit_daemon.Config.{RuntimeConfig, default_config, pick, override, number_eq}

module _ {A : Type 0} ⦃e : Eq A⦄ (d : A) where
  pick-other : (a : A) → pick d a d ≡ a
  unfolding pick
  pick-other a = let same = (e.beq_iff d d).1 refl in simp same

  pick-initial : (b : A) → pick d d b ≡ b
  unfolding pick
  pick-initial b = elim (Bool-cases (e.beq b d)) [
    | inl same ↦ rw same (sym ((e.beq_iff b d).0 same))
    | inr other ↦ rw other refl
  ]

  pick_assoc : (a b c : A) → pick d (pick d a b) c ≡ pick d a (pick d b c)
  unfolding pick
  pick_assoc a b c = elim (Bool-cases (e.beq c d)) [ inl same ↦ simp same | inr other ↦ simp other ]

-- The default configuration changes nothing as the other one, and gives way to every other one.
pub override-default :
    (c : RuntimeConfig) → (override c default_config ≡ c) × (override default_config c ≡ c)
unfolding override
override-default c = (simp pick-other, simp pick-initial)

-- Three layers can be merged in either grouping.
pub override_assoc : (a b c : RuntimeConfig) → override (override a b) c ≡ override a (override b c)
unfolding override
override_assoc a b c = simp pick_assoc
