-- ===== src/Db/Table/Laws.antt =====
-- Lookups after an upsert, and the primary key.
use mathlib.Core.Option
use syrius_orbit_daemon.Common.{
  ◌≡◌, ◌≢◌, refl, sym, ◌∙◌, ap, inl, inr, Option, none, some, List, [], ◌∷◌, Eq, if◌then◌else◌,
  Bool-cases, arith,
}
use syrius_orbit_daemon.Db.Table.{find, upsert}

abbrev pub changed : {R : Type 0} → (R → R) → R → Option R → R
changed change fresh none = fresh
changed change fresh (some r) = change r

module _ {K R : Type 0} ⦃e : Eq K⦄ (key : R → K) where
  abbrev pub Avoids : K → List R → Type 0
  Avoids k [] = Unit
  Avoids k (r ∷ rows) = (key r ≢ k) × Avoids k rows

  -- No two rows have one key.
  abbrev pub IsKeyed : List R → Type 0
  IsKeyed [] = Unit
  IsKeyed (r ∷ rows) = Avoids (key r) rows × IsKeyed rows

  module _ (k : K) (change : R → R) (fresh : R) (fresh_key : key fresh ≡ k)
      (change_key : (r : R) → key (change r) ≡ key r) where
    pub find-upsert_self :
        (rows : List R)
        → find key k (upsert key k change fresh rows)
          ≡ some (changed change fresh (find key k rows))
    unfolding find upsert
    find-upsert_self [] = ground (arith, e.beq_iff (key fresh) k)
    find-upsert_self (r ∷ rows) = ground (arith, find-upsert_self rows, change_key r)

    pub find-upsert_ne :
        (j : K) (rows : List R)
        → k ≢ j
        → find key j (upsert key k change fresh rows) ≡ find key j rows
    unfolding find upsert
    find-upsert_ne j [] h = ground (arith, e.beq_iff (key fresh) j)
    find-upsert_ne j (r ∷ rows) h =
        ground
          (arith, find-upsert_ne j rows h, change_key r, e.beq_iff (key r) k, e.beq_iff (key r) j)

    pub find-upsert :
        (j : K) (rows : List R)
        → find key j (upsert key k change fresh rows)
          ≡ (if e.beq k j then some (changed change fresh (find key k rows)) else find key j rows)
    find-upsert j rows = elim (Bool-cases (e.beq k j)) [
      | inl same ↦ let p = (e.beq_iff k j).0 same in rw same (rw (← p) (find-upsert_self rows))
      | inr other ↦ rw other (find-upsert_ne j rows (λ p. cc (other, (e.beq_iff k j).1 p)))
    ]

    Avoids-upsert :
        (j : K) (rows : List R) → j ≢ k → Avoids j rows → Avoids j (upsert key k change fresh rows)
    unfolding upsert
    Avoids-upsert j [] h a = (λ p. h (sym p ∙ fresh_key), tt)
    Avoids-upsert j (r ∷ rows) h a = elim (Bool-cases (e.beq (key r) k)) [
      | inl same ↦ rw same ((λ p. a.0 (sym (change_key r) ∙ p)), a.1)
      | inr other ↦ rw other (a.0, Avoids-upsert j rows h a.1)
    ]

    pub upsert-IsKeyed : (rows : List R) → IsKeyed rows → IsKeyed (upsert key k change fresh rows)
    unfolding upsert
    upsert-IsKeyed [] h = (tt, tt)
    upsert-IsKeyed (r ∷ rows) h = elim (Bool-cases (e.beq (key r) k)) [
      | inl same ↦ rw same (rw change_key h.0, h.1)
      | inr other ↦ rw other (
        Avoids-upsert (key r) rows (λ p. cc (other, (e.beq_iff (key r) k).1 p)) h.0,
        upsert-IsKeyed rows h.1,
      )
    ]

  find-key : (k : K) (rows : List R) (r : R) → find key k rows ≡ some r → key r ≡ k
  unfolding find
  find-key k [] r h = cc
  find-key k (x ∷ rows) r h = ground (arith, find-key k rows r, e.beq_iff (key x) k)

  -- The same for the records that a repository reads from the rows.
  module _ {V : Type 0} (read : R → V) (k : K) (change : R → R) (fresh : R)
      (fresh_key : key fresh ≡ k) (change_key : (r : R) → key (change r) ≡ key r) (edit : V → V)
      (created : V) (read_fresh : read fresh ≡ created)
      (read_change : (r : R) → key r ≡ k → read (change r) ≡ edit (read r)) where
    read-changed :
        (o : Option R)
        → ((r : R) → o ≡ some r → key r ≡ k)
        → read (changed change fresh o) ≡ changed edit created (Option.map read o)
    read-changed none h = read_fresh
    read-changed (some r) h = read_change r (h r refl)

    pub read-upsert :
        (j : K) (rows : List R)
        → Option.map read (find key j (upsert key k change fresh rows)) ≡ (
            if e.beq k j
            then some (changed edit created (Option.map read (find key j rows)))
            else Option.map read (find key j rows))
    read-upsert j rows = elim (Bool-cases (e.beq k j)) [
      | inl same ↦
          let p = (e.beq_iff k j).0 same in
          rw (find-upsert k change fresh fresh_key change_key j rows, same, ← p)
            (ap some (read-changed (find key k rows) (find-key k rows)))
      | inr other ↦ rw (find-upsert k change fresh fresh_key change_key j rows, other)
    ]
