-- ===== src/Projection/Touches.antt =====
-- Writes that overwrite some columns of a record, and what a series of them does to one key.
pub mod Views
use syrius_orbit_daemon.Common.{
  ◌≡◌, refl, ap, ◌∙◌, sym, Option, none, some, List, [], ◌∷◌, ◌++◌, value_or, fold_left,
}

-- A column after two patches.
abbrev pub later : {A : Type 0} → Option A → Option A → Option A
later o none = o
later o (some a) = some a

-- Patches of a record: a patch overwrites some of its columns.
pub record Patches (R : Type 0) : Type 1 where
  pub Patch : Type 0
  pub apply : Patch → R → R
  pub merge : Patch → Patch → Patch
  pub apply-merge : (p q : Patch) (r : R) → apply (merge p q) r ≡ apply q (apply p r)
  pub apply_idem : (p : Patch) (r : R) → apply p (apply p r) ≡ apply p r

module _ {R : Type 0} (patches : Patches R) where
  open patches use {Patch, apply, merge, apply-merge, apply_idem}

  -- One write to a key: the record that is there, or else the base record, is patched.
  abbrev pub Touch : Type 0
  Touch = Patch × R

  abbrev pub touch : Touch → Option R → R
  touch (p, base) o = apply p (value_or o base)

  unfoldable pub touch_all : List Touch → Option R → Option R
  touch_all [] o = o
  touch_all (t ∷ ts) o = touch_all ts (some (touch t o))

  merge_all : Patch → List Touch → Patch
  merge_all p [] = p
  merge_all p ((q, _) ∷ ts) = merge_all (merge p q) ts

  touch_all-merge_all :
      (p : Patch) (ts : List Touch) (r : R)
      → touch_all ts (some (apply p r)) ≡ some (apply (merge_all p ts) r)
  unfolding touch_all merge_all
  touch_all-merge_all p [] r = refl
  touch_all-merge_all p ((q, b) ∷ ts) r =
      rw (← apply-merge p q r) (touch_all-merge_all (merge p q) ts r)

  touch_all-cons :
      (p : Patch) (b : R) (ts : List Touch) (o : Option R)
      → touch_all ((p, b) ∷ ts) o ≡ some (apply (merge_all p ts) (value_or o b))
  unfolding touch_all
  touch_all-cons p b ts o = touch_all-merge_all p ts (value_or o b)

  -- Doing the same series of writes again changes nothing.
  pub touch_all_idem :
      (ts : List Touch) (o : Option R) → touch_all ts (touch_all ts o) ≡ touch_all ts o
  touch_all_idem [] o = unfold touch_all in refl
  touch_all_idem ((p, b) ∷ ts) o = rw (touch_all-cons p b ts o) (
      touch_all-cons p b ts (some (apply (merge_all p ts) (value_or o b)))
      ∙ ap some (apply_idem (merge_all p ts) (value_or o b)))

  pub touch_all-append :
      (ts us : List Touch) (o : Option R) → touch_all (ts ++ us) o ≡ touch_all us (touch_all ts o)
  unfolding touch_all
  touch_all-append [] us o = refl
  touch_all-append (t ∷ ts) us o = touch_all-append ts us (some (touch t o))

  -- A view of the record that no patch changes.
  pub touch_all-keeps :
      {B : Type 0} (view : R → B) (ts : List Touch) (r : R)
      → ((p : Patch) (r : R) → view (apply p r) ≡ view r)
      → (r' : R) × (touch_all ts (some r) ≡ some r') × (view r' ≡ view r)
  unfolding touch_all
  touch_all-keeps view [] r h = (r, refl, refl)
  touch_all-keeps view ((p, b) ∷ ts) r h =
      let (r', e, k) = touch_all-keeps view ts (apply p r) h in (r', e, k ∙ h p r)

-- The writes that a list of events makes to one key, in their order.
abbrev pub gather : {A B : Type 0} → (A → List B) → List A → List B
gather f [] = []
gather f (a ∷ as') = f a ++ gather f as'

-- A loop whose body makes a series of writes to a key makes the gathered series.
pub fold-touch_all :
    {S A R : Type 0} (patches : Patches R) (look : S → Option R) (body : S → A → S)
    (writes : A → List (Touch patches)) (items : List A) (s : S)
    → ((s : S) (a : A) → look (body s a) ≡ touch_all patches (writes a) (look s))
    → look (fold_left body s items) ≡ touch_all patches (gather writes items) (look s)
unfolding fold_left
fold-touch_all patches look body writes [] s h = unfold touch_all in refl
fold-touch_all patches look body writes (a ∷ items) s h =
    fold-touch_all patches look body writes items (body s a) h
    ∙ ap (touch_all patches (gather writes items)) (h s a)
    ∙ sym (touch_all-append patches (writes a) (gather writes items) (look s))
