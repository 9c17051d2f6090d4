-- ===== src/Projection/Touches/Views.antt =====
-- What a view of a record shows after a series of writes.
use syrius_orbit_daemon.Common.{◌≡◌, refl, Option, some, List, [], ◌∷◌, ◌++◌, In, inl, inr}
use syrius_orbit_daemon.Projection.Touches.{Patches, Touch, touch_all, touch_all-append, gather}

-- A view of the record, and the value that it should have.
module _ {R B : Type 0} (patches : Patches R) (view : R → B) (v : B) where
  open patches use {apply}

  abbrev pub Keeps : List (Touch patches) → Type 0
  Keeps [] = Unit
  Keeps ((p, b) ∷ ts) = ((r : R) → view r ≡ v → view (apply p r) ≡ v) × Keeps ts

  abbrev pub Shows : Option R → Type 0
  Shows o = (r : R) × (o ≡ some r) × (view r ≡ v)

  pub Shows-keep :
      (ts : List (Touch patches)) (o : Option R)
      → Keeps ts
      → Shows o
      → Shows (touch_all patches ts o)
  unfolding touch_all
  Shows-keep [] o s h = h
  Shows-keep ((p, b) ∷ ts) o s (r, e, k) =
      rw e (Shows-keep ts (some (apply p r)) s.1 (apply p r, refl, s.0 r k))

  pub append-Keeps : (ts us : List (Touch patches)) → Keeps ts → Keeps us → Keeps (ts ++ us)
  append-Keeps [] us h k = k
  append-Keeps (t ∷ ts) us h k = (h.0, append-Keeps ts us h.1 k)

  pub gather-Keeps :
      {E : Type 0} (f : E → List (Touch patches)) (events : List E)
      → ((e : E) → In e events → Keeps (f e))
      → Keeps (gather f events)
  gather-Keeps f [] h = tt
  gather-Keeps f (e ∷ events) h =
      append-Keeps (f e) (gather f events) (h e (inl refl))
        (gather-Keeps f events (λ x i. h x (inr i)))

  -- If one event of the list sets the value and the others keep it, it is there in the end.
  pub gather-Shows :
      {E : Type 0} (f : E → List (Touch patches)) (e : E) (events : List E) (o : Option R)
      → ((o : Option R) → Shows (touch_all patches (f e) o))
      → ((x : E) → In x events → Keeps (f x))
      → In e events
      → Shows (touch_all patches (gather f events) o)
  gather-Shows f e [] o first keep i = absurd i
  gather-Shows f e (x ∷ events) o first keep i =
      rw (touch_all-append patches (f x) (gather f events) o) (elim i [
        | inl p ↦
            Shows-keep (gather f events) (touch_all patches (f x) o)
              (gather-Keeps f events (λ y k. keep y (inr k))) (rw p (first o))
        | inr k ↦
            gather-Shows f e events (touch_all patches (f x) o) first (λ y l. keep y (inr l)) k
      ])
