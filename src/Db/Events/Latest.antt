-- ===== src/Db/Events/Latest.antt =====
-- The query of findLatestByTopic against its meaning: the last event of each item.
use Prim.Native.Nat.{max}
use syrius_orbit_daemon.Common.{
  ℕ, ◌≤◌, ◌<◌, ◌≡◌, refl, ap, Bool, true, false, not, ◌&&◌, ◌||◌, inl, inr, List, [], ◌∷◌, ◌++◌,
  Bytes, ◌==◌, ==_iff, nat_eq, select, All, if◌then◌else◌, Bool-cases, arith,
}
use syrius_orbit_daemon.Db.Events.{Event, raise_max, max_ids, id_in, latest_rows}
use syrius_orbit_daemon.Db.Events.Log.{Rising, Rising-mono}

-- Some event has the topic and the item.
unfoldable pub mentions : Bytes → Bytes → List Event → Bool
mentions topic item [] = false
mentions topic item (e ∷ rows) = (e.topic == topic && e.item_id == item) || mentions topic item rows

-- The reference: an event of the topic that no later one of its topic and item follows.
unfoldable pub last_of_each : Bytes → List Event → List Event
last_of_each topic [] = []
last_of_each topic (e ∷ rows) =
    let rest = last_of_each topic rows in
    if e.topic == topic && not (mentions topic e.item_id rows) then e ∷ rest else rest

abbrev Above : ℕ → List (Bytes × ℕ) → Type 0
Above n = All λ g. n < g.1

has_group : Bytes → List (Bytes × ℕ) → Bool
has_group item [] = false
has_group item ((j, m) ∷ groups) = j == item || has_group item groups

-- An id below all maxima changes a group that is there in nothing, and adds one that is not.
raise_max-old :
    (item : Bytes) (n : ℕ) (groups : List (Bytes × ℕ))
    → Above n groups
    → has_group item groups ≡ true
    → raise_max item n groups ≡ groups
unfolding raise_max has_group
raise_max-old item n [] a h = cc
raise_max-old item n ((j, m) ∷ groups) a h = elim (Bool-cases (j == item)) [
  | inl e ↦ let p : max n m ≡ m = omega arith in rw (e, p)
  | inr e ↦
      rw e (ap (λ (g : List (Bytes × ℕ)). (j, m) ∷ g) (raise_max-old item n groups a.1 (rw e at h)))
]

raise_max-new :
    (item : Bytes) (n : ℕ) (groups : List (Bytes × ℕ))
    → has_group item groups ≡ false
    → raise_max item n groups ≡ groups ++ ((item, n) ∷ [])
unfolding raise_max has_group
raise_max-new item n [] h = refl
raise_max-new item n ((j, m) ∷ groups) h = ground (arith, raise_max-new item n groups)

has_group-append :
    (item k : Bytes) (n : ℕ) (groups : List (Bytes × ℕ))
    → has_group item (groups ++ ((k, n) ∷ [])) ≡ (has_group item groups || k == item)
unfolding has_group
has_group-append item k n [] = ground arith
has_group-append item k n ((j, m) ∷ groups) = ground (arith, has_group-append item k n groups)

id_in-append :
    (id n : ℕ) (k : Bytes) (groups : List (Bytes × ℕ))
    → id_in id (groups ++ ((k, n) ∷ [])) ≡ (id_in id groups || nat_eq id n)
unfolding id_in
id_in-append id n k [] = ground arith
id_in-append id n k ((j, m) ∷ groups) = ground (arith, id_in-append id n k groups)

id_in-Above : (id : ℕ) (groups : List (Bytes × ℕ)) → Above id groups → id_in id groups ≡ false
unfolding id_in
id_in-Above id [] a = refl
id_in-Above id ((j, m) ∷ groups) a = ground (arith, id_in-Above id groups a.1)

Above-append :
    (n m : ℕ) (k : Bytes) (groups : List (Bytes × ℕ))
    → n < m
    → Above n groups
    → Above n (groups ++ ((k, m) ∷ []))
Above-append n m k [] h a = (h, tt)
Above-append n m k (g ∷ groups) h a = (a.0, Above-append n m k groups h a.1)

Above-mono : (n m : ℕ) (groups : List (Bytes × ℕ)) → n ≤ m → Above m groups → Above n groups
Above-mono n m [] h a = tt
Above-mono n m (g ∷ groups) h a = (omega arith, Above-mono n m groups h a.1)

max_ids-step :
    (topic : Bytes) (e : Event) (rows : List Event)
    → max_ids topic (e ∷ rows) ≡ (
        if e.topic == topic
        then raise_max e.item_id e.id (max_ids topic rows)
        else max_ids topic rows)
unfolding max_ids
max_ids-step topic e rows = refl

-- One step of the grouping, with the case that it is in.
max_ids-cons :
    (topic : Bytes) (e : Event) (rows : List Event)
    → Above e.id (max_ids topic rows)
    → max_ids topic (e ∷ rows) ≡ (
        if e.topic == topic && not (has_group e.item_id (max_ids topic rows))
        then max_ids topic rows ++ ((e.item_id, e.id) ∷ [])
        else max_ids topic rows)
max_ids-cons topic e rows a = elim (Bool-cases (has_group e.item_id (max_ids topic rows))) [
  | inl h ↦
      let old = raise_max-old e.item_id e.id (max_ids topic rows) a h in
      ground (arith, max_ids-step topic e rows)
  | inr h ↦
      let new = raise_max-new e.item_id e.id (max_ids topic rows) h in
      ground (arith, max_ids-step topic e rows)
]

max_ids-Above :
    (n : ℕ) (topic : Bytes) (rows : List Event) → Rising n rows → Above n (max_ids topic rows)
max_ids-Above n topic [] r = unfold max_ids in tt
max_ids-Above n topic (e ∷ rows) r =
    let tail = max_ids-Above e.id topic rows r.1 in
    let low = Above-mono n e.id (max_ids topic rows) (omega arith) tail in
    rw (max_ids-cons topic e rows tail)
      (elim (Bool-cases (e.topic == topic && not (has_group e.item_id (max_ids topic rows)))) [
        | inl c ↦ rw c (Above-append n e.id e.item_id (max_ids topic rows) r.0 low)
        | inr c ↦ rw c low
      ])

has_group-mentions :
    (n : ℕ) (topic item : Bytes) (rows : List Event)
    → Rising n rows
    → has_group item (max_ids topic rows) ≡ mentions topic item rows
unfolding mentions
has_group-mentions n topic item [] r = unfold max_ids has_group in refl
has_group-mentions n topic item (e ∷ rows) r =
    let groups = max_ids topic rows in
    let new = e.topic == topic && not (has_group e.item_id groups) in
    rw (max_ids-cons topic e rows (max_ids-Above e.id topic rows r.1)) (elim (Bool-cases new) [
      | inl c ↦
          rw
            (
              c,
              has_group-append item e.item_id e.id groups,
              has_group-mentions e.id topic item rows r.1,
            )
            (ground arith)
      | inr c ↦
          rw (c, has_group-mentions e.id topic item rows r.1)
            (ground (
              arith,
              has_group-mentions e.id topic item rows r.1,
              has_group-mentions e.id topic e.item_id rows r.1,
              ==_iff e.item_id item,
            ))
    ])

select-ext :
    (p q : Event → Bool) (n : ℕ) (rows : List Event)
    → Rising n rows
    → ((e : Event) → n < e.id → p e ≡ q e)
    → select p rows ≡ select q rows
unfolding select
select-ext p q n [] r h = refl
select-ext p q n (e ∷ rows) r h =
    rw (h e r.0, select-ext p q n rows (Rising-mono n e.id rows (omega arith) r.1) h)

-- A later event is chosen by the maxima of the later events alone.
id_in-later :
    (id : ℕ) (topic : Bytes) (e : Event) (rows : List Event)
    → Rising e.id rows
    → e.id < id
    → id_in id (max_ids topic (e ∷ rows)) ≡ id_in id (max_ids topic rows)
id_in-later id topic e rows r h =
    let groups = max_ids topic rows in
    rw (max_ids-cons topic e rows (max_ids-Above e.id topic rows r))
      (elim (Bool-cases (e.topic == topic && not (has_group e.item_id groups))) [
        | inl c ↦ rw (c, id_in-append id e.id e.item_id groups) (ground arith)
        | inr c ↦ rw c
      ])

id_in-first :
    (topic : Bytes) (e : Event) (rows : List Event)
    → Rising e.id rows
    → id_in e.id (max_ids topic (e ∷ rows))
      ≡ (e.topic == topic && not (mentions topic e.item_id rows))
id_in-first topic e rows r =
    let groups = max_ids topic rows in
    let above = max_ids-Above e.id topic rows r in
    let group = has_group-mentions e.id topic e.item_id rows r in
    rw (max_ids-cons topic e rows above, ← group)
      (elim (Bool-cases (e.topic == topic && not (has_group e.item_id groups))) [
        | inl c ↦ rw (c, id_in-append e.id e.id e.item_id groups) (ground arith)
        | inr c ↦ rw (c, id_in-Above e.id groups above)
      ])

step-latest_rows :
    (topic : Bytes) (e : Event) (rows : List Event)
    → Rising e.id rows
    → select (λ x. x.topic == topic && id_in x.id (max_ids topic (e ∷ rows))) rows
      ≡ latest_rows topic rows
unfolding latest_rows
step-latest_rows topic e rows r =
    select-ext _ _ e.id rows r
      (λ x h. ap (λ (b : Bool). x.topic == topic && b) (id_in-later x.id topic e rows r h))

-- The query keeps exactly the events that `last_of_each` keeps, in the same order, on every table
-- whose ids rise in the order of insertion: of each item of the topic the last event, once.
pub latest_rows-eq-last_of_each :
    (n : ℕ) (topic : Bytes) (rows : List Event)
    → Rising n rows
    → latest_rows topic rows ≡ last_of_each topic rows
unfolding latest_rows last_of_each select
latest_rows-eq-last_of_each n topic [] r = refl
latest_rows-eq-last_of_each n topic (e ∷ rows) r =
    rw
      (
        step-latest_rows topic e rows r.1,
        id_in-first topic e rows r.1,
        latest_rows-eq-last_of_each e.id topic rows r.1,
      )
      (ground arith)
