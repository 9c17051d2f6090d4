-- ===== src/Db/Events/Kept.antt =====
-- The events that findLatestByTopic keeps, one by one.
use syrius_orbit_daemon.Common.{
  ℕ, ◌≤◌, ◌<◌, ◌≡◌, refl, sym, ap, ◌∙◌, subst, true, false, not, ◌&&◌, ◌⊎◌, inl, inr, List, [], ◌∷◌,
  Bytes, ◌==◌, ==_iff, In, Bool-cases, arith,
}
use syrius_orbit_daemon.Db.Events.{Event}
use syrius_orbit_daemon.Db.Events.Log.{Rising}
use syrius_orbit_daemon.Db.Events.Latest.{mentions, last_of_each}

-- The event is in the log, of the topic, and no event of its topic and item has a larger id.
pub record IsLatest (topic : Bytes) (rows : List Event) (e : Event) : Type 0 where
  pub logged : In e rows
  pub of_topic : e.topic ≡ topic
  pub maximal : (x : Event) → In x rows → x.topic ≡ topic → x.item_id ≡ e.item_id → x.id ≤ e.id

pub In-last_of_each :
    (topic : Bytes) (rows : List Event) (e : Event)
    → In e (last_of_each topic rows)
    → In e rows × (e.topic ≡ topic)
unfolding last_of_each
In-last_of_each topic [] e h = absurd h
In-last_of_each topic (x ∷ rows) e h =
    elim (Bool-cases (x.topic == topic && not (mentions topic x.item_id rows))) [
      | inl c ↦ elim (rw c at h) [
        | inl p ↦
            (inl p, ap (λ (e : Event). e.topic) (sym p) ∙ ground (arith, ==_iff x.topic topic))
        | inr r ↦ let (i, t) = In-last_of_each topic rows e r in (inr i, t)
      ]
      | inr c ↦ let (i, t) = In-last_of_each topic rows e (rw c at h) in (inr i, t)
    ]

-- What is mentioned is there.
mentions_sound :
    (topic item : Bytes) (rows : List Event)
    → mentions topic item rows ≡ true
    → (x : Event) × In x rows × (x.topic ≡ topic) × (x.item_id ≡ item)
unfolding mentions
mentions_sound topic item [] h = cc
mentions_sound topic item (e ∷ rows) h = elim (Bool-cases (e.topic == topic && e.item_id == item)) [
  | inl c ↦
      (e, inl refl, ground (arith, ==_iff e.topic topic), ground (arith, ==_iff e.item_id item))
  | inr c ↦ let (x, i, t, k) = mentions_sound topic item rows (rw c at h) in (x, inr i, t, k)
]

mentions_complete :
    (topic item : Bytes) (rows : List Event) (x : Event)
    → In x rows
    → x.topic ≡ topic
    → x.item_id ≡ item
    → mentions topic item rows ≡ true
unfolding mentions
mentions_complete topic item [] x i t k = absurd i
mentions_complete topic item (e ∷ rows) x (inl p) t k =
    ground (arith, p, ==_iff e.topic topic, ==_iff e.item_id item)
mentions_complete topic item (e ∷ rows) x (inr i) t k =
    let tail = mentions_complete topic item rows x i t k in ground arith

Rising-In : (n : ℕ) (rows : List Event) (x : Event) → Rising n rows → In x rows → n < x.id
Rising-In n [] x r i = absurd i
Rising-In n (e ∷ rows) x r (inl p) = omega (arith, r.0, ap (λ (e : Event). e.id) p)
Rising-In n (e ∷ rows) x r (inr i) = omega (arith, r.0, Rising-In e.id rows x r.1 i)

-- An event that is kept has no later one of its item among those kept.
no_later :
    (topic : Bytes) (z y : Event) (rows : List Event)
    → (z.topic == topic && not (mentions topic z.item_id rows)) ≡ true
    → In y (last_of_each topic rows)
    → z.item_id ≡ y.item_id
    → ⊥
no_later topic z y rows c k e =
    let (i, t) = In-last_of_each topic rows y k in
    let m = mentions_complete topic z.item_id rows y i t (sym e) in ground arith

unique_cons :
    (topic : Bytes) (z x y : Event) (rows : List Event)
    → (z.topic == topic && not (mentions topic z.item_id rows)) ≡ true
    → (In x (last_of_each topic rows) → In y (last_of_each topic rows) → x ≡ y)
    → In x (z ∷ last_of_each topic rows)
    → In y (z ∷ last_of_each topic rows)
    → x.item_id ≡ y.item_id
    → x ≡ y
unique_cons topic z x y rows c tail (inl p) (inl q) e = sym p ∙ q
unique_cons topic z x y rows c tail (inl p) (inr k) e =
    absurd (no_later topic z y rows c k (ap (λ (e : Event). e.item_id) p ∙ e))
unique_cons topic z x y rows c tail (inr i) (inl q) e =
    absurd (no_later topic z x rows c i (ap (λ (e : Event). e.item_id) q ∙ sym e))
unique_cons topic z x y rows c tail (inr i) (inr k) e = tail i k

-- Two of them of one item are the same event.
pub last_of_each_unique :
    (topic : Bytes) (rows : List Event) (x y : Event)
    → In x (last_of_each topic rows)
    → In y (last_of_each topic rows)
    → x.item_id ≡ y.item_id
    → x ≡ y
unfolding last_of_each
last_of_each_unique topic [] x y i k e = absurd i
last_of_each_unique topic (z ∷ rows) x y i k e =
    elim (Bool-cases (z.topic == topic && not (mentions topic z.item_id rows))) [
      | inl c ↦
          unique_cons topic z x y rows c (λ i k. last_of_each_unique topic rows x y i k e)
            (rw c at i) (rw c at k) e
      | inr c ↦ last_of_each_unique topic rows x y (rw c at i) (rw c at k) e
    ]

-- A kept head and the kept rest.
keep_rest :
    (topic : Bytes) (z e : Event) (rows : List Event)
    → In e (last_of_each topic rows)
    → In e (last_of_each topic (z ∷ rows))
unfolding last_of_each
keep_rest topic z e rows i =
    elim (Bool-cases (z.topic == topic && not (mentions topic z.item_id rows))) [
      | inl c ↦ rw c (inr i)
      | inr c ↦ rw c i
    ]

keep_head :
    (topic : Bytes) (z : Event) (rows : List Event)
    → z.topic ≡ topic
    → mentions topic z.item_id rows ≡ false
    → In z (last_of_each topic (z ∷ rows))
unfolding last_of_each
keep_head topic z rows t m =
    let c : (z.topic == topic && not (mentions topic z.item_id rows)) ≡ true =
      ground (arith, ==_iff z.topic topic) in
    rw c (inl refl)

not_mentioned :
    (topic : Bytes) (z : Event) (rows : List Event)
    → Rising z.id rows
    → IsLatest topic (z ∷ rows) z
    → mentions topic z.item_id rows ≡ false
not_mentioned topic z rows r l = elim (Bool-cases (mentions topic z.item_id rows)) [
  | inl m ↦
      let (x, i, t, k) = mentions_sound topic z.item_id rows m in
      let upper = l.maximal x (inr i) t k in
      absurd (omega (arith, upper, Rising-In z.id rows x r i))
  | inr m ↦ m
]

complete_at :
    (topic : Bytes) (z e : Event) (rows : List Event)
    → Rising z.id rows
    → (IsLatest topic rows e → In e (last_of_each topic rows))
    → IsLatest topic (z ∷ rows) e
    → (z ≡ e) ⊎ In e rows
    → In e (last_of_each topic (z ∷ rows))
complete_at topic z e rows r tail l (inl p) =
    let l' : IsLatest topic (z ∷ rows) z = subst (IsLatest topic (z ∷ rows)) (sym p) l in
    subst (λ e. In e (last_of_each topic (z ∷ rows))) p
      (keep_head topic z rows l'.of_topic (not_mentioned topic z rows r l'))
complete_at topic z e rows r tail l (inr i) =
    keep_rest topic z e rows
      (tail (record { logged = i; of_topic = l.of_topic; maximal = λ x k. l.maximal x (inr k) }))

pub last_of_each_complete :
    (topic : Bytes) (n : ℕ) (rows : List Event) (e : Event)
    → Rising n rows
    → IsLatest topic rows e
    → In e (last_of_each topic rows)
last_of_each_complete topic n [] e r l = absurd l.logged
last_of_each_complete topic n (z ∷ rows) e r l =
    complete_at topic z e rows r.1 (last_of_each_complete topic z.id rows e r.1) l l.logged

In-cons :
    (topic : Bytes) (z x : Event) (rows : List Event)
    → In x (last_of_each topic (z ∷ rows))
    → ((z ≡ x) × (mentions topic z.item_id rows ≡ false)) ⊎ In x (last_of_each topic rows)
unfolding last_of_each
In-cons topic z x rows h =
    elim (Bool-cases (z.topic == topic && not (mentions topic z.item_id rows))) [
      | inl c ↦ elim (rw c at h) [ inl p ↦ inl (p, ground arith) | inr i ↦ inr i ]
      | inr c ↦ inr (rw c at h)
    ]

-- No event of the item has a larger id than the one that is kept.
pub last_of_each-maximal :
    (topic : Bytes) (n : ℕ) (rows : List Event) (e x : Event)
    → Rising n rows
    → In e (last_of_each topic rows)
    → In x rows
    → x.topic ≡ topic
    → x.item_id ≡ e.item_id
    → x.id ≤ e.id
last_of_each-maximal topic n [] e x r h i t k = absurd i
last_of_each-maximal topic n (z ∷ rows) e x r h (inl p) t k = elim (In-cons topic z e rows h) [
  | inl (q, m) ↦ omega (arith, ap (λ (e : Event). e.id) p, ap (λ (e : Event). e.id) q)
  | inr j ↦ omega (
    arith,
    ap (λ (e : Event). e.id) p,
    Rising-In z.id rows e r.1 (In-last_of_each topic rows e j).0,
  )
]
last_of_each-maximal topic n (z ∷ rows) e x r h (inr i) t k = elim (In-cons topic z e rows h) [
  | inl (q, m) ↦ absurd (
      cc (
        m,
        mentions_complete topic z.item_id rows x i t (k ∙ ap (λ (e : Event). e.item_id) (sym q)),
      ))
  | inr j ↦ last_of_each-maximal topic z.id rows e x r.1 j i t k
]
