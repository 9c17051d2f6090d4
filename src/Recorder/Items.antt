-- ===== src/Recorder/Items.antt =====
-- The events that the recorder inserts for one message with several items
-- (src/Vda5050EventRecorder.cpp: the loops of OnInstantActions and OnResponses).
use syrius_orbit_daemon.Common.{
  ℕ, ◌<◌, ◌≡◌, refl, sym, ap, ◌∙◌, subst, ◌⊎◌, inl, inr, List, [], ◌∷◌, ◌++◌, Bytes, In, fold_left,
  arith,
}
use syrius_orbit_daemon.Topic.{TopicContext}
use syrius_orbit_daemon.Db.Cells.{Int64}
use syrius_orbit_daemon.Db.Events.{Event, Table, insert}
use syrius_orbit_daemon.Db.Events.Log.{IsLog}
use syrius_orbit_daemon.Db.Events.Exact.{IsLatest}
use syrius_orbit_daemon.Recorder.{robot_name, event_of, insert_event}
use syrius_orbit_daemon.Recorder.Shown.{row_of, In-last, insert-IsLatest}

-- A list with a member has a last one.
pub last_of :
    {A : Type 0} (xs : List A) (x : A)
    → In x xs
    → (front : List A) × (last : A) × (xs ≡ front ++ (last ∷ []))
last_of [] x i = absurd i
last_of (y ∷ []) x i = ([], y, refl)
last_of (y ∷ z ∷ xs) x i =
    let (front, last, h) = last_of (z ∷ xs) z (inl refl) in (y ∷ front, last, ap (λ l. y ∷ l) h)

fold_left-last :
    {S A : Type 0} (f : S → A → S) (s : S) (xs : List A) (x : A)
    → fold_left f s (xs ++ (x ∷ [])) ≡ f (fold_left f s xs) x
unfolding fold_left
fold_left-last f s [] x = refl
fold_left-last f s (y ∷ xs) x = fold_left-last f (f s y) xs x

In-before : {A : Type 0} (xs : List A) (y x : A) → In x xs → In x (xs ++ (y ∷ []))
In-before [] y x i = absurd i
In-before (z ∷ xs) y x (inl p) = inl p
In-before (z ∷ xs) y x (inr i) = inr (In-before xs y x i)

In-added : {A : Type 0} (xs : List A) (y x : A) → In x (xs ++ (y ∷ [])) → In x xs ⊎ (y ≡ x)
In-added [] y x (inl p) = inr p
In-added [] y x (inr i) = absurd i
In-added (z ∷ xs) y x (inl p) = inl (inl p)
In-added (z ∷ xs) y x (inr i) = elim (In-added xs y x i) [ inl k ↦ inl (inr k) | inr p ↦ inr p ]

module _ {A : Type 0} (clock : ℕ → Bytes) (topic : Bytes) (item : A → Bytes)
    (context : TopicContext) (direction : Bytes) (header_id : Int64)
    (version timestamp payload : Bytes) where
  abbrev pub insert_item : Table → A → Table
  insert_item t a =
      insert_event clock topic (item a) context direction header_id version timestamp payload t

  abbrev item_event : A → Event
  item_event a = event_of topic (item a) context direction header_id version timestamp payload

  -- An event of the message.
  abbrev pub IsNew : Event → Type 0
  IsNew x = (x.payload ≡ payload) × (x.robot_id ≡ robot_name context)

  pub old_or_IsNew :
      (xs : List A) (t : Table) (x : Event)
      → In x (fold_left insert_item t xs).rows
      → In x t.rows ⊎ IsNew x
  unfolding fold_left insert_event insert
  old_or_IsNew [] t x i = inl i
  old_or_IsNew (a ∷ xs) t x i = elim (old_or_IsNew xs (insert_item t a) x i) [
    | inl k ↦ elim (In-added t.rows (row_of clock (item_event a) t) x k) [
      | inl old ↦ inl old
      | inr p ↦ inr (ap (λ (e : Event). e.payload) (sym p), ap (λ (e : Event). e.robot_id) (sym p))
    ]
    | inr new ↦ inr new
  ]

  rows_kept :
      (xs : List A) (t : Table) (x : Event) → In x t.rows → In x (fold_left insert_item t xs).rows
  unfolding fold_left insert_event insert
  rows_kept [] t x i = i
  rows_kept (a ∷ xs) t x i = rows_kept xs (insert_item t a) x (In-before t.rows _ x i)

  -- Every item has an event of its own, above every id before.
  pub item_inserted :
      (xs : List A) (t : Table) (a : A)
      → In a xs
      → (x : Event) × In x (fold_left insert_item t xs).rows
        × (x.topic ≡ topic)
        × (x.item_id ≡ item a)
        × (t.sequence < x.id)
  unfolding fold_left insert_event insert
  item_inserted [] t a i = absurd i
  item_inserted (b ∷ xs) t a (inl p) =
      let row = row_of clock (item_event b) t in
      (row, rows_kept xs (insert_item t b) row (In-last t.rows row), refl, ap item p, omega arith)
  item_inserted (b ∷ xs) t a (inr i) =
      let (x, k, of_topic, of_item, above) = item_inserted xs (insert_item t b) a i in
      (x, k, of_topic, of_item, omega arith)

  -- The last event is the latest of its topic and item.
  pub last_inserted :
      (xs : List A) (t : Table) (a : A)
      → In a xs
      → IsLog (fold_left insert_item t xs)
      → (x : Event) × IsLatest topic (fold_left insert_item t xs).rows x × IsNew x
  unfolding insert_event
  last_inserted xs t a i log =
      let (front, last, h) = last_of xs a i in
      let before = fold_left insert_item t front in
      let whole : fold_left insert_item t xs ≡ insert_item before last =
        ap (fold_left insert_item t) h ∙ fold_left-last insert_item t front last in
      let row = row_of clock (item_event last) before in
      (
        row,
        subst (λ (u : Table). IsLatest topic u.rows row) (sym whole)
            (insert-IsLatest clock (item_event last) before (subst IsLog whole log)),
        (refl, refl),
      )
