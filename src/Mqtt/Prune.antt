-- ===== src/Mqtt/Prune.antt =====
-- TypedPublisher::pruneTopLevelFields (include/syrius_orbit/mqtt/TypedPublisher.hpp).
use syrius_orbit_daemon.Common.{
  ◌≡◌, refl, ap, subst, Bool, true, false, not, ◌||◌, Option, none, some, Bytes, ◌==◌, ==_iff, inl,
  inr, if◌then◌else◌, Bool-cases, arith,
}
use syrius_orbit_daemon.Json.{Json, Items, Members, null, array, object, nil, cons, end, member}

abbrev pub is_null : Json → Bool
is_null null = true
is_null _ = false

abbrev pub no_items : Items → Bool
no_items nil = true
no_items (cons _ _) = false

-- is_array() && empty().
abbrev pub is_empty_array : Json → Bool
is_empty_array (array xs) = no_items xs
is_empty_array _ = false

-- The loop over the members, with `erase` in it.
unfoldable pub prune_members : Members → Members
prune_members end = end
prune_members (member key value rest) =
    let rest' = prune_members rest in
    if is_null value || is_empty_array value then rest' else member key value rest'

unfoldable pub prune_top_level_fields : Json → Json
unfolding prune_members
prune_top_level_fields (object members) = object (prune_members members)
prune_top_level_fields json = json

-- The value of a key, the first if there are several.
unfoldable pub at : Bytes → Members → Option Json
at key end = none
at key (member k v rest) = let rest' = at key rest in if k == key then some v else rest'

-- Neither null nor an empty array.
abbrev pub is_kept : Json → Bool
is_kept v = not (is_null v || is_empty_array v)

abbrev pub IsPruned : Members → Type 0
IsPruned end = Unit
IsPruned (member k v rest) = (is_kept v ≡ true) × IsPruned rest

prune_members-IsPruned : (ms : Members) → IsPruned (prune_members ms)
unfolding prune_members
prune_members-IsPruned end = tt
prune_members-IsPruned (member k v rest) = elim (Bool-cases (is_null v || is_empty_array v)) [
  | inl c ↦ rw c (prune_members-IsPruned rest)
  | inr c ↦ rw c (ap not c, prune_members-IsPruned rest)
]

prune_members_idem : (ms : Members) → IsPruned ms → prune_members ms ≡ ms
unfolding prune_members
prune_members_idem end h = refl
prune_members_idem (member k v rest) h = ground (arith, prune_members_idem rest h.1)

abbrev pub Absent : Bytes → Members → Type 0
Absent key end = Unit
Absent key (member k v rest) = ((k == key) ≡ false) × Absent key rest

-- The keys of an object are distinct.
abbrev pub DistinctKeys : Members → Type 0
DistinctKeys end = Unit
DistinctKeys (member k v rest) = Absent k rest × DistinctKeys rest

abbrev pub keep_if : (Json → Bool) → Option Json → Option Json
keep_if p none = none
keep_if p (some v) = if p v then some v else none

at-Absent : (key : Bytes) (ms : Members) → Absent key ms → at key (prune_members ms) ≡ none
unfolding at prune_members
at-Absent key end h = refl
at-Absent key (member k v rest) h = ground (arith, at-Absent key rest h.1, h.0)

at-prune_members :
    (key : Bytes) (ms : Members)
    → DistinctKeys ms
    → at key (prune_members ms) ≡ keep_if is_kept (at key ms)
unfolding at prune_members
at-prune_members key end h = refl
at-prune_members key (member k v rest) h = elim (Bool-cases (k == key)) [
  | inl same ↦
      let p : k ≡ key = (==_iff k key).0 same in
      let none_left = at-Absent key rest (subst (λ k. Absent k rest) p h.0) in
      ground (arith, none_left)
  | inr other ↦ ground (arith, at-prune_members key rest h.1)
]

-- A key of a pruned object has the value that it had, if that is neither null nor an empty array,
-- and is absent otherwise; and pruning a pruned object changes nothing. For objects without
-- repeated keys.
pub prune_lem :
    (key : Bytes) (ms : Members)
    → DistinctKeys ms
    → (at key (prune_members ms) ≡ keep_if is_kept (at key ms))
      × (prune_top_level_fields (prune_top_level_fields (object ms))
          ≡ prune_top_level_fields (object ms))
unfolding prune_top_level_fields
prune_lem key ms h = (
  at-prune_members key ms h,
  ap object (prune_members_idem (prune_members ms) (prune_members-IsPruned ms)),
)
