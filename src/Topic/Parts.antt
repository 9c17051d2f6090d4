-- ===== src/Topic/Parts.antt =====
-- What parseTopicContext (include/syrius_orbit/mqtt/VDA5050Subscriber.hpp) makes of the part of a
-- topic behind the template's prefix.
use syrius_orbit_daemon.Common.{
  suc, ◌+◌, ◌-◌, ◌≡◌, refl, sym, ap, ◌∙◌, false, Option, none, some, [], ◌∷◌, ◌++◌, Bytes, ◌==◌,
  ==_iff, length, is_empty, inl, inr, Option-cases, arith, nat_eq, if◌then◌else◌,
}
use syrius_orbit_daemon.Bytes.{drop, find}
use syrius_orbit_daemon.Bytes.Laws.{Free, take-append, drop-append_suc, find-append, find_sound}
use syrius_orbit_daemon.Topic.{TopicContext, slash, split_remainder, at_first, at_second}

-- The part of a topic behind the template's prefix.
abbrev pub remainder_of : Bytes → Bytes → Bytes → Bytes
remainder_of f s suffix = f ++ (slash ∷ (s ++ (slash ∷ suffix)))

pub drop_tail : (f s r : Bytes) → drop (suc (length f + 1 + length s)) (remainder_of f s r) ≡ r
drop_tail [] s r =
    let e : 0 + 1 + length s ≡ suc (length s) = omega arith in rw e (drop-append_suc s r slash)
drop_tail (b ∷ f) s r =
    let e : suc (length f) + 1 + length s ≡ suc (length f + 1 + length s) = omega arith in
    rw e (drop_tail f s r)

abbrev pub context_of : TopicContext → Bytes → Bytes → TopicContext
context_of template f s = record {
  interface_name = template.interface_name;
  major_version = template.major_version;
  manufacturer = f;
  serial_number = s;
}

pub nat_eq-length : (s : Bytes) → nat_eq (length s) 0 ≡ is_empty s
nat_eq-length [] = refl
nat_eq-length (b ∷ s) = ground arith

-- What parse_topic_context makes of the parts that it has found.
abbrev pub outcome : TopicContext → Bytes → Bytes → Bytes → Bytes → Option TopicContext
outcome t f s r suffix =
    if is_empty f
    then none
    else if is_empty s
    then none
    else if r == suffix
    then some (context_of t f s)
    else none

pub split_remainder-outcome :
    (t : TopicContext) (f s r suffix : Bytes)
    → (if is_empty f
        then none
        else if is_empty s
        then none
        else split_remainder t (remainder_of f s r) suffix (length f) (length s))
      ≡ outcome t f s r suffix
unfolding split_remainder
split_remainder-outcome t f s r suffix =
    let e : length f + 1 + length s - length f - 1 ≡ length s = omega arith in
    rw (drop_tail, e, drop-append_suc f (s ++ (slash ∷ r)) slash, take-append s, take-append f)
      (ground arith)

pub at_second-outcome :
    (t : TopicContext) (f s r suffix : Bytes)
    → (if is_empty f
        then none
        else at_second t (remainder_of f s r) suffix (length f) (some (length s)))
      ≡ outcome t f s r suffix
unfolding at_second
at_second-outcome t f s r suffix = rw (nat_eq-length s) (split_remainder-outcome t f s r suffix)

pub at_first-outcome :
    (t : TopicContext) (f s r suffix : Bytes)
    → Free slash f
    → Free slash s
    → at_first t (remainder_of f s r) suffix (find slash (remainder_of f s r))
      ≡ outcome t f s r suffix
unfolding at_first
at_first-outcome t f s r suffix ff fs =
    rw
      (
        find-append slash f (s ++ (slash ∷ r)) ff,
        nat_eq-length f,
        drop-append_suc f (s ++ (slash ∷ r)) slash,
        find-append slash s r fs,
      )
      (at_second-outcome t f s r suffix)

pub record Splits (t c : TopicContext) (remainder suffix : Bytes) : Type 0 where
  pub f : Bytes
  pub s : Bytes
  pub form : remainder ≡ remainder_of f s suffix
  pub context : c ≡ context_of t f s
  pub some_f : is_empty f ≡ false
  pub some_s : is_empty s ≡ false
  pub free_f : Free slash f
  pub free_s : Free slash s

pub outcome_sound :
    (t c : TopicContext) (f s r suffix : Bytes)
    → Free slash f
    → Free slash s
    → outcome t f s r suffix ≡ some c
    → Splits t c (remainder_of f s r) suffix
outcome_sound t c f s r suffix ff fs h = record {
  f = f;
  s = s;
  form = ap (remainder_of f s) (ground (arith, ==_iff r suffix));
  context = ground arith;
  some_f = ground arith;
  some_s = ground arith;
  free_f = ff;
  free_s = fs;
}

-- A topic with one separator only is refused.
pub at_first-one :
    (t : TopicContext) (f rest suffix : Bytes)
    → Free slash f
    → find slash rest ≡ none
    → at_first t (f ++ (slash ∷ rest)) suffix (find slash (f ++ (slash ∷ rest))) ≡ none
unfolding at_first at_second
at_first-one t f rest suffix ff e =
    rw (find-append slash f rest ff, drop-append_suc f rest slash, e) (ground arith)

pub at_first-split :
    (t c : TopicContext) (f rest suffix : Bytes)
    → Free slash f
    → at_first t (f ++ (slash ∷ rest)) suffix (find slash (f ++ (slash ∷ rest))) ≡ some c
    → Splits t c (f ++ (slash ∷ rest)) suffix
at_first-split t c f rest suffix ff h = elim (Option-cases (find slash rest)) [
  | inl e ↦ absurd (cc (h, at_first-one t f rest suffix ff e))
  | inr (i, e) ↦
      let (s, r, e2, fs, _) = find_sound slash i rest e in
      let h' = rw e2 at h in
      rw e2
        (outcome_sound t c f s r suffix ff fs (sym (at_first-outcome t f s r suffix ff fs) ∙ h'))
]

-- A remainder that is accepted has the form that the parser looks for.
pub at_first_sound :
    (t c : TopicContext) (remainder suffix : Bytes)
    → at_first t remainder suffix (find slash remainder) ≡ some c
    → Splits t c remainder suffix
unfolding at_first
at_first_sound t c remainder suffix h = elim (Option-cases (find slash remainder)) [
  | inl e ↦ absurd (cc (rw e at h))
  | inr (i, e) ↦
      let (f, rest, e1, ff, _) = find_sound slash i remainder e in
      let h' = rw e1 at h in rw e1 (at_first-split t c f rest suffix ff h')
]
