-- ===== src/Topic/Prefix.antt =====
-- What VDA5050Proxy::parse_topic_prefix accepts.
use syrius_orbit_daemon.Common.{
  ℕ, ◌-◌, ◌≡◌, ◌↔◌, refl, sym, ap, ◌∙◌, false, ◌||◌, Option, none, some, [], ◌∷◌, ◌++◌, Bytes,
  length, is_empty, inl, inr, Option-cases, arith, nat_eq, if◌then◌else◌,
}
use syrius_orbit_daemon.Bytes.{find}
use syrius_orbit_daemon.Bytes.Laws.{
  Free, take-append, drop-append_suc, find-append, find_sound, find-Free, Free-of_find,
  length-append,
}
use syrius_orbit_daemon.Topic.{TopicContext, slash, split_prefix, prefix_at, parse_topic_prefix}

-- The context that stands for '<interfaceName>/<majorVersion>'.
abbrev pub template_of : Bytes → Bytes → TopicContext
template_of i m = record {
  interface_name = i;
  major_version = m;
  manufacturer = [];
  serial_number = [];
}

-- A prefix of the expected form, and the context read from it.
pub record IsPrefixOf (prefix : Bytes) (c : TopicContext) : Type 0 where
  pub form : prefix ≡ c.interface_name ++ (slash ∷ c.major_version)
  pub context : c ≡ template_of c.interface_name c.major_version
  pub interface_ne : is_empty c.interface_name ≡ false
  pub version_ne : is_empty c.major_version ≡ false
  pub interface_free : Free slash c.interface_name
  pub version_free : Free slash c.major_version

not_last : (i m : Bytes) → nat_eq (length i) (length (i ++ (slash ∷ m)) - 1) ≡ is_empty m
not_last i [] = ground (arith, length-append i (slash ∷ []))
not_last i (b ∷ m) = ground (arith, length-append i (slash ∷ (b ∷ m)))

not_first : (i : Bytes) → nat_eq (length i) 0 ≡ is_empty i
not_first [] = refl
not_first (b ∷ i) = ground arith

abbrev outcome : Bytes → Bytes → Option ℕ → Option TopicContext
outcome i m (some _) = none
outcome i m none = if is_empty i || is_empty m then none else some (template_of i m)

prefix_at-outcome :
    (i m : Bytes)
    → Free slash i
    → prefix_at (i ++ (slash ∷ m)) (find slash (i ++ (slash ∷ m))) ≡ outcome i m (find slash m)
unfolding prefix_at split_prefix
prefix_at-outcome i m fi =
    rw (find-append slash i m fi, not_first i, not_last i m, drop-append_suc i m slash)
      (elim (Option-cases (find slash m)) [
        | inl e ↦
            rw (e, split_prefix) (rw (drop-append_suc i m slash, take-append i) (ground arith))
        | inr (n, e) ↦ rw (e, split_prefix) (ground arith)
      ])

outcome_sound :
    (i m : Bytes) (n : Option ℕ) (c : TopicContext)
    → outcome i m n ≡ some c
    → (n ≡ none) × (is_empty i ≡ false) × (is_empty m ≡ false) × (c ≡ template_of i m)
outcome_sound i m (some n) c h = cc
outcome_sound i m none c h = (refl, ground arith, ground arith, ground arith)

slash_inside : (i m : Bytes) → is_empty (i ++ (slash ∷ m)) ≡ false
slash_inside [] m = refl
slash_inside (b ∷ i) m = refl

prefix_sound :
    (prefix : Bytes) (c : TopicContext)
    → prefix_at prefix (find slash prefix) ≡ some c
    → IsPrefixOf prefix c
prefix_sound prefix c h = elim (Option-cases (find slash prefix)) [
  | inl e ↦ absurd (unfold prefix_at in cc (rw e at h))
  | inr (n, e) ↦
      let (i, m, form, fi, _) = find_sound slash n prefix e in
      let (last, ni, nm, ctx) =
        outcome_sound i m (find slash m) c (sym (prefix_at-outcome i m fi) ∙ rw form at h) in
      rw (form, ctx)
        (record {
          form = refl;
          context = refl;
          interface_ne = ni;
          version_ne = nm;
          interface_free = fi;
          version_free = Free-of_find slash m last;
        })
]

-- parse_topic_prefix accepts exactly the texts '<interfaceName>/<majorVersion>' whose two parts
-- are not empty and hold no '/', and returns these two parts with the robot's parts empty.
pub parse_topic_prefix_iff :
    (prefix : Bytes) (c : TopicContext) → (parse_topic_prefix prefix ≡ some c) ↔ IsPrefixOf prefix c
unfolding parse_topic_prefix
parse_topic_prefix_iff prefix c = (
  λ h. prefix_sound prefix c (ground arith),
  λ p.
      rw (p.form, slash_inside, prefix_at-outcome, p.interface_free)
        (rw (find-Free, p.version_free, p.interface_ne, p.version_ne) (ap some (sym p.context))),
)
