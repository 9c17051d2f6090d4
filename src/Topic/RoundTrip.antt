-- ===== src/Topic/RoundTrip.antt =====
-- buildTopic and parseTopicContext are inverse to one another.
use syrius_orbit_daemon.Common.{
  ◌≡◌, sym, subst, ◌∙◌, false, some, [], ◌∷◌, ◌++◌, append_assoc, Bytes, ==_refl, length, is_empty,
  inl, inr, Bool-cases, arith,
}
use syrius_orbit_daemon.Bytes.{drop, find, starts_with}
use syrius_orbit_daemon.Bytes.Laws.{Free, drop-append, starts_with-append, starts_with_sound}
use syrius_orbit_daemon.Topic.{
  TopicContext, slash, at_first, expected_prefix, parse_topic_context, build_topic,
}
use syrius_orbit_daemon.Topic.Parts.{
  remainder_of, outcome, at_first-outcome, Splits, at_first_sound,
}

-- The topic that `build_topic` writes, with the prefix of the template apart.
topic_of : TopicContext → Bytes → Bytes → Bytes → Bytes
topic_of t f s suffix = expected_prefix t ++ remainder_of f s suffix

parse_topic_context-topic_of :
    (t : TopicContext) (remainder suffix : Bytes)
    → parse_topic_context t (expected_prefix t ++ remainder) suffix
      ≡ at_first t remainder suffix (find slash remainder)
unfolding parse_topic_context
parse_topic_context-topic_of t remainder suffix = rw (starts_with-append, drop-append)

flat :
    (i m r : Bytes) → (i ++ (slash ∷ (m ++ (slash ∷ [])))) ++ r ≡ i ++ (slash ∷ (m ++ (slash ∷ r)))
flat i m r = simp append_assoc

-- A context that a topic can carry: no part is empty, and '/' separates the robot's two parts.
pub record IsAddress (c : TopicContext) : Type 0 where
  pub interface_ne : is_empty c.interface_name ≡ false
  pub version_ne : is_empty c.major_version ≡ false
  pub manufacturer_ne : is_empty c.manufacturer ≡ false
  pub serial_ne : is_empty c.serial_number ≡ false
  pub manufacturer_free : Free slash c.manufacturer
  pub serial_free : Free slash c.serial_number

-- Two contexts of one interface and version.
pub record SameInterface (t c : TopicContext) : Type 0 where
  pub interface : t.interface_name ≡ c.interface_name
  pub version : t.major_version ≡ c.major_version

pub build_topic_lem :
    (c : TopicContext) (suffix : Bytes)
    → IsAddress c
    → is_empty suffix ≡ false
    → build_topic c suffix
      ≡ some (expected_prefix c ++ remainder_of c.manufacturer c.serial_number suffix)
unfolding build_topic
build_topic_lem c suffix a h =
    rw (flat, a.interface_ne, a.version_ne, a.manufacturer_ne, a.serial_ne, h)

outcome_self :
    (t c : TopicContext) (suffix : Bytes)
    → IsAddress c
    → SameInterface t c
    → outcome t c.manufacturer c.serial_number suffix suffix ≡ some c
outcome_self t c suffix a same = rw (a.manufacturer_ne, a.serial_ne, ==_refl suffix) (ground arith)

suffix_ne :
    (c : TopicContext) (suffix topic : Bytes)
    → build_topic c suffix ≡ some topic
    → is_empty suffix ≡ false
unfolding build_topic
suffix_ne c suffix topic h = ground arith

-- Every topic that build_topic writes for an address whose interface and version are the
-- template's is parsed back to that address under the same suffix.
pub parse_topic_context-build_topic :
    (t c : TopicContext) (suffix topic : Bytes)
    → IsAddress c
    → SameInterface t c
    → build_topic c suffix ≡ some topic
    → parse_topic_context t topic suffix ≡ some c
parse_topic_context-build_topic t c suffix topic a same h =
    let rest = remainder_of c.manufacturer c.serial_number suffix in
    let form = build_topic_lem c suffix a (suffix_ne c suffix topic h) in
    let e : topic ≡ expected_prefix t ++ rest = ground arith in
    rw e (
      parse_topic_context-topic_of t rest suffix
      ∙ at_first-outcome t c.manufacturer c.serial_number suffix suffix a.manufacturer_free
          a.serial_free
      ∙ outcome_self t c suffix a same)

parse_topic_context-form :
    (t c : TopicContext) (suffix topic : Bytes)
    → parse_topic_context t topic suffix ≡ some c
    → (remainder : Bytes) × (topic ≡ expected_prefix t ++ remainder) × Splits t c remainder suffix
unfolding parse_topic_context
parse_topic_context-form t c suffix topic h =
    elim (Bool-cases (starts_with (expected_prefix t) topic)) [
      | inl e ↦
          let remainder = drop (length (expected_prefix t)) topic in
          (
            remainder,
            starts_with_sound (expected_prefix t) topic e,
            at_first_sound t c remainder suffix (rw e at h),
          )
      | inr e ↦ absurd (cc (rw e at h))
    ]

Splits-IsAddress :
    (t c : TopicContext) (remainder suffix : Bytes)
    → is_empty t.interface_name ≡ false
    → is_empty t.major_version ≡ false
    → Splits t c remainder suffix
    → IsAddress c
Splits-IsAddress t c remainder suffix ni nv s = subst IsAddress (sym s.context) (record {
  interface_ne = ni;
  version_ne = nv;
  manufacturer_ne = s.some_f;
  serial_ne = s.some_s;
  manufacturer_free = s.free_f;
  serial_free = s.free_s;
})

-- A topic that parse_topic_context accepts is the one that build_topic writes for the context
-- it returns, which is an address of the template's interface; so a message that is forwarded
-- under that context and suffix keeps its topic. For a template with both parts and a suffix that is
-- not empty.
pub build_topic-parse_topic_context :
    (t c : TopicContext) (suffix topic : Bytes)
    → is_empty t.interface_name ≡ false
    → is_empty t.major_version ≡ false
    → is_empty suffix ≡ false
    → parse_topic_context t topic suffix ≡ some c
    → (build_topic c suffix ≡ some topic) × IsAddress c × SameInterface t c
build_topic-parse_topic_context t c suffix topic ni nv ns h =
    let (remainder, e, s) = parse_topic_context-form t c suffix topic h in
    let a = Splits-IsAddress t c remainder suffix ni nv s in
    (
      build_topic_lem c suffix a ns ∙ ground (arith, s.form, s.context, e),
      a,
      record { interface = ground (arith, s.context); version = ground (arith, s.context) },
    )
