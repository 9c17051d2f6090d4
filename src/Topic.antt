-- ===== src/Topic.antt =====
-- The MQTT topics of VDA5050: VDA5050TopicContext (include/syrius_orbit/mqtt/VDA5050TopicContext.hpp),
-- VDA5050Proxy::parse_topic_prefix (src/VDA5050Proxy.cpp), buildFilter and parseTopicContext
-- (include/syrius_orbit/mqtt/VDA5050Subscriber.hpp), buildTopic
-- (include/syrius_orbit/mqtt/VDA5050Publisher.hpp). A bool result with an out argument is an Option.
pub mod Prefix
pub mod Parts
pub mod RoundTrip
use syrius_orbit_daemon.Common.{
  ℕ, suc, ◌+◌, ◌-◌, Bool, true, false, not, ◌&&◌, ◌||◌, Option, none, some, List, [], ◌∷◌, ◌++◌,
  Bytes, text, ◌==◌, nat_eq, length, is_empty, if◌then◌else◌,
}
use syrius_orbit_daemon.Bytes.{take, drop, find, starts_with}

pub record TopicContext : Type 0 where
  pub interface_name : Bytes
  pub major_version : Bytes
  pub manufacturer : Bytes
  pub serial_number : Bytes

-- '/'
abbrev pub slash : ℕ
slash = b'/'

-- parse_topic_prefix behind the first separator; `next` is the position of another one.
unfoldable pub split_prefix : Bytes → ℕ → Option ℕ → Option TopicContext
split_prefix prefix sep (some next) = none
split_prefix prefix sep none =
    let interface_name = take sep prefix in
    let major_version = drop (suc sep) prefix in
    if not (is_empty interface_name) && not (is_empty major_version)
    then some (record {
      interface_name = interface_name;
      major_version = major_version;
      manufacturer = [];
      serial_number = [];
    })
    else none

unfoldable pub prefix_at : Bytes → Option ℕ → Option TopicContext
prefix_at prefix none = none
prefix_at prefix (some sep) =
    if nat_eq sep 0 || nat_eq sep (length prefix - 1)
    then none
    else split_prefix prefix sep (find slash (drop (suc sep) prefix))

unfoldable pub parse_topic_prefix : Bytes → Option TopicContext
parse_topic_prefix prefix = if is_empty prefix then none else prefix_at prefix (find slash prefix)

unfoldable pub build_filter : TopicContext → Bytes → Bytes
build_filter template suffix =
    template.interface_name ++ (text "/" ++ (template.major_version ++ (text "/+/+/" ++ suffix)))

abbrev pub expected_prefix : TopicContext → Bytes
expected_prefix template =
    template.interface_name ++ (slash ∷ (template.major_version ++ (slash ∷ [])))

-- The checks of parseTopicContext after both separators are found; `second` counts from the byte
-- after the first separator.
unfoldable pub split_remainder : TopicContext → Bytes → Bytes → ℕ → ℕ → Option TopicContext
split_remainder template remainder suffix first second =
    let second_sep = first + 1 + second in
    let tail = drop (suc second_sep) remainder in
    if not (tail == suffix)
    then none
    else let manufacturer = take first remainder in
      let serial_number = take (second_sep - first - 1) (drop (suc first) remainder) in
      if not (is_empty manufacturer) && not (is_empty serial_number)
      then some (record {
        interface_name = template.interface_name;
        major_version = template.major_version;
        manufacturer = manufacturer;
        serial_number = serial_number;
      })
      else none

unfoldable pub at_second : TopicContext → Bytes → Bytes → ℕ → Option ℕ → Option TopicContext
at_second template remainder suffix first none = none
at_second template remainder suffix first (some second) =
    if nat_eq second 0 then none else split_remainder template remainder suffix first second

unfoldable pub at_first : TopicContext → Bytes → Bytes → Option ℕ → Option TopicContext
at_first template remainder suffix none = none
at_first template remainder suffix (some first) =
    if nat_eq first 0
    then none
    else at_second template remainder suffix first (find slash (drop (suc first) remainder))

unfoldable pub parse_topic_context : TopicContext → Bytes → Bytes → Option TopicContext
parse_topic_context template topic suffix =
    if not (starts_with (expected_prefix template) topic)
    then none
    else let remainder = drop (length (expected_prefix template)) topic in
      at_first template remainder suffix (find slash remainder)

unfoldable pub build_topic : TopicContext → Bytes → Option Bytes
build_topic context suffix =
    if is_empty context.interface_name
      || is_empty context.major_version
      || is_empty context.manufacturer
      || is_empty context.serial_number
      || is_empty suffix
    then none
    else some (
        context.interface_name
        ++ (slash
            ∷ (context.major_version
                ++ (slash
                    ∷ (context.manufacturer
                        ++ (slash ∷ (context.serial_number ++ (slash ∷ suffix))))))))
