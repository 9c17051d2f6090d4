-- ===== src/Tests/Topics.antt =====
-- Topics, prefixes and configurations.
use syrius_orbit_daemon.Common.{◌≡◌, ◌↔◌, refl, arith, some, Bytes, text, ◌==◌}
use syrius_orbit_daemon.Bytes.{find, starts_with}
use syrius_orbit_daemon.Topic.{
  parse_topic_prefix, parse_topic_context, build_topic, at_first, at_second, split_remainder,
}
use syrius_orbit_daemon.Topic.Prefix.{IsPrefixOf, parse_topic_prefix_iff}
use syrius_orbit_daemon.Topic.RoundTrip.{
  IsAddress, SameInterface, parse_topic_context-build_topic, build_topic-parse_topic_context,
}
use syrius_orbit_daemon.Config.{RuntimeConfig, default_config}
use syrius_orbit_daemon.Tests.Data.{template, robot_context}

abbrev topic : Bytes
topic = text "vda5050/v3/acme/7/state"

parse_topic_prefix_iff_example :
    (parse_topic_prefix (text "vda5050/v3") ≡ some template)
    ↔ IsPrefixOf (text "vda5050/v3") template
parse_topic_prefix_iff_example = parse_topic_prefix_iff (text "vda5050/v3") template

robot_context-IsAddress : IsAddress robot_context
robot_context-IsAddress = record {
  interface_ne = refl;
  version_ne = refl;
  manufacturer_ne = refl;
  serial_ne = refl;
  manufacturer_free =
      ((λ h. omega arith), ((λ h. omega arith), ((λ h. omega arith), ((λ h. omega arith), tt))));
  serial_free = ((λ h. omega arith), tt);
}

template-SameInterface : SameInterface template robot_context
template-SameInterface = record { interface = refl; version = refl }

parse_topic_context-build_topic_example :
    parse_topic_context template topic (text "state") ≡ some robot_context
unfolding build_topic
parse_topic_context-build_topic_example =
    parse_topic_context-build_topic template robot_context (text "state") topic
      robot_context-IsAddress template-SameInterface refl

build_topic-parse_topic_context_example :
    (build_topic robot_context (text "state") ≡ some topic)
    × IsAddress robot_context
    × SameInterface template robot_context
unfolding parse_topic_context at_first at_second split_remainder find starts_with ◌==◌
build_topic-parse_topic_context_example =
    build_topic-parse_topic_context template robot_context (text "state") topic refl refl refl refl

abbrev json_config : RuntimeConfig
json_config = record default_config { http_port = 9000; mqtt_host = text "broker" }

abbrev cli_config : RuntimeConfig
cli_config = record default_config { http_port = 9001 }
