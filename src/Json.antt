-- ===== src/Json.antt =====
-- JSON values, as nlohmann::json and nlohmann::ordered_json present them: the kinds of value_t, an
-- object as its members in the order in which they are iterated. Numbers are 64-bit patterns.
use syrius_orbit_daemon.Common.{ℕ, Bool, Bytes}

mutual
  pub data Json : Type 0 where
    null : Json
    boolean : Bool → Json
    number : ℕ → Json
    string : Bytes → Json
    array : Items → Json
    object : Members → Json

  pub data Items : Type 0 where
    nil : Items
    cons : Json → Items → Items

  pub data Members : Type 0 where
    end : Members
    member : Bytes → Json → Members → Members
