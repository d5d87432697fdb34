-- ===== src/Amf0.antt =====
-- include/rtmp_server/protocol/amf0/amf0_value.hpp: the values. A double is its 64 bits, a string its
-- bytes, and the timezone of a date its 16 bits; shared pointers to immutable lists are the lists.
pub mod Decoder
pub mod Encoder
pub mod RoundTrip
use rtmp_core.Base.{ℕ, Bool, List, Option, none, some, same_key, if◌then◌else◌}

mutual
  pub data Value : Type 0 where
    number : ℕ → Value
    boolean : Bool → Value
    string : List ℕ → Value
    object : Properties → Value
    null : Value
    undefined : Value
    ecma_array : Properties → Value
    strict_array : Items → Value
    date : ℕ → ℕ → Value

  pub data Items : Type 0 where
    nil : Items
    cons : Value → Items → Items

  pub data Properties : Type 0 where
    end : Properties
    property : List ℕ → Value → Properties → Properties

-- Amf0Value::find: the first property of that name.
unfoldable pub find_property : List ℕ → Properties → Option Value
find_property key end = none
find_property key (property name v ps) = if same_key name key then some v else find_property key ps

unfoldable pub find_in : List ℕ → Value → Option Value
find_in key (object ps) = find_property key ps
find_in key (ecma_array ps) = find_property key ps
find_in key (number bits) = none
find_in key (boolean b) = none
find_in key (string s) = none
find_in key null = none
find_in key undefined = none
find_in key (strict_array vs) = none
find_in key (date bits timezone) = none
