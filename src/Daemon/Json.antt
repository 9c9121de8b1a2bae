-- ===== src/Daemon/Json.antt =====
-- The values of serde_json. An object keeps its entries in an order of its own, and a number is its
-- text.
use nic_autoswitch.Common.{
  Bool, Option, none, some, if◌then◌else◌, Text, ◌==◌, Text-discrete, Text-eq, ℕ-eq,
}

mutual
  pub data Json : Type 0 where
    null : Json
    boolean : Bool → Json
    number : Text → Json
    string : Text → Json
    array : Items → Json
    object : Fields → Json

  pub data Items : Type 0 where
    no_items : Items
    one_item : Json → Items → Items

  pub data Fields : Type 0 where
    no_fields : Fields
    one_field : Text → Json → Fields → Fields

unfoldable pub field : Text → Fields → Option Json
unfolding Text-discrete
field key no_fields = none
field key (one_field k v rest) = let later = field key rest in if k == key then some v else later

-- `value.get(key)`, which looks into an object only
unfoldable pub get_value : Text → Json → Option Json
unfolding field
get_value key (object fields) = field key fields
get_value key _ = none
