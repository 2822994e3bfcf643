-- ===== src/Keys/Device.antt =====
-- crates/openlogi-core/src/device_order.rs: the keys under which devices are ordered and configured.
pub mod Fragments
pub mod Identity
pub mod Parse
mod Runs
use logi_battery.Base.{
  ℕ, List, [], ◌∷◌, ◌++◌, Option, none, some, Bool, true, false, not, ◌&&◌, ◌||◌, length, ◌==◌,
  if◌then◌else◌, or_else, is_some,
}
use logi_battery.Keys.Text.{
  codes, same_text, to_ascii_lowercase, parse_u8, strip_prefix, split_once, rsplit_once, splitn,
  all_hexdigits, hex2, hex4, decimal_u8,
}

pub data DeviceIdentity : Type 0 where
  serial : List ℕ → DeviceIdentity
  unit : List ℕ → DeviceIdentity

pub data DeviceStableId : Type 0 where
  bolt : List ℕ → ℕ → DeviceStableId
  direct : ℕ → ℕ → DeviceIdentity → DeviceStableId
  raw_hid : ℕ → ℕ → ℕ → ℕ → List ℕ → DeviceStableId
  unknown : ℕ → DeviceIdentity → DeviceStableId

-- `DeviceRoute` of hid/route.rs.
pub data DeviceRoute : Type 0 where
  bolt unifying : List ℕ → ℕ → DeviceRoute
  direct : ℕ → ℕ → DeviceRoute
  raw_hid : ℕ → ℕ → ℕ → ℕ → List ℕ → DeviceRoute

abbrev pub is_nil : List ℕ → Bool
is_nil [] = true
is_nil (c ∷ cs) = false

abbrev identity_of : Option (List ℕ) → List ℕ → DeviceIdentity
identity_of none unit_id = unit unit_id
identity_of (some s) unit_id = if is_nil s then unit unit_id else serial (to_ascii_lowercase s)

-- `DeviceIdentity::from_parts`
pub identity_from_parts : Option (List ℕ) → List ℕ → DeviceIdentity
identity_from_parts number unit_id = identity_of number unit_id

-- `DeviceStableId::from_parts`
pub from_parts : Option DeviceRoute → ℕ → Option (List ℕ) → List ℕ → DeviceStableId
unfolding identity_from_parts
from_parts (some (DeviceRoute.bolt uid slot')) slot number unit_id =
    DeviceStableId.bolt (to_ascii_lowercase uid) slot'
from_parts (some (DeviceRoute.unifying uid slot')) slot number unit_id =
    DeviceStableId.bolt (to_ascii_lowercase uid) slot'
from_parts (some (DeviceRoute.direct vendor product)) slot number unit_id =
    DeviceStableId.direct vendor product (identity_from_parts number unit_id)
from_parts (some (DeviceRoute.raw_hid vendor product page usage identity)) slot number unit_id =
    DeviceStableId.raw_hid vendor product page usage (to_ascii_lowercase identity)
from_parts none slot number unit_id = unknown slot (identity_from_parts number unit_id)

abbrev pub bytes_hex : List ℕ → List ℕ
bytes_hex [] = []
bytes_hex (b ∷ bs) = hex2 b ++ bytes_hex bs

-- `hex_unit` of the four bytes of a unit id.
unfoldable pub hex_unit : List ℕ → List ℕ
unfolding hex2
hex_unit u = bytes_hex u

unfoldable pub key : DeviceIdentity → List ℕ
unfolding hex_unit
key (serial s) = codes "serial:" ++ s
key (unit u) = codes "unit:" ++ hex_unit u

abbrev pub all_zero : List ℕ → Bool
all_zero [] = true
all_zero (b ∷ bs) = b == 0 && all_zero bs

unfoldable pub is_physical : DeviceIdentity → Bool
is_physical (serial s) = not (is_nil s)
is_physical (unit u) = not (all_zero u)

unfoldable pub runtime_key : DeviceStableId → List ℕ
unfolding decimal_u8 hex4 key
runtime_key (bolt uid slot) = codes "receiver:" ++ (uid ++ (codes ":slot:" ++ decimal_u8 slot))
runtime_key (direct vendor product identity) =
    codes "direct:" ++ (hex4 vendor ++ (b':' ∷ hex4 product ++ (b':' ∷ key identity)))
runtime_key (raw_hid vendor product page usage identity) =
    codes "raw:"
    ++ (hex4 vendor
        ++ (b':' ∷ hex4 product ++ (b':' ∷ hex4 page ++ (b':' ∷ hex4 usage ++ (b':' ∷ identity)))))
runtime_key (unknown slot identity) =
    codes "unknown:slot:" ++ (decimal_u8 slot ++ (b':' ∷ key identity))

unfoldable pub route_key : DeviceStableId → List ℕ
unfolding runtime_key
route_key (bolt uid slot) = runtime_key (bolt uid slot)
route_key (direct vendor product identity) =
    codes "direct:" ++ (hex4 vendor ++ (b':' ∷ hex4 product))
route_key (raw_hid vendor product page usage identity) =
    runtime_key (raw_hid vendor product page usage identity)
route_key (unknown slot identity) = runtime_key (unknown slot identity)

abbrev pub has_text : Option (List ℕ) → Bool
has_text none = false
has_text (some s) = not (is_nil s)

abbrev pub is_unit_text : Option (List ℕ) → Bool
is_unit_text none = false
is_unit_text (some u) = length u == 8 && all_hexdigits u && not (same_text u (codes "00000000"))

pub identity_fragment_is_physical : List ℕ → Bool
identity_fragment_is_physical value =
    has_text (strip_prefix (codes "serial:") value)
    || is_unit_text (strip_prefix (codes "unit:") value)

pub raw_identity_is_physical : List ℕ → Bool
raw_identity_is_physical value =
    has_text (strip_prefix (codes "serial:") value)
    || has_text (strip_prefix (codes "stable:") value)

-- A key, as its text.
pub physical_key : DeviceStableId → Option (List ℕ)
unfolding is_physical raw_identity_is_physical
physical_key (bolt uid slot) = some (runtime_key (bolt uid slot))
physical_key (direct vendor product identity) =
    if is_physical identity then some (runtime_key (direct vendor product identity)) else none
physical_key (unknown slot identity) =
    if is_physical identity then some (runtime_key (unknown slot identity)) else none
physical_key (raw_hid vendor product page usage identity) =
    if raw_identity_is_physical identity
    then some (runtime_key (raw_hid vendor product page usage identity))
    else none

abbrev pub is_receiver_part : Option (List ℕ × List ℕ) → Bool
is_receiver_part none = false
is_receiver_part (some (uid, slot)) = not (is_nil uid) && is_some (parse_u8 slot)

abbrev rsplit_slot : Option (List ℕ) → Option (List ℕ × List ℕ)
rsplit_slot none = none
rsplit_slot (some rest) = rsplit_once (codes ":slot:") rest

pub receiver_key_is_valid : List ℕ → Bool
receiver_key_is_valid value =
    is_receiver_part (rsplit_slot (strip_prefix (codes "receiver:") value))

abbrev pub is_hex_word : List ℕ → Bool
is_hex_word value = length value == 4 && all_hexdigits value

abbrev pub direct_part : List (List ℕ) → Option (List ℕ)
direct_part (vendor ∷ product ∷ identity ∷ more) =
    if is_hex_word vendor && is_hex_word product then some identity else none
direct_part [] = none
direct_part (a ∷ []) = none
direct_part (a ∷ b ∷ []) = none

abbrev parts : ℕ → Option (List ℕ) → List (List ℕ)
parts n none = []
parts n (some rest) = splitn n b':' rest

pub direct_identity_fragment : List ℕ → Option (List ℕ)
direct_identity_fragment value = direct_part (parts 3 (strip_prefix (codes "direct:") value))

abbrev pub raw_part : List (List ℕ) → Option (List ℕ)
raw_part (vendor ∷ product ∷ page ∷ usage ∷ identity ∷ more) =
    if is_hex_word vendor
      && is_hex_word product
      && is_hex_word page
      && is_hex_word usage
      && not (is_nil identity)
    then some identity
    else none
raw_part [] = none
raw_part (a ∷ []) = none
raw_part (a ∷ b ∷ []) = none
raw_part (a ∷ b ∷ c ∷ []) = none
raw_part (a ∷ b ∷ c ∷ d ∷ []) = none

pub raw_identity_fragment : List ℕ → Option (List ℕ)
raw_identity_fragment value = raw_part (parts 5 (strip_prefix (codes "raw:") value))

abbrev pub unknown_part : Option (List ℕ × List ℕ) → Option (List ℕ)
unknown_part none = none
unknown_part (some (slot, identity)) = if is_some (parse_u8 slot) then some identity else none

abbrev split_colon : Option (List ℕ) → Option (List ℕ × List ℕ)
split_colon none = none
split_colon (some rest) = split_once b':' rest

pub unknown_identity_fragment : List ℕ → Option (List ℕ)
unknown_identity_fragment value =
    unknown_part (split_colon (strip_prefix (codes "unknown:slot:") value))

abbrev pub is_some_and : (List ℕ → Bool) → Option (List ℕ) → Bool
is_some_and test none = false
is_some_and test (some a) = test a

pub is_key : List ℕ → Bool
unfolding identity_fragment_is_physical raw_identity_is_physical
is_key value =
    receiver_key_is_valid value
    || is_some_and identity_fragment_is_physical (direct_identity_fragment value)
    || is_some_and raw_identity_is_physical (raw_identity_fragment value)
    || is_some_and identity_fragment_is_physical (unknown_identity_fragment value)
    || identity_fragment_is_physical value

-- `PhysicalDeviceKey::parse`
pub parse : List ℕ → Option (List ℕ)
unfolding is_key
parse value = if is_key value then some value else none

abbrev is_zero_unit : List ℕ → Bool
is_zero_unit identity = same_text identity (codes "unit:00000000")

abbrev is_transient_raw : List ℕ → Bool
is_transient_raw identity = is_some (strip_prefix (codes "id:") identity) || is_nil identity

pub is_transient : List ℕ → Bool
is_transient value =
    is_some_and is_zero_unit
      (or_else (direct_identity_fragment value) (unknown_identity_fragment value))
    || is_some_and is_transient_raw (raw_identity_fragment value)
