-- ===== src/Keys/Device/Parse.antt =====
-- Which runtime keys are read back as the keys of physical devices.
use logi_battery.Base.{
  ℕ, ◌<◌, ◌≡◌, ◌∙◌, ap, refl, List, [], ◌∷◌, none, some, Bool, true, false, not, if◌then◌else◌,
  arith,
}
use logi_battery.Keys.Text.{strip_prefix}
use logi_battery.Keys.Device.{
  DeviceIdentity, DeviceStableId, bolt, direct, raw_hid, unknown, serial, unit, is_nil, key,
  is_physical, runtime_key, physical_key, raw_identity_is_physical, receiver_key_is_valid,
  direct_identity_fragment, raw_identity_fragment, unknown_identity_fragment, is_key, parse,
  is_some_and,
}
use logi_battery.Keys.Device.Fragments.{
  or_false, direct_fragment, raw_fragment, unknown_fragment, receiver_valid,
}
use logi_battery.Keys.Device.Identity.{IsIdentity, identity_fragment_is_physical-key}

-- A stable id whose numbers are in their types' ranges. A receiver has a unique id.
abbrev pub IsStableId : DeviceStableId → Type 0
IsStableId (bolt uid slot) = (is_nil uid ≡ false) × (slot < 256)
IsStableId (direct vendor product identity) =
    (vendor < 65536) × (product < 65536) × IsIdentity identity
IsStableId (raw_hid vendor product page usage identity) =
    (vendor < 65536) × (product < 65536) × (page < 65536) × (usage < 65536)
IsStableId (unknown slot identity) = (slot < 256) × IsIdentity identity

chosen :
    (b c : Bool) (k : List ℕ) → b ≡ c → (if b then some k else none) ≡ (if c then some k else none)
chosen b c k e = ap (λ x. if x then some k else none) e

raw_chosen :
    (i : List ℕ)
    → is_some_and raw_identity_is_physical (if not (is_nil i) then some i else none)
      ≡ raw_identity_is_physical i
unfolding raw_identity_is_physical strip_prefix
raw_chosen [] = refl
raw_chosen (c ∷ i) = refl

-- The five tests of a key, of which all but one fail on a key of another sort.
is_key-bolt :
    (uid : List ℕ) (slot : ℕ)
    → IsStableId (bolt uid slot)
    → is_key (runtime_key (bolt uid slot)) ≡ true
unfolding is_key runtime_key direct_identity_fragment raw_identity_fragment
    unknown_identity_fragment strip_prefix
is_key-bolt uid slot w = rw (receiver_valid uid slot w.1) (rw (w.0) refl)

is_key-direct :
    (vendor product : ℕ) (identity : DeviceIdentity)
    → IsStableId (direct vendor product identity)
    → is_key (runtime_key (direct vendor product identity)) ≡ is_physical identity
unfolding is_key runtime_key receiver_key_is_valid raw_identity_fragment unknown_identity_fragment
    strip_prefix
is_key-direct vendor product identity w =
    rw (direct_fragment vendor product (key identity) w.0 w.1)
      (ground (arith, identity_fragment_is_physical-key identity w.2))

is_key-raw :
    (vendor product page usage : ℕ) (identity : List ℕ)
    → IsStableId (raw_hid vendor product page usage identity)
    → is_key (runtime_key (raw_hid vendor product page usage identity))
      ≡ raw_identity_is_physical identity
unfolding is_key runtime_key receiver_key_is_valid direct_identity_fragment
    unknown_identity_fragment strip_prefix
is_key-raw vendor product page usage identity w =
    rw (raw_fragment vendor product page usage identity w.0 w.1 w.2 w.3)
      (ground (arith, raw_chosen identity))

is_key-unknown :
    (slot : ℕ) (identity : DeviceIdentity)
    → IsStableId (unknown slot identity)
    → is_key (runtime_key (unknown slot identity)) ≡ is_physical identity
unfolding is_key runtime_key receiver_key_is_valid direct_identity_fragment raw_identity_fragment
    strip_prefix
is_key-unknown slot identity w =
    rw (unknown_fragment slot (key identity) w.0)
      (or_false _ ∙ identity_fragment_is_physical-key identity w.1)

-- The runtime key of a device is read back as the key of a physical device exactly if it is the key of
-- a physical device: of a slot of a receiver; of a direct or unknown device with a serial number that
-- is not empty or a unit id that is not all zeros; or of a raw HID device whose identity has the prefix
-- serial: or stable: and more behind it. The numbers are in the ranges of their types, and a
-- receiver's unique id is not empty.
pub parse-runtime_key :
    (id : DeviceStableId) → IsStableId id → parse (runtime_key id) ≡ physical_key id
unfolding parse physical_key runtime_key
parse-runtime_key (bolt uid slot) w = chosen _ true _ (is_key-bolt uid slot w)
parse-runtime_key (direct vendor product identity) w =
    chosen _ _ _ (is_key-direct vendor product identity w)
parse-runtime_key (raw_hid vendor product page usage identity) w =
    chosen _ _ _ (is_key-raw vendor product page usage identity w)
parse-runtime_key (unknown slot identity) w = chosen _ _ _ (is_key-unknown slot identity w)

is_key-key :
    (identity : DeviceIdentity) → IsIdentity identity → is_key (key identity) ≡ is_physical identity
unfolding is_key key receiver_key_is_valid direct_identity_fragment raw_identity_fragment
    unknown_identity_fragment strip_prefix
is_key-key (serial s) w = identity_fragment_is_physical-key (serial s) w
is_key-key (unit u) w = identity_fragment_is_physical-key (unit u) w

-- The bare key of an identity is read back exactly if the identity is a physical one.
pub parse-key :
    (identity : DeviceIdentity)
    → IsIdentity identity
    → parse (key identity) ≡ (if is_physical identity then some (key identity) else none)
unfolding parse
parse-key identity w = chosen _ _ (key identity) (is_key-key identity w)
