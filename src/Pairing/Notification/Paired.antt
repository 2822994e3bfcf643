-- ===== src/Pairing/Notification/Paired.antt =====
-- Which bytes tell that a device is paired.
use logi_battery.Base.{ℕ, ◌≡◌, List, some, true, get_or, bit_and, arith}
use logi_battery.Pairing.Notification.{
  pairing_succeeded, connected, parse_notification, discovery_of, error_of, pairing_status_of,
  passkey_of,
}

-- A pairing status of state 2 and error 0, which names the slot.
pub parse_notification-succeeded :
    (sub_id device_index : ℕ) (p : List ℕ) (slot : ℕ)
    → parse_notification sub_id device_index p ≡ some (pairing_succeeded slot)
    → (sub_id ≡ 0x54) × (get_or p 0 0 ≡ 2) × (get_or p 1 0 ≡ 0) × (slot ≡ get_or p 8 0)
unfolding parse_notification discovery_of error_of pairing_status_of passkey_of
parse_notification-succeeded sub_id device_index p slot e = ground arith

-- A connection at the slot of the report, with a link that is established.
pub parse_notification-connected :
    (sub_id device_index : ℕ) (p : List ℕ) (slot : ℕ)
    → parse_notification sub_id device_index p ≡ some (connected slot true)
    → (sub_id ≡ 0x41) × (slot ≡ device_index) × (bit_and (get_or p 1 0) 64 ≡ 0)
unfolding parse_notification discovery_of error_of pairing_status_of passkey_of
parse_notification-connected sub_id device_index p slot e = ground arith
