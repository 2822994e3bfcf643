-- ===== src/Pairing/Notification.antt =====
-- crates/openlogi-device/src/pairing/notification.rs: the notifications of a receiver that pairs.
pub mod Paired
use logi_battery.Base.{
  ℕ, ◌+◌, ◌-◌, ◌*◌, Option, none, some, List, [], ◌∷◌, Bool, true, false, not, ◌&&◌, ◌||◌, min, leb,
  ◌==◌, if◌then◌else◌, get_or, take, drop, replicate, length, bit_and,
}
use logi_battery.Hidpp.Message.{HidppMessage, short, long, copy_front}

pub data Notification : Type 0 where
  discovery_info : ℕ → ℕ → List ℕ → ℕ → Notification
  discovery_name : ℕ → List ℕ → Notification
  pairing_succeeded : ℕ → Notification
  pairing_error : ℕ → Notification
  passkey : List ℕ → ℕ → Notification
  malformed_passkey : Notification
  connected : ℕ → Bool → Notification
  unifying_lock : Bool → ℕ → Notification

-- `(device_index, sub_id, payload)`
pub decode : HidppMessage → ℕ × ℕ × List ℕ
decode (short d) = (get_or d 0 0, get_or d 1 0, copy_front (take 4 (drop 2 d)) (replicate 17 0))
decode (long d) = (get_or d 0 0, get_or d 1 0, take 17 (drop 2 d))

-- The bytes before the first NUL.
pub until_nul : List ℕ → List ℕ
until_nul [] = []
until_nul (b ∷ bs) = let rest = until_nul bs in if b == 0 then [] else b ∷ rest

pub all_digits : List ℕ → Bool
all_digits [] = true
all_digits (b ∷ bs) = leb b'0' b && leb b b'9' && all_digits bs

-- The number that digits spell, after the number `acc`.
pub digits_value : ℕ → List ℕ → ℕ
digits_value acc [] = acc
digits_value acc (b ∷ bs) = digits_value (acc * 10 + (b - b'0')) bs

abbrev pub is_empty {ℓ} : {A : Type ℓ} → List A → Bool
is_empty [] = true
is_empty (x ∷ xs) = false

pub passkey_of : List ℕ → Notification
passkey_of digits =
    if is_empty digits || not (all_digits digits)
    then malformed_passkey
    else passkey digits (digits_value 0 digits)

pub discovery_of : List ℕ → Option Notification
discovery_of p =
    let counter = get_or p 0 0 + get_or p 1 0 * 256 in
    if get_or p 2 0 == 0
    then some (discovery_info counter (get_or p 4 0) (take 6 (drop 7 p)) (get_or p 15 0))
    else if get_or p 2 0 == 1
    then some (discovery_name counter (take (min (get_or p 3 0) (length p - 4)) (drop 4 p)))
    else none

pub error_of : ℕ → Option Notification
error_of error = if not (error == 0) then some (pairing_error error) else none

pub pairing_status_of : List ℕ → Option Notification
pairing_status_of p =
    if not (get_or p 1 0 == 0)
    then some (pairing_error (get_or p 1 0))
    else if get_or p 0 0 == 2
    then some (pairing_succeeded (get_or p 8 0))
    else none

pub parse_notification : ℕ → ℕ → List ℕ → Option Notification
parse_notification sub_id device_index p =
    if sub_id == 0x41
    then some (connected device_index (bit_and (get_or p 1 0) 64 == 0))
    else if sub_id == 0x4f
    then discovery_of p
    else if sub_id == 0x53
    then error_of (get_or p 1 0)
    else if sub_id == 0x54
    then pairing_status_of p
    else if sub_id == 0x4d
    then some (passkey_of (until_nul (take 6 (drop 1 p))))
    else if sub_id == 0x4a
    then some (unifying_lock (not (bit_and (get_or p 0 0) 1 == 0)) (get_or p 1 0))
    else none
