-- ===== src/Hidpp/V10.antt =====
-- crates/openlogi-hidpp/src/protocol/v10.rs: HID++1.0 messages and register access (RAP).
pub mod RoundTrip
pub mod Registers
mod Runs
use logi_battery.Base.{
  ℕ, List, [], ◌∷◌, Option, none, some, Bool, ◌&&◌, ◌||◌, ◌≡◌, length, get_or, take, drop,
  replicate, All, ◌==◌, if◌then◌else◌, IsByte,
}
use logi_battery.Hidpp.Message.{HidppMessage, copy_front, payload_of}

pub record MessageHeader : Type 0 where
  pub device_index : ℕ
  pub sub_id : ℕ

-- The payloads are `[u8; 4]` and `[u8; 17]`.
pub data V10Message : Type 0 where
  short : MessageHeader → List ℕ → V10Message
  long : MessageHeader → List ℕ → V10Message

abbrev pub IsMessage : V10Message → Type 0
IsMessage (short h payload) =
    IsByte h.device_index × IsByte h.sub_id × (length payload ≡ 4) × All IsByte payload
IsMessage (long h payload) =
    IsByte h.device_index × IsByte h.sub_id × (length payload ≡ 17) × All IsByte payload

abbrev pub header : V10Message → MessageHeader
header (short h payload) = h
header (long h payload) = h

pub extend_payload : V10Message → List ℕ
extend_payload (short h payload) = copy_front payload (replicate 17 0)
extend_payload (long h payload) = payload

abbrev pub read_header : List ℕ → MessageHeader
read_header payload = record { device_index = get_or payload 0 0; sub_id = get_or payload 1 0 }

-- `From<HidppMessage> for Message`
unfoldable pub from_hidpp : HidppMessage → V10Message
from_hidpp (HidppMessage.short payload) = short (read_header payload) (drop 2 payload)
from_hidpp (HidppMessage.long payload) = long (read_header payload) (drop 2 payload)

-- `From<Message> for HidppMessage`
pub into_hidpp : V10Message → HidppMessage
into_hidpp (short h payload) = HidppMessage.short (h.device_index ∷ h.sub_id ∷ payload)
into_hidpp (long h payload) = HidppMessage.long (h.device_index ∷ h.sub_id ∷ payload)

pub data MessageType : Type 0 where
  set_register get_register set_long_register get_long_register error : MessageType

abbrev pub type_byte : MessageType → ℕ
type_byte set_register = 0x80
type_byte get_register = 0x81
type_byte set_long_register = 0x82
type_byte get_long_register = 0x83
type_byte error = 0x8f

pub data ErrorType : Type 0 where
  success invalid_sub_id invalid_address invalid_value connect_fail too_many_devices : ErrorType
  already_exists busy unknown_device resource_error request_unavailable : ErrorType
  invalid_param_value wrong_pin_code : ErrorType

abbrev pub to_byte : ErrorType → ℕ
to_byte success = 0x00
to_byte invalid_sub_id = 0x01
to_byte invalid_address = 0x02
to_byte invalid_value = 0x03
to_byte connect_fail = 0x04
to_byte too_many_devices = 0x05
to_byte already_exists = 0x06
to_byte busy = 0x07
to_byte unknown_device = 0x08
to_byte resource_error = 0x09
to_byte request_unavailable = 0x0a
to_byte invalid_param_value = 0x0b
to_byte wrong_pin_code = 0x0c

pub try_from : ℕ → Option ErrorType
try_from b =
    if b == 0x00
    then some success
    else if b == 0x01
    then some invalid_sub_id
    else if b == 0x02
    then some invalid_address
    else if b == 0x03
    then some invalid_value
    else if b == 0x04
    then some connect_fail
    else if b == 0x05
    then some too_many_devices
    else if b == 0x06
    then some already_exists
    else if b == 0x07
    then some busy
    else if b == 0x08
    then some unknown_device
    else if b == 0x09
    then some resource_error
    else if b == 0x0a
    then some request_unavailable
    else if b == 0x0b
    then some invalid_param_value
    else if b == 0x0c
    then some wrong_pin_code
    else none

pub is_rap_response : ℕ → MessageType → ℕ → HidppMessage → Bool
is_rap_response device msg_type address msg =
    get_or raw 0 0 == device
    && (get_or raw 1 0 == type_byte msg_type && get_or raw 2 0 == address
        || get_or raw 1 0 == type_byte error
          && get_or raw 2 0 == type_byte msg_type
          && get_or raw 3 0 == address)
  where
    raw : List ℕ
    raw = payload_of msg

-- `Hidpp10Error`, less the channel's own errors, which are passed on unchanged.
pub data V10Result {ℓ} (A : Type ℓ) : Type ℓ where
  ok : A → V10Result A
  register_access : ErrorType → V10Result A
  unsupported_response : V10Result A

error_of {ℓ} : {A : Type ℓ} → Option ErrorType → V10Result A
error_of none = unsupported_response
error_of (some e) = register_access e

-- The four register accesses treat an error reply alike, and read any other response in their own way.
rap_outcome {ℓ} : {A : Type ℓ} → HidppMessage → (List ℕ → A) → V10Result A
unfolding error_of
rap_outcome response value =
    if (header (from_hidpp response)).sub_id == type_byte error
    then error_of (try_from (get_or (extend_payload (from_hidpp response)) 2 0))
    else ok (value (extend_payload (from_hidpp response)))

rap_request : ℕ → MessageType → List ℕ → HidppMessage
unfolding into_hidpp
rap_request device msg_type payload =
    into_hidpp (short (record { device_index = device; sub_id = type_byte msg_type }) payload)

-- The request that each access sends, which responses it accepts, and what it makes of one.
pub read_register_request : ℕ → ℕ → List ℕ → HidppMessage
unfolding rap_request
read_register_request device address parameters =
    rap_request device get_register (address ∷ parameters)

abbrev pub read_register_accepts : ℕ → ℕ → HidppMessage → Bool
read_register_accepts device address = is_rap_response device get_register address

pub read_register_response : HidppMessage → V10Result (List ℕ)
unfolding rap_outcome
read_register_response response = rap_outcome response (λ payload. take 3 (drop 1 payload))

pub write_register_request : ℕ → ℕ → List ℕ → HidppMessage
unfolding rap_request
write_register_request device address payload = rap_request device set_register (address ∷ payload)

abbrev pub write_register_accepts : ℕ → ℕ → HidppMessage → Bool
write_register_accepts device address = is_rap_response device set_register address

pub write_register_response : HidppMessage → V10Result (Unit {0})
unfolding rap_outcome
write_register_response response = rap_outcome response (λ _. tt)

pub read_long_register_request : ℕ → ℕ → List ℕ → HidppMessage
unfolding rap_request
read_long_register_request device address parameters =
    rap_request device get_long_register (address ∷ parameters)

abbrev pub read_long_register_accepts : ℕ → ℕ → HidppMessage → Bool
read_long_register_accepts device address = is_rap_response device get_long_register address

pub read_long_register_response : HidppMessage → V10Result (List ℕ)
unfolding rap_outcome
read_long_register_response response = rap_outcome response (λ payload. drop 1 payload)

pub write_long_register_request : ℕ → ℕ → List ℕ → HidppMessage
unfolding into_hidpp
write_long_register_request device address payload = into_hidpp (
    long (record { device_index = device; sub_id = type_byte set_long_register })
      (address ∷ payload))

abbrev pub write_long_register_accepts : ℕ → ℕ → HidppMessage → Bool
write_long_register_accepts device address = is_rap_response device set_long_register address

pub write_long_register_response : HidppMessage → V10Result (Unit {0})
unfolding rap_outcome
write_long_register_response response = rap_outcome response (λ _. tt)
