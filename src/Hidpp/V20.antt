-- ===== src/Hidpp/V20.antt =====
-- crates/openlogi-hidpp/src/protocol/v20.rs: HID++2.0 messages, the match of a response to its
-- request, and what a caller makes of the response.
pub mod RoundTrip
pub mod Correlation
mod Runs
use logi_battery.Base.{
  ℕ, List, [], ◌∷◌, ◌≡◌, Option, none, some, Bool, ◌&&◌, ◌||◌, length, get_or, drop, replicate, All,
  ◌==◌, if◌then◌else◌, IsByte,
}
use logi_battery.Hidpp.Nibble.{U4, from_lo, from_hi, combine, IsNibble}
use logi_battery.Hidpp.Message.{HidppMessage, copy_front}
use logi_battery.Hidpp.Message

pub record MessageHeader : Type 0 where
  pub device_index : ℕ
  pub feature_index : ℕ
  pub function_id : U4
  pub software_id : U4

-- The payloads are `[u8; 3]` and `[u8; 16]`.
pub data V20Message : Type 0 where
  short : MessageHeader → List ℕ → V20Message
  long : MessageHeader → List ℕ → V20Message

pub record IsHeader (h : MessageHeader) : Type 0 where
  pub device_byte : IsByte h.device_index
  pub feature_byte : IsByte h.feature_index
  pub function_nibble : IsNibble h.function_id
  pub software_nibble : IsNibble h.software_id

abbrev pub IsMessage : V20Message → Type 0
IsMessage (short h payload) = IsHeader h × (length payload ≡ 3) × All IsByte payload
IsMessage (long h payload) = IsHeader h × (length payload ≡ 16) × All IsByte payload

abbrev pub header : V20Message → MessageHeader
header (short h payload) = h
header (long h payload) = h

unfoldable pub extend_payload : V20Message → List ℕ
extend_payload (short h payload) = copy_front payload (replicate 16 0)
extend_payload (long h payload) = payload

pub read_header : List ℕ → MessageHeader
read_header payload = record {
  device_index = get_or payload 0 0;
  feature_index = get_or payload 1 0;
  function_id = from_hi (get_or payload 2 0);
  software_id = from_lo (get_or payload 2 0);
}

-- `From<HidppMessage> for Message`
unfoldable pub from_hidpp : HidppMessage → V20Message
unfolding read_header
from_hidpp (HidppMessage.short payload) = short (read_header payload) (drop 3 payload)
from_hidpp (HidppMessage.long payload) = long (read_header payload) (drop 3 payload)

-- `From<Message> for HidppMessage`
pub into_hidpp : V20Message → HidppMessage
into_hidpp (short h payload) =
    HidppMessage.short
      (h.device_index ∷ h.feature_index ∷ combine h.function_id h.software_id ∷ payload)
into_hidpp (long h payload) =
    HidppMessage.long
      (h.device_index ∷ h.feature_index ∷ combine h.function_id h.software_id ∷ payload)

-- The derived `PartialEq` of the header.
abbrev pub header_eq : MessageHeader → MessageHeader → Bool
header_eq a b =
    a.device_index == b.device_index
    && a.feature_index == b.feature_index
    && a.function_id.raw == b.function_id.raw
    && a.software_id.raw == b.software_id.raw

-- The response is an error reply to the request: feature index 0xff, with the request's feature index
-- and function byte moved one byte to the right.
pub is_error : MessageHeader → V20Message → Bool
is_error h resp =
    (header resp).device_index == h.device_index
    && (header resp).feature_index == 0xff
    && combine (header resp).function_id (header resp).software_id == h.feature_index
    && get_or (extend_payload resp) 0 0 == combine h.function_id h.software_id

-- The response predicate that `send_v20` registers.
pub accepts : MessageHeader → HidppMessage → Bool
unfolding is_error
accepts h response = is_error h (from_hidpp response) || header_eq (header (from_hidpp response)) h

pub data ErrorType : Type 0 where
  no_error unknown invalid_argument out_of_range hw_error : ErrorType
  logitech_internal invalid_feature_index invalid_function_id busy unsupported : ErrorType

abbrev pub to_byte : ErrorType → ℕ
to_byte no_error = 0
to_byte unknown = 1
to_byte invalid_argument = 2
to_byte out_of_range = 3
to_byte hw_error = 4
to_byte logitech_internal = 5
to_byte invalid_feature_index = 6
to_byte invalid_function_id = 7
to_byte busy = 8
to_byte unsupported = 9

pub try_from : ℕ → Option ErrorType
try_from b =
    if b == 0
    then some no_error
    else if b == 1
    then some unknown
    else if b == 2
    then some invalid_argument
    else if b == 3
    then some out_of_range
    else if b == 4
    then some hw_error
    else if b == 5
    then some logitech_internal
    else if b == 6
    then some invalid_feature_index
    else if b == 7
    then some invalid_function_id
    else if b == 8
    then some busy
    else if b == 9
    then some unsupported
    else none

-- `Hidpp20Error`, less the channel's own errors, which are passed on unchanged.
pub data V20Result : Type 0 where
  ok : V20Message → V20Result
  feature_error : ErrorType → V20Result
  unsupported_response : V20Result

error_of : Option ErrorType → V20Result
error_of none = unsupported_response
error_of (some e) = feature_error e

-- What `send_v20` makes of the response that the channel returned.
pub interpret : HidppMessage → V20Result
unfolding error_of
interpret response =
    if (header (from_hidpp response)).feature_index == 0xff
    then error_of (try_from (get_or (extend_payload (from_hidpp response)) 1 0))
    else ok (from_hidpp response)
