-- ===== src/Hidpp/Message.antt =====
-- crates/openlogi-hidpp/src/channel/message.rs: the two report widths and their raw framing.
-- A byte array is a list of numbers; `IsFrame` states the length and the range its type gives.
pub mod RoundTrip
mod Runs
use logi_battery.Base.{
  ℕ, ◌+◌, ◌-◌, ◌≡◌, List, [], ◌∷◌, ◌++◌, Option, none, some, ◌&&◌, length, get_or, drop, replicate,
  All, ltb, ◌==◌, if◌then◌else◌, IsByte,
}

abbrev pub short_report_id : ℕ
short_report_id = 0x10

abbrev pub short_report_length : ℕ
short_report_length = 7

abbrev pub long_report_id : ℕ
long_report_id = 0x11

abbrev pub long_report_length : ℕ
long_report_length = 20

pub data HidppMessage : Type 0 where
  short : List ℕ → HidppMessage
  long : List ℕ → HidppMessage

-- What the array types `[u8; 6]` and `[u8; 19]` say.
abbrev pub IsFrame : HidppMessage → Type 0
IsFrame (short payload) = (length payload ≡ 6) × All IsByte payload
IsFrame (long payload) = (length payload ≡ 19) × All IsByte payload

-- `rest.split_first_chunk()` with an empty remainder fits exactly one length.
unfoldable pub read_raw : List ℕ → Option HidppMessage
read_raw [] = none
read_raw (report_id ∷ rest) =
    if report_id == short_report_id && length rest == short_report_length - 1
    then some (short rest)
    else if report_id == long_report_id && length rest == long_report_length - 1
    then some (long rest)
    else none

-- `buf[..payload.len()].copy_from_slice(payload)`
abbrev pub copy_front : List ℕ → List ℕ → List ℕ
copy_front payload buf = payload ++ drop (length payload) buf

-- Writes the report into the buffer and returns its length. `none` is the panic of a slice that the
-- buffer is too short for.
pub write_raw : HidppMessage → List ℕ → Option (List ℕ × ℕ)
write_raw (short payload) buf =
    if ltb (length buf) short_report_length
    then none
    else some (copy_front (short_report_id ∷ payload) buf, short_report_length)
write_raw (long payload) buf =
    if ltb (length buf) long_report_length
    then none
    else some (copy_front (long_report_id ∷ payload) buf, long_report_length)

abbrev pub payload_of : HidppMessage → List ℕ
payload_of (short payload) = payload
payload_of (long payload) = payload

-- `(device_index, feature_index, function)`
pub header : HidppMessage → ℕ × ℕ × ℕ
header m = (get_or (payload_of m) 0 0, get_or (payload_of m) 1 0, get_or (payload_of m) 2 0)

unfoldable pub widened : HidppMessage → HidppMessage
widened (short payload) = long (copy_front payload (replicate 19 0))
widened (long payload) = long payload
