-- ===== src/Hidpp/Version/Detection.antt =====
-- What the answer to a ping tells.
use logi_battery.Base.{
  ℕ, ◌≡◌, ◌⊎◌, inl, inr, List, [], ◌∷◌, none, some, true, Bool-cases, arith, ◌==◌, if◌then◌else◌,
}
use logi_battery.Hidpp.Nibble.{U4, from_lo, combine, IsNibble, combine-from}
use logi_battery.Hidpp.Message.{HidppMessage, short, long, IsFrame, payload_of}
use logi_battery.Hidpp.V20
use logi_battery.Hidpp.V20.{header_eq}
use logi_battery.Hidpp.V10
use logi_battery.Hidpp.Version.{v10, v20, ping_header, accepts_ping, determine_version}

-- The bytes of an answer to the ping, and of a HID++1.0 error about it.
abbrev pub IsPong : ℕ → U4 → ℕ → ℕ → HidppMessage → Type 0
IsPong device_index sw_id protocol_num target_sw resp =
    (rest : List ℕ) × (payload_of resp
      ≡ device_index ∷ 0x00 ∷ combine (from_lo 0x1) sw_id ∷ protocol_num ∷ target_sw ∷ rest)

abbrev pub IsPingError : ℕ → U4 → ℕ → HidppMessage → Type 0
IsPingError device_index sw_id code resp =
    (last : ℕ) × (resp
      ≡ short (device_index ∷ 0x8f ∷ 0x00 ∷ combine (from_lo 0x1) sw_id ∷ code ∷ last ∷ []))

-- What each accepted response makes of the version.
abbrev pub Tells : ℕ → U4 → HidppMessage → Type 0
Tells device_index sw_id resp =
    ((protocol_num : ℕ) × (target_sw : ℕ) × IsPong device_index sw_id protocol_num target_sw resp
      × (determine_version device_index sw_id resp ≡ some (v20 protocol_num target_sw)))
    ⊎ ((code : ℕ) × IsPingError device_index sw_id code resp
        × (determine_version device_index sw_id resp ≡ (if code == 0x01 then some v10 else none)))

-- A response that the ping accepts is an answer, and the version is the two bytes that it carries; or a
-- HID++1.0 error about the ping, and the device speaks HID++1.0 exactly if the error is that of an
-- invalid sub id, and is taken as missing otherwise.
pub determine_version-Tells :
    (device_index : ℕ) (sw_id : U4) (resp : HidppMessage)
    → IsNibble sw_id
    → IsFrame resp
    → accepts_ping device_index sw_id resp ≡ true
    → Tells device_index sw_id resp
unfolding accepts_ping determine_version V20.from_hidpp V20.extend_payload V10.from_hidpp
determine_version-Tells device_index sw_id (short (a ∷ b ∷ c ∷ d ∷ e ∷ f ∷ [])) n w t =
    elim (Bool-cases (
      header_eq (V20.header (V20.from_hidpp (short (a ∷ b ∷ c ∷ d ∷ e ∷ f ∷ []))))
        (ping_header device_index sw_id))) [
          | inl h ↦ inl (d, e, (f ∷ [], ground (arith, combine-from c w.1.1.1.0)), ground arith)
          | inr h ↦ inr (e, (f, ground arith), ground arith)
        ]
determine_version-Tells device_index sw_id (long (a ∷ b ∷ c ∷ d ∷ e ∷ rest)) n w t =
    inl (d, e, (rest, ground (arith, combine-from c w.1.1.1.0)), ground arith)
determine_version-Tells device_index sw_id (short _) n w t = absurd (omega arith)
determine_version-Tells device_index sw_id (long _) n w t = absurd (omega arith)
