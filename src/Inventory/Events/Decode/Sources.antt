-- ===== src/Inventory/Events/Decode/Sources.antt =====
-- Which reports ask for a reconciliation, and with which source.
use logi_battery.Base.{
  ℕ, ◌≡◌, ◌≢◌, ◌↔◌, inl, inr, ap, Option, none, some, true, Bool-cases, arith, ◌==◌, Option-cases,
}
use logi_battery.Hidpp.Nibble.{to_lo, to_lo-raw}
use logi_battery.Hidpp.V20.{V20Message, header, extend_payload}
use logi_battery.Battery.Unified.{decode_event}
use logi_battery.Battery.Unified.Codes.{decode_event-none}
use logi_battery.Inventory.Events.{EventFeatureIndices}
use logi_battery.Inventory.Events.Decode.{
  HidppEventSource, receiver_connection, wireless_device_status, unified_battery, recognizes,
  decode_wireless, is_at,
}

-- A report that the device sent of its own accord, by function 0 of the feature at `place`.
abbrev pub IsEventAt : V20Message → Option ℕ → Type 0
IsEventAt m place =
    ((header m).software_id.raw ≡ 0)
    × ((header m).function_id.raw ≡ 0)
    × (place ≡ some (header m).feature_index)

abbrev pub IsReading : V20Message → Type 0
IsReading m = decode_event 0 (extend_payload m) ≢ none

-- What a device's report asks for, by the features of the device.
abbrev pub IsSource : EventFeatureIndices → V20Message → Option HidppEventSource → Type 0
IsSource f m (some receiver_connection) = ⊥
IsSource f m (some wireless_device_status) = IsEventAt m f.wireless_status
IsSource f m (some unified_battery) =
    ¬ IsEventAt m f.wireless_status × IsEventAt m f.unified_battery × IsReading m
IsSource f m none =
    ¬ IsEventAt m f.wireless_status × ¬ (IsEventAt m f.unified_battery × IsReading m)

is_at_iff : (o : Option ℕ) (n : ℕ) → (is_at o n ≡ true) ↔ (o ≡ some n)
is_at_iff none n = ground arith
is_at_iff (some k) n = ground arith

-- A report of function 0 that is of the device's own accord.
event_0-IsSource :
    (f : EventFeatureIndices) (m : V20Message)
    → (header m).software_id.raw ≡ 0
    → (header m).function_id.raw ≡ 0
    → IsSource f m (recognizes f m)
unfolding recognizes decode_wireless
event_0-IsSource f m s z =
    let none_own = to_lo-raw (header m).software_id in
    let zeroth = to_lo-raw (header m).function_id in
    let at_w = is_at_iff f.wireless_status (header m).feature_index in
    let at_b = is_at_iff f.unified_battery (header m).feature_index in
    let fn : to_lo (header m).function_id ≡ 0 = omega (arith, zeroth) in
    let same : decode_event (to_lo (header m).function_id) (extend_payload m)
        ≡ decode_event 0 (extend_payload m) =
      ap (λ k. decode_event k (extend_payload m)) fn in
    elim (Bool-cases (is_at f.wireless_status (header m).feature_index)) [
      | inl w ↦ ground (arith, none_own, zeroth, at_w)
      | inr w ↦ elim (Bool-cases (is_at f.unified_battery (header m).feature_index)) [
        | inl b ↦ elim (Option-cases (decode_event 0 (extend_payload m))) [
          | inl n ↦ ground (arith, none_own, zeroth, at_w, at_b)
          | inr (r, e) ↦ ground (arith, none_own, zeroth, at_w, at_b)
        ]
        | inr b ↦ ground (arith, none_own, zeroth, at_w, at_b)
      ]
    ]

-- What `recognizes` makes of a message is what the message is a source of.
pub recognizes-IsSource : (f : EventFeatureIndices) (m : V20Message) → IsSource f m (recognizes f m)
unfolding recognizes decode_wireless
recognizes-IsSource f m = elim (Bool-cases (to_lo (header m).software_id == 0)) [
  | inl z ↦ elim (Bool-cases (to_lo (header m).function_id == 0)) [
    | inl y ↦
        event_0-IsSource f m (ground (arith, to_lo-raw (header m).software_id))
          (ground (arith, to_lo-raw (header m).function_id))
    | inr y ↦ ground (
      arith,
      to_lo-raw (header m).function_id,
      decode_event-none (to_lo (header m).function_id) (extend_payload m) (ground arith),
    )
  ]
  | inr n ↦ ground (arith, to_lo-raw (header m).software_id)
]
