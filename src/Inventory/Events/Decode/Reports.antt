-- ===== src/Inventory/Events/Decode/Reports.antt =====
-- What a channel's listener asks for, report by report.
use logi_battery.Base.{
  ℕ, ◌≡◌, ◌≢◌, ◌<◌, ◌^◌, ◌⊎◌, ◌↔◌, inl, inr, refl, sym, subst, Option, none, some, Bool, true,
  false, Bool-cases, arith, get_or, ==_iff,
}
use logi_battery.Hidpp.Message.{HidppMessage, payload_of}
use logi_battery.Hidpp.V20.{V20Message, header, from_hidpp}
use logi_battery.Hidpp.Receiver.Connection.{decode_notification_iff}
use logi_battery.Inventory.Events.{EventFeatureIndices, find_device}
use logi_battery.Inventory.Events.Decode.{
  HidppEventSource, receiver_connection, ReceiverProtocol, bolt, unifying, SubscriptionState,
  recognized_by, is_receiver_connection, decode, begin_receiver_snapshot, drop_guard,
}
use logi_battery.Inventory.Events.Decode.Sources.{IsSource, recognizes-IsSource}

-- The channel is that of a receiver, and the report is a device connection.
abbrev pub IsConnection : Option ReceiverProtocol → HidppMessage → Type 0
IsConnection none raw = ⊥
IsConnection (some p) raw = get_or (payload_of raw) 1 0 ≡ 0x41

-- Of a device that is not registered, nothing.
abbrev pub IsSourceOf : Option EventFeatureIndices → V20Message → Option HidppEventSource → Type 0
IsSourceOf none m r = r ≡ none
IsSourceOf (some f) m r = IsSource f m r

-- A connection counts but while a snapshot runs.
abbrev pub IsCounted : ℕ → Option HidppEventSource → Type 0
IsCounted depth r = ((depth ≡ 0) × (r ≡ some receiver_connection)) ⊎ ((depth ≢ 0) × (r ≡ none))

abbrev pub Asks : SubscriptionState → HidppMessage → Bool → Option HidppEventSource → Type 0
Asks s raw true r = r ≡ none
Asks s raw false r =
    (IsConnection s.protocol raw × IsCounted s.receiver_snapshot_depth r)
    ⊎ (¬ IsConnection s.protocol raw
        × IsSourceOf (find_device (header (from_hidpp raw)).device_index s.devices) (from_hidpp raw)
            r)

is_receiver_connection_iff :
    (p : Option ReceiverProtocol) (raw : HidppMessage)
    → (is_receiver_connection p raw ≡ true) ↔ IsConnection p raw
unfolding is_receiver_connection
is_receiver_connection_iff none raw = ground arith
is_receiver_connection_iff (some bolt) raw = decode_notification_iff raw
is_receiver_connection_iff (some unifying) raw = decode_notification_iff raw

recognized_by-IsSourceOf :
    (o : Option EventFeatureIndices) (m : V20Message) → IsSourceOf o m (recognized_by o m)
recognized_by-IsSourceOf none m = refl
recognized_by-IsSourceOf (some f) m = recognizes-IsSource f m

-- A connection of a receiver's channel.
connection-Asks :
    (s : SubscriptionState) (raw : HidppMessage)
    → is_receiver_connection s.protocol raw ≡ true
    → IsCounted s.receiver_snapshot_depth (decode s raw false)
unfolding decode
connection-Asks s raw c = ground (arith, ==_iff s.receiver_snapshot_depth 0)

other-Asks :
    (s : SubscriptionState) (raw : HidppMessage)
    → is_receiver_connection s.protocol raw ≡ false
    → decode s raw false
      ≡ recognized_by
          (find_device (header (from_hidpp raw)).device_index s.devices)
          (from_hidpp raw)
unfolding decode
other-Asks s raw c = ground arith

-- The listener of a channel asks for nothing on a report that answered a request. On another report: a
-- device connection on a receiver's channel asks for a reconciliation unless a snapshot is running;
-- any other report asks for one exactly if its device is registered and the report is event 0, with
-- software id 0, of the device's wireless status, or else of its unified battery with a payload that
-- reads as a battery status.
pub decode-Asks :
    (s : SubscriptionState) (raw : HidppMessage) (matched : Bool)
    → Asks s raw matched (decode s raw matched)
unfolding decode
decode-Asks s raw true = refl
decode-Asks s raw false =
    let is_conn = is_receiver_connection_iff s.protocol raw in
    elim (Bool-cases (is_receiver_connection s.protocol raw)) [
      | inl c ↦ inl (is_conn.0 c, connection-Asks s raw c)
      | inr c ↦ inr (
        (λ h. let t = is_conn.1 h in ground arith),
        subst
            (IsSourceOf (find_device (header (from_hidpp raw)).device_index s.devices)
              (from_hidpp raw))
            (sym (other-Asks s raw c)) (recognized_by-IsSourceOf _ _),
      )
    ]

-- The end of a snapshot gives back the depth from before it, also around other snapshots.
drop_guard-begin_receiver_snapshot :
    (s : SubscriptionState)
    → s.receiver_snapshot_depth < 2 ^ 64
    → (drop_guard (begin_receiver_snapshot s)).receiver_snapshot_depth ≡ s.receiver_snapshot_depth
unfolding drop_guard begin_receiver_snapshot
drop_guard-begin_receiver_snapshot s b = omega arith
