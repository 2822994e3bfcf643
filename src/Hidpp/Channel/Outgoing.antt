-- ===== src/Hidpp/Channel/Outgoing.antt =====
-- What goes out on the wire.
use logi_battery.Base.{
  ℕ, ◌≡◌, inl, inr, refl, ◌∙◌, List, some, Bool, Bool-cases, not, ◌&&◌, ◌||◌, take, replicate,
  arith, if◌then◌else◌,
}
use logi_battery.Hidpp.Message.{HidppMessage, short, long, IsFrame, read_raw, widened}
use logi_battery.Hidpp.Message.RoundTrip.{write_raw-Written}
use logi_battery.Hidpp.V20
use logi_battery.Hidpp.V20.RoundTrip.{from_hidpp-widened}
use logi_battery.Hidpp.Channel.{
  Channel, ok, err, message_type_not_supported, supports_msg, normalize_outgoing, send_and_forget,
}

-- Whether the channel has a report that can carry the message: any of the two for a short message.
abbrev pub can_carry : Channel → HidppMessage → Bool
can_carry ch (short payload) = ch.supports_short || ch.supports_long
can_carry ch (long payload) = ch.supports_long

supports-normalize_outgoing :
    (ch : Channel) (msg : HidppMessage)
    → supports_msg ch (normalize_outgoing ch msg) ≡ can_carry ch msg
unfolding supports_msg normalize_outgoing widened
supports-normalize_outgoing ch (short payload) = ground arith
supports-normalize_outgoing ch (long payload) = refl

-- The report's bytes read back as a message with the header and the payload of the one to be sent.
abbrev pub IsSameOnWire : HidppMessage → List ℕ → Type 0
IsSameOnWire msg bytes =
    (m : HidppMessage) × (read_raw bytes ≡ some m)
    × IsFrame m
    × (V20.header (V20.from_hidpp m) ≡ V20.header (V20.from_hidpp msg))
    × (V20.extend_payload (V20.from_hidpp m) ≡ V20.extend_payload (V20.from_hidpp msg))

normalize_outgoing-same :
    (ch : Channel) (msg : HidppMessage)
    → IsFrame msg
    → IsFrame (normalize_outgoing ch msg)
      × (V20.header (V20.from_hidpp (normalize_outgoing ch msg)) ≡ V20.header (V20.from_hidpp msg))
      × (V20.extend_payload (V20.from_hidpp (normalize_outgoing ch msg))
          ≡ V20.extend_payload (V20.from_hidpp msg))
unfolding normalize_outgoing
normalize_outgoing-same ch (long payload) w = (w, refl, refl)
normalize_outgoing-same ch (short payload) w =
    let same = from_hidpp-widened (short payload) w in
    elim (Bool-cases (not ch.supports_short && ch.supports_long)) [
      | inl t ↦ rw t (same.2, same.0, same.1)
      | inr f ↦ rw f (w, refl, refl)
    ]

-- `send_and_forget` writes a report exactly if the channel has one that can carry the message; the
-- report then says the same as the message, also where a short message goes out as a long one.
pub send_and_forget-IsSameOnWire :
    (msg : HidppMessage) (ch : Channel)
    → IsFrame msg
    → (if can_carry ch msg
        then ((bytes : List ℕ) × (send_and_forget msg ch ≡ ok bytes) × IsSameOnWire msg bytes)
        else (send_and_forget msg ch ≡ err message_type_not_supported))
unfolding send_and_forget
send_and_forget-IsSameOnWire msg ch w =
    let (frame, head, payload) = normalize_outgoing-same ch msg w in
    let (out, len, written) =
      write_raw-Written (normalize_outgoing ch msg) (replicate 20 0) frame (omega arith) in
    let carries = supports-normalize_outgoing ch msg in
    elim (Bool-cases (can_carry ch msg)) [
      | inl t ↦
          rw (t, carries ∙ t, written.result)
            (
              take len out,
              refl,
              (normalize_outgoing ch msg, written.read_back, frame, head, payload),
            )
      | inr f ↦ rw (f, carries ∙ f) refl
    ]
