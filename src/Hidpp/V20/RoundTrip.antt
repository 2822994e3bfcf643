-- ===== src/Hidpp/V20/RoundTrip.antt =====
-- HID++2.0 messages and raw messages are the same thing in two forms.
use logi_battery.Base.{ℕ, ◌≡◌, refl, ap, List, [], ◌∷◌, All, arith, IsByte}
use logi_battery.Hidpp.Nibble.{
  combine, combine-from, from_hi-combine, from_lo-combine, combine-IsByte, from_lo-IsNibble,
  from_hi-IsNibble,
}
use logi_battery.Hidpp.Message.{HidppMessage, IsFrame, widened}
use logi_battery.Hidpp.V20.{
  MessageHeader, V20Message, short, long, IsHeader, IsMessage, header, extend_payload, read_header,
  from_hidpp, into_hidpp,
}

-- A payload of three bytes and more is its header's bytes and the rest.
read_header-IsHeader :
    (a b c : ℕ) (rest : List ℕ)
    → All IsByte (a ∷ b ∷ c ∷ rest)
    → IsHeader (read_header (a ∷ b ∷ c ∷ rest))
unfolding read_header
read_header-IsHeader a b c rest h = record {
  device_byte = h.0;
  feature_byte = h.1.0;
  function_nibble = from_hi-IsNibble c h.1.1.0;
  software_nibble = from_lo-IsNibble c h.1.1.0;
}

-- A raw message whose payload has its report's length and is bytes reads as a well-formed HID++2.0
-- message, and that message gives the raw message back.
pub into_hidpp-from_hidpp :
    (m : HidppMessage) → IsFrame m → IsMessage (from_hidpp m) × (into_hidpp (from_hidpp m) ≡ m)
unfolding from_hidpp into_hidpp
into_hidpp-from_hidpp (HidppMessage.short (a ∷ b ∷ c ∷ rest)) f = (
  (read_header-IsHeader a b c rest f.1, omega arith, f.1.1.1.1),
  ap HidppMessage.short (ap (λ x. a ∷ b ∷ x ∷ rest) (combine-from c f.1.1.1.0)),
)
into_hidpp-from_hidpp (HidppMessage.long (a ∷ b ∷ c ∷ rest)) f = (
  (read_header-IsHeader a b c rest f.1, omega arith, f.1.1.1.1),
  ap HidppMessage.long (ap (λ x. a ∷ b ∷ x ∷ rest) (combine-from c f.1.1.1.0)),
)
into_hidpp-from_hidpp (HidppMessage.short _) f = absurd (omega arith)
into_hidpp-from_hidpp (HidppMessage.long _) f = absurd (omega arith)

read_header-combine :
    (h : MessageHeader) (rest : List ℕ)
    → IsHeader h
    → read_header (h.device_index ∷ h.feature_index ∷ combine h.function_id h.software_id ∷ rest)
      ≡ h
unfolding read_header
read_header-combine h rest w = λ i. record {
  device_index = h.device_index;
  feature_index = h.feature_index;
  function_id = from_hi-combine h.function_id h.software_id w.function_nibble w.software_nibble i;
  software_id = from_lo-combine h.function_id h.software_id w.function_nibble w.software_nibble i;
}

pub from_hidpp-into_hidpp :
    (m : V20Message) → IsMessage m → IsFrame (into_hidpp m) × (from_hidpp (into_hidpp m) ≡ m)
unfolding from_hidpp into_hidpp
from_hidpp-into_hidpp (short h payload) (w, len, bytes) = (
  (
    omega arith,
    (
      w.device_byte,
      (w.feature_byte, (combine-IsByte _ _ w.function_nibble w.software_nibble, bytes)),
    ),
  ),
  ap (λ x. short x payload) (read_header-combine h payload w),
)
from_hidpp-into_hidpp (long h payload) (w, len, bytes) = (
  (
    omega arith,
    (
      w.device_byte,
      (w.feature_byte, (combine-IsByte _ _ w.function_nibble w.software_nibble, bytes)),
    ),
  ),
  ap (λ x. long x payload) (read_header-combine h payload w),
)

-- Re-framing a short message as a long one changes neither its header nor the payload that a reader
-- sees.
pub from_hidpp-widened :
    (m : HidppMessage)
    → IsFrame m
    → (header (from_hidpp (widened m)) ≡ header (from_hidpp m))
      × (extend_payload (from_hidpp (widened m)) ≡ extend_payload (from_hidpp m))
      × IsFrame (widened m)
unfolding from_hidpp widened extend_payload
from_hidpp-widened (HidppMessage.short (a ∷ b ∷ c ∷ d ∷ e ∷ f ∷ [])) w =
    (refl, refl, (refl, ground arith))
from_hidpp-widened (HidppMessage.long payload) w = (refl, refl, w)
from_hidpp-widened (HidppMessage.short _) w = absurd (omega arith)
