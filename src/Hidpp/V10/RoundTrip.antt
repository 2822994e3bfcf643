-- ===== src/Hidpp/V10/RoundTrip.antt =====
-- HID++1.0 messages and raw messages are the same thing in two forms.
use logi_battery.Base.{◌≡◌, refl, ◌∷◌, arith}
use logi_battery.Hidpp.Message.{HidppMessage, IsFrame}
use logi_battery.Hidpp.V10.{V10Message, short, long, IsMessage, from_hidpp, into_hidpp}

pub into_hidpp-from_hidpp :
    (m : HidppMessage) → IsFrame m → IsMessage (from_hidpp m) × (into_hidpp (from_hidpp m) ≡ m)
unfolding from_hidpp into_hidpp
into_hidpp-from_hidpp (HidppMessage.short (a ∷ b ∷ rest)) f =
    ((f.1.0, f.1.1.0, omega arith, f.1.1.1), refl)
into_hidpp-from_hidpp (HidppMessage.long (a ∷ b ∷ rest)) f =
    ((f.1.0, f.1.1.0, omega arith, f.1.1.1), refl)
into_hidpp-from_hidpp (HidppMessage.short _) f = absurd (omega arith)
into_hidpp-from_hidpp (HidppMessage.long _) f = absurd (omega arith)

-- A HID++1.0 message whose payload has its form's length and is bytes turns into a raw message of the
-- right length, and reads back from it as itself.
pub from_hidpp-into_hidpp :
    (m : V10Message) → IsMessage m → IsFrame (into_hidpp m) × (from_hidpp (into_hidpp m) ≡ m)
unfolding from_hidpp into_hidpp
from_hidpp-into_hidpp (short h payload) (d, s, len, bytes) = ((omega arith, (d, (s, bytes))), refl)
from_hidpp-into_hidpp (long h payload) (d, s, len, bytes) = ((omega arith, (d, (s, bytes))), refl)
