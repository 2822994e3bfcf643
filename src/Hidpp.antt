-- ===== src/Hidpp.antt =====
-- crates/openlogi-hidpp: the HID++ protocol, from the nibbles of a header byte up to the channel
-- that matches responses to requests.
pub mod Nibble
pub mod Message
pub mod V20
pub mod V10
pub mod Channel
pub mod Exchange
pub mod Access
pub mod Version
pub mod Device
pub mod Receiver
