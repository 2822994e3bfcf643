-- ===== src/Session/HostSwitch/Moves.antt =====
-- `switch_linked_hosts` of crates/openlogi-device/src/session/host_switch.rs: the devices that follow a
-- keyboard to another host, and then the keyboard. A device is what it answers; what is written to it
-- is collected in its order.
pub mod Order
use logi_battery.Base.{
  ℕ, List, [], ◌∷◌, ◌++◌, Option, none, some, Bool, true, false, not, ◌&&◌, ◌==◌, leb,
  if◌then◌else◌,
}
use logi_battery.Keys.Text.{codes, same_text, to_ascii_lowercase, decimal_u8}
use logi_battery.Keys.Device.{DeviceRoute, bolt, unifying, direct, raw_hid}
use logi_battery.Session.HostSwitch.{
  Answer, replied, failed, timed_out, HostSwitchError, hidpp, target_not_found, keyboard_not_found,
  host_slot_empty, Result, ok, err, timed_hidpp, open_channel,
}

pub data HostSlotStatus : Type 0 where
  empty paired : HostSlotStatus

-- A device at a route, by what its channel and its requests are answered. Of the host info, the current
-- host and the number of hosts.
pub record Linked : Type 0 where
  pub route : DeviceRoute
  pub channel : Answer (Option Unit)
  pub device : Answer Unit
  pub change_host : Answer (Option ℕ)
  pub host_info : Answer (ℕ × ℕ)
  pub hosts_info : Answer (Option ℕ)
  pub slot : Answer HostSlotStatus
  pub written : Answer Unit

-- The host that is written to a route.
abbrev pub Move : Type 0
Move = DeviceRoute × ℕ

-- `DeviceRoute::shares_transport`, with `eq_ignore_ascii_case`.
pub shares_transport : DeviceRoute → DeviceRoute → Bool
shares_transport (bolt left i) (bolt right j) =
    same_text (to_ascii_lowercase left) (to_ascii_lowercase right)
shares_transport (unifying left i) (unifying right j) =
    same_text (to_ascii_lowercase left) (to_ascii_lowercase right)
shares_transport (bolt left i) (unifying right j) = false
shares_transport (bolt left i) (direct v p) = false
shares_transport (bolt left i) (raw_hid v p u w id) = false
shares_transport (unifying left i) (bolt right j) = false
shares_transport (unifying left i) (direct v p) = false
shares_transport (unifying left i) (raw_hid v p u w id) = false
shares_transport (direct v p) other = false
shares_transport (raw_hid v p u w id) other = false

pub host_change_required : ℕ → ℕ → ℕ → Result Bool
host_change_required current_host host_count requested_host =
    if leb host_count requested_host
    then err (
        hidpp (
          codes "host "
          ++ (decimal_u8 requested_host
              ++ (codes " is outside device host count " ++ decimal_u8 host_count))))
    else ok (not (current_host == requested_host))

abbrev is_empty : Answer HostSlotStatus → Bool
is_empty (replied empty) = true
is_empty (replied paired) = false
is_empty failed = false
is_empty timed_out = false

-- Only a slot that is said to be empty is.
pub host_slot_is_empty : Answer (Option ℕ) → Answer HostSlotStatus → Bool
host_slot_is_empty (replied (some index)) slot = is_empty slot
host_slot_is_empty (replied none) slot = false
host_slot_is_empty failed slot = false
host_slot_is_empty timed_out slot = false

pub record PreparedHostChange : Type 0 where
  pub route : DeviceRoute
  pub host : ℕ
  pub required : Bool
  pub written : Answer Unit

abbrev pub prepared : Linked → ℕ → Result Bool → Result PreparedHostChange
prepared d host (err e) = err e
prepared d host (ok required) =
    if required && host_slot_is_empty d.hosts_info d.slot
    then err (host_slot_empty host)
    else ok (record { route = d.route; host = host; required = required; written = d.written })

abbrev pub prepare_info : Linked → ℕ → Result (ℕ × ℕ) → Result PreparedHostChange
prepare_info d host (err e) = err e
prepare_info d host (ok (current, count)) =
    prepared d host (host_change_required current count host)

abbrev pub prepare_feature : Linked → ℕ → Result (Option ℕ) → Result PreparedHostChange
prepare_feature d host (err e) = err e
prepare_feature d host (ok none) = err (hidpp (codes "ChangeHost is unsupported"))
prepare_feature d host (ok (some index)) =
    prepare_info d host (timed_hidpp (codes "reading current host") d.host_info)

abbrev pub prepare_device : Linked → ℕ → Result Unit → Result PreparedHostChange
prepare_device d host (err e) = err e
prepare_device d host (ok tt) =
    prepare_feature d host (timed_hidpp (codes "locating host-change feature") d.change_host)

pub prepare_host_change_on : Linked → ℕ → Result PreparedHostChange
unfolding host_change_required host_slot_is_empty
prepare_host_change_on d host =
    prepare_device d host (timed_hidpp (codes "opening host-change device") d.device)

abbrev pub prepare_opened : Linked → ℕ → Result (Option Unit) → Result PreparedHostChange
prepare_opened d host (err e) = err e
prepare_opened d host (ok none) = err target_not_found
prepare_opened d host (ok (some tt)) = prepare_host_change_on d host

-- A device on the receiver of the keyboard uses the channel of the keyboard.
pub prepare_host_change : Linked → ℕ → DeviceRoute → Result PreparedHostChange
unfolding prepare_host_change_on
prepare_host_change d host keyboard =
    if shares_transport d.route keyboard
    then prepare_host_change_on d host
    else prepare_opened d host (open_channel (codes "opening linked device channel") d.channel)

abbrev pub after_write : Result Unit → Result Bool
after_write (ok tt) = ok true
after_write (err e) = err e

pub apply_host_change : PreparedHostChange → Result Bool × List Move
apply_host_change change =
    if change.required
    then (
      after_write (timed_hidpp (codes "writing current host") change.written),
      (change.route, change.host) ∷ [],
    )
    else (ok false, [])

-- What is written to a target; its errors are only logged.
abbrev pub followed : Result PreparedHostChange → List Move
followed (ok change) = (apply_host_change change).1
followed (err e) = []

pub move_targets : DeviceRoute → ℕ → List Linked → List Move
unfolding apply_host_change prepare_host_change
move_targets keyboard host [] = []
move_targets keyboard host (d ∷ targets) =
    followed (prepare_host_change d host keyboard) ++ move_targets keyboard host targets

abbrev pub keyboard_last :
    ℕ → List Linked → DeviceRoute → Result PreparedHostChange → Result Bool × List Move
keyboard_last host targets keyboard (err e) = (err e, [])
keyboard_last host targets keyboard (ok change) = (
  (apply_host_change change).0,
  move_targets keyboard host targets ++ (apply_host_change change).1,
)

abbrev pub with_keyboard : Linked → List Linked → ℕ → Result (Option Unit) → Result Bool × List Move
with_keyboard keyboard targets host (err e) = (err e, [])
with_keyboard keyboard targets host (ok none) = (err keyboard_not_found, [])
with_keyboard keyboard targets host (ok (some tt)) =
    keyboard_last host targets keyboard.route (prepare_host_change_on keyboard host)

pub switch_linked_hosts : Linked → List Linked → ℕ → Result Bool × List Move
unfolding move_targets prepare_host_change_on
switch_linked_hosts keyboard targets host =
    with_keyboard keyboard targets host
      (open_channel (codes "opening keyboard channel") keyboard.channel)
