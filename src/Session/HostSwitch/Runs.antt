-- ===== src/Session/HostSwitch/Runs.antt =====
-- A keyboard with one host key, and a mouse that follows it.
use logi_battery.Base.{ℕ, [], ◌∷◌, none, some, true, false, ◌&&◌}
use logi_battery.Keys.Device.{bolt}
use logi_battery.Session.HostSwitch.{replied}
use logi_battery.Session.HostSwitch.Reporting.{CidReporting, diverted_buttons}
use logi_battery.Session.HostSwitch.Controls.{Keyboard}
use logi_battery.Session.HostSwitch.Watch.{event, run_host_switch_session}
use logi_battery.Session.HostSwitch.Watch.Releases.{IsReleased, run_host_switch_session-IsReleased}
use logi_battery.Session.HostSwitch.Moves.{Linked, paired, switch_linked_hosts}
use logi_battery.Session.HostSwitch.Moves.Order.{
  IsSwitch, has_some, accepts, moves, is_replied, switch_linked_hosts-IsSwitch,
}

abbrev as_read : CidReporting
as_read = record {
  cid = 0xd2;
  diverted = false;
  persistently_diverted = false;
  force_raw_xy = false;
  raw_xy = false;
  remap = none;
  analytics_key_events = false;
  raw_wheel = false;
}

abbrev keys : Keyboard
keys = record {
  opened = replied (some tt);
  device = replied tt;
  feature = replied (some 8);
  count = replied 1;
  info = λ i. replied (record { cid = 0xd2; task_id = 0xaf; flags = 32 });
  reporting = λ i. replied as_read;
  written = λ i. replied tt;
}

run_host_switch_session-IsReleased_example :
    IsReleased keys
      (run_host_switch_session keys true true (event (diverted_buttons (0xd2 ∷ [])) ∷ []))
run_host_switch_session-IsReleased_example =
    run_host_switch_session-IsReleased keys true (event (diverted_buttons (0xd2 ∷ [])) ∷ [])
      (tt, tt)

abbrev at_slot : ℕ → Linked
at_slot slot = record {
  route = bolt (b'a' ∷ b'b' ∷ []) slot;
  channel = replied (some tt);
  device = replied tt;
  change_host = replied (some 9);
  host_info = replied (0, 3);
  hosts_info = replied (some 10);
  slot = replied paired;
  written = replied tt;
}

switch_linked_hosts-IsSwitch_example :
    IsSwitch
      (at_slot 1).route
      1
      (at_slot 2 ∷ [])
      (has_some (at_slot 1).channel && accepts (at_slot 1) 1)
      (moves (at_slot 1) 1)
      (is_replied (at_slot 1).written)
      (switch_linked_hosts (at_slot 1) (at_slot 2 ∷ []) 1)
switch_linked_hosts-IsSwitch_example = switch_linked_hosts-IsSwitch (at_slot 1) (at_slot 2 ∷ []) 1
