-- ===== src/Session/Restore/Runs.antt =====
-- A session on a mouse whose channel 1 was replaced by channel 2.
use logi_battery.Base.{ℕ, KeyEq, ◌==◌, ==_iff, ◌≡◌, refl, [], ◌∷◌, some, true, false}
use logi_battery.Session.HostSwitch.Reporting.{CidReporting}
use logi_battery.Routing.Registry.{Registry}
use logi_battery.Session.Restore.{
  SharedChannel, PendingCaptureRestore, replacement_only, is_current, restore_after_stop,
  stop_for_current_publication,
}
use logi_battery.Session.Restore.Stops.{IsAttempt, Avoids, restore_after_stop-IsAttempt}

instance channel-KeyEq : KeyEq ℕ
channel-KeyEq = record { same = ◌==◌; same_iff = ==_iff }

abbrev published : ℕ → Registry ℕ ℕ ℕ
published channel = record {
  state = record {
    publications = record { node = 5; sequence = 0; routes = 7 ∷ []; channel = channel } ∷ [];
    next_sequence = 1;
  };
  poisoned = false;
  version = 1;
}

abbrev session : SharedChannel ℕ ℕ
session = record { channel = 1; route = 7 }

abbrev as_armed : CidReporting
as_armed = record {
  cid = 0xc3;
  diverted = false;
  persistently_diverted = false;
  force_raw_xy = false;
  raw_xy = false;
  remap = some 0xc4;
  analytics_key_events = false;
  raw_wheel = false;
}

abbrev token : PendingCaptureRestore ℕ ℕ
token = record {
  route = 7;
  retired_channel = 1;
  retired_policy = replacement_only;
  reprog =
      some
        (record { feature_index = 8; controls = record { cid = 0xc3; original = as_armed } ∷ [] });
  thumb_index = some 9;
}

restore_after_stop-IsAttempt_example :
    IsAttempt
      (published 2)
      (λ i. true)
      token
      (restore_after_stop
        (stop_for_current_publication (some (published 2)) session)
        (some token)
        session
        (some (published 2, published 2))
        true
        (λ i. true))
    × (is_current (published 2) session ≡ false
        → Avoids token.retired_channel
            (restore_after_stop
              (stop_for_current_publication (some (published 2)) session)
              (some token)
              session
              (some (published 2, published 2))
              true
              (λ i. true)).1)
restore_after_stop-IsAttempt_example =
    restore_after_stop-IsAttempt (published 2) (published 2) (published 2) session token (λ i. true)
      refl
