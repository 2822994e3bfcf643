-- ===== src/Config/Device/Runs.antt =====
-- A mouse whose resolution was another one under the slot of its receiver.
use logi_battery.Base.{ℕ, KeyEq, ◌==◌, ==_iff, ap, [], ◌∷◌, some, true}
use logi_battery.Config.Map.{Text}
use logi_battery.Config.Map.Laws.{get-nil}
use logi_battery.Config.Device.{DeviceConfig, default_device, fold, link_overrides, overrides_of}
use logi_battery.Config.Device.Kept.{IsFolded, fold-IsFolded}

instance setting-KeyEq : KeyEq ℕ
setting-KeyEq = record { same = ◌==◌; same_iff = ==_iff }

abbrev cabled : DeviceConfig ℕ
cabled = record (default_device 0) { dpi = some 800 }

abbrev wireless : DeviceConfig ℕ
wireless = record (default_device 0) { dpi = some 1600; invert_scroll = true }

abbrev slot : Text
slot = b'r' ∷ b'1' ∷ []

fold-IsFolded_example :
    IsFolded setting-KeyEq 0 (fold setting-KeyEq 0 cabled wireless slot) cabled wireless slot slot
unfolding link_overrides
fold-IsFolded_example =
    fold-IsFolded setting-KeyEq 0 cabled wireless slot slot (get-nil slot)
      (λ e. ap overrides_of (get-nil slot))
