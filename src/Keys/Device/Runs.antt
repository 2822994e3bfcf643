-- ===== src/Keys/Device/Runs.antt =====
-- A mouse on a cable, known by its unit id.
use logi_battery.Base.{◌≡◌, [], ◌∷◌, arith}
use logi_battery.Keys.Device.{DeviceStableId, direct, unit, parse, runtime_key, physical_key}
use logi_battery.Keys.Device.Parse.{parse-runtime_key}

abbrev cabled : DeviceStableId
cabled = direct 0x046d 0xc08d (unit (0x6b ∷ 0xe9 ∷ 0xd3 ∷ 0x00 ∷ []))

parse-runtime_key_example : parse (runtime_key cabled) ≡ physical_key cabled
parse-runtime_key_example = parse-runtime_key cabled (omega arith)
