-- ===== src/Settings/Light/Runs.antt =====
-- The brightness and temperature ranges of a light.
use logi_battery.Base.{◌≤◌, ◌≡◌, refl, true, arith}
use logi_battery.Settings.Light.{LightValueRange, lumens, kelvin, contains, quantize, new}
use logi_battery.Settings.Light.Nearest.{distance, quantize-nearest}

abbrev brightness : LightValueRange
brightness = record { lower = 20; upper = 250; step = 1; unit = lumens }

abbrev temperature : LightValueRange
temperature = record { lower = 2700; upper = 6500; step = 100; unit = kelvin }

quantize-nearest_example :
    (contains temperature (quantize temperature 4049) ≡ true)
    × (distance (quantize temperature 4049) 4049 ≤ distance 4100 4049)
unfolding new contains
quantize-nearest_example =
    quantize-nearest 2700 6500 100 4049 4100 kelvin (omega arith) (omega arith) refl refl
