-- ===== src/Settings/Dpi/Runs.antt =====
-- The resolutions of a mouse that reports them out of order and one of them twice.
use logi_battery.Base.{ℕ, ◌≤◌, ◌≡◌, refl, some, true, List, [], ◌∷◌, All}
use logi_battery.Settings.Dpi.{
  DpiCapabilities, new, nearest, abs_diff, sort, insert, dedup, dedup_after, capabilities_of,
}
use logi_battery.Settings.Dpi.Nearest.{is_in, nearest-least}

abbrev reported : List ℕ
reported = 1600 ∷ 400 ∷ 800 ∷ 400 ∷ []

abbrev supported : DpiCapabilities
supported = record { values = 400 ∷ 800 ∷ 1600 ∷ [] }

nearest-least_example :
    (n : ℕ) × (nearest supported 1100 ≡ some n)
    × (is_in n reported ≡ true)
    × All (λ v. abs_diff n 1100 ≤ abs_diff v 1100) reported
unfolding new sort insert dedup dedup_after capabilities_of
nearest-least_example = nearest-least reported 1100 supported refl
