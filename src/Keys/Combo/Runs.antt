-- ===== src/Keys/Combo/Runs.antt =====
-- A shortcut as a user may type it.
use logi_battery.Base.{ℕ, ◌≡◌, refl, List}
use logi_battery.Keys.Text.{codes}
use logi_battery.Keys.Combo.{KeyCombo, ok, from_str, rendered_label}
use logi_battery.Keys.Combo.Canonical.{IsCombo, from_str-canonical}

abbrev typed : List ℕ
typed = codes "  meta + SHIFT+ page-up "

abbrev combo : KeyCombo
combo = record { modifiers = 3; key = 0x4b }

from_str-canonical_example : IsCombo combo × (from_str (rendered_label combo) ≡ ok combo)
unfolding from_str
from_str-canonical_example = from_str-canonical typed combo refl
