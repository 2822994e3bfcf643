-- ===== src/Ffi/Names.antt =====
-- The texts that C reads: the name of a device and the last error.
use logi_battery.Base.{
  ℕ, zero, suc, ◌+◌, ◌≤◌, ◌≡◌, refl, ap, ◌∙◌, min, Option, none, some, List, [], ◌∷◌, ◌++◌, All,
  length, get_elem?, take, drop, ◌==◌, if◌then◌else◌, arith, length-append, length-drop,
}
use logi_battery.Base.Int.{ℤ, pos, negsuc}
use logi_battery.Inventory.Model.{Text, ReceiverInfo, PairedDevice}
use logi_battery.Ffi.{
  LbDeviceInfo, index_out_of_range, no_battery_data, null_out, invalid_argument, LbDeviceList, flat,
  device_infos, LbBatteryInfo, Process, Enumerated, ok, err, name_bytes, zero_name, display_name,
  device_info, into_raw, read_device, set_last_error, lb_last_error, lb_enumerate_devices,
  lb_read_battery,
}

-- The bytes before the first NUL; nothing if there is none.
pub c_string : List ℕ → Option Text
c_string [] = none
c_string (b ∷ bs) =
    let rest = c_string bs in
    if b == 0 then some [] else elim rest [ none ↦ none | some t ↦ some (b ∷ t) ]

abbrev pub IsText : Text → Type 0
IsText t = All (λ b. 1 ≤ b) t

c_string-append : (t rest : List ℕ) → IsText t → c_string (t ++ 0 ∷ rest) ≡ some t
unfolding c_string
c_string-append [] rest h = refl
c_string-append (b ∷ bs) rest h = ground (arith, c_string-append bs rest h.1)

take-IsText : (n : ℕ) (t : Text) → IsText t → IsText (take n t)
take-IsText zero t h = tt
take-IsText (suc n) [] h = tt
take-IsText (suc n) (b ∷ bs) h = (h.0, take-IsText n bs h.1)

length-take : (n : ℕ) (t : Text) → length (take n t) ≡ min n (length t)
length-take zero t = ground arith
length-take (suc n) [] = ground arith
length-take (suc n) (b ∷ bs) = ground (arith, length-take n bs)

take-min : (n m : ℕ) (t : Text) → m ≡ min (length t) n → take m t ≡ take n t
take-min zero zero t e = refl
take-min zero (suc m) t e = absurd (omega arith)
take-min (suc n) zero [] e = refl
take-min (suc n) zero (b ∷ bs) e = absurd (omega arith)
take-min (suc n) (suc m) [] e = absurd (omega arith)
take-min (suc n) (suc m) (b ∷ bs) e = ap (◌∷◌ b) (take-min n m bs (omega arith))

length-name_bytes : (name : Text) → length (name_bytes name zero_name) ≡ 256
unfolding name_bytes
length-name_bytes name = omega (
  arith,
  length-append (take (min (length name) 255) name)
      (0 ∷ drop (min (length name) 255 + 1) zero_name),
  length-take (min (length name) 255) name,
  length-drop (min (length name) 255 + 1) zero_name,
)

named : (name : Text) → IsText name → c_string (name_bytes name zero_name) ≡ some (take 255 name)
unfolding name_bytes
named name h =
    c_string-append (take (min (length name) 255) name) _
      (take-IsText (min (length name) 255) name h)
    ∙ ap some (take-min 255 (min (length name) 255) name refl)

-- What C reads of a device's name: its first 255 bytes.
abbrev pub IsNamed : Text → LbDeviceInfo → Type 0
IsNamed name info = (length info.name ≡ 256) × (c_string info.name ≡ some (take 255 name))

-- The name of a listed device is 256 bytes, and C reads in it, up to its NUL, the first 255 bytes of
-- the device's codename, or of the receiver's name with the slot if it has none. The condition is that
-- this text has no NUL of its own.
pub device_info-IsNamed :
    (receiver : ReceiverInfo) (d : PairedDevice)
    → IsText (display_name receiver d)
    → IsNamed (display_name receiver d) (device_info receiver d)
unfolding device_info name_bytes
device_info-IsNamed receiver d h =
    (length-name_bytes (display_name receiver d), named (display_name receiver d) h)

-- What a call that takes the last error from `before` to `after` leaves to read of it: nothing new if it
-- returned 0, and else the text of its code, -1 for the first of the texts, with its NUL.
abbrev pub IsExplained : List Text → ℤ → Process → Process → Type 0
IsExplained texts (pos n) before after = (n ≡ 0) × (lb_last_error after ≡ lb_last_error before)
IsExplained texts (negsuc n) before after =
    (msg : Text) × (get_elem? texts n ≡ some msg) × (lb_last_error after ≡ msg ++ 0 ∷ [])

-- The text of what `enumerate` returned instead of inventories.
abbrev pub enumerate_error : Enumerated → Text
enumerate_error (ok invs) = []
enumerate_error (err e) = e

abbrev pub read_texts : Enumerated → List Text
read_texts result =
    invalid_argument ∷ enumerate_error result ∷ no_battery_data ∷ index_out_of_range ∷ []

read_device-IsExplained :
    (result : Enumerated) (o : Option PairedDevice) (out : LbBatteryInfo) (p : Process)
    → let r = read_device o out p in IsExplained (read_texts result) r.0 p r.1
unfolding read_device set_last_error lb_last_error
read_device-IsExplained result none out p = (index_out_of_range, refl, refl)
read_device-IsExplained result (some d) out p =
    elim d.battery
      as (λ b.
        let r = read_device (some (record d { battery = b })) out p in
        IsExplained (read_texts result) r.0 p r.1) [
          | none ↦ (no_battery_data, refl, refl)
          | some b ↦ (refl, refl)
        ]

into_raw-error :
    (items : List LbDeviceInfo) (p : Process) → (into_raw items p).0.last_error ≡ p.last_error
unfolding into_raw
into_raw-error [] p = refl
into_raw-error (d ∷ ds) p = refl

-- A call that reads a battery returns 0 and leaves the last error as it was, or it returns a code from
-- -1 to -4 and leaves that code's text, NUL-terminated, for `lb_last_error`: an invalid argument, the
-- error of `enumerate`, no battery data, an index out of range.
pub lb_read_battery-IsExplained :
    (result : Enumerated) (index : ℤ) (out : Option LbBatteryInfo) (p : Process)
    → let r = lb_read_battery result index out p in IsExplained (read_texts result) r.0 p r.1
unfolding lb_read_battery set_last_error lb_last_error
lb_read_battery-IsExplained result index none p = (invalid_argument, refl, refl)
lb_read_battery-IsExplained result (negsuc i) (some out) p = (invalid_argument, refl, refl)
lb_read_battery-IsExplained (err e) (pos i) (some out) p = (e, refl, refl)
lb_read_battery-IsExplained (ok invs) (pos i) (some out) p =
    read_device-IsExplained (ok invs) (get_elem? (flat invs) i) out p

-- A call that lists the devices returns 0 and leaves the last error as it was, or it returns -1 for a
-- null pointer or -2 for an error of `enumerate` and leaves the text, NUL-terminated, for
-- `lb_last_error`.
pub lb_enumerate_devices-IsExplained :
    (result : Enumerated) (out : Option LbDeviceList) (p : Process)
    → let r = lb_enumerate_devices result out p in
      IsExplained (null_out ∷ enumerate_error result ∷ []) r.0 p r.1
unfolding lb_enumerate_devices set_last_error lb_last_error
lb_enumerate_devices-IsExplained result none p = (null_out, refl, refl)
lb_enumerate_devices-IsExplained (err e) (some out) p = (e, refl, refl)
lb_enumerate_devices-IsExplained (ok invs) (some out) p =
    (refl, into_raw-error (device_infos invs) p)
