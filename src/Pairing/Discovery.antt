-- ===== src/Pairing/Discovery.antt =====
-- The two frames by which a device is discovered (`PartialDevice`), kept by their counter.
pub mod Once
use logi_battery.Base.{
  ℕ, ◌∷◌, List, [], Option, none, some, Bool, true, false, ◌==◌, if◌then◌else◌, bit_and,
}

pub record DiscoveredDevice : Type 0 where
  pub address : List ℕ
  pub authentication : ℕ
  pub kind : ℕ
  pub name : List ℕ

pub record PartialDevice : Type 0 where
  pub kind : Option ℕ
  pub address : Option (List ℕ)
  pub authentication : Option ℕ
  pub name : Option (List ℕ)
  pub emitted : Bool

abbrev pub default : PartialDevice
default = record {
  kind = none;
  address = none;
  authentication = none;
  name = none;
  emitted = false;
}

abbrev pub complete :
    Option ℕ → Option (List ℕ) → Option ℕ → Option (List ℕ) → Option DiscoveredDevice
complete (some kind) (some address) (some authentication) (some name) = some (record {
  address = address;
  authentication = authentication;
  kind = bit_and kind 0x0f;
  name = name;
})
complete none a t n = none
complete (some k) none t n = none
complete (some k) (some a) none n = none
complete (some k) (some a) (some t) none = none

-- A device that is built is marked as emitted.
abbrev pub marked :
    PartialDevice → Option DiscoveredDevice → PartialDevice × Option DiscoveredDevice
marked self none = (self, none)
marked self (some device) = (record self { emitted = true }, some device)

pub build : PartialDevice → PartialDevice × Option DiscoveredDevice
build self =
    if self.emitted
    then (self, none)
    else marked self (complete self.kind self.address self.authentication self.name)

-- What the two frames write into the entry of their counter.
abbrev pub with_info : ℕ → List ℕ → ℕ → PartialDevice → PartialDevice
with_info kind address authentication self = record self {
  kind = some kind;
  address = some address;
  authentication = some authentication;
}

abbrev pub with_name : List ℕ → PartialDevice → PartialDevice
with_name name self = record self { name = some name }

-- `entry(counter).or_default()`, and the entry written back.
pub entry : ℕ → List (ℕ × PartialDevice) → PartialDevice
entry counter [] = default
entry counter ((c, d) ∷ ds) = if c == counter then d else entry counter ds

pub set_entry : ℕ → PartialDevice → List (ℕ × PartialDevice) → List (ℕ × PartialDevice)
set_entry counter device [] = (counter, device) ∷ []
set_entry counter device ((c, d) ∷ ds) =
    if c == counter then (c, device) ∷ ds else (c, d) ∷ set_entry counter device ds
