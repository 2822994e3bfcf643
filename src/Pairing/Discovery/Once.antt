-- ===== src/Pairing/Discovery/Once.antt =====
-- A discovered device is told once, as soon as both its frames are in.
use logi_battery.Base.{
  ℕ, ◌≡◌, refl, ap, ◌∙◌, List, [], ◌∷◌, Option, none, some, true, false, arith, ◌==◌, if◌then◌else◌,
  bit_and,
}
use logi_battery.Pairing.Discovery.{
  DiscoveredDevice, PartialDevice, default, build, with_info, with_name, entry, set_entry,
}

-- A frame of one counter: the kind, address and authentication of the device, or its name.
pub data Frame : Type 0 where
  info : ℕ → List ℕ → ℕ → Frame
  name : List ℕ → Frame

abbrev pub with_frame : Frame → PartialDevice → PartialDevice
with_frame (info k a t) d = with_info k a t d
with_frame (name n) d = with_name n d

abbrev pub emit {ℓ} : {A : Type ℓ} → Option A → List A → List A
emit none xs = xs
emit (some x) xs = x ∷ xs

-- The devices told while the frames of one counter come in.
pub feed : PartialDevice → List Frame → List DiscoveredDevice
feed d [] = []
feed d (f ∷ fs) = emit (build (with_frame f d)).1 (feed (build (with_frame f d)).0 fs)

abbrev pub device_of : ℕ × List ℕ × ℕ → List ℕ → DiscoveredDevice
device_of (k, a, t) n = record { address = a; authentication = t; kind = bit_and k 0x0f; name = n }

-- The device by the latest frame of each sort at the time when both sorts are in, if ever.
pub first_both : Option (ℕ × List ℕ × ℕ) → Option (List ℕ) → List Frame → Option DiscoveredDevice
first_both i n [] = none
first_both i none (info k a t ∷ fs) = first_both (some (k, a, t)) none fs
first_both i (some n) (info k a t ∷ fs) = some (device_of (k, a, t) n)
first_both none n (name m ∷ fs) = first_both none (some m) fs
first_both (some i) n (name m ∷ fs) = some (device_of i m)

build_emitted : (d : PartialDevice) → d.emitted ≡ true → build d ≡ (d, none)
unfolding build
build_emitted d e = ground arith

emitted_silent : (d : PartialDevice) (fs : List Frame) → d.emitted ≡ true → feed d fs ≡ []
unfolding feed
emitted_silent d [] e = refl
emitted_silent d (info k a t ∷ fs) e =
    ap (λ r. emit r.1 (feed r.0 fs)) (build_emitted (with_info k a t d) e)
    ∙ emitted_silent (with_info k a t d) fs e
emitted_silent d (name n ∷ fs) e =
    ap (λ r. emit r.1 (feed r.0 fs)) (build_emitted (with_name n d) e)
    ∙ emitted_silent (with_name n d) fs e

abbrev has_info : Option (ℕ × List ℕ × ℕ) → Option (List ℕ) → PartialDevice
has_info none n = record {
  kind = none;
  address = none;
  authentication = none;
  name = n;
  emitted = false;
}
has_info (some (k, a, t)) n = record {
  kind = some k;
  address = some a;
  authentication = some t;
  name = n;
  emitted = false;
}

-- At most one of the two is there while nothing is told.
feed-first_both_from_info :
    (i : ℕ × List ℕ × ℕ) (fs : List Frame)
    → feed (has_info (some i) none) fs ≡ emit (first_both (some i) none fs) []
unfolding feed build first_both
feed-first_both_from_info (k, a, t) [] = refl
feed-first_both_from_info (k, a, t) (info k' a' t' ∷ fs) = feed-first_both_from_info (k', a', t') fs
feed-first_both_from_info (k, a, t) (name m ∷ fs) =
    ap (λ xs. device_of (k, a, t) m ∷ xs) (emitted_silent _ fs refl)

feed-first_both_from_name :
    (n : Option (List ℕ)) (fs : List Frame)
    → feed (has_info none n) fs ≡ emit (first_both none n fs) []
unfolding feed build first_both
feed-first_both_from_name n [] = refl
feed-first_both_from_name none (info k a t ∷ fs) = feed-first_both_from_info (k, a, t) fs
feed-first_both_from_name (some m) (info k a t ∷ fs) =
    ap (λ xs. device_of (k, a, t) m ∷ xs) (emitted_silent _ fs refl)
feed-first_both_from_name n (name m ∷ fs) = feed-first_both_from_name (some m) fs

-- While the frames of one discovery counter come in, in any order and number, one device is told at
-- most: when both sorts of frames are in for the first time, with what the latest of each says.
pub feed-first_both : (fs : List Frame) → feed default fs ≡ emit (first_both none none fs) []
feed-first_both fs = feed-first_both_from_name none fs

-- The frames of other counters leave an entry alone.
pub entry-set_entry :
    (c k : ℕ) (d : PartialDevice) (ds : List (ℕ × PartialDevice))
    → entry k (set_entry c d ds) ≡ (if c == k then d else entry k ds)
unfolding entry set_entry
entry-set_entry c k d [] = ground arith
entry-set_entry c k d ((j, e) ∷ ds) = ground (arith, entry-set_entry c k d ds)
