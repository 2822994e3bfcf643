-- ===== src/Hidpp/Channel/SoftwareId.antt =====
-- The software ids of requests: `RequestSwId`, `SwIdPolicy` and `get_sw_id`.
use logi_battery.Base.{
  ℕ, zero, suc, ◌+◌, ◌%◌, ◌≤◌, ◌≡◌, refl, ap, ◌∙◌, Option, none, some, arith, ◌==◌, if◌then◌else◌,
  bit_and, low_nibble,
}
use logi_battery.Hidpp.Nibble.{U4, from_lo, to_lo, from_lo-raw}

-- `Some` for any id but the reserved 0.
pub request_sw_id : U4 → Option U4
request_sw_id id = if to_lo id == 0 then none else some id

-- `Leased` carries the id and a function that returns it to its allocator on drop.
pub data SwIdPolicy : Type 0 where
  fixed : U4 → SwIdPolicy
  rotating : ℕ → SwIdPolicy
  leased : U4 → SwIdPolicy

abbrev pub rotation_start : SwIdPolicy
rotation_start = rotating 0x01

pub default_policy : SwIdPolicy
default_policy = fixed (from_lo 0x01)

-- `fetch_update` on the `AtomicU8`: the value before the step is what the request carries.
pub get_sw_id : SwIdPolicy → U4 × SwIdPolicy
get_sw_id (fixed id) = (id, fixed id)
get_sw_id (leased id) = (id, leased id)
get_sw_id (rotating old) =
    (from_lo old, rotating (if bit_and old 0x0f == 0x0f then 0x01 else (old + 1) % 256))

-- The policy after `n` requests.
pub after_requests : ℕ → SwIdPolicy → SwIdPolicy
unfolding get_sw_id
after_requests zero p = p
after_requests (suc n) p = (get_sw_id (after_requests n p)).1

-- What the constructors establish: an id that a request may carry.
abbrev pub IsPolicy : SwIdPolicy → Type 0
IsPolicy (fixed id) = (1 ≤ id.raw) × (id.raw ≤ 15)
IsPolicy (leased id) = (1 ≤ id.raw) × (id.raw ≤ 15)
IsPolicy (rotating c) = (1 ≤ c) × (c ≤ 15)

-- The id of a request is from 1 to 15, never the 0 of a notification, if the policy is one that its
-- constructors give; and the policy stays one.
pub get_sw_id-IsPolicy :
    (p : SwIdPolicy)
    → IsPolicy p
    → (1 ≤ (get_sw_id p).0.raw) × ((get_sw_id p).0.raw ≤ 15) × IsPolicy (get_sw_id p).1
unfolding get_sw_id
get_sw_id-IsPolicy (fixed id) h = (h.0, h.1, h)
get_sw_id-IsPolicy (leased id) h = (h.0, h.1, h)
get_sw_id-IsPolicy (rotating c) h = ground (arith, from_lo-raw c, low_nibble c)

rotation_counter : (n : ℕ) → after_requests n rotation_start ≡ rotating (n % 15 + 1)
unfolding after_requests
rotation_counter zero = refl
rotation_counter (suc n) =
    ap (λ p. (get_sw_id p).1) (rotation_counter n) ∙ ground (arith, low_nibble (n % 15 + 1))

-- A rotation that starts fresh gives its requests the ids 1 to 15 in turn.
pub get_sw_id-rotation : (n : ℕ) → (get_sw_id (after_requests n rotation_start)).0.raw ≡ n % 15 + 1
unfolding get_sw_id
get_sw_id-rotation n = ground (arith, rotation_counter n, from_lo-raw (n % 15 + 1))
