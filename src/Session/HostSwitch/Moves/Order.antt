-- ===== src/Session/HostSwitch/Moves/Order.antt =====
-- Which devices are moved to another host, in which order, and when the keyboard is.
use logi_battery.Base.{
  ℕ, List, [], ◌∷◌, ◌++◌, Option, none, some, Bool, true, false, not, ◌&&◌, ◌||◌, ◌==◌, leb, ◌≡◌,
  ◌∙◌, refl, ap, ap₂, if◌then◌else◌, Bool-cases, inl, inr,
}
use logi_battery.Keys.Device.{DeviceRoute}
use logi_battery.Session.HostSwitch.{
  Answer, hidpp, replied, failed, timed_out, Result, ok, err, timed_hidpp, open_channel,
}
use logi_battery.Session.HostSwitch.Moves.{
  HostSlotStatus, empty, paired, Linked, Move, shares_transport, host_slot_is_empty,
  PreparedHostChange, prepared, prepare_info, prepare_feature, prepare_device,
  prepare_host_change_on, prepare_opened, prepare_host_change, after_write, apply_host_change,
  followed, move_targets, keyboard_last, with_keyboard, switch_linked_hosts, host_change_required,
}

-- Answers that let a device be moved.
abbrev pub is_replied : Answer Unit → Bool
is_replied (replied tt) = true
is_replied failed = false
is_replied timed_out = false

abbrev pub has_some : {A : Type 0} → Answer (Option A) → Bool
has_some (replied (some a)) = true
has_some (replied none) = false
has_some failed = false
has_some timed_out = false

-- The slot is said to be empty.
abbrev pub is_refused : Answer (Option ℕ) → Answer HostSlotStatus → Bool
is_refused (replied (some index)) (replied empty) = true
is_refused (replied (some index)) (replied paired) = false
is_refused (replied (some index)) failed = false
is_refused (replied (some index)) timed_out = false
is_refused (replied none) slot = false
is_refused failed slot = false
is_refused timed_out slot = false

abbrev pub info_accepts : ℕ → Bool → Answer (ℕ × ℕ) → Bool
info_accepts host refused (replied (current, count)) =
    not (leb count host) && (current == host || not refused)
info_accepts host refused failed = false
info_accepts host refused timed_out = false

abbrev pub info_moves : ℕ → Bool → Answer (ℕ × ℕ) → Bool
info_moves host refused (replied (current, count)) =
    not (leb count host) && (not (current == host) && not refused)
info_moves host refused failed = false
info_moves host refused timed_out = false

-- The device can use the host: it is there, the host is one of its hosts, and is the current one or not
-- said to be empty.
abbrev pub accepts : Linked → ℕ → Bool
accepts d host =
    is_replied d.device
    && (has_some d.change_host && info_accepts host (is_refused d.hosts_info d.slot) d.host_info)

-- It can, and is not on it.
abbrev pub moves : Linked → ℕ → Bool
moves d host =
    is_replied d.device
    && (has_some d.change_host && info_moves host (is_refused d.hosts_info d.slot) d.host_info)

abbrev pub reaches : Linked → DeviceRoute → Bool
reaches d keyboard = shares_transport d.route keyboard || has_some d.channel

-- The targets that are moved, in their order.
abbrev pub moved : DeviceRoute → ℕ → List Linked → List Move
moved keyboard host [] = []
moved keyboard host (d ∷ targets) =
    let rest = moved keyboard host targets in
    if reaches d keyboard && moves d host then (d.route, host) ∷ rest else rest

refused-lem :
    (hosts_info : Answer (Option ℕ)) (slot : Answer HostSlotStatus)
    → host_slot_is_empty hosts_info slot ≡ is_refused hosts_info slot
unfolding host_slot_is_empty
refused-lem (replied (some index)) (replied empty) = refl
refused-lem (replied (some index)) (replied paired) = refl
refused-lem (replied (some index)) failed = refl
refused-lem (replied (some index)) timed_out = refl
refused-lem (replied none) slot = refl
refused-lem failed slot = refl
refused-lem timed_out slot = refl

-- What a preparation says of a device that accepts a host or not, and moves to it or not.
abbrev Prepares : Linked → ℕ → Bool → Bool → Result PreparedHostChange → Type 0
Prepares d host accepted move (ok change) =
    (accepted ≡ true)
    × (change ≡ record { route = d.route; host = host; required = move; written = d.written })
Prepares d host accepted move (err e) = (accepted ≡ false) × (move ≡ false)

decided-Prepares :
    (d : Linked) (host : ℕ) (text : List ℕ) (outside current refused : Bool)
    → host_slot_is_empty d.hosts_info d.slot ≡ refused
    → Prepares d host
        (not outside && (current || not refused))
        (not outside && (not current && not refused))
        (prepared d host (if outside then err (hidpp text) else ok (not current)))
decided-Prepares d host text true current refused e = (refl, refl)
decided-Prepares d host text false true refused e = (refl, refl)
decided-Prepares d host text false false true e = rw e (refl, refl)
decided-Prepares d host text false false false e = rw e (refl, refl)

prepare_info-Prepares :
    (d : Linked) (host : ℕ) (op : List ℕ) (info : Answer (ℕ × ℕ))
    → Prepares d host
        (info_accepts host (is_refused d.hosts_info d.slot) info)
        (info_moves host (is_refused d.hosts_info d.slot) info)
        (prepare_info d host (timed_hidpp op info))
unfolding host_change_required
prepare_info-Prepares d host op (replied (current, count)) =
    decided-Prepares d host _ (leb count host) (current == host) _ (refused-lem d.hosts_info d.slot)
prepare_info-Prepares d host op failed = (refl, refl)
prepare_info-Prepares d host op timed_out = (refl, refl)

prepare_feature-Prepares :
    (d : Linked) (host : ℕ) (op : List ℕ) (feature : Answer (Option ℕ))
    → Prepares d host
        (has_some feature && info_accepts host (is_refused d.hosts_info d.slot) d.host_info)
        (has_some feature && info_moves host (is_refused d.hosts_info d.slot) d.host_info)
        (prepare_feature d host (timed_hidpp op feature))
prepare_feature-Prepares d host op (replied (some index)) =
    prepare_info-Prepares d host _ d.host_info
prepare_feature-Prepares d host op (replied none) = (refl, refl)
prepare_feature-Prepares d host op failed = (refl, refl)
prepare_feature-Prepares d host op timed_out = (refl, refl)

prepare_device-Prepares :
    (d : Linked) (host : ℕ) (op : List ℕ) (device : Answer Unit)
    → Prepares d host
        (is_replied device
          && (has_some d.change_host
              && info_accepts host (is_refused d.hosts_info d.slot) d.host_info))
        (is_replied device
          && (has_some d.change_host
              && info_moves host (is_refused d.hosts_info d.slot) d.host_info))
        (prepare_device d host (timed_hidpp op device))
prepare_device-Prepares d host op (replied tt) = prepare_feature-Prepares d host _ d.change_host
prepare_device-Prepares d host op failed = (refl, refl)
prepare_device-Prepares d host op timed_out = (refl, refl)

prepare_host_change_on-Prepares :
    (d : Linked) (host : ℕ)
    → Prepares d host (accepts d host) (moves d host) (prepare_host_change_on d host)
unfolding prepare_host_change_on
prepare_host_change_on-Prepares d host = prepare_device-Prepares d host _ d.device

-- What a device writes once it is prepared.
followed-Prepares :
    (d : Linked) (host : ℕ) (accepted move : Bool) (r : Result PreparedHostChange)
    → Prepares d host accepted move r
    → followed r ≡ (if move then (d.route, host) ∷ [] else [])
unfolding apply_host_change
followed-Prepares d host accepted move (err e) w = rw w.1 refl
followed-Prepares d host accepted true (ok change) w = rw w.1 refl
followed-Prepares d host accepted false (ok change) w = rw w.1 refl

opened_target :
    (d : Linked) (host : ℕ) (op : List ℕ) (channel : Answer (Option Unit))
    → followed (prepare_opened d host (open_channel op channel))
      ≡ (if has_some channel && moves d host then (d.route, host) ∷ [] else [])
opened_target d host op (replied (some tt)) =
    followed-Prepares d host _ _ _ (prepare_host_change_on-Prepares d host)
opened_target d host op (replied none) = refl
opened_target d host op failed = refl
opened_target d host op timed_out = refl

target :
    (d : Linked) (host : ℕ) (keyboard : DeviceRoute)
    → followed (prepare_host_change d host keyboard)
      ≡ (if reaches d keyboard && moves d host then (d.route, host) ∷ [] else [])
unfolding prepare_host_change
target d host keyboard = elim (Bool-cases (shares_transport d.route keyboard)) [
  | inl t ↦ rw t (followed-Prepares d host _ _ _ (prepare_host_change_on-Prepares d host))
  | inr n ↦ rw n (opened_target d host _ d.channel)
]

move_targets-moved :
    (keyboard : DeviceRoute) (host : ℕ) (targets : List Linked)
    → move_targets keyboard host targets ≡ moved keyboard host targets
unfolding move_targets
move_targets-moved keyboard host [] = refl
move_targets-moved keyboard host (d ∷ targets) =
    ap₂ (◌++◌) (target d host keyboard) (move_targets-moved keyboard host targets)
    ∙ joined (reaches d keyboard && moves d host)
  where
    joined :
        (b : Bool)
        → (if b then (d.route, host) ∷ [] else []) ++ moved keyboard host targets ≡ (
            if b
            then (d.route, host) ∷ moved keyboard host targets
            else moved keyboard host targets)
    joined true = refl
    joined false = refl

-- Whether the keyboard has changed hosts.
abbrev pub has_changed : Result Bool → Bool
has_changed (ok changed) = changed
has_changed (err e) = false

abbrev pub IsSwitch :
    DeviceRoute → ℕ → List Linked → Bool → Bool → Bool → Result Bool × List Move → Type 0
IsSwitch keyboard host targets ready move answered r =
    (r.1 ≡ (
      if ready
      then moved keyboard host targets ++ (if move then (keyboard, host) ∷ [] else [])
      else []))
    × (has_changed r.0 ≡ (ready && (move && answered)))

changed-lem :
    (op : List ℕ) (written : Answer Unit)
    → has_changed (after_write (timed_hidpp op written)) ≡ is_replied written
changed-lem op (replied tt) = refl
changed-lem op failed = refl
changed-lem op timed_out = refl

keyboard_last-IsSwitch :
    (k : Linked) (host : ℕ) (targets : List Linked) (accepted move : Bool)
    (r : Result PreparedHostChange)
    → Prepares k host accepted move r
    → IsSwitch k.route host targets accepted move
        (is_replied k.written)
        (keyboard_last host targets k.route r)
unfolding apply_host_change
keyboard_last-IsSwitch k host targets accepted move (err e) w = rw w.0 (refl, refl)
keyboard_last-IsSwitch k host targets accepted true (ok change) w =
    rw (w.0, w.1)
      (
        ap (λ ms. ms ++ ((k.route, host) ∷ [])) (move_targets-moved k.route host targets),
        changed-lem _ k.written,
      )
keyboard_last-IsSwitch k host targets accepted false (ok change) w =
    rw (w.0, w.1) (ap (λ ms. ms ++ []) (move_targets-moved k.route host targets), refl)

with_keyboard-IsSwitch :
    (k : Linked) (host : ℕ) (targets : List Linked) (op : List ℕ) (channel : Answer (Option Unit))
    → IsSwitch k.route host targets
        (has_some channel && accepts k host)
        (moves k host)
        (is_replied k.written)
        (with_keyboard k targets host (open_channel op channel))
with_keyboard-IsSwitch k host targets op (replied (some tt)) =
    keyboard_last-IsSwitch k host targets _ _ _ (prepare_host_change_on-Prepares k host)
with_keyboard-IsSwitch k host targets op (replied none) = (refl, refl)
with_keyboard-IsSwitch k host targets op failed = (refl, refl)
with_keyboard-IsSwitch k host targets op timed_out = (refl, refl)

-- What a switch of a keyboard and its linked devices to a host writes. If the keyboard cannot be opened,
-- or cannot use the host, it writes nothing. Else it writes the host to each linked device that can use
-- it and is not on it, in their order, and last to the keyboard, if that is not on the host. A device
-- can use a host that is among its hosts and is its current one or is not said to be empty; one that is
-- not on the receiver of the keyboard needs a channel of its own. The switch says that the keyboard
-- changed hosts exactly if this last write was made and answered.
pub switch_linked_hosts-IsSwitch :
    (k : Linked) (targets : List Linked) (host : ℕ)
    → IsSwitch k.route host targets
        (has_some k.channel && accepts k host)
        (moves k host)
        (is_replied k.written)
        (switch_linked_hosts k targets host)
unfolding switch_linked_hosts
switch_linked_hosts-IsSwitch k targets host = with_keyboard-IsSwitch k host targets _ k.channel
