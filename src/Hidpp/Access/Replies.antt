-- ===== src/Hidpp/Access/Replies.antt =====
-- From the request of a register access to its result.
use logi_battery.Base.{ℕ, ◌≡◌, ◌⊎◌, List, take}
use logi_battery.Hidpp.Message.{HidppMessage, IsFrame}
use logi_battery.Hidpp.V10.{
  MessageType, get_register, set_register, get_long_register, set_long_register,
}
use logi_battery.Hidpp.V10.Registers.{Interprets}
use logi_battery.Hidpp.Channel.{Channel, timeout, implementation, message_type_not_supported, Event}
use logi_battery.Hidpp.Access.{
  V10Outcome, replied, failed, in_progress, read_register, write_register, read_long_register,
  write_long_register,
}

-- What the caller of an access may conclude; `value` is what it returns of the bytes of an answer.
abbrev pub IsAccessed : {A : Type 0} → ℕ → MessageType → ℕ → (List ℕ → A) → V10Outcome A → Type 0
IsAccessed device msg_type address value (replied r) =
    (resp : HidppMessage) × IsFrame resp × Interprets device msg_type address resp value r
IsAccessed device msg_type address value (failed e) =
    (e ≡ timeout) ⊎ (e ≡ implementation) ⊎ (e ≡ message_type_not_supported)
IsAccessed device msg_type address value in_progress = Unit {0}

-- The four accesses of a register: a read with three parameters, a write of three bytes, and the same
-- for a long register, whose write is of sixteen bytes.
abbrev pub AreAccesses : ℕ → ℕ → List ℕ → List ℕ → List ℕ → List Event → Channel → Type 0
AreAccesses device address parameters payload bytes events ch =
    IsAccessed device get_register address (take 3)
      (read_register device address parameters events ch).1
    × IsAccessed device set_register address (λ _. tt)
        (write_register device address payload events ch).1
    × IsAccessed device get_long_register address (λ bs. bs)
        (read_long_register device address parameters events ch).1
    × IsAccessed device set_long_register address (λ _. tt)
        (write_long_register device address bytes events ch).1
