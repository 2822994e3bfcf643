-- ===== src/Hidpp/V10/Registers.antt =====
-- Which responses a register access accepts, and what it makes of an accepted one.
use logi_battery.Base.{
  ℕ, ◌<◌, ◌≡◌, ◌≢◌, ◌⊎◌, inl, inr, sym, ap, subst, List, [], ◌∷◌, ◌++◌, Option, none, some, true,
  take, drop, get_or, replicate, arith,
}
use logi_battery.Hidpp.Message.{HidppMessage, IsFrame, payload_of}
use logi_battery.Hidpp.V10.{
  header, extend_payload, from_hidpp, MessageType, set_register, get_register, set_long_register,
  get_long_register, error, type_byte, ErrorType, to_byte, try_from, is_rap_response, V10Result, ok,
  register_access, unsupported_response, error_of, rap_outcome, read_register_response,
  write_register_response, read_long_register_response, write_long_register_response,
}

pub try_from-to_byte : (e : ErrorType) → try_from (to_byte e) ≡ some e
unfolding try_from
try_from-to_byte e = ground arith

pub try_from_inv : (b : ℕ) (e : ErrorType) → try_from b ≡ some e → to_byte e ≡ b
unfolding try_from
try_from_inv b e h = ground arith

pub try_from-none : (b : ℕ) → try_from b ≡ none → 12 < b
unfolding try_from
try_from-none b h = ground arith

-- The first bytes of an error reply to a register access, and of its answer.
abbrev pub IsErrorReply : ℕ → MessageType → ℕ → ℕ → HidppMessage → Type 0
IsErrorReply device msg_type address code resp =
    take 5 (payload_of resp) ≡ device ∷ type_byte error ∷ type_byte msg_type ∷ address ∷ code ∷ []

abbrev pub IsAnswer : ℕ → MessageType → ℕ → HidppMessage → Type 0
IsAnswer device msg_type address resp =
    take 3 (payload_of resp) ≡ device ∷ type_byte msg_type ∷ address ∷ []

-- What follows the register's address in an answer, as a long report has it.
abbrev pub register_bytes : HidppMessage → List ℕ
register_bytes (HidppMessage.short payload) = drop 3 payload ++ replicate 13 0
register_bytes (HidppMessage.long payload) = drop 3 payload

-- What an accepted response means to the caller, case by case: `value` is what the access returns of
-- the bytes behind the address.
abbrev pub Interprets :
    {A : Type 0} → ℕ → MessageType → ℕ → HidppMessage → (List ℕ → A) → V10Result A → Type 0
Interprets device msg_type address resp value (ok a) =
    IsAnswer device msg_type address resp × (a ≡ value (register_bytes resp))
Interprets device msg_type address resp value (register_access e) =
    IsErrorReply device msg_type address (to_byte e) resp
Interprets device msg_type address resp value unsupported_response =
    (code : ℕ) × (12 < code) × IsErrorReply device msg_type address code resp

abbrev code_of : HidppMessage → ℕ
code_of resp = get_or (payload_of resp) 4 0

-- An accepted response is the answer or an error reply, and the sub id tells which.
is_rap_response_cases :
    (device : ℕ) (msg_type : MessageType) (address : ℕ) (resp : HidppMessage)
    → IsFrame resp
    → msg_type ≢ error
    → is_rap_response device msg_type address resp ≡ true
    → (IsAnswer device msg_type address resp
        × ((header (from_hidpp resp)).sub_id ≢ 0x8f)
        × (extend_payload (from_hidpp resp) ≡ address ∷ register_bytes resp))
      ⊎ (IsErrorReply device msg_type address (code_of resp) resp
          × ((header (from_hidpp resp)).sub_id ≡ 0x8f)
          × (get_or (extend_payload (from_hidpp resp)) 2 0 ≡ code_of resp))
unfolding is_rap_response from_hidpp extend_payload
is_rap_response_cases device msg_type address (HidppMessage.short (a ∷ b ∷ c ∷ d ∷ e ∷ f ∷ [])) w o
      t =
    ground arith
is_rap_response_cases device msg_type address (HidppMessage.long (a ∷ b ∷ c ∷ d ∷ e ∷ rest)) w o t =
    ground arith
is_rap_response_cases device msg_type address (HidppMessage.short _) w o t = absurd (omega arith)
is_rap_response_cases device msg_type address (HidppMessage.long _) w o t = absurd (omega arith)

error_of-Interprets :
    {A : Type 0} (device : ℕ) (msg_type : MessageType) (address : ℕ) (resp : HidppMessage)
    (value : List ℕ → A) (o : Option ErrorType)
    → try_from (code_of resp) ≡ o
    → IsErrorReply device msg_type address (code_of resp) resp
    → Interprets device msg_type address resp value (error_of o)
unfolding error_of
error_of-Interprets device msg_type address resp value none e r =
    (code_of resp, try_from-none _ e, r)
error_of-Interprets device msg_type address resp value (some x) e r =
    subst (λ c. IsErrorReply device msg_type address c resp) (sym (try_from_inv _ x e)) r

rap_outcome_answer :
    {A : Type 0} (resp : HidppMessage) (value : List ℕ → A)
    → (header (from_hidpp resp)).sub_id ≢ 0x8f
    → rap_outcome resp value ≡ ok (value (extend_payload (from_hidpp resp)))
unfolding rap_outcome
rap_outcome_answer resp value n = ground arith

rap_outcome_error :
    {A : Type 0} (resp : HidppMessage) (value : List ℕ → A)
    → (header (from_hidpp resp)).sub_id ≡ 0x8f
    → rap_outcome resp value ≡ error_of (try_from (get_or (extend_payload (from_hidpp resp)) 2 0))
unfolding rap_outcome
rap_outcome_error resp value n = ground arith

rap_outcome-Interprets :
    {A : Type 0} (device : ℕ) (msg_type : MessageType) (address : ℕ) (resp : HidppMessage)
    (value : List ℕ → A)
    → IsFrame resp
    → msg_type ≢ error
    → is_rap_response device msg_type address resp ≡ true
    → Interprets device msg_type address resp
        (λ bytes. value (address ∷ bytes))
        (rap_outcome resp value)
rap_outcome-Interprets device msg_type address resp value w o t =
    elim (is_rap_response_cases device msg_type address resp w o t) [
      | inl (answer, other, bytes) ↦
          subst (Interprets device msg_type address resp (λ bs. value (address ∷ bs)))
            (sym (rap_outcome_answer resp value other)) (answer, ap value bytes)
      | inr (reply, sub, code) ↦
          subst (Interprets device msg_type address resp (λ bs. value (address ∷ bs)))
            (sym (rap_outcome_error resp value sub))
            (error_of-Interprets device msg_type address resp (λ bs. value (address ∷ bs)) _
              (ap try_from (sym code)) reply)
    ]

-- A read of a 3-byte register returns three bytes of an answer from that register of that device, or
-- the error of an error reply that names the access, if it accepts the response.
pub read_register_response-Interprets :
    (device address : ℕ) (resp : HidppMessage)
    → IsFrame resp
    → is_rap_response device get_register address resp ≡ true
    → Interprets device get_register address resp (take 3) (read_register_response resp)
unfolding read_register_response
read_register_response-Interprets device address resp w t =
    rap_outcome-Interprets device get_register address resp (λ p. take 3 (drop 1 p)) w (λ e. cc) t

-- A read of a long register returns the 16 bytes of an answer from that register of that device, filled
-- up with zeros if the answer is short, or the error of an error reply that names the access, if it
-- accepts the response.
pub read_long_register_response-Interprets :
    (device address : ℕ) (resp : HidppMessage)
    → IsFrame resp
    → is_rap_response device get_long_register address resp ≡ true
    → Interprets device get_long_register address resp
        (λ bytes. bytes)
        (read_long_register_response resp)
unfolding read_long_register_response
read_long_register_response-Interprets device address resp w t =
    rap_outcome-Interprets device get_long_register address resp (λ p. drop 1 p) w (λ e. cc) t

-- A write of a 3-byte register succeeds on an answer from that register of that device, and returns the
-- error of an error reply that names the access, if it accepts the response.
pub write_register_response-Interprets :
    (device address : ℕ) (resp : HidppMessage)
    → IsFrame resp
    → is_rap_response device set_register address resp ≡ true
    → Interprets device set_register address resp (λ bytes. tt) (write_register_response resp)
unfolding write_register_response
write_register_response-Interprets device address resp w t =
    rap_outcome-Interprets device set_register address resp (λ p. tt) w (λ e. cc) t

-- A write of a long register succeeds on an answer from that register of that device, and returns the
-- error of an error reply that names the access, if it accepts the response.
pub write_long_register_response-Interprets :
    (device address : ℕ) (resp : HidppMessage)
    → IsFrame resp
    → is_rap_response device set_long_register address resp ≡ true
    → Interprets device set_long_register address resp
        (λ bytes. tt)
        (write_long_register_response resp)
unfolding write_long_register_response
write_long_register_response-Interprets device address resp w t =
    rap_outcome-Interprets device set_long_register address resp (λ p. tt) w (λ e. cc) t

-- What each register access makes of a response.
abbrev pub IsAccess : MessageType → ℕ → ℕ → HidppMessage → Type 0
IsAccess get_register device address resp =
    Interprets device get_register address resp (take 3) (read_register_response resp)
IsAccess get_long_register device address resp =
    Interprets device get_long_register address resp (λ bytes. bytes)
      (read_long_register_response resp)
IsAccess set_register device address resp =
    Interprets device set_register address resp (λ bytes. tt) (write_register_response resp)
IsAccess set_long_register device address resp =
    Interprets device set_long_register address resp (λ bytes. tt)
      (write_long_register_response resp)
IsAccess error device address resp = Unit

-- Each of the four register accesses makes of a response that it accepts the bytes of an answer from
-- that register of that device, 3 for a short read, all for a long read and none for a write, or the
-- error of an error reply that names the access.
pub is_rap_response-IsAccess :
    (msg_type : MessageType) (device address : ℕ) (resp : HidppMessage)
    → IsFrame resp
    → is_rap_response device msg_type address resp ≡ true
    → IsAccess msg_type device address resp
is_rap_response-IsAccess get_register device address resp =
    read_register_response-Interprets device address resp
is_rap_response-IsAccess get_long_register device address resp =
    read_long_register_response-Interprets device address resp
is_rap_response-IsAccess set_register device address resp =
    write_register_response-Interprets device address resp
is_rap_response-IsAccess set_long_register device address resp =
    write_long_register_response-Interprets device address resp
is_rap_response-IsAccess error device address resp = λ w t. tt
