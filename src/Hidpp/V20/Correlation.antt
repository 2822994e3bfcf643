-- ===== src/Hidpp/V20/Correlation.antt =====
-- Which responses a HID++2.0 request accepts, and what `send_v20` makes of an accepted one.
use logi_battery.Base.{
  ℕ, ◌<◌, ◌≡◌, ◌≢◌, refl, sym, ap, subst, ◌∙◌, [], ◌∷◌, Option, none, some, true, Bool-cases, inl,
  inr, get_or, take, arith, ◌⊎◌,
}
use logi_battery.Hidpp.Nibble.{
  combine, from_hi, from_lo, combine-from, from_hi-combine, from_lo-combine,
}
use logi_battery.Hidpp.Message.{HidppMessage, IsFrame, payload_of}
use logi_battery.Hidpp.V20.{
  MessageHeader, V20Message, IsHeader, header, header_eq, extend_payload, from_hidpp, into_hidpp,
  is_error, accepts, interpret, ErrorType, to_byte, try_from, V20Result, ok, feature_error,
  unsupported_response, error_of,
}
use logi_battery.Hidpp.V20.RoundTrip.{into_hidpp-from_hidpp}

-- The error codes and their bytes.
pub try_from-to_byte : (e : ErrorType) → try_from (to_byte e) ≡ some e
unfolding try_from
try_from-to_byte e = ground arith

pub try_from_inv : (b : ℕ) (e : ErrorType) → try_from b ≡ some e → to_byte e ≡ b
unfolding try_from
try_from_inv b e h = ground arith

pub try_from-none : (b : ℕ) → try_from b ≡ none → 9 < b
unfolding try_from
try_from-none b h = ground arith

header_eq-eq : (a b : MessageHeader) → header_eq a b ≡ true → a ≡ b
header_eq-eq a b e = ground arith

header_eq_refl : (a : MessageHeader) → header_eq a a ≡ true
header_eq_refl a = ground arith

-- The first bytes of an error reply to the request `h` that carries the error code `code`.
abbrev pub IsErrorReply : MessageHeader → ℕ → HidppMessage → Type 0
IsErrorReply h code resp =
    take 5 (payload_of resp)
    ≡ h.device_index ∷ 0xff ∷ h.feature_index ∷ combine h.function_id h.software_id ∷ code ∷ []

-- What an accepted response means to the caller, case by case.
abbrev pub Interprets : MessageHeader → HidppMessage → V20Result → Type 0
Interprets h resp (ok m) = (into_hidpp m ≡ resp) × (header m ≡ h)
Interprets h resp (feature_error e) = IsErrorReply h (to_byte e) resp
Interprets h resp unsupported_response = (code : ℕ) × (9 < code) × IsErrorReply h code resp

-- The error code byte of a response.
abbrev code_of : HidppMessage → ℕ
code_of resp = get_or (payload_of resp) 4 0

is_error-IsErrorReply :
    (h : MessageHeader) (resp : HidppMessage)
    → IsFrame resp
    → is_error h (from_hidpp resp) ≡ true
    → IsErrorReply h (code_of resp) resp
unfolding is_error from_hidpp extend_payload
is_error-IsErrorReply h (HidppMessage.short (a ∷ b ∷ c ∷ d ∷ e ∷ f ∷ [])) w t =
    ground (arith, combine-from c w.1.1.1.0)
is_error-IsErrorReply h (HidppMessage.long (a ∷ b ∷ c ∷ d ∷ e ∷ rest)) w t =
    ground (arith, combine-from c w.1.1.1.0)
is_error-IsErrorReply h (HidppMessage.short _) w t = absurd (omega arith)
is_error-IsErrorReply h (HidppMessage.long _) w t = absurd (omega arith)

-- An error reply is read back as one, with its code.
error_code :
    (resp : HidppMessage)
    → IsFrame resp
    → get_or (extend_payload (from_hidpp resp)) 1 0 ≡ code_of resp
unfolding from_hidpp extend_payload
error_code (HidppMessage.short (a ∷ b ∷ c ∷ d ∷ e ∷ f ∷ [])) w = refl
error_code (HidppMessage.long (a ∷ b ∷ c ∷ d ∷ e ∷ rest)) w = refl
error_code (HidppMessage.short _) w = absurd (omega arith)
error_code (HidppMessage.long _) w = absurd (omega arith)

accepts_cases :
    (h : MessageHeader) (resp : HidppMessage)
    → accepts h resp ≡ true
    → (is_error h (from_hidpp resp) ≡ true) ⊎ (header (from_hidpp resp) ≡ h)
unfolding accepts
accepts_cases h resp t = elim (Bool-cases (is_error h (from_hidpp resp))) [
  | inl e ↦ inl e
  | inr n ↦ inr (header_eq-eq _ _ (ground arith))
]

is_error-feature :
    (h : MessageHeader) (m : V20Message) → is_error h m ≡ true → (header m).feature_index ≡ 0xff
unfolding is_error
is_error-feature h m t = ground arith

interpret_error :
    (resp : HidppMessage)
    → IsFrame resp
    → (header (from_hidpp resp)).feature_index ≡ 0xff
    → interpret resp ≡ error_of (try_from (code_of resp))
unfolding interpret
interpret_error resp w f = ground (arith, error_code resp w)

interpret_ok :
    (resp : HidppMessage)
    → (header (from_hidpp resp)).feature_index ≢ 0xff
    → interpret resp ≡ ok (from_hidpp resp)
unfolding interpret
interpret_ok resp f = ground arith

error_of-Interprets :
    (h : MessageHeader) (resp : HidppMessage) (o : Option ErrorType)
    → try_from (code_of resp) ≡ o
    → IsErrorReply h (code_of resp) resp
    → Interprets h resp (error_of o)
unfolding error_of
error_of-Interprets h resp none e r = (code_of resp, try_from-none _ e, r)
error_of-Interprets h resp (some x) e r =
    subst (λ c. IsErrorReply h c resp) (sym (try_from_inv _ x e)) r

-- A response that the request accepts is a message with the request's header, or an error reply that
-- names the request; `send_v20` returns the message in the first case and the error in
-- the second. The request does not address feature index 0xff.
pub interpret-Interprets :
    (h : MessageHeader) (resp : HidppMessage)
    → IsFrame resp
    → h.feature_index ≢ 0xff
    → accepts h resp ≡ true
    → Interprets h resp (interpret resp)
interpret-Interprets h resp w real t = elim (accepts_cases h resp t) [
  | inl e ↦
      rw (interpret_error resp w (is_error-feature h _ e))
        (error_of-Interprets h resp _ refl (is_error-IsErrorReply h resp w e))
  | inr m ↦
      rw (interpret_ok resp (λ f. real (sym (ap (λ x. x.feature_index) m) ∙ f)))
        ((into_hidpp-from_hidpp resp w).1, m)
]

-- A header is determined by the three bytes that a message carries of it.
header-ext :
    {h k : MessageHeader}
    → IsHeader h
    → IsHeader k
    → h.device_index ≡ k.device_index
    → h.feature_index ≡ k.feature_index
    → combine h.function_id h.software_id ≡ combine k.function_id k.software_id
    → h ≡ k
header-ext {h} {k} wh wk d f c = λ i. record {
  device_index = d i;
  feature_index = f i;
  function_id = function i;
  software_id = software i;
}
  where
    function : h.function_id ≡ k.function_id
    function =
        sym (from_hi-combine _ _ wh.function_nibble wh.software_nibble)
        ∙ ap from_hi c
        ∙ from_hi-combine _ _ wk.function_nibble wk.software_nibble

    software : h.software_id ≡ k.software_id
    software =
        sym (from_lo-combine _ _ wh.function_nibble wh.software_nibble)
        ∙ ap from_lo c
        ∙ from_lo-combine _ _ wk.function_nibble wk.software_nibble

IsErrorReply-injective :
    {h k : MessageHeader} (code : ℕ) (resp : HidppMessage)
    → IsHeader h
    → IsHeader k
    → IsErrorReply h code resp
    → IsErrorReply k code resp
    → h ≡ k
IsErrorReply-injective code resp wh wk rh rk =
    let same = sym rh ∙ rk in header-ext wh wk (cc same) (cc same) (cc same)

-- No response is accepted by two requests with different headers. Neither request addresses feature
-- index 0xff, and the response and the headers are in the range of their types.
pub accepts-injective :
    (h k : MessageHeader) (resp : HidppMessage)
    → IsHeader h
    → IsHeader k
    → h.feature_index ≢ 0xff
    → k.feature_index ≢ 0xff
    → IsFrame resp
    → accepts h resp ≡ true
    → accepts k resp ≡ true
    → h ≡ k
accepts-injective h k resp wh wk rh rk w th tk = elim (accepts_cases h resp th) [
  | inl e ↦ elim (accepts_cases k resp tk) [
    | inl d ↦
        IsErrorReply-injective (code_of resp) resp wh wk (is_error-IsErrorReply h resp w e)
          (is_error-IsErrorReply k resp w d)
    | inr d ↦ absurd (rk (sym (ap (λ x. x.feature_index) d) ∙ is_error-feature h _ e))
  ]
  | inr e ↦ elim (accepts_cases k resp tk) [
    | inl d ↦ absurd (rh (sym (ap (λ x. x.feature_index) e) ∙ is_error-feature k _ d))
    | inr d ↦ sym e ∙ d
  ]
]
