-- ===== src/Battery/Unified/Codes.antt =====
-- Which payloads the unified feature reads, and as what.
use logi_battery.Base.{
  ℕ, suc, ◌≡◌, ◌≢◌, ◌↔◌, List, [], ◌∷◌, Option, none, some, refl, arith, ◌==◌, has_bits,
  if◌then◌else◌,
}
use logi_battery.Battery.Unified.{
  Level, critical, low, good, full, Status, level_byte, level_from, status_byte, status_from,
  UnifiedInfo, info, get_battery_info, decode_event, capabilities_from,
}

level_from-level_byte : (l : Level) → level_from (level_byte l) ≡ some l
unfolding level_from
level_from-level_byte l = ground arith

level_from_inv : (b : ℕ) (l : Level) → level_from b ≡ some l → level_byte l ≡ b
unfolding level_from
level_from_inv b l h = ground arith

status_from-status_byte : (s : Status) → status_from (status_byte s) ≡ some s
unfolding status_from
status_from-status_byte s = ground arith

status_from_inv : (b : ℕ) (s : Status) → status_from b ≡ some s → status_byte s ≡ b
unfolding status_from
status_from_inv b s h = ground arith

-- The three bytes that stand for a reading.
abbrev pub encode : UnifiedInfo → List ℕ
encode i = i.charging_percentage ∷ level_byte i.level ∷ status_byte i.status ∷ []

info-some :
    (p : ℕ) (l : Option Level) (s : Option Status) (i : UnifiedInfo)
    → info p l s ≡ some i
    → (p ≡ i.charging_percentage) × (l ≡ some i.level) × (s ≡ some i.status)
unfolding info
info-some p none s i e = cc
info-some p (some l) none i e = cc
info-some p (some l) (some s) i e = ground arith

info_decodes :
    (b c : ℕ) (i : UnifiedInfo)
    → b ≡ level_byte i.level
    → c ≡ status_byte i.status
    → info i.charging_percentage (level_from b) (status_from c) ≡ some i
unfolding info
info_decodes b c i eb ec =
    rw (eb, ec) (rw (level_from-level_byte i.level, status_from-status_byte i.status) refl)

encode_inv :
    (a b c : ℕ) (i : UnifiedInfo)
    → a ∷ b ∷ c ∷ [] ≡ encode i
    → (a ≡ i.charging_percentage) × (b ≡ level_byte i.level) × (c ≡ status_byte i.status)
encode_inv a b c i e = (cc e, cc e, cc e)

info_iff :
    (a b c : ℕ) (i : UnifiedInfo)
    → (info a (level_from b) (status_from c) ≡ some i) ↔ (a ∷ b ∷ c ∷ [] ≡ encode i)
info_iff a b c i = (forth, back)
  where
    forth : info a (level_from b) (status_from c) ≡ some i → a ∷ b ∷ c ∷ [] ≡ encode i
    forth e =
        let (p, l, s) = info-some a (level_from b) (status_from c) i e in
        let lb = level_from_inv b i.level l in
        let sb = status_from_inv c i.status s in cc (p, lb, sb)

    back : a ∷ b ∷ c ∷ [] ≡ encode i → info a (level_from b) (status_from c) ≡ some i
    back e = let (p, l, s) = encode_inv a b c i e in rw p (info_decodes b c i l s)

-- The getter and the event decoder read a payload as a reading exactly if its first three bytes stand
-- for that reading; the decoder reads events of sub id 0 only.
pub get_battery_info-encode :
    (a b c : ℕ) (rest : List ℕ) (i : UnifiedInfo) (sub_id : ℕ)
    → ((get_battery_info (a ∷ b ∷ c ∷ rest) ≡ some i) ↔ (a ∷ b ∷ c ∷ [] ≡ encode i))
      × ((decode_event sub_id (a ∷ b ∷ c ∷ rest) ≡ some i)
          ↔ ((sub_id ≡ 0) × (a ∷ b ∷ c ∷ [] ≡ encode i)))
unfolding get_battery_info decode_event
get_battery_info-encode a b c rest i sub_id = (
  info_iff a b c i,
  (
    (λ e. (ground arith, (info_iff a b c i).0 (ground arith))),
    λ p. rw p.0 ((info_iff a b c i).1 p.1),
  ),
)

pub count_level : Level → List Level → ℕ
count_level l [] = 0
count_level l (x ∷ xs) =
    if level_byte x == level_byte l then suc (count_level l xs) else count_level l xs

-- A level is reported once if its bit is set, and not at all otherwise.
pub capabilities_from-count :
    (levels flags : ℕ) (l : Level)
    → count_level l (capabilities_from levels flags).reported_levels
      ≡ (if has_bits levels (level_byte l) then 1 else 0)
unfolding capabilities_from count_level
capabilities_from-count levels flags critical = ground arith
capabilities_from-count levels flags low = ground arith
capabilities_from-count levels flags good = ground arith
capabilities_from-count levels flags full = ground arith

-- The event decoder reads function 0 alone.
pub decode_event-none :
    (sub_id : ℕ) (payload : List ℕ) → sub_id ≢ 0 → decode_event sub_id payload ≡ none
unfolding decode_event
decode_event-none sub_id payload n = ground arith
