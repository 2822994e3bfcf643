-- ===== src/Pairing/Session/Steps.antt =====
-- What a session that goes on has written and told, step by step.
use mathlib.Core.List.{append-nil}
use logi_battery.Base.{
  sym, subst, ℕ, ◌||◌, ◌∙◌, ap, All-append, ◌≡◌, ◌⊎◌, inl, inr, refl, List, [], ◌∷◌, ◌++◌, Option,
  none, some, Bool, true, false, Bool-cases, arith, if◌then◌else◌, not, ◌==◌,
}
use logi_battery.Pairing.Notification.{
  Notification, discovery_info, discovery_name, pairing_succeeded, pairing_error, passkey,
  malformed_passkey, connected, unifying_lock,
}
use logi_battery.Pairing.Discovery.{DiscoveredDevice, PartialDevice, set_entry}
use logi_battery.Pairing.Session.{
  ReceiverFamily, bolt, unifying, device, timeout, bolt_discovery, bolt_pairing, PairingError,
  PairingEvent, device_found, paired, Write, Arrival, deadline, command, notified, PairingCommand,
  pair, cancel, Session, Progress, going, success, failure, Receiver, send, log, pair_write,
  to_bolt_pairing, built, on_command, on_connected, on_notification, on_parsed, on_message,
  on_arrival, write,
}
use logi_battery.Pairing.Session.Open.{
  is_pair, has_pair, asked, IsNews, Open, IsPaired, Tells, IsPaired-Tells,
}

-- One step, from the writes `ws` to `vs`; a success is one that `T` tells.
abbrev pub Steps : ReceiverFamily → List Write → List Write → (ℕ → Type 0) → Progress → Type 0
Steps family ws vs T (going s) = Open family vs s
Steps family ws vs T (failure e s) = Open family ws s ⊎ Open family vs s
Steps family ws vs T (success s) =
    (before : Session) × (slot : ℕ) × Open family ws before
    × (s ≡ send (paired slot) before)
    × T slot

has_pair-append :
    (ws : List Write) (w : Write) → has_pair (ws ++ w ∷ []) ≡ (has_pair ws || is_pair w)
has_pair-append [] w = ground arith
has_pair-append (v ∷ ws) w = ground (arith, has_pair-append ws w)

send-Open :
    (family : ReceiverFamily) (ws : List Write) (e : PairingEvent) (s : Session)
    → IsNews e
    → Open family ws s
    → Open family ws (send e s)
send-Open family ws e s n o =
    let (es, all, told) = o.news in
    record {
      tracks = o.tracks;
      begun = o.begun;
      news = (es ++ e ∷ [], All-append IsNews es (e ∷ []) all (n, tt), ap (λ v. v ++ e ∷ []) told);
    }

built-Open :
    (family : ReceiverFamily) (ws : List Write) (counter : ℕ)
    (b : PartialDevice × Option DiscoveredDevice) (s : Session)
    → Open family ws s
    → Open family ws (built counter b s)
built-Open family ws counter (d, none) s o = record {
  tracks = o.tracks;
  begun = o.begun;
  news = o.news;
}
built-Open family ws counter (d, some discovered) s o =
    send-Open family ws (device_found discovered) (record s { found = set_entry counter d s.found })
      tt (record { tracks = o.tracks; begun = o.begun; news = o.news })

to_bolt : (b : Bool) → to_bolt_pairing (if b then bolt_pairing else bolt_discovery) ≡ bolt_pairing
to_bolt true = refl
to_bolt false = refl

pair-Open :
    (ws : List Write) (d : DiscoveredDevice) (s : Session)
    → Open bolt ws s
    → Open bolt (ws ++ pair_write d ∷ []) (
        log
          (pair_write d)
          (record s { pairing_auth = some d.authentication; phase = to_bolt_pairing s.phase }))
pair-Open ws d s o = record {
  tracks =
      ap to_bolt_pairing o.tracks
      ∙ to_bolt (has_pair ws)
      ∙ ground (arith, has_pair-append ws (pair_write d));
  begun = ap (λ v. v ++ pair_write d ∷ []) o.begun;
  news = o.news;
}

write_pair-Steps :
    (accepts : Receiver) (ws vs : List Write) (T : ℕ → Type 0) (w : Write) (s : Session)
    → Open bolt vs (log w s)
    → Steps bolt ws vs T (write accepts w s going)
write_pair-Steps accepts ws vs T w s o = elim (Bool-cases (accepts s.written w)) [
  | inl t ↦ rw t o
  | inr f ↦ rw f (inr o)
]

on_command-Steps :
    (family : ReceiverFamily) (accepts : Receiver) (ws : List Write) (T : ℕ → Type 0)
    (c : Option PairingCommand) (s : Session)
    → Open family ws s
    → Steps family ws (ws ++ asked (command c)) T (on_command accepts family c s)
unfolding on_command
on_command-Steps family accepts ws T none s o = inl o
on_command-Steps family accepts ws T (some cancel) s o = inl o
on_command-Steps unifying accepts ws T (some (pair d)) s o = inl o
on_command-Steps bolt accepts ws T (some (pair d)) s o =
    write_pair-Steps accepts ws _ T (pair_write d) _ (pair-Open ws d s o)

on_connected-Steps :
    (family : ReceiverFamily) (ws : List Write) (slot : ℕ) (established : Bool) (s : Session)
    → Open family ws s
    → Steps family ws ws
        (IsPaired family (some (connected slot established)))
        (on_connected family slot established s)
on_connected-Steps bolt ws slot established s o = o
on_connected-Steps unifying ws slot true s o = (s, slot, o, refl, inr (refl, refl))
on_connected-Steps unifying ws slot false s o = o

lock-Steps :
    (family : ReceiverFamily) (ws : List Write) (T : ℕ → Type 0) (b c : Bool) (e f : PairingError)
    (s : Session)
    → Open family ws s
    → Steps family ws ws T (if b then failure e s else if c then failure f s else going s)
lock-Steps family ws T true c e f s o = inl o
lock-Steps family ws T false true e f s o = inl o
lock-Steps family ws T false false e f s o = o

on_notification-Steps :
    (family : ReceiverFamily) (ws : List Write) (note : Notification) (s : Session)
    → Open family ws s
    → Steps family ws ws (IsPaired family (some note)) (on_notification family note s)
unfolding on_notification
on_notification-Steps family ws (discovery_info counter kind address authentication) s o =
    built-Open family ws counter _ s o
on_notification-Steps family ws (discovery_name counter name) s o =
    built-Open family ws counter _ s o
on_notification-Steps family ws (passkey digits value) s o = send-Open family ws _ s tt o
on_notification-Steps family ws malformed_passkey s o = inl o
on_notification-Steps family ws (pairing_succeeded slot) s o = (s, slot, o, refl, inl refl)
on_notification-Steps family ws (pairing_error code) s o = inl o
on_notification-Steps family ws (connected slot established) s o =
    on_connected-Steps family ws slot established s o
on_notification-Steps family ws (unifying_lock open' error) s o =
    lock-Steps family ws _ (not (error == 0)) (not open') (device error) timeout s o

on_parsed-Steps :
    (family : ReceiverFamily) (ws : List Write) (note : Option Notification) (s : Session)
    → Open family ws s
    → Steps family ws ws (IsPaired family note) (on_parsed family note s)
on_parsed-Steps family ws none s o = o
on_parsed-Steps family ws (some note) s o = on_notification-Steps family ws note s o

-- A success that one predicate tells, another tells that it implies.
weaken-Steps :
    (family : ReceiverFamily) (ws : List Write) (S T : ℕ → Type 0) (p : Progress)
    → ((slot : ℕ) → S slot → T slot)
    → Steps family ws ws S p
    → Steps family ws (ws ++ []) T p
weaken-Steps family ws S T (going s) h o = subst (λ vs. Open family vs s) (sym (append-nil ws)) o
weaken-Steps family ws S T (failure e s) h (inl o) = inl o
weaken-Steps family ws S T (failure e s) h (inr o) = inl o
weaken-Steps family ws S T (success s) h (before, slot, o, e, t) = (before, slot, o, e, h slot t)

-- What an arrival makes of an open session.
pub on_arrival-Steps :
    (family : ReceiverFamily) (accepts : Receiver) (ws : List Write) (a : Arrival) (s : Session)
    → Open family ws s
    → Steps family ws (ws ++ asked a) (Tells family a) (on_arrival accepts family a s)
unfolding on_arrival on_message
on_arrival-Steps family accepts ws deadline s o = inl o
on_arrival-Steps family accepts ws (command c) s o = on_command-Steps family accepts ws _ c s o
on_arrival-Steps family accepts ws (notified none) s o = inl o
on_arrival-Steps family accepts ws (notified (some msg)) s o =
    weaken-Steps family ws _ (Tells family (notified (some msg))) _
      (λ slot t. IsPaired-Tells family msg slot t) (on_parsed-Steps family ws _ s o)
