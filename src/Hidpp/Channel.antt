-- ===== src/Hidpp/Channel.antt =====
-- crates/openlogi-hidpp/src/channel.rs: the requests in flight, the read loop that answers them, and
-- the listeners. A step of a thread is a function on the channel's state, and the order in which the
-- threads run is a list of events.
pub mod Dispatch
pub mod Requests
pub mod Running
pub mod Answers
pub mod Waiting
pub mod Rounds
pub mod Delivery
pub mod Outgoing
pub mod SoftwareId
mod Runs
use logi_battery.Base.{
  ℕ, suc, ◌+◌, ◌%◌, ◌^◌, List, [], ◌∷◌, ◌++◌, Option, none, some, Bool, true, false, not, ◌&&◌,
  ◌||◌, ◌≡◌, length, take, replicate, map, ltb, ◌==◌, if◌then◌else◌, get_elem?,
}
use logi_battery.Hidpp.Nibble.{U4, from_lo, to_lo}
use logi_battery.Hidpp.Message.{HidppMessage, read_raw, write_raw, widened, long_report_length}

pub data ChannelError : Type 0 where
  message_type_not_supported no_response timeout implementation hidpp_not_supported : ChannelError
  invalid_raw_report_length : ℕ → ChannelError

pub data Result {ℓ} (A : Type ℓ) : Type ℓ where
  ok : A → Result A
  err : ChannelError → Result A

-- `PendingMessage`. The sender's side of its oneshot is the id in `delivered`.
pub record PendingMessage : Type 0 where
  pub id : ℕ
  pub response_predicate : HidppMessage → Bool

-- The fields of `HidppChannel` that requests use. `delivered` holds what was sent through the oneshot
-- senders, newest first, and `heard` what the listeners were called with: handle, message, `matched`.
pub record Channel : Type 0 where
  pub supports_short : Bool
  pub supports_long : Bool
  pub pending : List PendingMessage
  pub pending_message_id : ℕ
  pub listeners : List ℕ
  pub next_listener_hdl : ℕ
  pub delivered : List (ℕ × HidppMessage)
  pub heard : List (ℕ × HidppMessage × Bool)

-- `from_raw_channel`, from what the transport supports.
pub from_raw_channel : Bool → Bool → Result Channel
from_raw_channel supports_short supports_long =
    if not supports_short && not supports_long
    then err hidpp_not_supported
    else ok (record {
      supports_short = supports_short;
      supports_long = supports_long;
      pending = [];
      pending_message_id = 1;
      listeners = [];
      next_listener_hdl = 1;
      delivered = [];
      heard = [];
    })

pub supports_msg : Channel → HidppMessage → Bool
supports_msg ch (HidppMessage.short payload) = ch.supports_short
supports_msg ch (HidppMessage.long payload) = ch.supports_long

pub normalize_outgoing : Channel → HidppMessage → HidppMessage
normalize_outgoing ch (HidppMessage.short payload) =
    if not ch.supports_short && ch.supports_long
    then widened (HidppMessage.short payload)
    else HidppMessage.short payload
normalize_outgoing ch (HidppMessage.long payload) = HidppMessage.long payload

-- `fetch_add(1)` on the 64-bit counter and `PendingRequest::register`: the id that was taken, and the
-- channel with the request at the back of the queue.
pub register : (HidppMessage → Bool) → Channel → ℕ × Channel
register predicate ch = (
  ch.pending_message_id,
  record ch {
    pending =
        ch.pending ++ (record { id = ch.pending_message_id; response_predicate = predicate } ∷ []);
    pending_message_id = (ch.pending_message_id + 1) % 2 ^ 64;
  },
)

-- The first request with the id leaves the queue.
pub remove_id : ℕ → List PendingMessage → List PendingMessage
remove_id i [] = []
remove_id i (p ∷ ps) = if p.id == i then ps else p ∷ remove_id i ps

-- `Drop for PendingRequest`
pub unregister : ℕ → Channel → Channel
unregister i ch = record ch { pending = remove_id i ch.pending }

-- A match found further back leaves `p` in the queue.
behind :
    PendingMessage
    → Option (PendingMessage × List PendingMessage)
    → Option (PendingMessage × List PendingMessage)
behind p none = none
behind p (some (q, rest)) = some (q, p ∷ rest)

-- The first request that accepts the message, and the queue without it: `position` and `remove`.
pub take_match : HidppMessage → List PendingMessage → Option (PendingMessage × List PendingMessage)
unfolding behind
take_match msg [] = none
take_match msg (p ∷ ps) =
    if p.response_predicate msg then some (p, ps) else behind p (take_match msg ps)

-- Every listener is called, in an order that the hash map decides.
pub notify : HidppMessage → Bool → Channel → Channel
notify msg matched ch = record ch {
  heard = map (λ hdl. (hdl, msg, matched)) ch.listeners ++ ch.heard;
}

-- The body of `read_loop` behind `read_raw`.
pub dispatch : HidppMessage → Channel → Channel
unfolding notify
dispatch msg ch = elim (take_match msg ch.pending) [
  | none ↦ notify msg false ch
  | some (waiting, rest) ↦
      notify msg true (record ch { pending = rest; delivered = (waiting.id, msg) ∷ ch.delivered })
]

-- What one `read_report` gave: the bytes in the buffer, or an error, which is logged and retried.
pub data ReadResult : Type 0 where
  report : List ℕ → ReadResult
  read_error : ReadResult

pub dispatch_read : Option HidppMessage → Channel → Channel
dispatch_read none ch = ch
dispatch_read (some msg) ch = dispatch msg ch

pub on_read : ReadResult → Channel → Channel
unfolding dispatch_read
on_read (report bytes) ch = dispatch_read (read_raw bytes) ch
on_read read_error ch = ch

-- The rounds of the loop until the close signal.
pub read_loop : List ReadResult → Channel → Channel
read_loop [] ch = ch
read_loop (r ∷ rs) ch = read_loop rs (on_read r ch)

-- `HashMap::insert` and `remove` on the handles.
insert_hdl : ℕ → List ℕ → List ℕ
insert_hdl h [] = h ∷ []
insert_hdl h (x ∷ xs) = if x == h then h ∷ xs else x ∷ insert_hdl h xs

remove_hdl : ℕ → List ℕ → List ℕ × Bool
remove_hdl h [] = ([], false)
remove_hdl h (x ∷ xs) =
    let (rest, found) = remove_hdl h xs in if x == h then (xs, true) else (x ∷ rest, found)

pub add_msg_listener : Channel → ℕ × Channel
unfolding insert_hdl
add_msg_listener ch = (
  ch.next_listener_hdl,
  record ch {
    listeners = insert_hdl ch.next_listener_hdl ch.listeners;
    next_listener_hdl = (ch.next_listener_hdl + 1) % 2 ^ 32;
  },
)

pub remove_msg_listener : ℕ → Channel → Bool × Channel
unfolding remove_hdl
remove_msg_listener h ch =
    ((remove_hdl h ch.listeners).1, record ch { listeners = (remove_hdl h ch.listeners).0 })

written_bytes : Option (List ℕ × ℕ) → Result (List ℕ)
written_bytes none = err implementation
written_bytes (some (buf, len)) = ok (take len buf)

-- The bytes that `send_and_forget` hands to `write_report`. The buffer holds every message, so the
-- panic of `write_raw` is not met.
pub send_and_forget : HidppMessage → Channel → Result (List ℕ)
unfolding written_bytes
send_and_forget msg ch =
    if not (supports_msg ch (normalize_outgoing ch msg))
    then err message_type_not_supported
    else written_bytes (write_raw (normalize_outgoing ch msg) (replicate long_report_length 0))

-- The length check of `write_raw_report`; what follows is the transport's.
pub write_raw_report : List ℕ → Result (List ℕ)
write_raw_report bytes =
    if ltb (length bytes) 1 || ltb 64 (length bytes)
    then err (invalid_raw_report_length (length bytes))
    else ok bytes

-- What may happen while a request is under way: a round of the read loop, another request that
-- starts or goes away, the end of its own write, a look at its own receiver, and the deadline.
pub data Event : Type 0 where
  received : ReadResult → Event
  registered : (HidppMessage → Bool) → Event
  unregistered : ℕ → Event
  wrote write_failed polled elapsed : Event

pub data Outcome : Type 0 where
  done : Result HidppMessage → Outcome
  waiting : Outcome

pub find_delivered : ℕ → List (ℕ × HidppMessage) → Option HidppMessage
find_delivered i [] = none
find_delivered i ((j, msg) ∷ ds) = if j == i then some msg else find_delivered i ds

pub is_pending : ℕ → List PendingMessage → Bool
is_pending i [] = false
is_pending i (p ∷ ps) = p.id == i || is_pending i ps

-- One poll of the receiver: the response, a sender that is gone, or nothing yet.
pub poll : ℕ → Channel → Outcome
poll i ch = elim (find_delivered i ch.delivered) [
  | some msg ↦ done (ok msg)
  | none ↦ if is_pending i ch.pending then waiting else done (err no_response)
]

-- The `select!` of `send_with_timeout`, from the registration on. Whatever ends it, the pending
-- request is dropped.
pub run_send : ℕ → Bool → List Event → Channel → Channel × Outcome
run_send i written [] ch = (ch, waiting)
run_send i written (received r ∷ es) ch = run_send i written es (on_read r ch)
run_send i written (registered p ∷ es) ch = run_send i written es (register p ch).1
run_send i written (unregistered j ∷ es) ch = run_send i written es (unregister j ch)
run_send i written (wrote ∷ es) ch = run_send i true es ch
run_send i true (write_failed ∷ es) ch = run_send i true es ch
run_send i false (write_failed ∷ es) ch = (unregister i ch, done (err implementation))
run_send i false (polled ∷ es) ch = run_send i false es ch
run_send i true (polled ∷ es) ch = elim (poll i ch) [
  | done r ↦ (unregister i ch, done r)
  | waiting ↦ run_send i true es ch
]
run_send i written (elapsed ∷ es) ch = (unregister i ch, done (err timeout))

pub send_with_timeout :
    HidppMessage → (HidppMessage → Bool) → List Event → Channel → Channel × Outcome
send_with_timeout msg predicate events ch =
    let taken = register predicate ch in
    if not (supports_msg ch (normalize_outgoing ch msg))
    then (ch, done (err message_type_not_supported))
    else run_send taken.0 false events taken.1
