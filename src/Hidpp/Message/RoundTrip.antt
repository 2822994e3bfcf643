-- ===== src/Hidpp/Message/RoundTrip.antt =====
-- Reading what was written, and writing what was read.
use logi_battery.Base.{
  ℕ, suc, ◌≤◌, ◌≡◌, refl, ap, subst, ◌∙◌, List, [], ◌∷◌, ◌++◌, some, length, take, drop, replicate,
  All, arith, IsByte, take-append, drop-append,
}
use logi_battery.Hidpp.Message.{
  HidppMessage, short, long, IsFrame, read_raw, write_raw, long_report_length,
}

read_short :
    (b : ℕ) (bs payload : List ℕ)
    → read_raw (b ∷ bs) ≡ some (short payload)
    → (b ≡ 0x10) × (length payload ≡ 6) × (bs ≡ payload)
unfolding read_raw
read_short b bs payload e = ground arith

read_long :
    (b : ℕ) (bs payload : List ℕ)
    → read_raw (b ∷ bs) ≡ some (long payload)
    → (b ≡ 0x11) × (length payload ≡ 19) × (bs ≡ payload)
unfolding read_raw
read_long b bs payload e = ground arith

-- What a write leaves in a buffer: the report at its front, the rest as it was.
pub record Written (m : HidppMessage) (buf out : List ℕ) (len : ℕ) : Type 0 where
  pub result : write_raw m buf ≡ some (out, len)
  pub read_back : read_raw (take len out) ≡ some m
  pub kept : drop len out ≡ drop len buf

-- Every message fits a buffer of the long report's length, reads back as itself from the bytes that
-- were written, and leaves the bytes behind them alone.
pub write_raw-Written :
    (m : HidppMessage) (buf : List ℕ)
    → IsFrame m
    → long_report_length ≤ length buf
    → (out : List ℕ) × (len : ℕ) × Written m buf out len
unfolding write_raw read_raw
write_raw-Written (short payload) buf f h =
    let front : List ℕ = 0x10 ∷ payload in
    (
      front ++ drop (length front) buf,
      7,
      record {
        result = ground arith;
        read_back =
            ap read_raw (take-append 7 front (drop (length front) buf) (ground arith))
            ∙ ground arith;
        kept =
            drop-append 7 front (drop (length front) buf) (ground arith)
            ∙ ap (λ n. drop n buf) (ap suc f.0);
      },
    )
write_raw-Written (long payload) buf f h =
    let front : List ℕ = 0x11 ∷ payload in
    (
      front ++ drop (length front) buf,
      20,
      record {
        result = ground arith;
        read_back =
            ap read_raw (take-append 20 front (drop (length front) buf) (ground arith))
            ∙ ground arith;
        kept =
            drop-append 20 front (drop (length front) buf) (ground arith)
            ∙ ap (λ n. drop n buf) (ap suc f.0);
      },
    )

-- Whatever bytes are read as a message, the message is well formed if they are bytes, and writing it
-- gives the same bytes.
pub read_raw-Written :
    (bytes : List ℕ) (m : HidppMessage)
    → All IsByte bytes
    → read_raw bytes ≡ some m
    → IsFrame m
      × ((out : List ℕ) × (write_raw m (replicate 20 0) ≡ some (out, length bytes))
          × (take (length bytes) out ≡ bytes))
unfolding write_raw
read_raw-Written [] m hb e = unfold read_raw in cc
read_raw-Written (b ∷ bs) (short payload) hb e =
    let (id, len, same) = read_short b bs payload e in
    let front : List ℕ = 0x10 ∷ payload in
    (
      (len, subst (All IsByte) same hb.1),
      (
        front ++ drop (length front) (replicate 20 0),
        ground (arith, ap (length {A = ℕ}) same),
        rw (same, id) (take-append (length front) front _ refl),
      ),
    )
read_raw-Written (b ∷ bs) (long payload) hb e =
    let (id, len, same) = read_long b bs payload e in
    let front : List ℕ = 0x11 ∷ payload in
    (
      (len, subst (All IsByte) same hb.1),
      (
        front ++ drop (length front) (replicate 20 0),
        ground (arith, ap (length {A = ℕ}) same),
        rw (same, id) (take-append (length front) front _ refl),
      ),
    )
