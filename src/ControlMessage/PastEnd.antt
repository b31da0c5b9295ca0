-- ===== src/ControlMessage/PastEnd.antt =====
-- What an iteration does where the last message has no padding behind it.
use bb_eventloop.Common.{
  false, ℕ, suc, ◌+◌, ◌-◌, ◌%◌, ◌^◌, ◌<◌, ◌≤◌, ◌≡◌, refl, ap, ◌∙◌, some, List, ◌++◌, length, take,
  take-all, number-little, sub_size, sub_size_wraps, arith, returns, undefined, ◌>>=◌,
}
use bb_eventloop.ControlMessage.Defs.{
  ControlMessage, Message, Iterator, cmsg_align, header_bytes, header_at, of_bytes, begin, end,
  equal, increment, dereference, get_data, read_message, read_from,
}
use bb_eventloop.ControlMessage.Layout.{header_of}
use bb_eventloop.ControlMessage.RoundTrip.{IsMessage, cmsg_align-add}

-- The header and the value, and nothing behind them.
abbrev pub unpadded : Message → List ℕ
unpadded m = header_bytes (header_of m) ++ m.value

header_at-unpadded : (m : Message) → IsMessage m → header_at 0 (unpadded m) ≡ header_of m
unfolding header_at
header_at-unpadded m v = λ i. record {
  cmsg_len = number-little 8 (16 + length m.value) (omega (arith, v.short)) i;
  cmsg_level = number-little 4 m.level (omega (arith, v.level_fits)) i;
  cmsg_type = number-little 4 m.type (omega (arith, v.type_fits)) i;
}

dereference-unpadded :
    (m : Message)
    → IsMessage m
    → dereference (of_bytes (unpadded m)) (begin (of_bytes (unpadded m))) ≡ returns (header_of m)
unfolding dereference of_bytes begin
dereference-unpadded m v = ground (arith, header_at-unpadded m v)

get_data-unpadded :
    (m : Message)
    → get_data (length m.value) (of_bytes (unpadded m)) 0 (header_of m) ≡ returns m.value
unfolding get_data of_bytes
get_data-unpadded m =
    let value : take (length m.value) m.value ≡ m.value =
      take-all (length m.value) m.value (omega arith) in
    ground (arith, value)

read_message-unpadded :
    (m : Message)
    → IsMessage m
    → read_message (of_bytes (unpadded m)) (begin (of_bytes (unpadded m))) ≡ returns m
unfolding read_message of_bytes begin
read_message-unpadded m v =
    let cm = of_bytes (unpadded m) in
    let count : 16 + length m.value - 16 ≡ length m.value = omega arith in
    rw (dereference-unpadded m v) (
      ap
        (λ n.
          get_data n cm 0 (header_of m)
          >>= (λ l. returns (record { level = m.level; type = m.type; value = l })))
        count
      ∙ ap (λ o. o >>= (λ l. returns (record { level = m.level; type = m.type; value = l })))
          (get_data-unpadded m))

cmsg_align_gt : (n : ℕ) → n + 23 < 2 ^ 64 → ¬ (n % 8 ≡ 0) → n < cmsg_align n
unfolding cmsg_align
cmsg_align_gt n h k = omega arith

cmsg_align_le : (n : ℕ) → n + 23 < 2 ^ 64 → cmsg_align n ≤ n + 7
unfolding cmsg_align
cmsg_align_le n h = omega arith

-- The iterator behind the value, with the padding that is not there.
past_end : Message → Iterator
past_end m = record {
  ptr = 16 + cmsg_align (length m.value);
  size = sub_size (length (unpadded m)) (cmsg_align (length m.value) + 16);
}

increment-unpadded :
    (m : Message)
    → IsMessage m
    → increment (of_bytes (unpadded m)) (begin (of_bytes (unpadded m))) ≡ past_end m
unfolding increment of_bytes begin past_end
increment-unpadded m v =
    let asize : cmsg_align (header_at 0 (unpadded m)).cmsg_len ≡ cmsg_align (length m.value) + 16 =
      ap (λ h. cmsg_align h.cmsg_len) (header_at-unpadded m v)
      ∙ cmsg_align-add (length m.value) v.short in
    let place : 0 + (cmsg_align (length m.value) + 16) ≡ 16 + cmsg_align (length m.value) =
      omega arith in
    λ i. record {
      ptr = (ap (◌+◌ 0) asize ∙ place) i;
      size = ap (sub_size (length (unpadded m))) asize i;
    }

read_from-past_end :
    (n : ℕ) (m : Message)
    → IsMessage m
    → ¬ (length m.value % 8 ≡ 0)
    → read_from (suc n) (of_bytes (unpadded m)) (past_end m) ≡ some undefined
unfolding read_from equal end read_message dereference of_bytes past_end
read_from-past_end n m v h =
    let gt = cmsg_align_gt (length m.value) v.short h in
    let le = cmsg_align_le (length m.value) v.short in
    let wrapped =
      sub_size_wraps (length (unpadded m)) (cmsg_align (length m.value) + 16) (omega (arith, gt))
        (omega (arith, le, v.short)) in
    ground (arith, gt, le, wrapped)

read_from_step :
    (n : ℕ) (cm : ControlMessage) (i : Iterator) (m : Message)
    → equal i (end cm) ≡ false
    → read_message cm i ≡ returns m
    → read_from n cm (increment cm i) ≡ some undefined
    → read_from (suc n) cm i ≡ some undefined
unfolding read_from
read_from_step n cm i m e f g = rw (e, f, g) refl

not_at_end :
    (m : Message) → equal (begin (of_bytes (unpadded m))) (end (of_bytes (unpadded m))) ≡ false
unfolding equal begin end of_bytes
not_at_end m = ground arith

-- A buffer that holds one message and ends with its value, which is not a multiple of eight bytes long, so that
-- the padding is missing, as it may be in what recvmsg gives for the last message: the iteration does not end
-- with the message, but reads beyond the buffer, whatever the fuel for two or more steps.
pub unpadded_undefined :
    (n : ℕ) (m : Message)
    → IsMessage m
    → ¬ (length m.value % 8 ≡ 0)
    → read_from (suc (suc n)) (of_bytes (unpadded m)) (begin (of_bytes (unpadded m)))
      ≡ some undefined
unpadded_undefined n m v h =
    let cm = of_bytes (unpadded m) in
    let next : read_from (suc n) cm (increment cm (begin cm)) ≡ some undefined =
      ap (read_from (suc n) cm) (increment-unpadded m v) ∙ read_from-past_end n m v h in
    read_from_step (suc n) cm (begin cm) m (not_at_end m) (read_message-unpadded m v) next
