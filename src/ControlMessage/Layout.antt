-- ===== src/ControlMessage/Layout.antt =====
-- How the messages of a ControlMessage lie in its buffer.
use bb_eventloop.Common.{
  ℕ, zero, suc, ◌+◌, ◌-◌, ◌^◌, ◌<◌, ◌≤◌, ◌≡◌, refl, sym, ap, ◌∙◌, List, [], ◌∷◌, ◌++◌, append_assoc,
  length, drop, length-append, take-all, take-append_le, drop-append_ge, put_at, zeros,
  length-zeros, arith,
}
use bb_eventloop.ControlMessage.Defs.{
  Header, Message, cmsg_align, cmsg_space, header_bytes, append, resize,
}

-- The padding behind a value of so many bytes.
abbrev pub padding : ℕ → List ℕ
padding n = zeros (cmsg_align n - n)

abbrev pub header_of : Message → Header
header_of m = record { cmsg_len = 16 + length m.value; cmsg_level = m.level; cmsg_type = m.type }

-- One message with its padding, and a sequence of them.
abbrev pub encode : Message → List ℕ
encode m = header_bytes (header_of m) ++ (m.value ++ padding (length m.value))

abbrev pub encode_all : List Message → List ℕ
encode_all [] = []
encode_all (m ∷ ms) = encode m ++ encode_all ms

-- What is written behind the bytes that are there, into new ones.
put_behind :
    (bs src new : List ℕ) (n : ℕ)
    → n ≡ length bs
    → put_at n src (bs ++ new) ≡ bs ++ (src ++ drop (length src) new)
put_behind bs src new n e =
    ap (λ l. l ++ (src ++ drop (n + length src) (bs ++ new)))
      (take-append_le n bs new (omega arith) ∙ take-all n bs (omega arith))
    ∙ ap (λ l. bs ++ (src ++ l)) (drop-append_ge (length src) (n + length src) bs new (omega arith))

drop-zeros : (k m n : ℕ) → n ≡ k + m → drop k (zeros n) ≡ zeros m
drop-zeros zero m n e = ap zeros (omega arith)
drop-zeros (suc k) m zero e = absurd (omega arith)
drop-zeros (suc k) m (suc n) e = drop-zeros k m n (omega arith)

pub cmsg_align-le : (n : ℕ) → n + 7 < 2 ^ 64 → n ≤ cmsg_align n
unfolding cmsg_align
cmsg_align-le n h = omega arith

-- A header and a value, one behind the other in new room behind what is there.
written_lem :
    (bs hdr value : List ℕ) (room : ℕ)
    → length hdr ≡ 16
    → length value ≤ room
    → put_at (length bs + 16) value (put_at (length bs) hdr (resize (length bs + (room + 16)) bs))
      ≡ bs ++ (hdr ++ (value ++ zeros (room - length value)))
written_lem bs hdr value room e h =
    let resized : resize (length bs + (room + 16)) bs ≡ bs ++ zeros (room + 16) =
      ap (λ l. l ++ zeros (length bs + (room + 16) - length bs))
        (take-all (length bs + (room + 16)) bs (omega arith))
      ∙ ap (λ n. bs ++ zeros n) (omega arith) in
    let with_header : put_at (length bs) hdr (bs ++ zeros (room + 16)) ≡ (bs ++ hdr) ++ zeros room =
      put_behind bs hdr (zeros (room + 16)) (length bs) refl
      ∙ ap (λ l. bs ++ (hdr ++ l)) (drop-zeros (length hdr) room (room + 16) (omega arith))
      ∙ sym (append_assoc bs hdr (zeros room)) in
    ap (λ l. put_at (length bs + 16) value (put_at (length bs) hdr l)) resized
    ∙ ap (put_at (length bs + 16) value) with_header
    ∙ put_behind (bs ++ hdr) value (zeros room) (length bs + 16)
        (omega (arith, length-append bs hdr, e))
    ∙ append_assoc bs hdr (value ++ drop (length value) (zeros room))
    ∙ ap (λ l. bs ++ (hdr ++ (value ++ l)))
        (drop-zeros (length value) (room - length value) room (omega arith))

pub length-encode :
    (m : Message) → length m.value + 7 < 2 ^ 64 → length (encode m) ≡ cmsg_space (length m.value)
length-encode m h = omega (
  arith,
  length-append (header_bytes (header_of m)) (m.value ++ padding (length m.value)),
  length-append m.value (padding (length m.value)),
  length-zeros (cmsg_align (length m.value) - length m.value),
  cmsg_align-le (length m.value) h,
)

-- A message that is appended behind a buffer that is in use as a whole.
pub append_lem :
    (m : Message) (bs : List ℕ)
    → length m.value + 7 < 2 ^ 64
    → append m.level m.type m.value (record { buffer = bs; used_size = length bs })
      ≡ record { buffer = bs ++ encode m; used_size = length (bs ++ encode m) }
unfolding append
append_lem m bs h = λ i. record {
  buffer =
      written_lem bs (header_bytes (header_of m)) m.value (cmsg_align (length m.value)) refl
        (cmsg_align-le (length m.value) h) i;
  used_size =
      (sym (ap (◌+◌ (length bs)) (length-encode m h)) ∙ sym (length-append bs (encode m))) i;
}
