-- ===== src/ControlMessage/RoundTrip.antt =====
-- What append puts into a ControlMessage, an iteration with getData reads again.
use bb_eventloop.Common.{
  ℕ, zero, suc, ◌+◌, ◌-◌, ◌^◌, ◌<◌, ◌≡◌, refl, sym, ap, ◌∙◌, some, List, [], ◌∷◌, ◌++◌,
  append_assoc, append-nil, length, take, drop, length-append, take-all, take-append_le,
  drop-append_ge, number, number-little, sub_size, sub_size_lem, arith, returns, ◌>>=◌,
}
use bb_eventloop.ControlMessage.Defs.{
  ControlMessage, Message, Iterator, cmsg_align, header_at, append, bytes_at, empty, begin, end,
  equal, increment, dereference, get_data, read_message, read_from,
}
use bb_eventloop.ControlMessage.Layout.{
  padding, header_of, encode, encode_all, append_lem, length-encode, cmsg_align-le,
}

-- A message whose fields fit the header: its length with the header and the padding is a size_t.
pub record IsMessage (m : Message) : Type 0 where
  pub short : length m.value + 23 < 2 ^ 64
  pub level_fits : m.level < 2 ^ 32
  pub type_fits : m.type < 2 ^ 32

abbrev pub AllMessages : List Message → Type 0
AllMessages [] = Unit {0}
AllMessages (m ∷ ms) = IsMessage m × AllMessages ms

abbrev pub append_all : List Message → ControlMessage → ControlMessage
append_all [] cm = cm
append_all (m ∷ ms) cm = append_all ms (append m.level m.type m.value cm)

pub bytes_at-behind :
    (bs xs : List ℕ) (k place count : ℕ)
    → place ≡ length bs + k
    → bytes_at place count (bs ++ xs) ≡ take count (drop k xs)
bytes_at-behind bs xs k place count e = ap (take count) (drop-append_ge k place bs xs e)

pub header_at-encode :
    (m : Message) (bs rest : List ℕ)
    → IsMessage m
    → header_at (length bs) (bs ++ (encode m ++ rest)) ≡ header_of m
unfolding header_at
header_at-encode m bs rest v = λ i. record {
  cmsg_len =
      (ap number (bytes_at-behind bs (encode m ++ rest) 0 (length bs) 8 (omega arith))
          ∙ number-little 8 (16 + length m.value) (omega (arith, v.short)))
        i;
  cmsg_level =
      (ap number (bytes_at-behind bs (encode m ++ rest) 8 (length bs + 8) 4 refl)
          ∙ number-little 4 m.level (omega (arith, v.level_fits)))
        i;
  cmsg_type =
      (ap number (bytes_at-behind bs (encode m ++ rest) 12 (length bs + 12) 4 refl)
          ∙ number-little 4 m.type (omega (arith, v.type_fits)))
        i;
}

pub value_at-encode :
    (m : Message) (bs rest : List ℕ)
    → bytes_at (length bs + 16) (length m.value) (bs ++ (encode m ++ rest)) ≡ m.value
value_at-encode m bs rest =
    bytes_at-behind bs (encode m ++ rest) 16 (length bs + 16) (length m.value) refl
    ∙ take-append_le (length m.value) (m.value ++ padding (length m.value)) rest
        (omega (arith, length-append m.value (padding (length m.value))))
    ∙ take-append_le (length m.value) m.value (padding (length m.value)) (omega arith)
    ∙ take-all (length m.value) m.value (omega arith)

-- The iterator at what is behind the bytes `bs`, in a buffer that is in use as a whole.
abbrev at : List ℕ → List ℕ → Iterator
at bs behind = record { ptr = length bs; size = length behind }

abbrev whole : List ℕ → List ℕ → ControlMessage
whole bs behind = record { buffer = bs ++ behind; used_size = length (bs ++ behind) }

length-encode-rest :
    (m : Message) (rest : List ℕ)
    → IsMessage m
    → length (encode m ++ rest) ≡ cmsg_align (length m.value) + 16 + length rest
length-encode-rest m rest v =
    omega (arith, length-append (encode m) rest, length-encode m (omega (arith, v.short)))

dereference_lem :
    (m : Message) (bs rest : List ℕ)
    → IsMessage m
    → dereference (whole bs (encode m ++ rest)) (at bs (encode m ++ rest)) ≡ returns (header_of m)
unfolding dereference
dereference_lem m bs rest v =
    let size = length-encode-rest m rest v in
    let all = length-append bs (encode m ++ rest) in
    let le = cmsg_align-le (length m.value) (omega (arith, v.short)) in
    ground (arith, header_at-encode m bs rest v, size, all, le)

get_data_lem :
    (m : Message) (bs rest : List ℕ)
    → IsMessage m
    → get_data (length m.value) (whole bs (encode m ++ rest)) (length bs) (header_of m)
      ≡ returns m.value
unfolding get_data
get_data_lem m bs rest v =
    let size = length-encode-rest m rest v in
    let all = length-append bs (encode m ++ rest) in
    let le = cmsg_align-le (length m.value) (omega (arith, v.short)) in
    ground (arith, value_at-encode m bs rest, size, all, le)

read_message_lem :
    (m : Message) (bs rest : List ℕ)
    → IsMessage m
    → read_message (whole bs (encode m ++ rest)) (at bs (encode m ++ rest)) ≡ returns m
unfolding read_message
read_message_lem m bs rest v =
    let cm = whole bs (encode m ++ rest) in
    let count : 16 + length m.value - 16 ≡ length m.value = omega arith in
    rw (dereference_lem m bs rest v) (
      ap
        (λ n.
          get_data n cm (length bs) (header_of m)
          >>= (λ l. returns (record { level = m.level; type = m.type; value = l })))
        count
      ∙ ap (λ o. o >>= (λ l. returns (record { level = m.level; type = m.type; value = l })))
          (get_data_lem m bs rest v))

pub cmsg_align-add : (n : ℕ) → n + 23 < 2 ^ 64 → cmsg_align (16 + n) ≡ cmsg_align n + 16
unfolding cmsg_align
cmsg_align-add n h = omega arith

increment_lem :
    (m : Message) (bs rest : List ℕ)
    → IsMessage m
    → length (encode m ++ rest) < 2 ^ 64
    → increment (whole bs (encode m ++ rest)) (at bs (encode m ++ rest)) ≡ at (bs ++ encode m) rest
unfolding increment
increment_lem m bs rest v h =
    let size = length-encode-rest m rest v in
    let one = length-encode m (omega (arith, v.short)) in
    let asize : cmsg_align (header_at (length bs) (bs ++ (encode m ++ rest))).cmsg_len
        ≡ cmsg_align (length m.value) + 16 =
      ap (λ h. cmsg_align h.cmsg_len) (header_at-encode m bs rest v)
      ∙ cmsg_align-add (length m.value) v.short in
    let left : length (encode m ++ rest) - (cmsg_align (length m.value) + 16) ≡ length rest =
      omega (arith, size) in
    λ i. record {
      ptr = (ap (◌+◌ (length bs)) (asize ∙ sym one) ∙ sym (length-append bs (encode m))) i;
      size =
          (ap (sub_size (length (encode m ++ rest))) asize
              ∙ sub_size_lem (length (encode m ++ rest)) (cmsg_align (length m.value) + 16)
                  (omega (arith, size)) h
              ∙ left)
            i;
    }

read_from_lem :
    (n : ℕ) (ms : List Message) (bs : List ℕ)
    → AllMessages ms
    → length ms < n
    → length (encode_all ms) < 2 ^ 64
    → read_from n (whole bs (encode_all ms)) (at bs (encode_all ms)) ≡ some (returns ms)
unfolding read_from equal end
read_from_lem zero ms bs v h k = absurd (omega arith)
read_from_lem (suc n) [] bs v h k = ground (arith, length-append bs [])
read_from_lem (suc n) (m ∷ ms) bs (v, w) h k =
    let rest = encode_all ms in
    let size = length-encode-rest m rest v in
    let all = length-append bs (encode m ++ rest) in
    let ih = read_from_lem n ms (bs ++ encode m) w (omega arith) (omega (arith, size, k)) in
    let same : whole (bs ++ encode m) rest ≡ whole bs (encode m ++ rest) =
      ap (λ l. record { buffer = l; used_size = length l }) (append_assoc bs (encode m) rest) in
    let next : read_from n (whole bs (encode m ++ rest))
          (increment (whole bs (encode m ++ rest)) (at bs (encode m ++ rest)))
        ≡ some (returns ms) =
      ap (read_from n (whole bs (encode m ++ rest))) (increment_lem m bs rest v k)
      ∙ ap (λ cm. read_from n cm (at (bs ++ encode m) rest)) (sym same)
      ∙ ih in
    ground (arith, size, all, read_message_lem m bs rest v, next)

append_all_lem :
    (ms : List Message) (bs : List ℕ)
    → AllMessages ms
    → append_all ms (record { buffer = bs; used_size = length bs })
      ≡ record { buffer = bs ++ encode_all ms; used_size = length (bs ++ encode_all ms) }
append_all_lem [] bs v = ap (λ l. record { buffer = l; used_size = length l }) (sym (append-nil bs))
append_all_lem (m ∷ ms) bs (v, w) =
    ap (append_all ms) (append_lem m bs (omega (arith, v.short)))
    ∙ append_all_lem ms (bs ++ encode m) w
    ∙ ap (λ l. record { buffer = l; used_size = length l })
        (append_assoc bs (encode m) (encode_all ms))

-- Messages that were appended to an empty control message, of less than 2 ^ 64 bytes with their headers and
-- paddings, with a level and a type of 32 bits: an iteration with getData of the size of each value reads
-- the same messages, in their order, and ends; fuel for one step more than there are messages is enough.
pub append_roundtrip :
    (n : ℕ) (ms : List Message)
    → AllMessages ms
    → length ms < n
    → length (encode_all ms) < 2 ^ 64
    → read_from n (append_all ms empty) (begin (append_all ms empty)) ≡ some (returns ms)
unfolding empty begin
append_roundtrip n ms v h k =
    ap (λ cm. read_from n cm (record { ptr = 0; size = cm.used_size })) (append_all_lem ms [] v)
    ∙ read_from_lem n ms [] v h k
