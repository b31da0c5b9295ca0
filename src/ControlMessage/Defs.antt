-- ===== src/ControlMessage/Defs.antt =====
-- The class ControlMessage. A cmsghdr is sixteen bytes, the length in eight of them and the level and the
-- type in four each, and the data of a message lie behind it, as on 64-bit Linux. A value of a type T is
-- its bytes. A pointer is the place in the buffer that it points to.
use bb_eventloop.Common.{
  Option, none, some, ℕ, zero, suc, ◌+◌, ◌-◌, ◌*◌, ◌/◌, ◌%◌, List, [], ◌∷◌, ◌++◌, Bool, ◌||◌, ◌==◌,
  ltb, if◌then◌else◌, length, take, drop, sub_size, size_mod, put_at, zeros, little, number,
  Outcome, returns, throws, undefined, ◌>>=◌, overflow, bad_cmsg, truncated_cmsg,
}

pub record ControlMessage : Type 0 where
  pub buffer : List ℕ
  pub used_size : ℕ

pub record Header : Type 0 where
  pub cmsg_len : ℕ
  pub cmsg_level : ℕ
  pub cmsg_type : ℕ

-- sizeof(struct cmsghdr), and CMSG_ALIGN, CMSG_LEN and CMSG_SPACE
abbrev pub header_size : ℕ
header_size = 16

unfoldable pub cmsg_align : ℕ → ℕ
cmsg_align n = (n + 7) % size_mod / 8 * 8

abbrev pub cmsg_len_of : ℕ → ℕ
cmsg_len_of n = header_size + n

abbrev pub cmsg_space : ℕ → ℕ
cmsg_space n = cmsg_align n + header_size

abbrev pub header_bytes : Header → List ℕ
header_bytes h = little 8 h.cmsg_len ++ (little 4 h.cmsg_level ++ little 4 h.cmsg_type)

-- buffer.resize, which fills with zeros
abbrev pub resize : ℕ → List ℕ → List ℕ
resize n bs = take n bs ++ zeros (n - length bs)

unfoldable pub empty : ControlMessage
empty = record { buffer = []; used_size = 0 }

unfoldable pub of_bytes : List ℕ → ControlMessage
of_bytes bytes = record { buffer = bytes; used_size = length bytes }

unfoldable pub reserve : ℕ → ControlMessage → ControlMessage
reserve size cm = record cm { buffer = resize size cm.buffer }

unfoldable pub mark_used : ℕ → ControlMessage → Outcome ControlMessage
mark_used size cm =
    if ltb (length cm.buffer) size
    then throws overflow
    else returns (record cm { used_size = size })

unfoldable pub append : ℕ → ℕ → List ℕ → ControlMessage → ControlMessage
append level type value cm =
    let needed = cmsg_space (length value) in
    let old = cm.used_size in
    let h : Header = record {
      cmsg_len = cmsg_len_of (length value);
      cmsg_level = level;
      cmsg_type = type;
    } in
    record {
      buffer =
          put_at (old + header_size) value
            (put_at old (header_bytes h) (resize (old + needed) cm.buffer));
      used_size = old + needed;
    }

unfoldable pub of_value : ℕ → ℕ → List ℕ → ControlMessage
of_value level type value = append level type value empty

pub record Iterator : Type 0 where
  pub ptr : ℕ
  pub size : ℕ

unfoldable pub begin : ControlMessage → Iterator
begin cm = record { ptr = 0; size = cm.used_size }

unfoldable pub end : ControlMessage → Iterator
end cm = record { ptr = cm.used_size; size = 0 }

unfoldable pub equal : Iterator → Iterator → Bool
equal i j = i.ptr == j.ptr

abbrev pub bytes_at : ℕ → ℕ → List ℕ → List ℕ
bytes_at place count bs = take count (drop place bs)

unfoldable pub header_at : ℕ → List ℕ → Header
header_at place bs = record {
  cmsg_len = number (bytes_at place 8 bs);
  cmsg_level = number (bytes_at (place + 8) 4 bs);
  cmsg_type = number (bytes_at (place + 12) 4 bs);
}

unfoldable pub increment : ControlMessage → Iterator → Iterator
increment cm i =
    let asize = cmsg_align (header_at i.ptr cm.buffer).cmsg_len in
    record { ptr = i.ptr + asize; size = sub_size i.size asize }

-- The length is read only where the size says that there is a header; beyond the buffer, that is undefined.
unfoldable pub dereference : ControlMessage → Iterator → Outcome Header
dereference cm i =
    if ltb i.size header_size
    then throws bad_cmsg
    else if ltb (length cm.buffer) (i.ptr + header_size)
    then undefined
    else (let h = header_at i.ptr cm.buffer in
        if ltb h.cmsg_len header_size || ltb i.size h.cmsg_len then throws bad_cmsg else returns h)

-- getData of a type of `count` bytes, for the header `h` at `ptr`
unfoldable pub get_data : ℕ → ControlMessage → ℕ → Header → Outcome (List ℕ)
get_data count cm ptr h =
    if ltb h.cmsg_len (cmsg_len_of count)
    then throws truncated_cmsg
    else if ltb (length cm.buffer) (ptr + header_size + count)
    then undefined
    else returns (bytes_at (ptr + header_size) count cm.buffer)

-- What the loop that the class is documented with reads: level, type and data of every message.
pub record Message : Type 0 where
  pub level : ℕ
  pub type : ℕ
  pub value : List ℕ

unfoldable pub read_message : ControlMessage → Iterator → Outcome Message
read_message cm i = do
  h ← dereference cm i
  value ← get_data (h.cmsg_len - header_size) cm i.ptr h
  returns (record { level = h.cmsg_level; type = h.cmsg_type; value = value })

abbrev pub followed_by :
    Outcome Message → Option (Outcome (List Message)) → Option (Outcome (List Message))
followed_by (returns m) none = none
followed_by (returns m) (some rest) = some (rest >>= (λ ms. returns (m ∷ ms)))
followed_by (throws e) rest = some (throws e)
followed_by undefined rest = some undefined

-- Nothing where the fuel is used up before the end is reached.
unfoldable pub read_from : ℕ → ControlMessage → Iterator → Option (Outcome (List Message))
read_from zero cm i = none
read_from (suc fuel) cm i =
    if equal i (end cm)
    then some (returns [])
    else followed_by (read_message cm i) (read_from fuel cm (increment cm i))
