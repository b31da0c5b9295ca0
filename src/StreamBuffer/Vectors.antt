-- ===== src/StreamBuffer/Vectors.antt =====
-- getUsedIOVec and getFreeIOVec. The array of iovecs is new for every call, as its callers use it up to
-- the next one; `iov_max` is IOV_MAX.
use bb_eventloop.Common.{
  ℕ, zero, suc, ◌+◌, ◌-◌, min, List, [], ◌∷◌, ◌==◌, if◌then◌else◌, Outcome, returns, undefined,
  ◌>>=◌,
}
use bb_eventloop.StreamBuffer.Defs.{Buffer, StreamBuffer, Location, find_first_unused}

pub record IoVec : Type 0 where
  pub iov_base : ℕ × ℕ
  pub iov_len : ℕ

-- The loop of getUsedIOVec, with room for so many entries: undefined where it passes the last buffer.
unfoldable pub used_loop : ℕ → ℕ → List Buffer → Outcome (List IoVec)
used_loop zero left bs = returns []
used_loop (suc room) left [] = if left == 0 then returns [] else undefined
used_loop (suc room) left (b ∷ bs) =
    let size = min b.size left in
    let rest = used_loop room (left - size) bs in
    if left == 0
    then returns []
    else do vs ← rest; returns (record { iov_base = (b.base, b.offset); iov_len = size } ∷ vs)

unfoldable pub get_used_iovec : ℕ → StreamBuffer → Outcome (List IoVec)
get_used_iovec iov_max sb = used_loop iov_max sb.used_size sb.buffers

abbrev pub whole : Buffer → IoVec
whole b = record { iov_base = (b.base, b.offset); iov_len = b.size }

unfoldable pub free_loop : ℕ → List Buffer → List IoVec
free_loop zero bs = []
free_loop (suc room) [] = []
free_loop (suc room) (b ∷ bs) = whole b ∷ free_loop room bs

-- The first entry is there whatever IOV_MAX is.
unfoldable pub free_at : ℕ → Location → List IoVec
free_at iov_max l = elim l.at [
  | [] ↦ []
  | b ∷ bs ↦
      record { iov_base = (b.base, b.offset + l.offset); iov_len = b.size - l.offset }
      ∷ free_loop (iov_max - 1) bs
]

unfoldable pub get_free_iovec : ℕ → StreamBuffer → Outcome (List IoVec)
get_free_iovec iov_max sb = do l ← find_first_unused sb; returns (free_at iov_max l)
