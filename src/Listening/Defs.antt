-- ===== src/Listening/Defs.antt =====
-- The handling of events of a ListeningSocket. What accept(2) gives from call to call is a list, as are the bytes of
-- the address of a connection; behind the list it would block. The callback of the client is a function:
-- whether it releases the descriptor from the object that it is given, and what it throws, if it
-- does: a std::exception, or what is none. The callback for exceptions may throw too.
use bb_eventloop.Common.{ℕ, suc, List, [], ◌∷◌, ◌++◌, Bool, Option, none, some, if◌then◌else◌}

pub record Connection : Type 0 where
  pub fd : ℕ
  pub address : List ℕ

pub data Answer : Type 0 where
  connects : Connection → Answer
  would_block : Answer
  fails : Answer

pub data Thrown : Type 0 where
  standard other : Thrown

pub record Reaction : Type 0 where
  pub releases : Bool
  pub throws : Option Thrown

-- The calls of the callback, the accepted descriptors that it released and those that were closed, the calls of the
-- callback for exceptions, if there is one, whether that throws, and what accept gives next.
pub record ListeningSocket : Type 0 where
  pub answers : List Answer
  pub has_handler : Bool
  pub handler_throws : Bool
  pub calls : List Connection
  pub released : List ℕ
  pub closed : List ℕ
  pub reports : ℕ

-- How accept ends: it returns whether there may be more, or an exception leaves it.
pub data Accepted : Type 0 where
  more : ListeningSocket → Accepted
  no_more : ListeningSocket → Accepted
  threw : Thrown → ListeningSocket → Accepted

pub data Ending : Type 0 where
  finished : ListeningSocket → Ending
  escaped : ListeningSocket → Ending

-- The callback for exceptions; what it throws leaves handleEventsOrException.
abbrev pub report : ListeningSocket → Accepted
report s =
    let t : ListeningSocket = record s { reports = suc s.reports } in
    if s.handler_throws then threw other t else no_more t

-- What follows a call of the callback for a connection.
abbrev pub accepted : Option Thrown → ListeningSocket → Accepted
accepted none s = more s
accepted (some t) s = threw t s

-- handleEventsOrException, which catches std::exception, or accept alone where there is no callback for
-- exceptions.
abbrev pub reported : Accepted → Accepted
reported (more s) = more s
reported (no_more s) = no_more s
reported (threw standard s) = if s.has_handler then report s else threw standard s
reported (threw other s) = threw other s

abbrev pub go_on : (ListeningSocket → Ending) → Accepted → Ending
go_on f (more s) = f s
go_on f (no_more s) = finished s
go_on f (threw t s) = escaped s

module _ (react : Connection → Reaction) where
  -- The callback, and then the destructor of the FileDescriptor, which runs on every way out.
  unfoldable pub called : Connection → ListeningSocket → ListeningSocket
  called c s = record s {
    calls = s.calls ++ c ∷ [];
    released = if (react c).releases then c.fd ∷ s.released else s.released;
    closed = if (react c).releases then s.closed else c.fd ∷ s.closed;
  }

  unfoldable pub accept : Answer → ListeningSocket → Accepted
  accept (connects c) s = accepted (react c).throws (called c s)
  accept would_block s = no_more s
  accept fails s = threw standard s

  unfoldable pub handle_loop : List Answer → ListeningSocket → Ending
  handle_loop [] s = go_on finished (reported (accept would_block (record s { answers = [] })))
  handle_loop (a ∷ rest) s =
      go_on (handle_loop rest) (reported (accept a (record s { answers = rest })))

  unfoldable pub handle_events_cb : ListeningSocket → Ending
  handle_events_cb s = handle_loop s.answers s
