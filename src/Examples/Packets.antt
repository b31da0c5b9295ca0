-- ===== src/Examples/Packets.antt =====
-- Packet sockets: one that queues two packets while it connects, one with an empty packet, and one whose
-- greeting fails with EPIPE.
use bb_eventloop.Common.{◌≡◌, refl, some, [], ◌∷◌, true, false}
use bb_eventloop.Common.Attempts.{returns, ◌>>=◌}
use bb_eventloop.SeqPacket.Defs.{
  Packet, accepted, would_block, failed, all_data_sent, SeqPacketSocket, Callbacks, Events, connect,
  take_over, send, check_outgoing_data, try_send_fast, sendmsg, queue, modify_fd_listener,
}
use bb_eventloop.SeqPacket.Queue.{IsLive}
use bb_eventloop.SeqPacket.Run.{sends, step, Reaches, takes_over, then_step}
use bb_eventloop.SeqPacket.Draining.{IsIdle, IsWritable, rounds, drain_lem, empty_packet_repeats}

abbrev one : Packet
one = record { bytes = 1 ∷ []; cm = [] }

abbrev two : Packet
two = record { bytes = 2 ∷ []; cm = [] }

abbrev nothing_in : Packet
nothing_in = record { bytes = []; cm = [] }

-- A client that answers with the packet `one`.
abbrev client : Callbacks
client = record {
  max_size = 8;
  has_established = true;
  has_all_data_sent = true;
  greeting = [];
  answer = λ bytes. one ∷ [];
}

abbrev writable : Events
writable = record {
  event_in = false;
  event_out = true;
  event_err = false;
  event_hup = false;
  error = 0;
}

-- The kernel takes the first packet only.
abbrev half : SeqPacketSocket
half = take_over (accepted ∷ would_block ∷ []) [] []

abbrev after_one : SeqPacketSocket
after_one = record half { sent = one ∷ []; replies = would_block ∷ []; calls = all_data_sent ∷ [] }

abbrev after_two : SeqPacketSocket
after_two = record after_one {
  sending = true;
  output_queue = two ∷ [];
  events = some 5;
  replies = [];
}

sends_one : step client (sends one) half ≡ returns after_one
unfolding send try_send_fast sendmsg take_over connect
sends_one = refl

sends_two : step client (sends two) after_one ≡ returns after_two
unfolding send try_send_fast sendmsg take_over connect queue modify_fd_listener
sends_two = refl

abbrev journey : Reaches client (one ∷ two ∷ []) after_two
journey =
    then_step (sends two)
      (then_step (sends one) (takes_over (accepted ∷ would_block ∷ []) []) refl sends_one) refl
      sends_two

-- Two packets wait, and the kernel takes both.
abbrev loaded : SeqPacketSocket
loaded = record {
  fd = true;
  connecting = false;
  sending = true;
  output_queue = one ∷ two ∷ [];
  events = some 5;
  sent = [];
  replies = accepted ∷ accepted ∷ would_block ∷ [];
  incoming = [];
  ctl = [];
  calls = [];
}

loaded-IsLive : IsLive loaded
loaded-IsLive = record {
  open_fd = refl;
  accepting = refl;
  listened = (5, refl);
  armed = λ h. refl;
  waiting = refl;
  nonempty = refl;
  no_closing = refl;
}

drain_example :
    check_outgoing_data client writable loaded
    ≡ returns (record loaded {
      output_queue = [];
      sent = one ∷ two ∷ [];
      replies = would_block ∷ [];
      sending = false;
      events = some 1;
      calls = all_data_sent ∷ [];
    })
drain_example = drain_lem client writable loaded (would_block ∷ []) loaded-IsLive refl refl

-- The kernel takes the empty packet three times.
abbrev idle : SeqPacketSocket
idle = take_over (accepted ∷ accepted ∷ accepted ∷ would_block ∷ []) [] []

idle-IsIdle : IsIdle idle
unfolding take_over connect
idle-IsIdle = record {
  open_fd = refl;
  connected = refl;
  not_sending = refl;
  empty = refl;
  listened = (1, refl);
  accepting = refl;
}

writable-IsWritable : IsWritable writable
writable-IsWritable = record { no_in = refl; out = refl; no_err = refl; no_hup = refl }

empty_packet_repeats_example :
    (send client nothing_in idle >>= rounds client writable 2)
    ≡ returns (record idle {
      sending = true;
      output_queue = nothing_in ∷ [];
      events = some 5;
      sent = nothing_in ∷ nothing_in ∷ nothing_in ∷ [];
      replies = would_block ∷ [];
    })
unfolding take_over connect
empty_packet_repeats_example =
    empty_packet_repeats 2 client writable nothing_in idle (would_block ∷ []) idle-IsIdle
      writable-IsWritable refl refl

abbrev greeter : Callbacks
greeter = record client { greeting = one ∷ [] }

abbrev refused_socket : SeqPacketSocket
refused_socket = record loaded {
  connecting = true;
  sending = false;
  output_queue = [];
  replies = failed 32 ∷ [];
}
