-- ===== src/Examples/Flows.antt =====
-- A stream socket: the kernel takes one of three bytes that are written, and then no more.
use bb_eventloop.Common.{◌≡◌, refl, some, [], ◌∷◌, true, false}
use bb_eventloop.Common.Attempts.{returns}
use bb_eventloop.Streams.Defs.{
  took, failed, StreamSocket, Callbacks, Events, take_over, connect, write, start_sending, try_send,
  send, sendmsg, rearm, modify_fd_listener,
}
use bb_eventloop.Streams.Run.{Reaches, takes_over, writes}

abbrev peer : Callbacks
peer = record {
  has_established = true;
  has_all_data_sent = true;
  greeting = [];
  consumed = λ bytes. 1;
  answer = λ bytes. 7 ∷ [];
}

abbrev readable : Events
readable = record {
  event_in = true;
  event_out = true;
  event_err = false;
  event_hup = false;
  error = 0;
}

abbrev fresh : StreamSocket
fresh = take_over (took 1 ∷ failed 32 ∷ []) [] []

abbrev partly_sent : StreamSocket
partly_sent = record fresh {
  sending = true;
  output = 2 ∷ 3 ∷ [];
  events = some 5;
  sent = 1 ∷ [];
  replies = failed 32 ∷ [];
}

writes_three : write peer (1 ∷ 2 ∷ 3 ∷ []) fresh ≡ returns partly_sent
unfolding write start_sending try_send send sendmsg rearm modify_fd_listener take_over connect
writes_three = refl

abbrev course : Reaches peer (1 ∷ 2 ∷ 3 ∷ []) partly_sent
course = writes (1 ∷ 2 ∷ 3 ∷ []) (takes_over (took 1 ∷ failed 32 ∷ []) []) writes_three
