-- ===== src/Lib.antt =====
-- EventLoop, a C++ library of an event loop on epoll: a runner executes callbacks, timers and the
-- listeners of file descriptors in one thread, and sockets use stream buffers for their data.
--
-- The parts that are modelled, with the files of the repository that they are translated from:
--   * Common: numbers, lists, words of 64 bits, and `Outcome`, how a call ends (it returns, it
--     throws or aborts, or it runs into undefined behaviour); Attempts has the same for the
--     sockets, with the state that a SystemException leaves.
--   * StreamBuffer: src/lib/StreamBuffer.cpp and include/EventLoop/StreamBuffer.hpp. Memory is the
--     heap of the shared arrays; Defs has allocate, cutHead (`cut_head`), spliceHead, appendData,
--     appendStreamBuffer and findLocation, Arrays has linearize, getConstArray, getMutableArray and
--     getData, and Vectors getUsedIOVec and getFreeIOVec. A loop of the source is a function of its
--     own, `..._loop`. Cells says what a stream buffer stands for: the addresses of its data and of
--     its room. The other modules prove the operations against that, and need that the room is no
--     other object's (`IsExclusive`).
--   * Timers: src/lib/TimerQueue.cpp and src/lib/Timer.cpp, with executeFirstTimer of
--     src/lib/BaseEpollRunner.cpp. One record holds the multimap, and the iterator and the callback
--     of every timer. Times are integers, and the clock is an argument; a time that is scheduled is
--     a finite duration of boost, in 64 bits of microseconds, as a sum beyond overflows.
--   * Callbacks: src/lib/CallbackQueue.cpp. The queue with callbacks that add callbacks; the lock
--     of the source makes each operation one step, also for calls from another thread.
--   * Fds: src/lib/FDListenerMap.cpp, src/lib/Epoll.cpp, src/lib/FDMonitor.cpp, and of
--     src/lib/EpollRunner.cpp and src/lib/AsyncRunner.cpp the forwarding of the listener calls and
--     the loop over the events of one wait. A listener may catch the exceptions of its calls.
--     epoll_ctl is a parameter, the record `Kernel`, with what epoll_ctl(2) documents of a call
--     that succeeds.
--   * Runners: of src/lib/AsyncRunner.cpp step and executeTimersAndUpdateTimer. What the callbacks
--     do to the listeners and the timers, or that they throw, and what the listeners do to the
--     timers, is a parameter. Turn composes a step from Fds and the timers.
--   * MainLoop: src/lib/EpollRunner.cpp. Defs has run, runImpl, isTimeout and wait over the parts
--     above, as functions that give the timers they executed; what the client's functions do and
--     what epoll_wait gives is the record `Environment`. Threads has wakeUp, the event pipe and the
--     callback queue with its lock as steps of several threads, with canContinue between execute
--     and the wait as a phase.
--   * Address: src/lib/SocketAddress.cpp. An address is the bytes of its union and the used size.
--     Defs has the constructors, isAny, == and <, Pattern the forms of its text, and Text the
--     operators << and >>. getaddrinfo, getservbyname, inet_ntop and the conversions of numbers are
--     parameters.
--   * SeqPacket: src/lib/SeqPacketSocket.cpp. The record has the fields of the socket, the events
--     that the runner listens to for it, the packets that the kernel took, and the answers of
--     sendmsg, recvmsg and epoll_ctl to come. What the callbacks of the connection and of received
--     data send is a parameter; the others send nothing. Removing a listener is taken not to fail.
--     Refused is about an epoll_ctl that fails. Queue has the invariant, Run the life of a socket.
--   * Streams: src/lib/StreamSocket.cpp, in the same way, with the two stream buffers as the bytes
--     that they stand for: cutHead drops bytes from the front and appendData adds some behind, as
--     StreamBuffer shows. `write` is what a client does, it appends to the output and calls
--     startSending.
--   * Children: src/lib/ChildProcess.cpp after fork, with the state of the child that kill and
--     waitpid see. What read and write give are arguments. Ending is about kill and SIGCHLD,
--     Feeding about the input.
--   * Signals: src/lib/SignalSet.cpp, and of src/lib/EpollRunner.cpp the class SignalFD, with the
--     mask of the thread. Which numbers are signals is a parameter. Members is about the iteration,
--     Masks about setSignals, Arrivals about the signals that are read.
--   * ControlMessage: src/lib/ControlMessage.cpp and include/EventLoop/ControlMessage.hpp, with a
--     value of a type as its bytes, and a pointer as a place in the buffer. Layout is about what
--     append writes, RoundTrip and PastEnd about the iteration.
--   * Dump: src/lib/DumpFormatter.cpp, the sink that indents what the dump functions print.
--   * Listening: src/lib/ListeningSocket.cpp, the handling of events. What accept gives is a list
--     in the state, and what the callback of the client does, with what it throws, is a parameter.
--   * Descriptors: src/lib/FileDescriptor.cpp, any number of objects and what they closed and
--     released.
--   * Callees: include/EventLoop/Callee.hpp and include/EventLoop/WeakCallback.hpp, a shared
--     pointer as the number of the Life that it points to.
--   * Handlers: src/lib/UncaughtExceptionHandler.cpp in Terminate, src/lib/SigPipeSuppressor.cpp in
--     Pipe, with the signals of the thread as the record `Thread`.
--   * Examples: concrete states of all these.
--
-- The parts meet in a runner: EpollRunner and AsyncRunner take a timer of Timers when the time of
-- get_timeout has passed, run the queue of Callbacks, and hand the events of a wait to the listeners
-- of Fds. A socket is such a listener. A StreamSocket has a StreamBuffer for the data that it
-- receives and one for those that it sends.
--
-- Bounds and fuel: sizes are numbers modulo 2 ^ 64 (`add_size`, `sub_size`), and a theorem on
-- growing sizes has the bound as a hypothesis. Most loops are structural. That
-- of CallbackQueue::execute ends only if the callbacks stop adding callbacks: its fuel is enough when
-- it exceeds the weight of the queue, where a callback weighs more than all that it adds. That of
-- executeTimersAndUpdateTimer ends if the callbacks schedule no timer more than they cancel:
-- its fuel is enough when it exceeds the number of scheduled timers. The iteration of a SignalSet has
-- fuel for one signal more than MAX_SIGNAL, which its reference in Members shows to be enough. The loop over
-- control messages needs one step more than there are messages, the handler of the event pipe one more
-- than there are bytes. runImpl has a number of turns and fuel for the callbacks of each, as it is meant
-- to go on until it is told to stop; its waits need timers of less than 2 ^ 31 milliseconds.
--
-- Not modelled: the start of a child process, and the constructors of ListeningSocket and of the
-- event pipe; a removal of a socket's listener that fails; the class TimerFD of AsyncRunner, and MockableRunner; the dump functions,
-- which print the state; the wrappers of system calls in src/lib/System.cpp; the tests, the examples and the copy of gmock.
pub mod Address
pub mod Callbacks
pub mod Callees
pub mod Children
pub mod Common
pub mod ControlMessage
pub mod Descriptors
pub mod Dump
pub mod Examples
pub mod Fds
pub mod Handlers
pub mod Listening
pub mod MainLoop
pub mod Runners
pub mod SeqPacket
pub mod Signals
pub mod StreamBuffer
pub mod Streams
pub mod Timers
