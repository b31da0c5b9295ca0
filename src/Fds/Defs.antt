-- ===== src/Fds/Defs.antt =====
-- FDListenerMap, Epoll and FDMonitor, as the runners put them together. A file descriptor, a listener
-- and a set of epoll events are numbers. The kernel's side of an epoll instance is a parameter.
use bb_eventloop.Common.{
  ℕ, suc, ◌-◌, ◌≡◌, Option, none, some, List, [], ◌∷◌, Bool, true, false, ◌==◌, if◌then◌else◌,
  update, Exception, fd_already_added, non_existing_fd_listener, system_exception,
}

pub data Op : Type 0 where
  ctl_add ctl_mod ctl_del : Op

-- What epoll_ctl(2) replies: EBADF is a programming error, on which System::epollCtl aborts.
pub data CtlReply (K : Type 0) : Type 0 where
  accepted : K → CtlReply K
  refused bad_fd : CtlReply K

-- An epoll instance: epoll_ctl, and the events that it watches a descriptor for. A call that is
-- accepted adds a descriptor that is not watched, or changes or removes one that is.
pub record Kernel (K : Type 0) : Type 1 where
  pub ctl : Op → ℕ → ℕ → K → CtlReply K
  pub watched : K → ℕ → Option ℕ
  pub added :
      (fd events : ℕ) (k k' : K)
      → ctl ctl_add fd events k ≡ accepted k'
      → (watched k fd ≡ none) × ((g : ℕ) → watched k' g ≡ update (watched k) fd (some events) g)
  pub modified :
      (fd events : ℕ) (k k' : K)
      → ctl ctl_mod fd events k ≡ accepted k'
      → (g : ℕ) → watched k' g ≡ update (watched k) fd (some events) g
  pub removed :
      (fd events : ℕ) (k k' : K)
      → ctl ctl_del fd events k ≡ accepted k'
      → (g : ℕ) → watched k' g ≡ update (watched k) fd none g

-- FDListenerMap::MapEntry, with its key. The order of an unordered_map shows in dumps only.
pub record MapEntry : Type 0 where
  pub fd : ℕ
  pub fl : ℕ
  pub events : ℕ

-- The part of a runner that the listeners are in: fdListenerMap, epoll and the FDMonitor.
pub record Runner (K : Type 0) : Type 0 where
  pub map : List MapEntry
  pub kernel : K
  pub add_count : ℕ
  pub monitoring : Bool
  pub set : List ℕ

-- How a call ends, with the state that it leaves behind; `aborted` where the process is ended.
pub data Ending (S : Type 0) : Type 0 where
  done : S → Ending S
  failed : S → Exception → Ending S
  aborted : Ending S

unfoldable pub find : ℕ → List MapEntry → Option MapEntry
find fd [] = none
find fd (m ∷ ms) = if m.fd == fd then some m else find fd ms

unfoldable pub erase : ℕ → List MapEntry → List MapEntry
erase fd [] = []
erase fd (m ∷ ms) = if m.fd == fd then ms else m ∷ erase fd ms

unfoldable pub set_events : ℕ → ℕ → List MapEntry → List MapEntry
set_events fd events [] = []
set_events fd events (m ∷ ms) =
    if m.fd == fd then record m { events = events } ∷ ms else m ∷ set_events fd events ms

-- FDMonitor::add, has, startMonitoring and stopMonitoring
unfoldable pub has : List ℕ → ℕ → Bool
has [] fd = false
has (d ∷ ds) fd = if d == fd then true else has ds fd

unfoldable pub monitor : {K : Type 0} → Runner K → ℕ → Runner K
monitor s fd = if s.monitoring then record s { set = fd ∷ s.set } else s

unfoldable pub start_monitoring : {K : Type 0} → Runner K → Runner K
start_monitoring s = record s { monitoring = true }

unfoldable pub stop_monitoring : {K : Type 0} → Runner K → Runner K
stop_monitoring s = record s { monitoring = false; set = [] }

module _ {K : Type 0} (kernel : Kernel K) where
  -- Epoll::add, modify and del
  unfoldable pub epoll_add : Runner K → ℕ → ℕ → Ending (Runner K)
  epoll_add s fd events = elim (kernel.ctl ctl_add fd events s.kernel) [
    | accepted k ↦ done (record s { kernel = k; add_count = suc s.add_count })
    | refused ↦ failed s system_exception
    | bad_fd ↦ aborted
  ]

  unfoldable pub epoll_modify : Runner K → ℕ → ℕ → Ending (Runner K)
  epoll_modify s fd events = elim (kernel.ctl ctl_mod fd events s.kernel) [
    | accepted k ↦ done (record s { kernel = k })
    | refused ↦ failed s system_exception
    | bad_fd ↦ aborted
  ]

  unfoldable pub epoll_del : Runner K → ℕ → Ending (Runner K)
  epoll_del s fd = elim (kernel.ctl ctl_del fd 0 s.kernel) [
    | accepted k ↦ done (record s { kernel = k; add_count = s.add_count - 1 })
    | refused ↦ failed s system_exception
    | bad_fd ↦ aborted
  ]

  -- FDListenerMap::add, whose callback is BaseEpollRunner::addFDListener
  unfoldable pub add : Runner K → ℕ → ℕ → ℕ → Ending (Runner K)
  add s fl fd events = elim (find fd s.map) [
    | some m ↦ failed s fd_already_added
    | none ↦
        epoll_add (record s { map = record { fd = fd; fl = fl; events = events } ∷ s.map }) fd
          events
  ]

  -- FDListenerMap::modify
  unfoldable pub modify : Runner K → ℕ → ℕ → Ending (Runner K)
  modify s fd events = elim (find fd s.map) [
    | none ↦ failed s non_existing_fd_listener
    | some m ↦ if m.events == events then done s else elim (epoll_modify s fd events) [
      | done s' ↦ done (record s' { map = set_events fd events s'.map })
      | failed s' e ↦ failed s' e
      | aborted ↦ aborted
    ]
  ]

  -- FDListenerMap::del
  unfoldable pub del : Runner K → ℕ → Ending (Runner K)
  del s fd = elim (find fd s.map) [
    | none ↦ failed s non_existing_fd_listener
    | some m ↦ elim (epoll_del s fd) [
      | done s' ↦ done (record s' { map = erase fd s'.map })
      | failed s' e ↦ failed s' e
      | aborted ↦ aborted
    ]
  ]

  -- EpollRunner::delFDListener and AsyncRunner::delFDListener
  unfoldable pub del_fd_listener : Runner K → ℕ → Ending (Runner K)
  del_fd_listener s fd = del (monitor s fd) fd
