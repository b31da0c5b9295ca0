-- ===== src/Examples/Addresses.antt =====
-- Addresses as keys, and their text: "unix:/a", "unix:@a", 127.0.0.1:80, 127.0.0.2:80 and [::1]:80.
use bb_eventloop.Common.{
  ℕ, List, ◌++◌, zeros, word, dword, ◌≡◌, refl, [], ◌∷◌, none, arith, returns, true,
}
use bb_eventloop.Address.Defs.{
  SocketAddress, of_in_addr, of_in6_addr, of_sockaddr, create_unix, create_abstract_unix, empty,
  less, equal, is_lt, is_eq, Resolver,
}
use bb_eventloop.Address.Text.{Printer, output, extract}
use bb_eventloop.Address.Lexicographic.{lex}
use bb_eventloop.Address.Order.{IsValid, key, is_gt, order_lem}
use bb_eventloop.Address.Validity.{ResultIsValid, if_short, create_lem}
use bb_eventloop.Address.RoundTrip.{unix_address, abstract_address, unix_roundtrip}

abbrev printer : Printer
printer = record { ntop = λ family addr. addr; decimal = λ n. n ∷ [] }

abbrev resolver : Resolver
resolver = record {
  get_addr_info = λ flags family node service. none;
  cast = λ s. none;
  service_by_name = λ s. none;
  decimal = λ n. n ∷ [];
}

abbrev local_host : SocketAddress
local_host = of_in_addr (127 ∷ 0 ∷ 0 ∷ 1 ∷ []) 20480

abbrev other_host : SocketAddress
other_host = of_in_addr (127 ∷ 0 ∷ 0 ∷ 2 ∷ []) 20480

local_host-IsValid : IsValid local_host
unfolding of_in_addr
local_host-IsValid = record { whole = refl; inside = omega arith }

other_host-IsValid : IsValid other_host
unfolding of_in_addr
other_host-IsValid = record { whole = refl; inside = omega arith }

order_example :
    (less local_host other_host ≡ is_lt (lex (key local_host) (key other_host)))
    × (equal local_host other_host ≡ is_eq (lex (key local_host) (key other_host)))
    × (less other_host local_host ≡ is_gt (lex (key local_host) (key other_host)))
order_example = order_lem local_host other_host local_host-IsValid other_host-IsValid

abbrev path : List ℕ
path = 47 ∷ 97 ∷ []

abbrev loopback : List ℕ
loopback = 0 ∷ 0 ∷ 0 ∷ 0 ∷ 0 ∷ 0 ∷ 0 ∷ 0 ∷ 0 ∷ 0 ∷ 0 ∷ 0 ∷ 0 ∷ 0 ∷ 0 ∷ 1 ∷ []

create_example :
    (create_unix path ≡ if_short path (unix_address path))
    × (create_abstract_unix path ≡ if_short path (abstract_address path))
    × ResultIsValid (create_unix path)
    × ResultIsValid (create_abstract_unix path)
    × ((of_sockaddr path).sa ≡ path ++ zeros 110)
    × ((of_sockaddr path).used_size ≡ 2)
    × IsValid (of_sockaddr path)
    × (local_host ≡ record {
      sa = word 2 ++ (word 20480 ++ ((127 ∷ 0 ∷ 0 ∷ 1 ∷ []) ++ zeros 104));
      used_size = 16;
    })
    × IsValid local_host
    × (of_in6_addr loopback 0 20480 ≡ record {
      sa = word 10 ++ (word 20480 ++ (zeros 4 ++ (loopback ++ (dword 0 ++ zeros 84))));
      used_size = 28;
    })
    × IsValid (of_in6_addr loopback 0 20480)
create_example = create_lem path (127 ∷ 0 ∷ 0 ∷ 1 ∷ []) loopback 0 20480 refl refl

unix_roundtrip_example :
    (a : SocketAddress) × (create_unix (47 ∷ 97 ∷ []) ≡ returns a)
    × (extract resolver (output printer a) empty ≡ returns (true, a))
unix_roundtrip_example =
    unix_roundtrip printer resolver empty 47 (97 ∷ []) refl (omega arith) (omega arith)
