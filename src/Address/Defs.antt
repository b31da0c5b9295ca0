-- ===== src/Address/Defs.antt =====
-- The class SocketAddress. The union `sa` is its bytes, as Linux lays them out on a little-endian machine:
-- the family in bytes 0 and 1, the port of both internet families in 2 and 3, the IPv4 address from
-- 4 on, the IPv6 address from 8 on and its scope from 24 on, and the path of a Unix address from 2 on.
-- getaddrinfo and getservbyname are parameters.
use Prim.Native.Nat.{compare, Ordering}
use bb_eventloop.Common.{
  zeros, word, dword, byte_at, put_at, ℕ, zero, suc, ◌+◌, ◌-◌, ◌*◌, ◌/◌, ◌%◌, min, Option, none,
  some, List, [], ◌∷◌, ◌++◌, Bool, true, false, ◌&&◌, ◌==◌, ltb, leb, if◌then◌else◌, length, take,
  drop, Outcome, returns, throws, ◌>>=◌, too_long_unix_socket_path, translation_error,
}

pub record SocketAddress : Type 0 where
  pub sa : List ℕ
  pub used_size : ℕ

-- sizeof(sa), sizeof(sockaddr_un), sizeof(sockaddr_in), sizeof(sockaddr_in6), and the place and the
-- size of sun_path
abbrev pub sa_size : ℕ
sa_size = 112

abbrev pub sun_size : ℕ
sun_size = 110

abbrev pub sin_size : ℕ
sin_size = 16

abbrev pub sin6_size : ℕ
sin6_size = 28

abbrev pub path_offset : ℕ
path_offset = 2

abbrev pub path_size : ℕ
path_size = 108

abbrev pub af_unspec : ℕ
af_unspec = 0

abbrev pub af_unix : ℕ
af_unix = 1

abbrev pub af_inet : ℕ
af_inet = 2

abbrev pub af_inet6 : ℕ
af_inet6 = 10

-- memCopy: the destination of `n` bytes, whose rest is cleared, and how many were copied.
unfoldable pub mem_copy : List ℕ → ℕ → List ℕ × ℕ
mem_copy src n = let copied = min (length src) n in (take copied src ++ zeros (n - copied), copied)

-- The constructors, by what they are given: nothing, the bytes of a sockaddr, an in_addr and an
-- in6_addr. `addr` is the bytes of the address, `port` in network byte order as it is stored.
unfoldable pub empty : SocketAddress
empty = record { sa = zeros sa_size; used_size = 0 }

unfoldable pub of_sockaddr : List ℕ → SocketAddress
of_sockaddr s =
    let (bytes, copied) = mem_copy s sa_size in record { sa = bytes; used_size = copied }

unfoldable pub of_in_addr : List ℕ → ℕ → SocketAddress
of_in_addr addr port = record {
  sa = put_at 4 addr (put_at 2 (word port) (put_at 0 (word af_inet) (zeros sa_size)));
  used_size = sin_size;
}

unfoldable pub of_in6_addr : List ℕ → ℕ → ℕ → SocketAddress
of_in6_addr addr scope port = record {
  sa =
      put_at 24 (dword scope)
        (put_at 2 (word port) (put_at 8 addr (put_at 0 (word af_inet6) (zeros sa_size))));
  used_size = sin6_size;
}

abbrev pub unix_family : List ℕ
unix_family = put_at 0 (word af_unix) (zeros sa_size)

unfoldable pub create_unix : List ℕ → Outcome SocketAddress
create_unix path =
    if leb path_size (length path)
    then throws too_long_unix_socket_path
    else returns (record {
      sa = put_at path_offset path unix_family;
      used_size = path_offset + length path + 1;
    })

unfoldable pub create_unix_any : SocketAddress
create_unix_any = record { sa = unix_family; used_size = path_offset }

unfoldable pub create_abstract_unix : List ℕ → Outcome SocketAddress
create_abstract_unix path =
    if ltb (path_size - 1) (length path)
    then throws too_long_unix_socket_path
    else returns
        (record { sa = put_at (path_offset + 1) path unix_family; used_size = 2 + length path + 1 })

unfoldable pub create_ipv4_any : SocketAddress
create_ipv4_any = of_sockaddr (word af_inet ++ zeros (sin_size - 2))

unfoldable pub create_ipv6_any : SocketAddress
create_ipv6_any = of_sockaddr (word af_inet6 ++ zeros (sin6_size - 2))

unfoldable pub get_family : SocketAddress → ℕ
get_family a = byte_at a.sa 0 + 256 * byte_at a.sa 1

unfoldable pub get_available_size : SocketAddress → ℕ
get_available_size a =
    if get_family a == af_unix
    then sun_size
    else if get_family a == af_inet
    then sin_size
    else if get_family a == af_inet6
    then sin6_size
    else sa_size

unfoldable pub get_size_pointer : SocketAddress → SocketAddress
get_size_pointer a = record a { used_size = get_available_size a }

abbrev pub is_zero : List ℕ → Bool
is_zero [] = true
is_zero (b ∷ bs) = b == 0 && is_zero bs

unfoldable pub is_any : SocketAddress → Bool
is_any a =
    if get_family a == af_unspec
    then true
    else if get_family a == af_unix
    then a.used_size == path_offset
    else if get_family a == af_inet
    then is_zero (take 2 (drop 2 a.sa)) && is_zero (take 4 (drop 4 a.sa))
    else if get_family a == af_inet6
    then is_zero (take 2 (drop 2 a.sa)) && is_zero (take 16 (drop 8 a.sa))
    else false

-- What getaddrinfo finds for a node and a service, as the bytes of an address of the family, by its
-- flags; the port that a number stands for (boost::lexical_cast) and the one of getservbyname, as stored.
pub record Resolver : Type 0 where
  pub get_addr_info : ℕ → ℕ → List ℕ → List ℕ → Option (List ℕ)
  pub cast : List ℕ → Option ℕ
  pub service_by_name : List ℕ → Option ℕ
  pub decimal : ℕ → List ℕ

-- htons and ntohs
abbrev pub swap_bytes : ℕ → ℕ
swap_bytes p = p % 256 * 256 + p / 256 % 256

abbrev pub ai_numericserv : ℕ
ai_numericserv = 1024

module _ (r : Resolver) where
  unfoldable pub get_addr_info_impl : ℕ → ℕ → List ℕ → List ℕ → Outcome SocketAddress
  get_addr_info_impl flags family node service = elim (r.get_addr_info flags family node service) [
    | none ↦ throws translation_error
    | some bytes ↦
        returns (record { sa = put_at 0 bytes (zeros sa_size); used_size = length bytes })
  ]

  -- getAddrInfoWithService and getAddrInfoWithPort, which createIPv4, createIPv6 and createIPv4OrIPv6 call
  -- with their family
  unfoldable pub create_with_service : ℕ → List ℕ → List ℕ → Outcome SocketAddress
  create_with_service family node service = get_addr_info_impl 0 family node service

  unfoldable pub create_with_port : ℕ → List ℕ → ℕ → Outcome SocketAddress
  create_with_port family node port =
      get_addr_info_impl ai_numericserv family node (r.decimal (swap_bytes port))

  unfoldable pub get_serv_by_name : List ℕ → Outcome ℕ
  get_serv_by_name service = elim (r.cast service) [
    | some port ↦ returns (swap_bytes port)
    | none ↦ elim (r.service_by_name service) [
      | none ↦ throws translation_error
      | some port ↦ returns port
    ]
  ]

  unfoldable pub create_ipv4 : List ℕ → List ℕ → Outcome SocketAddress
  create_ipv4 addr service = do port ← get_serv_by_name service; returns (of_in_addr addr port)

  unfoldable pub create_ipv6 : List ℕ → ℕ → List ℕ → Outcome SocketAddress
  create_ipv6 addr scope service = do
    port ← get_serv_by_name service
    returns (of_in6_addr addr scope port)

-- memcmp. A read beyond the object does not occur where the used size is within it.
unfoldable pub memcmp : ℕ → List ℕ → List ℕ → Ordering
memcmp zero xs ys = Ordering.eq
memcmp (suc n) [] ys = Ordering.eq
memcmp (suc n) (x ∷ xs) [] = Ordering.eq
memcmp (suc n) (x ∷ xs) (y ∷ ys) = elim (compare x y) [
  | Ordering.lt ↦ Ordering.lt
  | Ordering.eq ↦ memcmp n xs ys
  | Ordering.gt ↦ Ordering.gt
]

abbrev pub is_eq : Ordering → Bool
is_eq Ordering.lt = false
is_eq Ordering.eq = true
is_eq Ordering.gt = false

abbrev pub is_lt : Ordering → Bool
is_lt Ordering.lt = true
is_lt Ordering.eq = false
is_lt Ordering.gt = false

-- operator ==
unfoldable pub equal : SocketAddress → SocketAddress → Bool
equal a b = a.used_size == b.used_size && is_eq (memcmp a.used_size a.sa b.sa)

-- operator <
unfoldable pub less : SocketAddress → SocketAddress → Bool
less a b =
    if ltb a.used_size b.used_size
    then true
    else if a.used_size == b.used_size
    then is_lt (memcmp a.used_size a.sa b.sa)
    else false
