-- ===== src/Address/Validity.antt =====
-- What the constructors of SocketAddress make, byte by byte.
use bb_eventloop.Common.{
  ap, refl, sym, true, false, ◌++◌, append-nil, take-append_ge, drop-append_ge, if◌then◌else◌,
  zeros, word, dword, put_at, length-zeros, length-put_at, ℕ, ◌+◌, ◌-◌, ◌≤◌, ◌≡◌, List, ◌∙◌, min,
  length, length-append, length-take, arith, Outcome, returns, throws, too_long_unix_socket_path,
  Bool-cases, leb, ltb, inl, inr, subst, take,
}
use bb_eventloop.Address.Defs.{
  SocketAddress, sa_size, sun_size, af_inet, af_inet6, mem_copy, of_sockaddr, of_in_addr,
  of_in6_addr, create_unix, create_abstract_unix, get_size_pointer, get_available_size, unix_family,
}
use bb_eventloop.Address.Order.{IsValid}
use bb_eventloop.Address.RoundTrip.{
  unix_address, abstract_address, create_unix_lem, create_abstract_unix_lem,
}

of_sockaddr-IsValid : (s : List ℕ) → IsValid (of_sockaddr s)
unfolding of_sockaddr mem_copy
of_sockaddr-IsValid s = record {
  whole = omega (
    arith,
    length-append (take (min (length s) 112) s) (zeros (112 - min (length s) 112)),
    length-take (min (length s) 112) s,
    length-zeros (112 - min (length s) 112),
  );
  inside = omega arith;
}

of_in_addr-IsValid : (addr : List ℕ) (port : ℕ) → length addr ≡ 4 → IsValid (of_in_addr addr port)
unfolding of_in_addr
of_in_addr-IsValid addr port h = record {
  whole =
      length-put_at 4 addr (put_at 2 (word port) (put_at 0 (word af_inet) (zeros sa_size)))
        (omega arith);
  inside = omega arith;
}

of_in6_addr-IsValid :
    (addr : List ℕ) (scope port : ℕ) → length addr ≡ 16 → IsValid (of_in6_addr addr scope port)
unfolding of_in6_addr
of_in6_addr-IsValid addr scope port h = record {
  whole =
      length-put_at 24 (dword scope)
        (put_at 2 (word port) (put_at 8 addr (put_at 0 (word af_inet6) (zeros sa_size))))
        (omega
          (arith, length-put_at 8 addr (put_at 0 (word af_inet6) (zeros sa_size)) (omega arith)))
      ∙ length-put_at 8 addr (put_at 0 (word af_inet6) (zeros sa_size)) (omega arith);
  inside = omega arith;
}

-- What createUnix and createAbstractUnix return.
pub data ResultIsValid : Outcome SocketAddress → Type 0 where
  made : {a : SocketAddress} → IsValid a → a.used_size ≤ sun_size → ResultIsValid (returns a)
  refused : ResultIsValid (throws too_long_unix_socket_path)

-- A path written behind the family fits where it is short enough.
path-IsValid :
    (offset : ℕ) (path : List ℕ)
    → offset + length path ≤ 112
    → 3 + length path ≤ 112
    → IsValid (record { sa = put_at offset path unix_family; used_size = 2 + length path + 1 })
path-IsValid offset path h k = record {
  whole = length-put_at offset path unix_family (omega arith);
  inside = omega arith;
}

create_unix-IsValid : (path : List ℕ) → ResultIsValid (create_unix path)
unfolding create_unix
create_unix-IsValid path = elim (Bool-cases (leb 108 (length path))) [
  | inl e ↦ subst ResultIsValid {x = throws too_long_unix_socket_path} (rw (create_unix, e)) refused
  | inr e ↦
      subst ResultIsValid
        {x = returns (record { sa = put_at 2 path unix_family; used_size = 2 + length path + 1 })}
        (rw (create_unix, e))
        (made (path-IsValid 2 path (ground arith) (ground arith)) (ground arith))
]

create_abstract_unix-IsValid : (path : List ℕ) → ResultIsValid (create_abstract_unix path)
unfolding create_abstract_unix
create_abstract_unix-IsValid path = elim (Bool-cases (ltb 107 (length path))) [
  | inl e ↦
      subst ResultIsValid {x = throws too_long_unix_socket_path} (rw (create_abstract_unix, e))
        refused
  | inr e ↦
      subst ResultIsValid
        {x = returns (record { sa = put_at 3 path unix_family; used_size = 2 + length path + 1 })}
        (rw (create_abstract_unix, e))
        (made (path-IsValid 3 path (ground arith) (ground arith)) (ground arith))
]

get_size_pointer-IsValid : (a : SocketAddress) → IsValid a → IsValid (get_size_pointer a)
unfolding get_size_pointer get_available_size
get_size_pointer-IsValid a v = record { whole = v.whole; inside = ground arith }

-- What createUnix and createAbstractUnix do with a path: they throw unless it leaves room for a NUL in sun_path.
abbrev pub if_short : List ℕ → SocketAddress → Outcome SocketAddress
if_short path a = if ltb (length path) 108 then returns a else throws too_long_unix_socket_path

create_unix-if_short : (path : List ℕ) → create_unix path ≡ if_short path (unix_address path)
unfolding create_unix
create_unix-if_short path = elim (Bool-cases (leb 108 (length path))) [
  | inl e ↦ let long : ltb (length path) 108 ≡ false = ground arith in rw (e, long, create_unix)
  | inr e ↦
      let short : ltb (length path) 108 ≡ true = ground arith in
      create_unix_lem path (ground arith) ∙ sym (rw short refl)
]

create_abstract_unix-if_short :
    (path : List ℕ) → create_abstract_unix path ≡ if_short path (abstract_address path)
unfolding create_abstract_unix
create_abstract_unix-if_short path = elim (Bool-cases (ltb 107 (length path))) [
  | inl e ↦
      let long : ltb (length path) 108 ≡ false = ground arith in rw (e, long, create_abstract_unix)
  | inr e ↦
      let short : ltb (length path) 108 ≡ true = ground arith in
      create_abstract_unix_lem path (ground arith) ∙ sym (rw short refl)
]

of_in_addr_lem :
    (addr : List ℕ) (port : ℕ)
    → length addr ≡ 4
    → of_in_addr addr port
      ≡ record { sa = word 2 ++ (word port ++ (addr ++ zeros 104)); used_size = 16 }
unfolding of_in_addr
of_in_addr_lem addr port h = rw h

of_in6_addr_lem :
    (addr : List ℕ) (scope port : ℕ)
    → length addr ≡ 16
    → of_in6_addr addr scope port ≡ record {
      sa = word 10 ++ (word port ++ (zeros 4 ++ (addr ++ (dword scope ++ zeros 84))));
      used_size = 28;
    }
unfolding of_in6_addr
of_in6_addr_lem addr scope port h = rw (
  h,
  take-append_ge 0 16 addr (zeros 88) (omega arith),
  drop-append_ge 4 20 addr (zeros 88) (omega arith),
  append-nil addr,
)

-- The constructors from any path, any sockaddr, an IPv4 address of four bytes and an IPv6 address
-- of sixteen. createUnix and createAbstractUnix throw for a path of more than 107 bytes. Otherwise
-- the address is the family, the path, behind a NUL for the abstract one, and zeros up to the end
-- of the union, with a used size of the family, the path and one NUL, which is within sockaddr_un.
-- A sockaddr is copied and cut at the union's size, with zeros behind it. An internet address has
-- its family, port, address and, for IPv6, scope in their places, zeros elsewhere, and the size of
-- its structure. All fill the union and have the used size within it.
pub create_lem :
    (bytes ipv4 ipv6 : List ℕ) (scope port : ℕ)
    → length ipv4 ≡ 4
    → length ipv6 ≡ 16
    → (create_unix bytes ≡ if_short bytes (unix_address bytes))
      × (create_abstract_unix bytes ≡ if_short bytes (abstract_address bytes))
      × ResultIsValid (create_unix bytes)
      × ResultIsValid (create_abstract_unix bytes)
      × ((of_sockaddr bytes).sa ≡ take (min (length bytes) 112) bytes ++ zeros (112 - length bytes))
      × ((of_sockaddr bytes).used_size ≡ min (length bytes) 112)
      × IsValid (of_sockaddr bytes)
      × (of_in_addr ipv4 port
          ≡ record { sa = word 2 ++ (word port ++ (ipv4 ++ zeros 104)); used_size = 16 })
      × IsValid (of_in_addr ipv4 port)
      × (of_in6_addr ipv6 scope port ≡ record {
        sa = word 10 ++ (word port ++ (zeros 4 ++ (ipv6 ++ (dword scope ++ zeros 84))));
        used_size = 28;
      })
      × IsValid (of_in6_addr ipv6 scope port)
unfolding of_sockaddr mem_copy
create_lem bytes ipv4 ipv6 scope port h k = (
  create_unix-if_short bytes,
  create_abstract_unix-if_short bytes,
  create_unix-IsValid bytes,
  create_abstract_unix-IsValid bytes,
  ap (λ n. take (min (length bytes) 112) bytes ++ zeros n) (omega arith),
  refl,
  of_sockaddr-IsValid bytes,
  of_in_addr_lem ipv4 port h,
  of_in_addr-IsValid ipv4 port h,
  of_in6_addr_lem ipv6 scope port k,
  of_in6_addr-IsValid ipv6 scope port k,
)
