-- ===== src/Address/Text.antt =====
-- The operators << and >> of SocketAddress. Characters are their codes. inet_ntop and the printing of a
-- number are parameters.
use bb_eventloop.Common.{
  byte_at, ℕ, zero, suc, ◌+◌, ◌-◌, ◌%◌, ◌*◌, Option, none, some, List, [], ◌∷◌, ◌++◌, Bool, true,
  false, not, ◌&&◌, ◌||◌, ◌==◌, leb, if◌then◌else◌, take, drop, Outcome, returns, throws, undefined,
  ◌>>=◌, translation_error,
}
use bb_eventloop.Address.Pattern.{
  unix_tag, ipv4_tag, ipv6_tag, unspecified, at_sign, colon, percent, open_bracket, close_bracket,
  strip, is_empty, match_ipv4, match_ipv6_address, match_ipv6_name,
}
use bb_eventloop.Address.Defs.{
  SocketAddress, af_unix, af_inet, af_inet6, path_offset, get_family, create_unix, create_unix_any,
  create_abstract_unix, create_with_service, swap_bytes, Resolver,
}

-- The characters of a path, up to `size` of them and up to the first NUL.
unfoldable pub until_nul : ℕ → List ℕ → List ℕ
until_nul zero path = []
until_nul (suc size) [] = []
until_nul (suc size) (c ∷ path) = if c == 0 then [] else c ∷ until_nul size path

unfoldable pub output_unix : List ℕ → ℕ → List ℕ
output_unix path size =
    unix_tag
    ++ (if size == 0
        then []
        else if byte_at path 0 == 0 && not (byte_at path 1 == 0)
        then at_sign ∷ until_nul (size - 1) (drop 1 path)
        else until_nul size path)

-- What inet_ntop makes of the bytes of an address of the family, and a number in decimal
pub record Printer : Type 0 where
  pub ntop : ℕ → List ℕ → List ℕ
  pub decimal : ℕ → List ℕ

module _ (p : Printer) where
  unfoldable pub output_ipv4 : List ℕ → List ℕ
  output_ipv4 sin =
      ipv4_tag
      ++ (p.ntop af_inet (take 4 (drop 4 sin))
          ++ (colon ∷ p.decimal (swap_bytes (byte_at sin 2 + 256 * byte_at sin 3))))

  abbrev pub scope_id : List ℕ → ℕ
  scope_id sin6 =
      byte_at sin6 24 + 256 * (byte_at sin6 25 + 256 * (byte_at sin6 26 + 256 * byte_at sin6 27))

  unfoldable pub output_ipv6 : List ℕ → List ℕ
  output_ipv6 sin6 =
      ipv6_tag
      ++ (open_bracket
          ∷ (p.ntop af_inet6 (take 16 (drop 8 sin6))
              ++ ((if scope_id sin6 == 0 then [] else percent ∷ p.decimal (scope_id sin6))
                  ++ (close_bracket
                      ∷ colon
                      ∷ p.decimal (swap_bytes (byte_at sin6 2 + 256 * byte_at sin6 3))))))

  -- operator <<. The size of the path is a size_t, which wraps around below the start of the path.
  unfoldable pub output : SocketAddress → List ℕ
  output a =
      if get_family a == af_unix
      then output_unix (drop path_offset a.sa)
          ((a.used_size + (18446744073709551616 - path_offset)) % 18446744073709551616)
      else if get_family a == af_inet
      then output_ipv4 a.sa
      else if get_family a == af_inet6
      then output_ipv6 a.sa
      else unspecified

-- The extraction of a word from a stream: without white space, up to the next one.
abbrev pub is_space : ℕ → Bool
is_space c = c == 32 || (leb 9 c && leb c 13)

unfoldable pub until_space : List ℕ → List ℕ
until_space [] = []
until_space (c ∷ s) = if is_space c then [] else c ∷ until_space s

unfoldable pub read_word : List ℕ → List ℕ
read_word [] = []
read_word (c ∷ s) = if is_space c then read_word s else c ∷ until_space s

module _ (r : Resolver) where
  -- What an address is read from a word: nothing where no form fits.
  unfoldable pub input : List ℕ → Outcome (Option SocketAddress)
  input s = elim (strip (unix_tag ++ (at_sign ∷ [])) s) [
    | some path ↦ create_abstract_unix path >>= (λ a. returns (some a))
    | none ↦ elim (strip unix_tag s) [
      | some path ↦
          if is_empty path
          then returns (some create_unix_any)
          else create_unix path >>= (λ a. returns (some a))
      | none ↦ elim (match_ipv4 s) [
        | some (node, service) ↦
            create_with_service r af_inet node service >>= (λ a. returns (some a))
        | none ↦ elim (match_ipv6_address s) [
          | some (node, service) ↦
              create_with_service r af_inet6 node service >>= (λ a. returns (some a))
          | none ↦ elim (match_ipv6_name s) [
            | some (node, service) ↦
                create_with_service r af_inet6 node service >>= (λ a. returns (some a))
            | none ↦ returns none
          ]
        ]
      ]
    ]
  ]

  abbrev extracted : SocketAddress → Outcome (Option SocketAddress) → Outcome (Bool × SocketAddress)
  extracted a (returns (some b)) = returns (true, b)
  extracted a (returns none) = returns (false, a)
  extracted a (throws translation_error) = returns (false, a)
  extracted a (throws e) = throws e
  extracted a undefined = undefined

  -- operator >>: whether the stream is still good, and the address.
  unfoldable pub extract : List ℕ → SocketAddress → Outcome (Bool × SocketAddress)
  extract text a = extracted a (input (read_word text))
