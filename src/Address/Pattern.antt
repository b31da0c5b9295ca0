-- ===== src/Address/Pattern.antt =====
-- The forms of text that operator >> of SocketAddress reads. Characters are their codes; the regular
-- expressions are written out as the cuts of the text that they stand for.
use bb_eventloop.Common.{
  ℕ, Option, none, some, List, [], ◌∷◌, ◌++◌, Bool, true, false, not, ◌&&◌, ◌||◌, ◌==◌, leb,
  if◌then◌else◌,
}

infixl 5 ◌>>=◌
abbrev ◌>>=◌ {ℓ κ} : {A : Type ℓ} {B : Type κ} → Option A → (A → Option B) → Option B
none >>= f = none
some a >>= f = f a

-- "unix:", "ipv4:", "ipv6:", "unspecified", '@', ':', '%', '[' and ']'
abbrev pub unix_tag : List ℕ
unix_tag = 117 ∷ 110 ∷ 105 ∷ 120 ∷ 58 ∷ []

abbrev pub ipv4_tag : List ℕ
ipv4_tag = 105 ∷ 112 ∷ 118 ∷ 52 ∷ 58 ∷ []

abbrev pub ipv6_tag : List ℕ
ipv6_tag = 105 ∷ 112 ∷ 118 ∷ 54 ∷ 58 ∷ []

abbrev pub unspecified : List ℕ
unspecified = 117 ∷ 110 ∷ 115 ∷ 112 ∷ 101 ∷ 99 ∷ 105 ∷ 102 ∷ 105 ∷ 101 ∷ 100 ∷ []

abbrev pub at_sign : ℕ
at_sign = 64

abbrev pub colon : ℕ
colon = 58

abbrev pub percent : ℕ
percent = 37

abbrev pub open_bracket : ℕ
open_bracket = 91

abbrev pub close_bracket : ℕ
close_bracket = 93

-- The text behind a fixed beginning, the parts before and behind the first and behind the last of a
-- character, and the text before a last ']'.
unfoldable pub strip : List ℕ → List ℕ → Option (List ℕ)
strip [] s = some s
strip (t ∷ ts) [] = none
strip (t ∷ ts) (c ∷ s) = if c == t then strip ts s else none

unfoldable pub split_first : ℕ → List ℕ → Option (List ℕ × List ℕ)
split_first m [] = none
split_first m (c ∷ s) =
    if c == m
    then some ([], s)
    else elim (split_first m s) [ none ↦ none | some parts ↦ some (c ∷ parts.0, parts.1) ]

unfoldable pub split_last : ℕ → List ℕ → Option (List ℕ × List ℕ)
split_last m [] = none
split_last m (c ∷ s) = elim (split_last m s) [
  | some parts ↦ some (c ∷ parts.0, parts.1)
  | none ↦ if c == m then some ([], s) else none
]

unfoldable pub unbracket : List ℕ → Option (List ℕ)
unbracket [] = none
unbracket (c ∷ []) = if c == close_bracket then some [] else none
unbracket (c ∷ d ∷ s) = elim (unbracket (d ∷ s)) [ none ↦ none | some t ↦ some (c ∷ t) ]

abbrev pub is_empty : List ℕ → Bool
is_empty [] = true
is_empty (c ∷ s) = false

-- [[:alnum:]_]+
abbrev pub is_word_char : ℕ → Bool
is_word_char c =
    (leb 48 c && leb c 57) || ((leb 65 c && leb c 90) || ((leb 97 c && leb c 122) || c == 95))

abbrev pub all_word_chars : List ℕ → Bool
all_word_chars [] = true
all_word_chars (c ∷ s) = is_word_char c && all_word_chars s

abbrev pub is_word : List ℕ → Bool
is_word s = not (is_empty s) && all_word_chars s

-- The regular expressions of the three forms with a service: what the two groups match.
unfoldable pub match_ipv4 : List ℕ → Option (List ℕ × List ℕ)
match_ipv4 s = do
  rest ← strip ipv4_tag s
  parts ← split_first colon rest
  if is_empty parts.0 || is_empty parts.1 then none else some parts

unfoldable pub match_ipv6_address : List ℕ → Option (List ℕ × List ℕ)
match_ipv6_address s = do
  rest ← strip (ipv6_tag ++ (open_bracket ∷ [])) s
  parts ← split_last colon rest
  node ← unbracket parts.0
  if not (is_empty node) && is_word parts.1 then some (node, parts.1) else none

unfoldable pub match_ipv6_name : List ℕ → Option (List ℕ × List ℕ)
match_ipv6_name s = do
  rest ← strip ipv6_tag s
  parts ← split_first colon rest
  if not (is_empty parts.0) && is_word parts.1 then some parts else none
