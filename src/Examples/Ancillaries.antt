-- ===== src/Examples/Ancillaries.antt =====
-- A descriptor of four bytes and credentials of twelve, as control messages.
use bb_eventloop.Common.{◌≡◌, List, [], ◌∷◌, arith, returns, undefined, some}
use bb_eventloop.ControlMessage.Defs.{Message, cmsg_align, read_from, empty, begin, of_bytes}
use bb_eventloop.ControlMessage.RoundTrip.{IsMessage, append_all, append_roundtrip}
use bb_eventloop.ControlMessage.PastEnd.{unpadded, unpadded_undefined}

abbrev rights : Message
rights = record { level = 1; type = 1; value = 5 ∷ 0 ∷ 0 ∷ 0 ∷ [] }

abbrev credentials : Message
credentials = record {
  level = 1;
  type = 2;
  value = 77 ∷ 1 ∷ 0 ∷ 0 ∷ 232 ∷ 3 ∷ 0 ∷ 0 ∷ 232 ∷ 3 ∷ 0 ∷ 0 ∷ [];
}

rights-IsMessage : IsMessage rights
rights-IsMessage = record { short = omega arith; level_fits = omega arith; type_fits = omega arith }

credentials-IsMessage : IsMessage credentials
credentials-IsMessage = record {
  short = omega arith;
  level_fits = omega arith;
  type_fits = omega arith;
}

abbrev both : List Message
both = rights ∷ credentials ∷ []

append_roundtrip_example :
    read_from 3 (append_all both empty) (begin (append_all both empty)) ≡ some (returns both)
unfolding cmsg_align
append_roundtrip_example =
    append_roundtrip 3 both (rights-IsMessage, (credentials-IsMessage, tt)) (omega arith)
      (omega arith)

unpadded_undefined_example :
    read_from 2 (of_bytes (unpadded rights)) (begin (of_bytes (unpadded rights))) ≡ some undefined
unpadded_undefined_example = unpadded_undefined 0 rights rights-IsMessage (λ e. omega (arith, e))
