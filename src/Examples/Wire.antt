-- ===== src/Examples/Wire.antt =====
-- The protocol over a connection in memory.
use quintses.Common.{ℕ, zero, suc, ◌<◌, ◌≡◌, refl, ◌∙◌, ap, List, [], ◌∷◌, ◌++◌, arith, length}
use quintses.Socket.{Result, ok, err, system_error, Io, SocketWrapper}
use quintses.Socket.Reliable.{IsReliable}
use quintses.Socket.Values.{IsText}
use quintses.Messages.Server.{input, type, sender, create, subsystem_internal_start, input_message}
use quintses.Messages.Server.Types.{IsSameClass, create-type}

abbrev prepend : ℕ → Result (List ℕ × List ℕ) → Result (List ℕ × List ℕ)
prepend b (ok (bs, rest)) = ok (b ∷ bs, rest)
prepend b (err e) = err e

-- The first bytes of a pipe; an error where it has fewer.
unfoldable pub take_bytes : ℕ → Io (List ℕ) (List ℕ)
take_bytes zero c = ok ([], c)
take_bytes (suc n) [] = err (system_error 2)
take_bytes (suc n) (b ∷ c) = prepend b (take_bytes n c)

pub take_bytes-append : (bs rest : List ℕ) → take_bytes (length bs) (bs ++ rest) ≡ ok (bs, rest)
unfolding take_bytes
take_bytes-append [] rest = refl
take_bytes-append (b ∷ bs) rest = rw (take_bytes-append bs rest) refl

abbrev pub pipe : SocketWrapper
pipe = record { Conn = List ℕ; read = take_bytes; write = λ bs c. ok (tt, c ++ bs) }

unfoldable pub pipe-IsReliable : IsReliable pipe
pipe-IsReliable = record {
  pending = λ c. c;
  IsOpen = λ c. Unit;
  write_open = λ bs c o. (c ++ bs, refl, refl, tt);
  read_pending =
      λ bs rest c o e. (rest, ap (take_bytes (length bs)) e ∙ take_bytes-append bs rest, refl, tt);
}

-- "Baddie"
abbrev pub baddie : List ℕ
baddie = b'B' ∷ b'a' ∷ b'd' ∷ b'd' ∷ b'i' ∷ b'e' ∷ []

pub baddie-IsText : IsText baddie
baddie-IsText =
    (omega arith, (omega arith, (omega arith, (omega arith, (omega arith, (omega arith, tt))))))

create-type_example :
    (type (input 100 7) ≡ input_message)
    × (sender (input 100 7) ≡ 100)
    × IsSameClass (input 5 0) (input 100 7)
    × (type (input 100 7) < subsystem_internal_start)
unfolding create type
create-type_example = create-type 7 input_message 100 (input 100 7) (input 5 0) refl refl
