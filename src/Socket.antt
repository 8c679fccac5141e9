-- ===== src/Socket.antt =====
-- core/util/socket.hpp: POD values and strings over a byte stream that may fail.
pub mod Reliable
pub mod Values
use quintses.Common.{
  ◌≡◌, refl, ◌⊎◌, inl, inr, ℕ, ◌+◌, ◌%◌, ◌^◌, List, [], ◌∷◌, ltb, ◌==◌, if◌then◌else◌, length, take,
}
use quintses.Bytes.{to_bytes, from_bytes}

-- How a call ends when it does not return: by `boost::system::system_error` with its code, or by
-- undefined behaviour.
pub data Fault : Type 0 where
  system_error : ℕ → Fault
  out_of_bounds null_pointer : Fault

pub data Result {ℓ} (A : Type ℓ) : Type ℓ where
  ok : A → Result A
  err : Fault → Result A

pub Result-cases {ℓ} :
    {A : Type ℓ} (r : Result A) → ((e : Fault) × (r ≡ err e)) ⊎ ((a : A) × (r ≡ ok a))
Result-cases (ok a) = inr (a, refl)
Result-cases (err e) = inl (e, refl)

-- A computation over a connection of type `C`.
abbrev pub Io : Type 0 → Type 0 → Type 0
Io C A = C → Result (A × C)

module _ {C A : Type 0} where
  abbrev pub pure : A → Io C A
  pure a c = ok (a, c)

  abbrev pub throw : Fault → Io C A
  throw e c = err e

module _ {C A B : Type 0} where
  abbrev pub and_then : Result (A × C) → (A → Io C B) → Result (B × C)
  and_then (ok (a, c)) k = k a c
  and_then (err e) k = err e

  infixl 5 ◌>>=◌ ◌>>◌
  abbrev pub ◌>>=◌ : Io C A → (A → Io C B) → Io C B
  m >>= k = λ c. and_then (m c) k

  abbrev pub ◌>>◌ : Io C A → Io C B → Io C B
  m >> n = m >>= λ _. n

-- The class `SocketWrapper`: its two pure virtual functions. `AsioSocket` implements them by calls
-- of `boost::asio::read` and `boost::asio::write`, which transfer all bytes or throw.
pub record SocketWrapper : Type 1 where
  pub Conn : Type 0
  pub read : ℕ → Io Conn (List ℕ)
  pub write : List ℕ → Io Conn (Unit {0})

-- A `char*` as a `std::string`: up to the first NUL.
unfoldable pub c_string : List ℕ → List ℕ
c_string [] = []
c_string (b ∷ bs) = let rest = c_string bs in if b == 0 then [] else b ∷ rest

module _ (s : SocketWrapper) where
  open s use {Conn, read, write}

  -- `readPod` at a type of `k` bytes
  unfoldable pub read_pod : ℕ → Io Conn ℕ
  read_pod k = do bs ← read k; pure (from_bytes bs)

  unfoldable pub write_pod : ℕ → ℕ → Io Conn (Unit {0})
  write_pod k v = write (to_bytes k v)

  -- `new char[len+1]` computes its size in `uint32_t`; `buf[len] = 0` needs `len` below that size.
  unfoldable pub read_string : Io Conn (List ℕ)
  read_string = do
    len ← read_pod 4
    if ltb len ((len + 1) % 2 ^ 32)
        then (do buf ← read len; pure (c_string buf))
        else throw out_of_bounds

  -- `uint32_t len = str.size()` keeps the size modulo 2 ^ 32.
  unfoldable pub write_string : List ℕ → Io Conn (Unit {0})
  write_string str = do write_pod 4 (length str % 2 ^ 32); write (take (length str % 2 ^ 32) str)
