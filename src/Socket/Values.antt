-- ===== src/Socket/Values.antt =====
-- PODs and strings over a reliable connection.
use quintses.Common.{
  ℕ, ◌+◌, ◌-◌, ◌%◌, ◌^◌, ◌<◌, ◌≡◌, ◌≢◌, refl, List, [], ◌∷◌, ◌++◌, arith, length, take-length, All,
  lt→ltb, ==_ne,
}
use quintses.Bytes.{to_bytes, from_bytes, length-to_bytes, from_bytes-to_bytes}
use quintses.Socket.{
  SocketWrapper, err, out_of_bounds, c_string, read_pod, write_pod, read_string, write_string,
}
use quintses.Socket.Reliable.{
  IsReliable, Sends, Receives, Sends-write, Sends->>, Receives-read, Receives->>=, Receives-map,
}

-- What `writeString` sends.
abbrev pub string_bytes : List ℕ → List ℕ
string_bytes str = to_bytes 4 (length str) ++ str

-- A string of C++ with no NUL inside.
abbrev pub IsText : List ℕ → Type 0
IsText = All (λ b. b ≢ 0)

pub c_string-IsText : (bs : List ℕ) → IsText bs → c_string bs ≡ bs
unfolding c_string
c_string-IsText [] h = refl
c_string-IsText (b ∷ bs) h = rw (==_ne b 0 h.0, c_string-IsText bs h.1)

module _ {s : SocketWrapper} (r : IsReliable s) where
  pub Sends-write_pod : (k v : ℕ) → Sends r (write_pod s k v) (to_bytes k v)
  unfolding write_pod
  Sends-write_pod k v = Sends-write r (to_bytes k v)

  pub Receives-read_pod : (k v : ℕ) → v < 256 ^ k → Receives r (read_pod s k) (to_bytes k v) v
  unfolding read_pod
  Receives-read_pod k v h =
      rw (from_bytes-to_bytes k v h) at
        (Receives-map r from_bytes (Receives-read r k (to_bytes k v) (length-to_bytes k v)))

  pub Sends-write_string :
      (str : List ℕ) → length str < 2 ^ 32 → Sends r (write_string s str) (string_bytes str)
  unfolding write_string
  Sends-write_string str h =
      let e : length str % 2 ^ 32 ≡ length str = omega arith in
      rw (e, take-length str) (Sends->> r (Sends-write_pod 4 (length str)) (Sends-write r str))

  -- Over a reliable connection `readString` takes the bytes that `writeString` sends for a string whose
  -- length is below 2 ^ 32 - 1, and returns the string up to its first NUL.
  pub Receives-read_string :
      (str : List ℕ)
      → length str < 2 ^ 32 - 1
      → Receives r (read_string s) (string_bytes str) (c_string str)
  unfolding read_string
  Receives-read_string str h = Receives->>= r _ (Receives-read_pod 4 (length str) (omega arith)) (
      rw (lt→ltb (length str) ((length str + 1) % 2 ^ 32) (omega arith))
        (Receives-map r c_string (Receives-read r (length str) str refl)))

  -- Where the bytes of the length 2 ^ 32 - 1 are next on a reliable connection, `len+1` wraps to
  -- zero, and the NUL is written past the buffer.
  pub read_string_overflow :
      (rest : List ℕ) (c : s.Conn)
      → r.IsOpen c
      → r.pending c ≡ to_bytes 4 (2 ^ 32 - 1) ++ rest
      → read_string s c ≡ err out_of_bounds
  unfolding read_string
  read_string_overflow rest c o p =
      let (d, e, _, _) = (Receives-read_pod 4 (2 ^ 32 - 1) (omega arith)).run rest c o p in rw e
