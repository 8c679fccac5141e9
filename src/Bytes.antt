-- ===== src/Bytes.antt =====
-- The object representation of unsigned integers, least significant byte first, as on the x86
-- targets that CMakeLists.txt builds for. A byte is a number below 256.
use native.Mathlib.Nat.{pow-suc}
use quintses.Common.{
  ℕ, zero, suc, ◌+◌, ◌*◌, ◌/◌, ◌%◌, ◌^◌, ◌<◌, ◌≡◌, refl, List, [], ◌∷◌, arith, length,
}

-- The `k` bytes that a POD of `k` bytes occupies.
unfoldable pub to_bytes : ℕ → ℕ → List ℕ
to_bytes zero v = []
to_bytes (suc k) v = (v % 256) ∷ to_bytes k (v / 256)

-- The POD that the bytes make up.
unfoldable pub from_bytes : List ℕ → ℕ
from_bytes [] = 0
from_bytes (b ∷ bs) = b + 256 * from_bytes bs

pub length-to_bytes : (k v : ℕ) → length (to_bytes k v) ≡ k
unfolding to_bytes
length-to_bytes zero v = refl
length-to_bytes (suc k) v = omega (arith, length-to_bytes k (v / 256))

-- A number below 256 ^ k is read back from the k bytes that it occupies.
pub from_bytes-to_bytes : (k v : ℕ) → v < 256 ^ k → from_bytes (to_bytes k v) ≡ v
unfolding to_bytes from_bytes
from_bytes-to_bytes zero v h = omega arith
from_bytes-to_bytes (suc k) v h =
    omega (arith, from_bytes-to_bytes k (v / 256) (omega (arith, pow-suc 256 k)))
