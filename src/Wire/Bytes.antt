-- ===== src/Wire/Bytes.antt =====
-- The bytes of an unsigned number, least significant first.
use native.Mathlib.Nat.{pow-suc}
use peer_to_peer_network_ove.Prelude.{
  ℕ, zero, suc, ◌+◌, ◌*◌, ◌/◌, ◌%◌, ◌^◌, ◌<◌, ◌≡◌, refl, ap, List, [], ◌∷◌, length, arith,
}

unfoldable pub bytes_le : ℕ → ℕ → List ℕ
bytes_le zero n = []
bytes_le (suc width) n = (n % 256) ∷ bytes_le width (n / 256)

unfoldable pub read_le : List ℕ → ℕ
read_le [] = 0
read_le (b ∷ bs) = b + 256 * read_le bs

pub length-bytes_le : (width n : ℕ) → length (bytes_le width n) ≡ width
unfolding bytes_le
length-bytes_le zero n = refl
length-bytes_le (suc width) n = ap suc (length-bytes_le width (n / 256))

-- A number that fits the width is read back.
pub read_le-bytes_le : (width n : ℕ) → n < 256 ^ width → read_le (bytes_le width n) ≡ n
unfolding bytes_le read_le
read_le-bytes_le zero n h = omega arith
read_le-bytes_le (suc width) n h =
    omega (arith, read_le-bytes_le width (n / 256) (omega (arith, pow-suc 256 width)))
