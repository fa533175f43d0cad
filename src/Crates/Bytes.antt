-- ===== src/Crates/Bytes.antt =====
-- The crate `bytes`: reads from the front of a buffer and appends to its end. A buffer is the list
-- of the bytes that it holds.
use smux.Base.{ℕ, ◌+◌, ◌*◌, ◌/◌, ◌%◌, ◌≤◌, ◌≡◌, List, [], ◌∷◌, ◌++◌, take, drop, length}

-- Little-endian numbers of two and four bytes.
abbrev pub le16 : ℕ → ℕ → ℕ
le16 a b = a + 256 * b

abbrev pub le32 : ℕ → ℕ → ℕ → ℕ → ℕ
le32 a b c d = a + 256 * b + 65536 * c + 16777216 * d

abbrev pub bytes16 : ℕ → List ℕ
bytes16 n = n % 256 ∷ n / 256 % 256 ∷ []

abbrev pub bytes32 : ℕ → List ℕ
bytes32 n = n % 256 ∷ n / 256 % 256 ∷ n / 65536 % 256 ∷ n / 16777216 % 256 ∷ []

-- A read returns the number and the buffer behind it. Reads past the end panic in the crate: the
-- laws say nothing of them.
pub record BytesCrate : Type 0 where
  pub get_u8 : List ℕ → ℕ × List ℕ
  pub get_u16_le : List ℕ → ℕ × List ℕ
  pub get_u32_le : List ℕ → ℕ × List ℕ
  pub split_to : List ℕ → ℕ → List ℕ × List ℕ
  pub put_u8 : List ℕ → ℕ → List ℕ
  pub put_u16_le : List ℕ → ℕ → List ℕ
  pub put_u32_le : List ℕ → ℕ → List ℕ
  pub put_slice : List ℕ → List ℕ → List ℕ
  pub get_u8_lem : (a : ℕ) (rest : List ℕ) → get_u8 (a ∷ rest) ≡ (a, rest)
  pub get_u16_le_lem : (a b : ℕ) (rest : List ℕ) → get_u16_le (a ∷ b ∷ rest) ≡ (le16 a b, rest)
  pub get_u32_le_lem :
      (a b c d : ℕ) (rest : List ℕ) → get_u32_le (a ∷ b ∷ c ∷ d ∷ rest) ≡ (le32 a b c d, rest)
  pub split_to_lem :
      (src : List ℕ) (n : ℕ) → n ≤ length src → split_to src n ≡ (take n src, drop n src)
  pub put_u8_lem : (dst : List ℕ) (n : ℕ) → put_u8 dst n ≡ dst ++ (n % 256 ∷ [])
  pub put_u16_le_lem : (dst : List ℕ) (n : ℕ) → put_u16_le dst n ≡ dst ++ bytes16 n
  pub put_u32_le_lem : (dst : List ℕ) (n : ℕ) → put_u32_le dst n ≡ dst ++ bytes32 n
  pub put_slice_lem : (dst xs : List ℕ) → put_slice dst xs ≡ dst ++ xs
