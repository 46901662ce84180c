-- ===== src/Utils/Digests.antt =====
-- utils/md5.cpp and utils/rc4.cpp: the text of a digest, and the cipher over buffers.
use dmproxy.Base.{
  Bytes, codes, ℕ, zero, suc, ◌+◌, ◌-◌, ◌*◌, ◌/◌, ◌%◌, ◌<◌, ◌≡◌, refl, ◌∙◌, [], ◌∷◌, get_or, length,
  IsBytes, arith, ltb, if◌then◌else◌,
}

-- HEX_NUMBERS
abbrev pub hex_numbers : Bytes
hex_numbers = codes "0123456789abcdef"

-- The loop of `md5_str` over the digest.
unfoldable pub hex : Bytes → Bytes
hex [] = []
hex (t ∷ digest) = get_or hex_numbers (t / 16) 0 ∷ get_or hex_numbers (t % 16) 0 ∷ hex digest

unfoldable pub md5_str : (Bytes → Bytes) → Bytes → Bytes
unfolding hex
md5_str md5 text = hex (md5 text)

-- The digit that a character of HEX_NUMBERS stands for.
abbrev pub nibble : ℕ → ℕ
nibble c = if ltb c 58 then c - 48 else c - 87

abbrev pub unhex : Bytes → Bytes
unhex [] = []
unhex (a ∷ []) = []
unhex (a ∷ b ∷ s) = (16 * nibble a + nibble b) ∷ unhex s

-- `rc4_ptr` on a fresh key, and the vector that `rc4_vector` and `rc4_str` fill with it.
unfoldable pub rc4_vector : (Bytes → Bytes → Bytes) → Bytes → Bytes → Bytes
rc4_vector rc4 data_bytes key_data = rc4 key_data data_bytes

-- The digits of a text stand for one number after the other, from `k` on.
abbrev Counts : ℕ → Bytes → Type 0
Counts k [] = Unit
Counts k (c ∷ s) = (nibble c ≡ k) × Counts (suc k) s

nibble-get_or : (k n : ℕ) (s : Bytes) → Counts k s → n < length s → nibble (get_or s n 0) ≡ k + n
nibble-get_or k n [] h short = absurd (omega arith)
nibble-get_or k zero (c ∷ s) (first, rest) short = first ∙ (omega arith)
nibble-get_or k (suc n) (c ∷ s) (first, rest) short =
    nibble-get_or (suc k) n s rest (omega arith) ∙ (omega arith)

hex_numbers-Counts : Counts 0 hex_numbers
hex_numbers-Counts = omega arith

nibble-hex : (n : ℕ) → n < 16 → nibble (get_or hex_numbers n 0) ≡ n
nibble-hex n h = nibble-get_or 0 n hex_numbers hex_numbers-Counts h ∙ (omega arith)

-- The text that is made of a list of bytes is hexadecimal that stands for them, two characters a
-- byte.
unhex-hex :
    (digest : Bytes)
    → IsBytes digest
    → (unhex (hex digest) ≡ digest) × (length (hex digest) ≡ 2 * length digest)
unfolding hex
unhex-hex [] h = (refl, refl)
unhex-hex (t ∷ digest) (small, h) = ground (
  arith,
  nibble-hex (t / 16) (omega arith),
  nibble-hex (t % 16) (omega arith),
  unhex-hex digest h,
)
