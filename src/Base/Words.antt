-- ===== src/Base/Words.antt =====
-- 32-bit words in memory. The host is little-endian, as the program takes it to be; the network
-- order is big-endian.
use Prim.Native.Nat.{ℕ, ◌+◌, ◌*◌, ◌/◌, ◌%◌}
use mathlib.Core.Path.{◌≡◌}
use mathlib.Core.List.{[], ◌∷◌, ◌++◌}
use native.Mathlib.Omega.{arith}
use dmproxy.Base.Lists.{get_or}
use dmproxy.Base.Text.{Bytes, IsBytes}

abbrev pub u32_mod : ℕ
u32_mod = 4294967296

-- Conversion to `uint32_t`.
abbrev pub u32 : ℕ → ℕ
u32 n = n % u32_mod

-- `*(uint32_t *)p = n` on the host.
unfoldable pub store_le32 : ℕ → Bytes
store_le32 n = n % 256 ∷ n / 256 % 256 ∷ n / 65536 % 256 ∷ n / 16777216 % 256 ∷ []

-- The word at offset `i`, as the host reads it. Callers read inside the buffer.
unfoldable pub load_le32 : Bytes → ℕ
load_le32 b = get_or b 0 0 + 256 * get_or b 1 0 + 65536 * get_or b 2 0 + 16777216 * get_or b 3 0

-- `host_to_network_long` stored, and loaded through `network_to_host_long`.
unfoldable pub store_be32 : ℕ → Bytes
store_be32 n = n / 16777216 % 256 ∷ n / 65536 % 256 ∷ n / 256 % 256 ∷ n % 256 ∷ []

unfoldable pub load_be32 : Bytes → ℕ
load_be32 b = 16777216 * get_or b 0 0 + 65536 * get_or b 1 0 + 256 * get_or b 2 0 + get_or b 3 0

pub load_le32-store_le32 : (n : ℕ) (rest : Bytes) → load_le32 (store_le32 n ++ rest) ≡ u32 n
unfolding load_le32 store_le32
load_le32-store_le32 n rest = omega arith

pub load_be32-store_be32 : (n : ℕ) (rest : Bytes) → load_be32 (store_be32 n ++ rest) ≡ u32 n
unfolding load_be32 store_be32
load_be32-store_be32 n rest = omega arith

pub store_le32-IsBytes : (n : ℕ) → IsBytes (store_le32 n)
unfolding store_le32
store_le32-IsBytes n = omega arith
