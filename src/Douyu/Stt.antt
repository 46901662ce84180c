-- ===== src/Douyu/Stt.antt =====
-- platforms/douyu/stt.cpp: the serialised text of the Douyu protocol, `key@=value/key@=value/`.
pub mod RoundTrip
use dmproxy.Base.{
  Bytes, codes, ℕ, zero, suc, ◌+◌, ◌-◌, List, [], ◌∷◌, ◌++◌, Option, none, some, Bool, true, false,
  ◌&&◌, ◌==◌, if◌then◌else◌, length, take, drop, replicate, c_string,
}
use dmproxy.Base.Dict.{Dict, insert}
use dmproxy.Base.Words.{store_le32}

-- boost::tokenizer with `char_separator("/")`.
pub record Tokenizer : Type 0 where
  pub tokens : Bytes → List Bytes

-- `find("@=")`
unfoldable pub find_separator : Bytes → Option ℕ
find_separator [] = none
find_separator (x ∷ []) = none
find_separator (x ∷ y ∷ s) =
    if x == b'@' && y == b'='
    then some 0
    else elim (find_separator (y ∷ s)) [ none ↦ none | some i ↦ some (suc i) ]

-- One round of the loop of `parse_stt`.
unfoldable pub parse_token : Bytes → Dict Bytes → Dict Bytes
parse_token i stt = elim (find_separator i) [
  | none ↦ stt
  | some pos ↦ insert (take pos i) (drop (suc (suc pos)) i) stt
]

unfoldable pub parse_tokens : List Bytes → Dict Bytes → Dict Bytes
parse_tokens [] stt = stt
parse_tokens (i ∷ rest) stt = parse_tokens rest (parse_token i stt)

unfoldable pub parse_stt : ⦃k : Tokenizer⦄ → Bytes → Dict Bytes
parse_stt ⦃k⦄ msg = parse_tokens (k.tokens (c_string msg)) []

-- The loop of `make_stt`.
unfoldable pub join_pairs : Dict Bytes → Bytes
join_pairs [] = []
join_pairs ((key, value) ∷ rest) = key ++ codes "@=" ++ value ++ codes "/" ++ join_pairs rest

-- What `strcpy` of a text leaves in a zeroed buffer that is one longer: it stops at a null byte.
unfoldable pub strcpy_zeroed : Bytes → Bytes
strcpy_zeroed s = c_string s ++ replicate (length s + 1 - length (c_string s)) 0

unfoldable pub make_stt : Dict Bytes → Bytes
unfolding join_pairs strcpy_zeroed
make_stt il =
    let result = join_pairs il in
    let size = 4 + 4 + 4 + length result + 1 in
    store_le32 (size - 4) ++ store_le32 (size - 4) ++ (177 ∷ 2 ∷ 0 ∷ 0 ∷ []) ++ strcpy_zeroed result
