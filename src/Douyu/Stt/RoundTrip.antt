-- ===== src/Douyu/Stt/RoundTrip.antt =====
-- platforms/douyu/stt.cpp: what `make_stt` writes, `parse_stt` reads.
use dmproxy.Base.{
  Bytes, codes, ℕ, zero, suc, ◌+◌, ◌-◌, ◌<◌, ◌≡◌, ◌≢◌, refl, ◌∙◌, ap, List, [], ◌∷◌, ◌++◌, none,
  some, length, take, drop, replicate, c_string, All, All-append, arith, bytes_eq_iff,
  length-append,
}
use dmproxy.Base.Dict.{Dict, insert, lookup, lookup-insert}
use dmproxy.Base.Words.{store_le32}
use dmproxy.Douyu.Stt.{
  Tokenizer, find_separator, parse_token, parse_tokens, parse_stt, join_pairs, strcpy_zeroed,
  make_stt,
}

abbrev pub Lacks : ℕ → Bytes → Type 0
Lacks c = All (λ x. x ≢ c)

-- A null-free text is copied whole, with the null behind it.
c_string-Lacks : (s rest : Bytes) → Lacks 0 s → c_string (s ++ 0 ∷ rest) ≡ s
unfolding c_string
c_string-Lacks [] rest h = refl
c_string-Lacks (c ∷ s) rest h = ground (arith, c_string-Lacks s rest h.1)

c_string_whole : (s : Bytes) → Lacks 0 s → c_string s ≡ s
unfolding c_string
c_string_whole [] h = refl
c_string_whole (c ∷ s) h = ground (arith, c_string_whole s h.1)

length-c_string : (s : Bytes) → length (c_string s) < suc (length s)
unfolding c_string
length-c_string [] = omega arith
length-c_string (c ∷ s) = ground (arith, length-c_string s)

length-replicate : (n : ℕ) → length {A = ℕ} (replicate n 0) ≡ n
length-replicate zero = refl
length-replicate (suc n) = ap suc (length-replicate n)

pub length-strcpy_zeroed : (s : Bytes) → length (strcpy_zeroed s) ≡ length s + 1
unfolding strcpy_zeroed
length-strcpy_zeroed s = omega (
  arith,
  length-append (c_string s) (replicate (length s + 1 - length (c_string s)) 0),
  length-replicate (length s + 1 - length (c_string s)),
  length-c_string s,
)

strcpy_zeroed-Lacks : (s : Bytes) → Lacks 0 s → strcpy_zeroed s ≡ s ++ 0 ∷ []
unfolding strcpy_zeroed
strcpy_zeroed-Lacks s h =
    rw (c_string_whole s h) (ap (λ (n : ℕ). s ++ replicate n 0) {y = 1} (omega arith))

-- The packet is as long as its first word says, by four.
pub length-make_stt : (il : Dict Bytes) → length (make_stt il) ≡ 13 + length (join_pairs il)
unfolding make_stt store_le32
length-make_stt il = omega (arith, length-strcpy_zeroed (join_pairs il))

find_separator-append :
    (key value : Bytes)
    → Lacks b'@' key
    → find_separator (key ++ codes "@=" ++ value) ≡ some (length key)
unfolding find_separator
find_separator-append [] value h = refl
find_separator-append (x ∷ []) value h = ground arith
find_separator-append (x ∷ y ∷ key) value h =
    ground (arith, find_separator-append (y ∷ key) value h.1)

-- A key and its value as they stand between two slashes.
abbrev pub pair_token : Bytes × Bytes → Bytes
pair_token (key, value) = key ++ codes "@=" ++ value

abbrev pub pair_tokens : Dict Bytes → List Bytes
pair_tokens [] = []
pair_tokens (kv ∷ il) = pair_token kv ∷ pair_tokens il

-- Each token with a slash behind it.
abbrev pub terminated : List Bytes → Bytes
terminated [] = []
terminated (t ∷ ts) = t ++ codes "/" ++ terminated ts

-- What is relied on of boost::tokenizer: tokens without slashes, none of them empty, come back.
abbrev pub Splits : Tokenizer → Type 0
Splits k = (ts : List Bytes) → All (λ t. (t ≢ []) × Lacks b'/' t) ts → k.tokens (terminated ts) ≡ ts

-- The keys and values that the format can carry: no slash or null in either, no `@` in a key.
abbrev pub IsPlain : Bytes × Bytes → Type 0
IsPlain (key, value) =
    Lacks b'@' key × Lacks b'/' key × Lacks 0 key × Lacks b'/' value × Lacks 0 value

join_pairs-terminated : (il : Dict Bytes) → join_pairs il ≡ terminated (pair_tokens il)
unfolding join_pairs
join_pairs-terminated [] = refl
join_pairs-terminated ((key, value) ∷ il) = rw (join_pairs-terminated il)

pair_token-ne-nil : (key value : Bytes) → pair_token (key, value) ≢ []
pair_token-ne-nil [] value e = cc
pair_token-ne-nil (x ∷ key) value e = cc

pair_token-Lacks :
    (c : ℕ) (key value : Bytes)
    → c ≢ b'@'
    → c ≢ b'='
    → Lacks c key
    → Lacks c value
    → Lacks c (pair_token (key, value))
pair_token-Lacks c key value at eq hk hv =
    All-append (λ x. x ≢ c) (key ++ codes "@=") value
      (All-append (λ x. x ≢ c) key (codes "@=") hk (omega arith)) hv

pair_tokens-IsToken :
    (il : Dict Bytes) → All IsPlain il → All (λ t. (t ≢ []) × Lacks b'/' t) (pair_tokens il)
pair_tokens-IsToken [] h = tt
pair_tokens-IsToken ((key, value) ∷ il) ((_, ks, _, vs, _), h) = (
  (pair_token-ne-nil key value, pair_token-Lacks b'/' key value (omega arith) (omega arith) ks vs),
  pair_tokens-IsToken il h,
)

terminated-Lacks : (il : Dict Bytes) → All IsPlain il → Lacks 0 (terminated (pair_tokens il))
terminated-Lacks [] h = tt
terminated-Lacks ((key, value) ∷ il) ((_, _, kz, _, vz), h) =
    All-append (λ x. x ≢ 0) (pair_token (key, value) ++ codes "/") (terminated (pair_tokens il))
      (All-append (λ x. x ≢ 0) (pair_token (key, value)) (codes "/")
        (pair_token-Lacks 0 key value (omega arith) (omega arith) kz vz) (omega arith))
      (terminated-Lacks il h)

-- The map after every pair has been inserted in order.
unfoldable pub insert_all : Dict Bytes → Dict Bytes → Dict Bytes
insert_all [] stt = stt
insert_all ((key, value) ∷ il) stt = insert_all il (insert key value stt)

take-pair_token : (key value : Bytes) → take (length key) (pair_token (key, value)) ≡ key
take-pair_token [] value = refl
take-pair_token (x ∷ key) value = ap (◌∷◌ x) (take-pair_token key value)

drop-pair_token :
    (key value : Bytes) → drop (suc (suc (length key))) (pair_token (key, value)) ≡ value
drop-pair_token [] value = refl
drop-pair_token (x ∷ key) value = drop-pair_token key value

parse_token-pair_token :
    (key value : Bytes) (stt : Dict Bytes)
    → Lacks b'@' key
    → parse_token (pair_token (key, value)) stt ≡ insert key value stt
unfolding parse_token
parse_token-pair_token key value stt h =
    rw (find_separator-append key value h, parse_token)
      (rw (take-pair_token key value, drop-pair_token key value))

parse_tokens-pair_tokens :
    (il stt : Dict Bytes) → All IsPlain il → parse_tokens (pair_tokens il) stt ≡ insert_all il stt
unfolding parse_tokens insert_all
parse_tokens-pair_tokens [] stt h = refl
parse_tokens-pair_tokens ((key, value) ∷ il) stt ((k, _, _, _, _), h) =
    ap (parse_tokens (pair_tokens il)) (parse_token-pair_token key value stt k)
    ∙ parse_tokens-pair_tokens il (insert key value stt) h

lookup-insert_all :
    (key : Bytes) (il stt : Dict Bytes)
    → lookup key (insert_all il stt)
      ≡ elim (lookup key stt) [ none ↦ lookup key il | some v ↦ some v ]
unfolding insert_all lookup
lookup-insert_all key [] stt = ground arith
lookup-insert_all key ((j, w) ∷ il) stt = ground (
  arith,
  lookup-insert_all key il (insert j w stt),
  lookup-insert key j w stt,
  bytes_eq_iff j key,
)

pub drop-make_stt : (il : Dict Bytes) → drop 12 (make_stt il) ≡ strcpy_zeroed (join_pairs il)
unfolding make_stt store_le32
drop-make_stt il = refl

-- With a tokenizer that splits at slashes, and for keys and values that the format can carry, the
-- data part of a packet that `make_stt` writes parses to the pairs it was made of: each key has the
-- value that it has first in the list, and there is no other key.
pub parse_stt-make_stt :
    ⦃k : Tokenizer⦄ (key : Bytes) (il : Dict Bytes)
    → Splits k
    → All IsPlain il
    → lookup key (parse_stt (drop 12 (make_stt il))) ≡ lookup key il
unfolding parse_stt lookup
parse_stt-make_stt ⦃k⦄ key il splits plain =
    rw
      (
        drop-make_stt il,
        join_pairs-terminated il,
        strcpy_zeroed-Lacks text null_free,
        c_string-Lacks text [] null_free,
        splits (pair_tokens il) (pair_tokens-IsToken il plain),
        parse_tokens-pair_tokens il [] plain,
      )
      (lookup-insert_all key il [])
  where
    text : Bytes
    text = terminated (pair_tokens il)

    null_free : Lacks 0 text
    null_free = terminated-Lacks il plain

-- The data part of such a packet is the joined pairs and a null byte.
pub data_of-make_stt :
    (il : Dict Bytes) → All IsPlain il → drop 12 (make_stt il) ≡ join_pairs il ++ 0 ∷ []
data_of-make_stt il plain =
    rw (drop-make_stt il, join_pairs-terminated il)
      (strcpy_zeroed-Lacks (terminated (pair_tokens il)) (terminated-Lacks il plain))
