-- ===== src/Bilibili/Http/StatusLine.antt =====
-- platforms/bilibili/bilibili.cpp, `handle_http_read_status_line`: a word, an unsigned number and a
-- line, read from `m_response` as `std::istream` does.
use dmproxy.Base.{
  Bytes, codes, ℕ, ◌+◌, ◌-◌, ◌*◌, ◌%◌, ◌≡◌, refl, [], ◌∷◌, Option, none, some, Bool, true, false,
  ◌&&◌, ◌||◌, ◌==◌, leb, ltb, if◌then◌else◌, bytes_eq, take,
}
use dmproxy.Base.Words.{u32_mod}

-- `isspace` in the C locale.
abbrev pub is_space : ℕ → Bool
is_space c = c == 32 || (leb 9 c && leb c 13)

abbrev pub is_digit : ℕ → Bool
is_digit c = leb 48 c && leb c 57

unfoldable pub skip_spaces : Bytes → Bytes
skip_spaces [] = []
skip_spaces (c ∷ s) = if is_space c then skip_spaces s else c ∷ s

-- A word and what follows it.
unfoldable pub read_word : Bytes → Bytes × Bytes
read_word [] = ([], [])
read_word (c ∷ s) =
    let (word, rest) = read_word s in if is_space c then ([], c ∷ s) else (c ∷ word, rest)

-- The digits at the start, as a number behind `acc`, and what follows them.
unfoldable pub read_digits : ℕ → Bytes → ℕ × Bytes
read_digits acc [] = (acc, [])
read_digits acc (c ∷ s) =
    let more = read_digits (acc * 10 + (c - 48)) s in if is_digit c then more else (acc, c ∷ s)

-- `none` where there is no digit, or the number does not fit.
unfoldable pub read_number : Bytes → Option ℕ × Bytes
read_number [] = (none, [])
read_number (c ∷ s) =
    if is_digit c
    then (let (n, rest) = read_digits 0 (c ∷ s) in (if ltb n u32_mod then some n else none, rest))
    else (none, c ∷ s)

-- A sign before the number: `-` is taken modulo 2^32.
unfoldable pub read_unsigned : Bytes → Option ℕ × Bytes
unfolding read_number
read_unsigned [] = (none, [])
read_unsigned (c ∷ s) =
    if c == b'+'
    then read_number s
    else if c == b'-'
    then (let (n, rest) = read_number s in
        (elim n [ none ↦ none | some v ↦ some ((u32_mod - v) % u32_mod) ], rest))
    else read_number (c ∷ s)

-- `std::getline`: the line is dropped, and what follows its end is left.
unfoldable pub drop_line : Bytes → Bytes
drop_line [] = []
drop_line (c ∷ s) = if c == 10 then s else drop_line s

-- `none` is a stream that has failed: no word, no number, or nothing behind the number. What is
-- left in the buffer then is not read by the program again.
unfoldable pub read_status_line : Bytes → Option (Bytes × ℕ) × Bytes
unfolding skip_spaces read_word read_unsigned drop_line
read_status_line response =
    let (http_version, after_word) = read_word (skip_spaces response) in
    let (status_code, after_number) = read_unsigned (skip_spaces after_word) in
    (
      elim http_version [
        | [] ↦ none
        | v ∷ vs ↦ elim status_code [
          | none ↦ none
          | some n ↦ elim after_number [ [] ↦ none | _ ∷ _ ↦ some (v ∷ vs, n) ]
        ]
      ],
      drop_line after_number,
    )

-- The two tests of the handler.
unfoldable pub is_ok_status : Option (Bytes × ℕ) → Bool
is_ok_status none = false
is_ok_status (some (http_version, status_code)) =
    bytes_eq (take 5 http_version) (codes "HTTP/") && status_code == 200

ok_line : is_ok_status (read_status_line (codes "HTTP/1.1 200 OK\r\nDate: x")).0 ≡ true
unfolding is_ok_status read_status_line read_digits bytes_eq
ok_line = refl

ok_line_rest : (read_status_line (codes "HTTP/1.1 200 OK\r\nDate: x")).1 ≡ codes "Date: x"
unfolding read_status_line read_digits
ok_line_rest = refl

not_found_line : is_ok_status (read_status_line (codes "HTTP/1.1 404 Not Found\r\n")).0 ≡ false
unfolding is_ok_status read_status_line read_digits bytes_eq
not_found_line = refl
