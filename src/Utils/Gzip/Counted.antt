-- ===== src/Utils/Gzip/Counted.antt =====
-- utils/gzip.cpp: `ungzip(in, count_in, out, count_out)`, which unpacks into one buffer.
use dmproxy.Base.{
  Bytes, ℕ, zero, suc, ◌+◌, ◌-◌, ◌*◌, ◌%◌, ◌≤◌, ◌<◌, ◌≡◌, ◌⊎◌, refl, ◌∙◌, ap, [], ◌++◌, none, some,
  ◌&&◌, ltb, ◌==◌, if◌then◌else◌, length, take, drop, arith, length-append, length-take,
  length-drop, take_all, take-append_length, replicate, Bool-cases, inl, inr, ltb→lt,
}
use dmproxy.Utils.Gzip.{
  Ret, z_ok, z_stream_end, z_buf_error, z_need_dict, z_data_error, z_mem_error, z_stream_error,
  Zlib,
}
use dmproxy.Utils.Gzip.Complete.{IsGood, Inflates}

-- What a call comes to; `outside` is a write behind the buffer.
pub data Unpacked : Type 0 where
  unpacked : Bytes → Unpacked
  refused aborted outside unfinished : Unpacked

-- The `assert` and the `switch`, where all other results go on.
unfoldable checked : Ret → Unpacked → Unpacked
checked z_ok next = next
checked z_stream_end next = next
checked z_buf_error next = next
checked z_need_dict next = refused
checked z_data_error next = refused
checked z_mem_error next = refused
checked z_stream_error next = aborted

-- 2 ^ 64.
abbrev u64_mod : ℕ
u64_mod = 18446744073709551616

-- Subtraction of two 64-bit words.
unfoldable sub64 : ℕ → ℕ → ℕ
sub64 a b = (a + (u64_mod - b)) % u64_mod

-- `d_stream.avail_out`, an unsigned int.
unfoldable room_at : ℕ → ℕ → ℕ
unfolding sub64
room_at size count = sub64 size count % 4294967296

-- A 64-bit word made an int and then a 64-bit word again.
unfoldable through_int : ℕ → ℕ
through_int n =
    let low = n % 4294967296 in if ltb low 2147483648 then low else low + (u64_mod - 4294967296)

-- `count_out` after a round that leaves `left` bytes of room, where `have` is an int.
unfoldable counted : ℕ → ℕ → ℕ → ℕ
unfolding through_int sub64
counted size count left = (count + through_int (sub64 size left)) % u64_mod

-- What `inflate` writes at `count`.
unfoldable write_at : ℕ → Bytes → Bytes → Bytes
write_at count written mem = take count mem ++ (written ++ drop (count + length written) mem)

-- The check behind the loop, and what is left of the buffer.
unfoldable finish : Bytes → ℕ → Unpacked
finish mem count = if ltb (length mem) count then aborted else unpacked (take count mem)

module _ (z : Zlib) where
  open z use {Stream, inflate_init, inflate}

  -- The `do … while` loop: it goes on while no room is left.
  unfoldable counted_loop : ℕ → Stream → Bytes → ℕ → Unpacked
  unfolding room_at counted write_at finish
  counted_loop zero s mem count = unfinished
  counted_loop (suc fuel) s mem count =
      let size = length mem in
      let (ret, written, s') = inflate s (room_at size count) in
      let left = room_at size count - length written in
      let count' = counted size count left in
      let mem' = write_at count written mem in
      let more = counted_loop fuel s' mem' count' in
      let next = if left == 0 then more else finish mem' count' in
      if ltb 0 (length written) && ltb size (count + length written)
      then outside
      else checked ret next

  -- `input` is the first `count_in` bytes of `in`. A third round has room behind the buffer only.
  unfoldable pub ungzip_counted : Bytes → Unpacked
  unfolding counted_loop checked
  ungzip_counted input = elim (inflate_init input) [
    | none ↦ refused
    | some s ↦ counted_loop 3 s (replicate (length input * 16) 0) 0
  ]

length-replicate {ℓ} : {A : Type ℓ} (n : ℕ) (a : A) → length (replicate n a) ≡ n
length-replicate zero a = omega arith
length-replicate (suc n) a = omega (arith, length-replicate n a)

module _ (size : ℕ) (small : size < 1073741824) where
  room_at-start : room_at size 0 ≡ size
  unfolding room_at sub64
  room_at-start = omega arith

  room_at-full : room_at size size ≡ 0
  unfolding room_at sub64
  room_at-full = omega arith

  room_at-behind : 0 < size → room_at size (2 * size) ≡ 4294967296 - size
  unfolding room_at sub64
  room_at-behind h = omega arith

  counted-first : (left : ℕ) → left ≤ size → counted size 0 left ≡ size - left
  unfolding counted through_int sub64
  counted-first left h = ground arith

  counted-full : counted size size 0 ≡ 2 * size
  unfolding counted through_int sub64
  counted-full = ground arith

  counted-behind : 0 < size → counted size (2 * size) (4294967296 - size) ≡ 4 * size
  unfolding counted through_int sub64
  counted-behind h = ground arith

checked-IsGood : (r : Ret) (next : Unpacked) → IsGood r → checked r next ≡ next
unfolding checked
checked-IsGood z_ok next g = refl
checked-IsGood z_stream_end next g = refl
checked-IsGood z_buf_error next g = refl
checked-IsGood z_need_dict next g = elim g [ ]
checked-IsGood z_data_error next g = elim g [ ]
checked-IsGood z_mem_error next g = elim g [ ]
checked-IsGood z_stream_error next g = elim g [ ]

-- A length is kept where the bytes fit, and where there are none.
write_at-length :
    (count : ℕ) (w mem : Bytes)
    → count + length w ≤ length mem ⊎ length w ≡ 0
    → length (write_at count w mem) ≡ length mem
unfolding write_at
write_at-length count w mem h = omega (
  arith,
  length-append (take count mem) (w ++ drop (count + length w) mem),
  length-append w (drop (count + length w) mem),
  length-take count mem,
  length-drop (count + length w) mem,
  h,
)

module _ (z : Zlib) (content : z.Stream → Bytes) (i : Inflates z content) where
  after_round : ℕ → z.Stream → Bytes → ℕ → ℕ → Bytes → Unpacked
  after_round fuel s mem count room w =
      let left = room - length w in
      let count' = counted (length mem) count left in
      if ltb 0 (length w) && ltb (length mem) (count + length w)
      then outside
      else (if left == 0
          then counted_loop z fuel (z.inflate s room).2 (write_at count w mem) count'
          else finish (write_at count w mem) count')

  round :
      (fuel : ℕ) (s : z.Stream) (mem : Bytes) (count room : ℕ)
      → room_at (length mem) count ≡ room
      → counted_loop z (suc fuel) s mem count
        ≡ after_round fuel s mem count room (take room (content s))
  unfolding counted_loop after_round
  round fuel s mem count room e =
      rw (e, i.writes s room)
        (ap
          (λ x.
            if ltb 0 (length (take room (content s)))
              && ltb (length mem) (count + length (take room (content s)))
            then outside
            else x)
          (checked-IsGood (z.inflate s room).0 _ (i.good s room)))

  module _ (fuel size : ℕ) (small : size < 1073741824) (s : z.Stream) (mem : Bytes)
      (sized : length mem ≡ size) where
    round-short :
        length (content s) < size → counted_loop z (suc fuel) s mem 0 ≡ unpacked (content s)
    unfolding after_round finish write_at
    round-short h =
        round fuel s mem 0 size (rw sized (room_at-start size small))
        ∙ rw (take_all size (content s) (omega (arith, h))) (
            ground (
              arith,
              counted-first size small (size - length (content s)),
              take-append_length (content s) (drop (length (content s)) mem),
              length-append (content s) (drop (length (content s)) mem),
            ))

    round-fills :
        size ≤ length (content s)
        → counted_loop z (suc fuel) s mem 0
          ≡ counted_loop z fuel (z.inflate s size).2 (write_at 0 (take size (content s)) mem) size
    unfolding after_round
    round-fills h =
        round fuel s mem 0 size (rw sized (room_at-start size small))
        ∙ ground (arith, counted-first size small 0, length-take size (content s))

    round-full :
        counted_loop z (suc fuel) s mem size
        ≡ counted_loop z fuel (z.inflate s 0).2 (write_at size [] mem) (2 * size)
    unfolding after_round
    round-full =
        round fuel s mem size 0 (rw sized (room_at-full size small))
        ∙ ground (arith, counted-full size small)

    round-behind :
        0 < size
        → counted_loop z (suc fuel) s mem (2 * size)
          ≡ (if length (content s) == 0 then aborted else outside)
    unfolding after_round finish
    round-behind h =
        round fuel s mem (2 * size) (4294967296 - size) (rw sized (room_at-behind size small h))
        ∙ ground (
          arith,
          counted-behind size small h,
          length-take (4294967296 - size) (content s),
          write_at-length (2 * size) (take (4294967296 - size) (content s)) mem,
        )

  -- Where the buffer is filled, the third round decides.
  filled :
      (size : ℕ) (small : size < 1073741824) (s : z.Stream) (mem : Bytes)
      → length mem ≡ size
      → 0 < size
      → size ≤ length (content s)
      → counted_loop z 3 s mem 0 ≡ (if length (content s) == size then aborted else outside)
  filled size small s mem sized some_room h =
      round-fills 2 size small s mem sized h
      ∙ round-full 1 size small s1 mem1 sized1
      ∙ round-behind 0 size small s2 (write_at size [] mem1)
          (write_at-length size [] mem1 (inr refl) ∙ sized1) some_room
      ∙ rw (i.leaves s1 0, i.leaves s size, length-drop size (content s)) (ground (arith, h))
    where
      s1 : z.Stream
      s1 = (z.inflate s size).2

      s2 : z.Stream
      s2 = (z.inflate s1 0).2

      mem1 : Bytes
      mem1 = write_at 0 (take size (content s)) mem

      sized1 : length mem1 ≡ size
      sized1 =
          write_at-length 0 (take size (content s)) mem
            (inl (omega (arith, length-take size (content s), sized)))
          ∙ sized

  -- If `inflate` writes as much of the content of a stream as there is room for and finds no fault
  -- in it, and the input is neither empty nor so long that its buffer takes 2^30 bytes, a content
  -- that is shorter than the buffer is unpacked whole; one that just fills it ends in the failed
  -- assertion, and a longer one is written behind the buffer.
  pub ungzip_counted_lem :
      (input : Bytes) (s : z.Stream)
      → z.inflate_init input ≡ some s
      → 0 < length input
      → length input * 16 < 1073741824
      → ungzip_counted z input ≡ (
          if ltb (length (content s)) (length input * 16)
          then unpacked (content s)
          else (if length (content s) == length input * 16 then aborted else outside))
  unfolding ungzip_counted
  ungzip_counted_lem input s e some_room small =
      rw (e, ungzip_counted)
        (elim (Bool-cases (ltb (length (content s)) size)) [
          | inl fits ↦ rw fits (round-short 2 size small s mem sized (ltb→lt _ _ fits))
          | inr fills ↦
              rw fills (filled size small s mem sized (omega (arith, some_room)) (ground arith))
        ])
    where
      size : ℕ
      size = length input * 16

      mem : Bytes
      mem = replicate size 0

      sized : length mem ≡ size
      sized = length-replicate size 0
