-- ===== src/Utils/Gzip.antt =====
-- utils/gzip.cpp: `ungzip(in, out)`, over zlib's `inflate`.
pub mod Complete
pub mod Counted
use dmproxy.Base.{
  Bytes, ℕ, zero, suc, ◌+◌, List, [], ◌++◌, Option, none, some, ◌==◌, if◌then◌else◌, length,
}

-- What `inflate` returns.
pub data Ret : Type 0 where
  z_ok z_stream_end z_buf_error z_need_dict z_data_error z_mem_error z_stream_error : Ret

-- zlib. `inflate_init` is `inflateInit2` with the input set, `none` where it fails; `inflate s n` is
-- a call with room for n bytes, which returns its result, what it wrote and the stream after it.
pub record Zlib : Type 1 where
  pub Stream : Type 0
  pub inflate_init : Bytes → Option Stream
  pub inflate : Stream → ℕ → Ret × Bytes × Stream

-- `returned false`, a failed assertion, and a loop that was not followed to its end.
pub data Unzipped : Type 0 where
  unzipped : Bytes → Unzipped
  bad_input aborted out_of_fuel : Unzipped

-- The size of `v_temp`.
abbrev pub chunk : ℕ
chunk = 4096

-- The `assert` and the `switch`, where all other results go on.
unfoldable pub check_ret : Ret → Unzipped → Unzipped
check_ret z_ok next = next
check_ret z_stream_end next = next
check_ret z_buf_error next = next
check_ret z_need_dict next = bad_input
check_ret z_data_error next = bad_input
check_ret z_mem_error next = bad_input
check_ret z_stream_error next = aborted

module _ (z : Zlib) where
  open z use {Stream, inflate_init, inflate}

  -- The `do … while` loop: it goes on while `inflate` fills the buffer.
  unfoldable pub inflate_loop : ℕ → Stream → Bytes → Unzipped
  inflate_loop zero s out = out_of_fuel
  inflate_loop (suc fuel) s out =
      let (ret, written, s') = inflate s chunk in
      let more = inflate_loop fuel s' (out ++ written) in
      let next = if length written == chunk then more else unzipped (out ++ written) in
      check_ret ret next

  -- Deflate expands at most 1032 times, a quarter of a chunk for each byte of the input.
  unfoldable pub ungzip : Bytes → Unzipped
  unfolding inflate_loop
  ungzip input = elim (inflate_init input) [
    | none ↦ bad_input
    | some s ↦ inflate_loop (length input + 1) s []
  ]
