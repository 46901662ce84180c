-- ===== src/Utils/Gzip/Complete.antt =====
-- utils/gzip.cpp: the loop writes the whole content of a stream.
use dmproxy.Base.{
  Bytes, ℕ, zero, suc, ◌+◌, ◌*◌, ◌≤◌, ◌<◌, ◌≡◌, refl, ◌∙◌, ap, [], ◌++◌, append_assoc, some,
  Bool-cases, true, false, if◌then◌else◌, inl, inr, ◌==◌, length, take, drop, length-take,
  length-drop, take-append-drop, take_all, ==_iff, arith,
}
use dmproxy.Utils.Gzip.{
  Ret, z_ok, z_stream_end, z_buf_error, z_need_dict, z_data_error, z_mem_error, z_stream_error,
  Zlib, Unzipped, unzipped, chunk, check_ret, inflate_loop, ungzip,
}

abbrev pub IsGood : Ret → Type 0
IsGood z_ok = Unit
IsGood z_stream_end = Unit
IsGood z_buf_error = Unit
IsGood _ = ⊥

check_ret-IsGood : (r : Ret) (next : Unzipped) → IsGood r → check_ret r next ≡ next
unfolding check_ret
check_ret-IsGood z_ok next g = refl
check_ret-IsGood z_stream_end next g = refl
check_ret-IsGood z_buf_error next g = refl
check_ret-IsGood z_need_dict next g = elim g [ ]
check_ret-IsGood z_data_error next g = elim g [ ]
check_ret-IsGood z_mem_error next g = elim g [ ]
check_ret-IsGood z_stream_error next g = elim g [ ]

-- What is relied on of zlib for a sound stream: `content s` is what it has still to write, and a
-- call writes as much of it as there is room for.
pub record Inflates (z : Zlib) (content : z.Stream → Bytes) : Type 0 where
  pub good : (s : z.Stream) (n : ℕ) → IsGood (z.inflate s n).0
  pub writes : (s : z.Stream) (n : ℕ) → (z.inflate s n).1 ≡ take n (content s)
  pub leaves : (s : z.Stream) (n : ℕ) → content (z.inflate s n).2 ≡ drop n (content s)

module _ (z : Zlib) (content : z.Stream → Bytes) (i : Inflates z content) where
  inflate_loop_step :
      (fuel : ℕ) (s : z.Stream) (out : Bytes)
      → inflate_loop z (suc fuel) s out ≡ (
          let (ret, written, s') = z.inflate s chunk in
          if length written == chunk
          then inflate_loop z fuel s' (out ++ written)
          else unzipped (out ++ written))
  unfolding inflate_loop
  inflate_loop_step fuel s out = check_ret-IsGood (z.inflate s chunk).0 _ (i.good s chunk)

  -- The loop ends, with all of the content behind what was there.
  pub inflate_loop_lem :
      (fuel : ℕ) (s : z.Stream) (out : Bytes)
      → length (content s) < chunk * fuel
      → inflate_loop z fuel s out ≡ unzipped (out ++ content s)
  inflate_loop_lem zero s out h = absurd (omega arith)
  inflate_loop_lem (suc fuel) s out h =
      elim (Bool-cases (length (take chunk (content s)) == chunk)) [
        | inl full ↦
            inflate_loop_step fuel s out
            ∙ rw (i.writes s chunk, full)
                (inflate_loop_lem fuel (z.inflate s chunk).2 (out ++ take chunk (content s))
                    (fewer full)
                  ∙ ap unzipped whole)
        | inr short ↦
            inflate_loop_step fuel s out
            ∙ rw (i.writes s chunk, short) (ap (λ w. unzipped (out ++ w)) (rest short))
      ]
    where
      fewer :
          (length (take chunk (content s)) == chunk) ≡ true
          → length (content (z.inflate s chunk).2) < chunk * fuel
      fewer full = rw (i.leaves s chunk) (
          omega (
            arith,
            length-drop chunk (content s),
            length-take chunk (content s),
            (==_iff (length (take chunk (content s))) chunk).0 full,
          ))

      whole : (out ++ take chunk (content s)) ++ content (z.inflate s chunk).2 ≡ out ++ content s
      whole = rw (i.leaves s chunk) (
          append_assoc out (take chunk (content s)) (drop chunk (content s))
          ∙ ap (◌++◌ out) (take-append-drop chunk (content s)))

      rest : (length (take chunk (content s)) == chunk) ≡ false → take chunk (content s) ≡ content s
      rest short = take_all chunk (content s) (ground (arith, length-take chunk (content s)))

  -- If `inflate` writes as much of the content of a stream as there is room for and finds no fault
  -- in it, an input whose content is at most 1032 times as long is unpacked whole, whatever it
  -- fills of the last chunk: the loop neither fails nor runs on.
  pub ungzip_lem :
      (input : Bytes) (s : z.Stream)
      → z.inflate_init input ≡ some s
      → length (content s) ≤ 1032 * length input
      → ungzip z input ≡ unzipped (content s)
  unfolding ungzip
  ungzip_lem input s e h = rw (e, ungzip) (inflate_loop_lem (length input + 1) s [] (omega arith))
