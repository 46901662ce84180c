-- ===== src/Douyu/Reading.antt =====
-- platforms/douyu/douyu.cpp: the chain of reads, and what the packets that arrive lead to.
use dmproxy.Base.{Bytes, ℕ, ◌-◌, ◌<◌, ◌≡◌, ap, List, [], ◌∷◌, none, length, take, drop, arith}
use dmproxy.Base.Dict.{Dict}
use dmproxy.Base.Words.{u32, u32_mod, load_le32, store_le32}
use dmproxy.Network.{ErrorCode, Messages, Call, async_read}
use dmproxy.Network.Action.{ok}
use dmproxy.Douyu.Stt.{Tokenizer, make_stt, join_pairs}
use dmproxy.Douyu.Stt.RoundTrip.{length-make_stt, drop-make_stt, length-strcpy_zeroed}
use dmproxy.Douyu.Client.{Client, Handler, handle_header, handle_data, header_read, data_read}

-- The reads that a list of calls starts: how many bytes, and the handler.
abbrev pub reads : List (Call Handler) → List (ℕ × Handler)
reads [] = []
reads (async_read n k ∷ cs) = (n, k) ∷ reads cs
reads (_ ∷ cs) = reads cs

-- Both words of a packet's header are there, so its first word says how much of it follows.
pub load_le32-make_stt :
    (il : Dict Bytes) → load_le32 (take 12 (make_stt il)) ≡ u32 (length (make_stt il) - 4)
unfolding make_stt store_le32 load_le32
load_le32-make_stt il = omega (arith, length-strcpy_zeroed (join_pairs il))

module _ ⦃m : Messages⦄ where
  -- A packet that `make_stt` writes and whose length fits 32 bits is taken off the stream whole:
  -- its first 12 bytes make the client read exactly as many as there are behind them, and nothing
  -- else is called.
  pub header_read-make_stt :
      (il : Dict Bytes) (c : Client)
      → length (make_stt il) < u32_mod
      → header_read (take 12 (make_stt il)) none c
        ≡ (ok tt, c, async_read (length (drop 12 (make_stt il))) handle_data ∷ [])
  unfolding header_read
  header_read-make_stt il c h = ground (
    arith,
    load_le32-make_stt il,
    length-make_stt il,
    ap length (drop-make_stt il),
    length-strcpy_zeroed (join_pairs il),
  )

  module _ ⦃k : Tokenizer⦄ where
    -- Data that has been read, whatever it holds and whether or not the read failed, is followed by
    -- exactly one read of a header.
    reads-data_read :
        (data_bytes : Bytes) (ec : ErrorCode) (c : Client)
        → reads (data_read data_bytes ec c).2 ≡ (12, handle_header) ∷ []
    unfolding data_read
    reads-data_read [] ec c = ground arith
    reads-data_read (x ∷ xs) ec c = ground arith
