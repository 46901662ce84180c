-- ===== src/Tests/DouyuRuns.antt =====
-- platforms/douyu/ on concrete inputs.
use dmproxy.Base.{
  take, Bytes, codes, ℕ, ◌+◌, ◌≤◌, ◌<◌, ◌≡◌, ◌↔◌, [], ◌∷◌, none, ◌⊎◌, arith, length, drop, All,
  refl, false,
}
use dmproxy.Base.Dict.{Dict, lookup}
use dmproxy.Base.Words.{u32_mod, load_le32, store_le32}
use dmproxy.Network.{ErrorCode, async_read}
use dmproxy.Network.Action.{ok, fault, out_of_range}
use dmproxy.Douyu.Stt.{parse_stt, make_stt, join_pairs}
use dmproxy.Douyu.Stt.RoundTrip.{IsPlain, parse_stt-make_stt, length-make_stt}
use dmproxy.Douyu.Reading.{header_read-make_stt}
use dmproxy.Douyu.Client.{Client, handle_data, header_read, data_read}
use dmproxy.Douyu.Messages.{header_read_size, data_read_fault}
use dmproxy.Network.Life.{Life, outcome, Reach, starts, goes_on, completes, IsSingle}
use dmproxy.Douyu.Client.{Handler, on_resolve, start, resolved}
use dmproxy.Douyu.Life.{Result, complete, lifetime, leads, one_read}
use dmproxy.Tests.Fixture.{messages, tokenizer, tokenizer-Splits}

abbrev watcher : Client
watcher = record { roomid = codes "7"; endpoint = 0 }

abbrev chat : Dict Bytes
chat =
    (codes "type", codes "chatmsg")
    ∷ (codes "uid", codes "3")
    ∷ (codes "nn", codes "al")
    ∷ (codes "txt", codes "hi")
    ∷ []

abbrev login : Dict Bytes
login = (codes "type", codes "loginres") ∷ []

chat-IsPlain : All IsPlain chat
chat-IsPlain = omega arith

login-IsPlain : All IsPlain login
login-IsPlain = omega arith

length-login : length (make_stt login) < u32_mod
unfolding join_pairs
length-login = omega (arith, length-make_stt login)

stt_example : lookup (codes "nn") (parse_stt (drop 12 (make_stt chat))) ≡ lookup (codes "nn") chat
stt_example = parse_stt-make_stt (codes "nn") chat tokenizer-Splits chat-IsPlain

packet_header_example :
    header_read (take 12 (make_stt login)) none watcher
    ≡ (ok tt, watcher, async_read (length (drop 12 (make_stt login))) handle_data ∷ [])
packet_header_example = header_read-make_stt login watcher length-login

length_word : load_le32 (store_le32 3) < u32_mod
unfolding load_le32 store_le32
length_word = omega arith

-- A length of 3 makes the client read almost 4 gigabytes.
short_header_example :
    (n : ℕ) × (header_read (store_le32 3) none watcher
      ≡ (ok tt, watcher, async_read n handle_data ∷ []))
    × (((8 ≤ load_le32 (store_le32 3)) × (n + 8 ≡ load_le32 (store_le32 3)))
        ⊎ ((load_le32 (store_le32 3) < 8) × (n + 8 ≡ load_le32 (store_le32 3) + u32_mod)))
short_header_example = header_read_size (store_le32 3) watcher length_word

empty_data_example :
    ((data_read [] none watcher).0 ≡ fault out_of_range)
    ↔ ((◌≡◌ {A = Bytes} [] []) × (◌≡◌ {A = ErrorCode} none none))
empty_data_example = data_read_fault [] none watcher

-- The server has been found, and the client is connecting to it.
abbrev found : Result
found = record { bytes = []; iter = 1; ec = none }

abbrev connecting : Life Client Handler
connecting = outcome (complete on_resolve found) watcher [] false

connecting-Reach : Reach lifetime watcher connecting
unfolding start resolved
connecting-Reach = goes_on starts (completes [] [] on_resolve found refl)

connect_example : IsSingle leads connecting
connect_example = one_read connecting connecting-Reach
