-- ===== src/Bilibili/Packets.antt =====
-- platforms/bilibili/bilibili.cpp: the two packets that the client sends.
use dmproxy.Base.{Bytes, codes, ℕ, ◌+◌, ◌≡◌, ◌<◌, refl, [], ◌∷◌, ◌++◌, length, get_or, drop, arith}
use dmproxy.Base.Decimal.{to_string}
use dmproxy.Base.Words.{u32_mod, store_be32, load_be32}

-- A header: the length of the packet, that of the header, a version, an operation, and a sequence
-- number.
unfoldable pub packet_header : ℕ → ℕ → Bytes
packet_header size operation =
    store_be32 size ++ (0 ∷ 16 ∷ 0 ∷ 1 ∷ []) ++ store_be32 operation ++ (0 ∷ 0 ∷ 0 ∷ 1 ∷ [])

unfoldable pub request_data : Bytes → ℕ → Bytes
request_data roomid uid =
    codes "{\"roomid\":" ++ roomid ++ codes ", \"uid\":" ++ to_string uid ++ codes "}"

-- `uid` is 1e14 + 2e14 * r for a random r below 1.
unfoldable pub new_request_packet : Bytes → ℕ → Bytes
unfolding packet_header
new_request_packet roomid uid =
    let req_data = request_data roomid uid in
    packet_header (4 + 4 + 4 + 4 + length req_data) 7 ++ req_data

unfoldable pub new_heartbeat_packet : Bytes
unfolding packet_header
new_heartbeat_packet = packet_header 16 2

-- In a request packet whose length fits 32 bits the reader of `handle_header` finds the length of
-- the packet, and the operation at the byte that it takes the type of data from; what follows the
-- 16 bytes is the request.
new_request_packet_lem :
    (roomid : Bytes) (uid : ℕ)
    → length (new_request_packet roomid uid) < u32_mod
    → (load_be32 (new_request_packet roomid uid) ≡ length (new_request_packet roomid uid))
      × (get_or (new_request_packet roomid uid) 11 0 ≡ 7)
      × (drop 16 (new_request_packet roomid uid) ≡ request_data roomid uid)
unfolding new_request_packet store_be32 load_be32
new_request_packet_lem roomid uid h = (omega arith, refl, refl)

pub new_heartbeat_packet_lem :
    (load_be32 new_heartbeat_packet ≡ length new_heartbeat_packet)
    × (get_or new_heartbeat_packet 11 0 ≡ 2)
unfolding new_heartbeat_packet store_be32 load_be32
new_heartbeat_packet_lem = (refl, refl)
