-- ===== src/Packet.antt =====
-- Packet.h, Packet.cpp and the constants of Protocol.h: headers, packet ids, error codes and the
-- first checks of a packet.
use iocp_game_chat_server.Prelude.{ℕ, Bool, true, false, List, ◌||◌, ltb, ◌==◌, if◌then◌else◌}

pub record PacketHeader : Type 0 where
  pub size : ℕ
  pub id : ℕ

-- The packet's view of its payload: the bytes that `body` points at.
pub record Packet : Type 0 where
  pub header : PacketHeader
  pub body : List ℕ

-- `sizeof(PacketHeader)`, under `#pragma pack(1)`
abbrev pub header_size : ℕ
header_size = 4

abbrev pub max_packet_size : ℕ
max_packet_size = 4096

-- `PACKET_ID`
abbrev pub pkt_cs_login : ℕ
pkt_cs_login = 1

abbrev pub pkt_cs_chat : ℕ
pkt_cs_chat = 2

abbrev pub pkt_sc_chat : ℕ
pkt_sc_chat = 3

abbrev pub pkt_cs_enter_room : ℕ
pkt_cs_enter_room = 4

abbrev pub pkt_cs_hello : ℕ
pkt_cs_hello = 10

abbrev pub pkt_sc_welcome : ℕ
pkt_sc_welcome = 11

abbrev pub pkt_cs_join_room : ℕ
pkt_cs_join_room = 20

abbrev pub pkt_sc_room_state : ℕ
pkt_sc_room_state = 21

abbrev pub pkt_cs_ready : ℕ
pkt_cs_ready = 22

abbrev pub pkt_sc_game_start : ℕ
pkt_sc_game_start = 30

abbrev pub pkt_sc_shutdown : ℕ
pkt_sc_shutdown = 1000

abbrev pub pkt_sc_kick : ℕ
pkt_sc_kick = 1001

abbrev pub pkt_sc_error : ℕ
pkt_sc_error = 1002

-- `PROTOCOL_VERSION`
abbrev pub protocol_version : ℕ
protocol_version = 1

-- The codes of `PROTOCOL_ERROR` that the server sends.
abbrev pub err_version_mismatch : ℕ
err_version_mismatch = 1

abbrev pub err_bad_format : ℕ
err_bad_format = 2

abbrev pub err_not_allowed : ℕ
err_not_allowed = 3

abbrev pub err_no_such_room : ℕ
err_no_such_room = 4

abbrev pub err_room_full : ℕ
err_room_full = 5

abbrev pub err_match_ended : ℕ
err_match_ended = 6

-- `Packet::IsValid`
unfoldable pub is_valid : Packet → Bool
is_valid pkt =
    if ltb pkt.header.size header_size
    then false
    else if ltb max_packet_size pkt.header.size
    then false
    else true

-- `IsKnownPacketId`
unfoldable pub is_known_packet_id : ℕ → Bool
is_known_packet_id id =
    id == pkt_cs_login
    || id == pkt_cs_chat
    || id == pkt_cs_enter_room
    || id == pkt_cs_hello
    || id == pkt_cs_join_room
    || id == pkt_cs_ready
