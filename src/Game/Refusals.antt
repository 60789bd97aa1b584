-- ===== src/Game/Refusals.antt =====
-- What the lobby's handlers refuse, and with which code.
use iocp_game_chat_server.Prelude.{
  ℕ, ◌^◌, ◌≤◌, ◌<◌, ◌≡◌, ◌≢◌, true, false, none, some, List, [], ◌∷◌, ◌++◌, length,
}
use iocp_game_chat_server.Packet.{
  Packet, pkt_cs_hello, pkt_cs_join_room, pkt_cs_ready, pkt_sc_error, err_bad_format,
  err_version_mismatch, err_no_such_room, err_room_full, err_match_ended, err_not_allowed,
  protocol_version,
}
use iocp_game_chat_server.State.{World, player, room}
use iocp_game_chat_server.Wire.{read_u16, read_u32, le16}
use iocp_game_chat_server.Session.{packet_bytes}
use iocp_game_chat_server.Fsm.{Handler}
use iocp_game_chat_server.Server.{body_size, find_room}

-- The requests that are refused, as docs/protocol-v1.md names the reasons, with the packet and the code.
pub data Refused (s p : ℕ) (pkt : Packet) (w : World) : Handler → ℕ → ℕ → Type 0 where
  hello_format : body_size pkt ≢ 2 → Refused s p pkt w Handler.hello pkt_cs_hello err_bad_format
  hello_version :
      body_size pkt ≡ 2
      → read_u16 pkt.body 0 ≢ protocol_version
      → Refused s p pkt w Handler.hello pkt_cs_hello err_version_mismatch
  join_format :
      body_size pkt ≢ 4 → Refused s p pkt w Handler.join_room pkt_cs_join_room err_bad_format
  join_negative :
      body_size pkt ≡ 4
      → 2 ^ 31 ≤ read_u32 pkt.body 0
      → Refused s p pkt w Handler.join_room pkt_cs_join_room err_no_such_room
  join_chat_room :
      (r : ℕ)
      → body_size pkt ≡ 4
      → read_u32 pkt.body 0 < 2 ^ 31
      → read_u32 pkt.body 0 ≢ 0
      → find_room (read_u32 pkt.body 0) w ≡ some r
      → (room w r).capacity ≡ 0
      → 0 < length (room w r).players
      → Refused s p pkt w Handler.join_room pkt_cs_join_room err_no_such_room
  join_ended :
      (r : ℕ)
      → body_size pkt ≡ 4
      → read_u32 pkt.body 0 < 2 ^ 31
      → read_u32 pkt.body 0 ≢ 0
      → find_room (read_u32 pkt.body 0) w ≡ some r
      → (room w r).capacity ≢ 0
      → (room w r).game_started ≡ true
      → Refused s p pkt w Handler.join_room pkt_cs_join_room err_match_ended
  join_full :
      (r : ℕ)
      → body_size pkt ≡ 4
      → read_u32 pkt.body 0 < 2 ^ 31
      → read_u32 pkt.body 0 ≢ 0
      → find_room (read_u32 pkt.body 0) w ≡ some r
      → (room w r).capacity ≢ 0
      → (room w r).game_started ≡ false
      → (room w r).capacity ≤ length (room w r).players
      → Refused s p pkt w Handler.join_room pkt_cs_join_room err_room_full
  ready_alone :
      (player w p).room ≡ none → Refused s p pkt w Handler.ready pkt_cs_ready err_not_allowed
  ready_ended :
      (r : ℕ)
      → (player w p).room ≡ some r
      → (room w r).game_started ≡ true
      → Refused s p pkt w Handler.ready pkt_cs_ready err_match_ended
  ready_format :
      (r : ℕ)
      → (player w p).room ≡ some r
      → (room w r).game_started ≡ false
      → body_size pkt ≢ 1
      → Refused s p pkt w Handler.ready pkt_cs_ready err_bad_format

-- SC_ERROR: the refused packet's id and the code
abbrev pub error_packet : ℕ → ℕ → List ℕ
error_packet id code = packet_bytes pkt_sc_error (le16 id ++ le16 code) 4

-- The error is sent, and the game stays as it is.
abbrev pub Told : ℕ → ℕ → ℕ → World → World → Type 0
Told s id code w w' = (w'.sent ≡ w.sent ++ ((s, error_packet id code) ∷ [])) × (w'.game ≡ w.game)
