-- ===== src/Lobby/Seating.antt =====
-- `HandleJoinRoom` where it lets the player in.
use iocp_game_chat_server.Prelude.{ℕ, ◌^◌, ◌<◌, ◌≡◌, ◌≢◌, false, some}
use iocp_game_chat_server.Packet.{Packet}
use iocp_game_chat_server.State.{World, Game, player, room}
use iocp_game_chat_server.Wire.{read_u32}
use iocp_game_chat_server.Room.{is_full}
use iocp_game_chat_server.Server.{get_player, find_room, body_size}

-- A JOIN_ROOM for a game room that takes the player.
pub record Joins (w : World) (s p r : ℕ) (pkt : Packet) : Type 0 where
  pub here : get_player s w ≡ some p
  pub format : body_size pkt ≡ 4
  pub positive : read_u32 pkt.body 0 < 2 ^ 31
  pub names_one : read_u32 pkt.body 0 ≢ 0
  pub found : find_room (read_u32 pkt.body 0) w ≡ some r
  pub game_room : (room w r).capacity ≢ 0
  pub not_started : (room w r).game_started ≡ false
  pub not_full : is_full (room w r) ≡ false
  pub away : (player w p).room ≢ some r
