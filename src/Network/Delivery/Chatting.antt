-- ===== src/Network/Delivery/Chatting.antt =====
-- A chat packet from one client, as another client shows it.
use iocp_game_chat_server.Prelude.{
  ℕ, suc, ◌-◌, ◌^◌, ◌<◌, ◌≡◌, true, false, none, some, List, [], ◌∷◌, ◌==◌, if◌then◌else◌, take,
}
use iocp_game_chat_server.Packet.{Packet, max_packet_size}
use iocp_game_chat_server.State.{World, Game, in_room, player, room}
use iocp_game_chat_server.Room.{is_logged_in, chat_overhead}
use iocp_game_chat_server.Server.{get_player, body_size}

-- How many of these players, the sender aside, are at the session.
abbrev pub hearers : Game → ℕ → ℕ → List ℕ → ℕ
hearers g sender t [] = 0
hearers g sender t (q ∷ qs) =
    let rest = hearers g sender t qs in
    if q == sender
    then rest
    else elim (g.player_at q).session [ none ↦ rest | some s ↦ if s == t then suc rest else rest ]

-- A client in a room that sends a chat packet.
pub record Speaks (w : World) (s sender r : ℕ) (pkt : Packet) : Type 0 where
  pub here : get_player s w ≡ some sender
  pub entered : (player w sender).state ≡ in_room
  pub named : is_logged_in (player w sender) ≡ true
  pub seated : (player w sender).room ≡ some r
  pub kind : pkt.header.id ≡ 2
  pub some_text : (body_size pkt == 0) ≡ false
  pub space : chat_overhead (player w sender).name < max_packet_size
  pub id_small : (player w sender).id < 2 ^ 32

-- The text that is passed on.
abbrev pub passed_on : World → ℕ → Packet → List ℕ
passed_on w sender pkt =
    take (max_packet_size - chat_overhead (player w sender).name) (take (body_size pkt) pkt.body)
