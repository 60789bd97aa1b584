-- ===== src/Tests/Seating.antt =====
-- A player joins a game room.
use iocp_game_chat_server.Prelude.{◌+◌, none, [], ◌∷◌, if◌then◌else◌, ◌==◌, false}
use iocp_game_chat_server.Packet.{Packet}
use iocp_game_chat_server.State.{World, logged_in, room}
use iocp_game_chat_server.Lobby.{game_room_capacity}
use iocp_game_chat_server.Tests.Data.{ready_player, waiting}

-- Player 1 waits in the game room at address 3; player 2 has logged in.
abbrev half : World
half = record waiting {
  game = record (waiting.game) {
    player_at = λ p.
        if p == 1
        then ready_player 5
        else record (ready_player (p + 4)) { room = none; state = logged_in; ready = false };
    room_at = λ r. record {
      room_id = 100;
      players = if r == 3 then 1 ∷ [] else [];
      capacity = game_room_capacity;
      game_started = false;
    };
  };
}

-- JOIN_ROOM for room 100
abbrev join_100 : Packet
join_100 = record { header = record { size = 8; id = 20 }; body = 100 ∷ (0 ∷ (0 ∷ (0 ∷ []))) }
