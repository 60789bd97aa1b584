-- ===== src/Tests/Lobby.antt =====
-- The waiting room, and a shutdown, on sample games.
use iocp_game_chat_server.Prelude.{
  ◌+◌, ◌≡◌, refl, true, some, none, inr, [], ◌∷◌, ◌++◌, arith, ◌==◌, ltb, if◌then◌else◌, length,
}
use iocp_game_chat_server.Packet.{Packet, max_packet_size, header_size, pkt_sc_room_state}
use iocp_game_chat_server.State.{World, GameJobType, room, is_connected}
use iocp_game_chat_server.Session.{fresh_session, packet_bytes}
use iocp_game_chat_server.Lobby.{room_state_body, send_room_state}
use iocp_game_chat_server.Lobby.Roster.{room_state_size, send_room_state_size}
use iocp_game_chat_server.Dispatch.{run_job}
use iocp_game_chat_server.Game.Capacity.{Capped, run_job-Capped}
use iocp_game_chat_server.Network.{Net, shutdown}
use iocp_game_chat_server.Network.Farewell.{AllOpen, AllDown, farewells, sent-shutdown}
use iocp_game_chat_server.Tests.Data.{started, waiting, ready_player}
use iocp_game_chat_server.Tests.Games.{waiting-Open}

-- JOIN_ROOM for room 100
abbrev join_100 : Packet
join_100 = record { header = record { size = 8; id = 20 }; body = 100 ∷ (0 ∷ (0 ∷ (0 ∷ []))) }

waiting-Capped : Capped waiting.game
waiting-Capped r = inr (omega arith)

run_job-Capped_example : Capped (run_job GameJobType.packet (some 5) join_100 waiting).game
run_job-Capped_example =
    run_job-Capped GameJobType.packet (some 5) join_100 waiting (λ e. absurd (omega (arith, e)))
      waiting-Capped

-- Player 9 is in no room.
abbrev visitor : World
visitor = record waiting {
  game = record (waiting.game) {
    player_at =
        λ p. if p == 9 then record (ready_player 13) { room = none } else ready_player (p + 4);
  };
}

waiting-connected : is_connected (waiting.sessions 5).state ≡ true
unfolding fresh_session
waiting-connected = refl

send_room_state_size_example :
    (length (room_state_body 3 waiting) ≡ room_state_size 3 waiting)
    × ((send_room_state (some 5) 3 waiting).sent
        ≡ waiting.sent
          ++ (if ltb max_packet_size (header_size + room_state_size 3 waiting)
              then []
              else (
                5,
                packet_bytes pkt_sc_room_state
                    (room_state_body 3 waiting)
                    (room_state_size 3 waiting),
              )
                ∷ []))
send_room_state_size_example =
    send_room_state_size 5 3 waiting waiting-Open waiting-connected (omega arith)

-- One session, at 5 on socket 7
abbrev pub serving : Net
serving = record { world = started; registry = (7, 5) ∷ []; freed = [] }

pub serving-AllOpen : AllOpen serving.world.sessions serving.registry
unfolding fresh_session
serving-AllOpen = (refl, tt)

sent-shutdown_example :
    ((shutdown serving).world.sent ≡ serving.world.sent ++ farewells serving.registry)
    × AllDown (shutdown serving).world.sessions serving.registry
sent-shutdown_example = sent-shutdown serving refl (λ k. refl) (tt, tt) serving-AllOpen
