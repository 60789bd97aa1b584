-- ===== src/Tests/Delivery.antt =====
-- The server's sends and the client's receive thread together.
use iocp_game_chat_server.Prelude.{suc, ◌≡◌, refl, inl, true, some, [], ◌∷◌, length}
use iocp_game_chat_server.Packet.{Packet}
use iocp_game_chat_server.State.{GameJobType}
use iocp_game_chat_server.Receive.Chunks.{joined}
use iocp_game_chat_server.Dispatch.{run_job}
use iocp_game_chat_server.Client.Sockets.{Incoming}
use iocp_game_chat_server.Client.Listening.{server_shutdown, recv_thread}
use iocp_game_chat_server.Client.Listening.Frames.{shown_packets}
use iocp_game_chat_server.Network.{shutdown}
use iocp_game_chat_server.Network.Steps.{Steps, step, accepts, shuts, done}
use iocp_game_chat_server.Network.Delivery.{to_session, recv_thread-Steps, recv_thread-shutdown}
use iocp_game_chat_server.Tests.Data.{waiting}
use iocp_game_chat_server.Tests.Console.{trickle, trickle-Documented, trickle-Healthy}
use iocp_game_chat_server.Tests.Lobby.{serving, serving-AllOpen}
use iocp_game_chat_server.Tests.Runs.{start, accepted}

-- CHAT with the text "hi"
abbrev says_hi : Packet
says_hi = record { header = record { size = 6; id = 2 }; body = 104 ∷ (105 ∷ []) }

-- What reaches the client at session 6 then.
abbrev hi_sent : Incoming
hi_sent = record {
  coming = joined (to_session 6 (run_job GameJobType.packet (some 5) says_hi waiting).sent);
  calls = 0;
}

-- What reaches the client of the only session.
abbrev farewell_sent : Incoming
farewell_sent = record { coming = joined (to_session 5 (shutdown serving).world.sent); calls = 0 }

recv_thread-shutdown_example :
    (i' : Incoming) × (recv_thread trickle
        (λ _. true)
        (suc (length farewell_sent.coming))
        0
        farewell_sent
      ≡ some (server_shutdown ∷ [], i'))
recv_thread-shutdown_example =
    recv_thread-shutdown serving 5 trickle farewell_sent refl (λ c. refl) (tt, tt) serving-AllOpen
      (inl refl) tt tt trickle-Documented trickle-Healthy refl

-- A client is accepted, and the server shuts down.
start-shutdown : Steps start (shutdown accepted)
start-shutdown =
    step start accepted _ (accepts 7 5 start refl)
      (step accepted _ _ (shuts accepted) (done (shutdown accepted)))

abbrev last_sent : Incoming
last_sent = record { coming = joined (to_session 5 (shutdown accepted).world.sent); calls = 0 }

recv_thread-Steps_example :
    (i' : Incoming) × (recv_thread trickle (λ _. true) (suc (length last_sent.coming)) 0 last_sent
      ≡ some (shown_packets (to_session 5 (shutdown accepted).world.sent), i'))
recv_thread-Steps_example =
    recv_thread-Steps start (shutdown accepted) 5 trickle last_sent start-shutdown tt
      trickle-Documented trickle-Healthy refl
