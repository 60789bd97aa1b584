-- ===== src/Client/Console/Delivered.antt =====
-- The lines typed, from `main` to the server's job queue.
use iocp_game_chat_server.Prelude.{
  ℕ, ◌+◌, ◌≤◌, ◌≡◌, refl, sym, ◌∙◌, true, some, inl, inr, List, [], ◌∷◌, ◌++◌, arith, map, ltb,
  ltb→ge, Bool-cases, length,
}
use iocp_game_chat_server.Client.Console.Typed.{
  chats_of, chat_message, typed_messages, run_client-sent,
}
use iocp_game_chat_server.Packet.{header_size, max_packet_size, is_known_packet_id}
use iocp_game_chat_server.State.{World}
use iocp_game_chat_server.RingBuffer.Contents.{contents}
use iocp_game_chat_server.JobQueue.{packet_job}
use iocp_game_chat_server.Session.Rings.{ring_of}
use iocp_game_chat_server.Receive.Stream.{Receiving}
use iocp_game_chat_server.Receive.Chunks.{receive_all, joined, Chunks}
use iocp_game_chat_server.Client.{write_i32_le}
use iocp_game_chat_server.Client.Packets.{wires, AllSendable, packet_of, receive_all-messages}
use iocp_game_chat_server.Client.Text.{
  Command, nothing, quit, help, clear, unknown, chat, command_of,
}
use iocp_game_chat_server.Client.Sockets.{Winsock, Documented, Healthy, Outgoing}
use iocp_game_chat_server.Client.Console.{Echo, run_client}

AllSendable-chats : (lines : List (List ℕ)) → AllSendable (map chat_message (chats_of lines))
AllSendable-chats [] = tt
AllSendable-chats (line ∷ lines) = with_command (command_of line) refl (AllSendable-chats lines)
  where
    with_command :
        (c : Command)
        → command_of line ≡ c
        → AllSendable (map chat_message (chats_of lines))
        → AllSendable (map chat_message (chats_of (line ∷ lines)))
    with_command nothing e later = rw (chats_of, e) later
    with_command quit e later = rw (chats_of, e) tt
    with_command help e later = rw (chats_of, e) later
    with_command clear e later = rw (chats_of, e) later
    with_command unknown e later = rw (chats_of, e) later
    with_command (chat m) e later =
        elim (Bool-cases (ltb max_packet_size (header_size + length m))) [
          | inl long ↦ rw (chats_of, e, long) tt
          | inr short ↦
              rw (chats_of, e, short)
                (
                  record {
                    fits = ltb→ge max_packet_size _ short;
                    id_small = omega arith;
                    known = unfold is_known_packet_id in refl;
                  },
                  later,
                )
        ]

AllSendable-typed :
    (nickname : List ℕ) (room_id : ℕ) (lines : List (List ℕ))
    → header_size + length nickname ≤ max_packet_size
    → AllSendable (typed_messages nickname room_id lines)
AllSendable-typed nickname room_id lines fits = (
  record { fits = fits; id_small = omega arith; known = unfold is_known_packet_id in refl },
  (
    record {
      fits = unfold write_i32_le in omega arith;
      id_small = omega arith;
      known = unfold is_known_packet_id in refl;
    },
    AllSendable-chats lines,
  ),
)

-- From the keyboard to the game's queue: `main`, over a connection without errors and while `running`
-- stays set, comes to the end of the lines and hands the bytes of the typed messages to the kernel; and
-- however these bytes are cut into completions, the server's receive handler returns each time, and the
-- job queue gets one LOGIN job, one ENTER_ROOM job and one CHAT job for each line that is no command,
-- trimmed, up to a line that quits or fits no packet, in order. The name fits a packet, the server
-- runs, its kernel takes every operation, and the session starts connected with an empty, well-formed
-- ring.
pub run_client-jobs :
    (k : Winsock) (nickname : List ℕ) (room_id : ℕ) (lines : List (List ℕ)) (s : ℕ)
    (cs : List (List ℕ)) (w : World)
    → Documented k
    → Healthy k
    → header_size + length nickname ≤ max_packet_size
    → Receiving s w
    → contents (ring_of w s) ≡ []
    → Chunks cs
    → joined cs ≡ wires (typed_messages nickname room_id lines)
    → (shown : List Echo) × (o : Outgoing) × (w' : World) × (run_client k
          (λ _. true)
          nickname
          room_id
          lines
          (record { sent = []; calls = 0 })
        ≡ some (shown, o))
      × (o.sent ≡ joined cs)
      × (receive_all s cs w ≡ some w')
      × (w'.jobs
          ≡ w.jobs ++ map (packet_job s) (map packet_of (typed_messages nickname room_id lines)))
run_client-jobs k nickname room_id lines s cs w d h fits r empty chunks all =
    let (shown, o, returns, sent) =
      run_client-sent k nickname room_id lines (record { sent = []; calls = 0 }) d h fits in
    let (w', received, _, jobs) =
      receive_all-messages s (typed_messages nickname room_id lines) cs w r empty
        (AllSendable-typed nickname room_id lines fits) chunks all in
    (shown, o, w', returns, sent ∙ sym all, received, jobs)
