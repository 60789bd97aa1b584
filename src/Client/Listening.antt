-- ===== src/Client/Listening.antt =====
-- client.cpp: `RecvThread`.
pub mod Returns
pub mod Frames
pub mod Chats
use iocp_game_chat_server.Prelude.{
  ℕ, zero, suc, ◌+◌, ◌-◌, Bool, true, false, Option, none, some, List, [], ◌∷◌, ◌++◌, ltb, ◌==◌,
  ◌||◌, if◌then◌else◌, length,
}
use iocp_game_chat_server.Packet.{
  header_size, max_packet_size, pkt_sc_chat, pkt_sc_shutdown, pkt_sc_kick,
}
use iocp_game_chat_server.Lobby.{default_name}
use iocp_game_chat_server.Client.{read_u16_le, parse_server_chat}
use iocp_game_chat_server.Client.Sockets.{Winsock, Incoming, recv_all}

-- What `PrintLine` shows: a chat line, or one of the notices.
pub data Shown : Type 0 where
  line : List ℕ → Shown
  connection_closed connection_broken bad_chat server_shutdown kicked : Shown
  bad_size : ℕ → Shown
  unknown_packet : ℕ → ℕ → Shown

-- "[" + senderName + "] " + message, where an empty name is "Player " + to_string(senderId)
pub chat_line : ℕ → List ℕ → List ℕ → List ℕ
chat_line sender_id sender_name message =
    let name = if length sender_name == 0 then default_name sender_id else sender_name in
    b'[' ∷ (name ++ (b']' ∷ 32 ∷ message))

-- The `switch`: what is shown, and whether the loop goes on.
pub handle_packet : ℕ → List ℕ → Shown × Bool
unfolding chat_line
handle_packet pkt_id body =
    if pkt_id == pkt_sc_chat
    then elim (parse_server_chat body) [
      | none ↦ (bad_chat, true)
      | some (sender_id, sender_name, message) ↦
          (line (chat_line sender_id sender_name message), true)
    ]
    else if pkt_id == pkt_sc_shutdown
    then (server_shutdown, false)
    else if pkt_id == pkt_sc_kick
    then (kicked, false)
    else (unknown_packet pkt_id (length body), true)

-- `bodySize > 0 && !RecvAll(...)`: an empty body is not read.
pub read_body : Winsock → ℕ → Incoming → Option (Option (List ℕ) × Incoming)
read_body k body_size i = elim (ltb 0 body_size) [
  | false ↦ some (some [], i)
  | true ↦ recv_all k body_size i
]

-- A round behind the header: what is shown, and whether `running` stays.
pub receive_body : Winsock → ℕ → ℕ → Incoming → Option (Shown × Bool × Incoming)
unfolding handle_packet read_body
receive_body k pkt_size pkt_id i = elim (ltb pkt_size header_size || ltb max_packet_size pkt_size) [
  | true ↦ some (bad_size pkt_size, false, i)
  | false ↦ elim (read_body k (pkt_size - header_size) i) [
    | none ↦ none
    | some (none, i') ↦ some (connection_broken, false, i')
    | some (some body, i') ↦ let (shown, on) = handle_packet pkt_id body in some (shown, on, i')
  ]
]

-- A round of the loop.
pub recv_round : Winsock → Incoming → Option (Shown × Bool × Incoming)
unfolding receive_body
recv_round k i = elim (recv_all k header_size i) [
  | none ↦ none
  | some (none, i') ↦ some (connection_closed, false, i')
  | some (some header, i') ↦ receive_body k (read_u16_le header 0) (read_u16_le header 2) i'
]

-- `RecvThread`: the lines that it shows. `running` is read before each round; `alive` says what `main` has
-- left in it. `none` where the fuel runs out.
pub recv_thread : Winsock → (ℕ → Bool) → ℕ → ℕ → Incoming → Option (List Shown × Incoming)
unfolding recv_round
recv_thread k alive zero n i = none
recv_thread k alive (suc fuel) n i = elim (alive n) [
  | false ↦ some ([], i)
  | true ↦ elim (recv_round k i) [
    | none ↦ none
    | some (shown, false, i₁) ↦ some (shown ∷ [], i₁)
    | some (shown, true, i₁) ↦ elim (recv_thread k alive fuel (suc n) i₁) [
      | none ↦ none
      | some (later, i₂) ↦ some (shown ∷ later, i₂)
    ]
  ]
]
