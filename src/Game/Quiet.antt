-- ===== src/Game/Quiet.antt =====
-- Sending and closing leave the game's own state alone: no player, room, map or counter changes.
use iocp_game_chat_server.Prelude.{
  ℕ, ◌≡◌, refl, ◌∙◌, Option, none, some, List, [], ◌∷◌, arith, ◌==◌, inl, inr, Bool-cases,
  Option-cases, u16, length, ◌+◌, ◌-◌, take,
}
use iocp_game_chat_server.State.{World, player, room}
use iocp_game_chat_server.Packet.{max_packet_size}
use iocp_game_chat_server.JobQueue.{enqueue_disconnect_job}
use iocp_game_chat_server.Wire.{chat_body}
use iocp_game_chat_server.Session.{request_close, post_send, send_packet, packet_bytes}
use iocp_game_chat_server.Room.{send_chat, send_to_others, broadcast_chat, chat_overhead}
use iocp_game_chat_server.Lobby.{
  send_error, refuse_hello, send_room_state, send_room_states, broadcast_room_state,
}

pub game-request_close : (s : ℕ) (w : World) → (request_close s w).game ≡ w.game
unfolding request_close enqueue_disconnect_job
game-request_close s w = ground arith

pub game-post_send : (s : ℕ) (bytes : List ℕ) (w : World) → (post_send s bytes w).game ≡ w.game
unfolding post_send enqueue_disconnect_job
game-post_send s bytes w = ground arith

pub game-send_packet :
    (s id : ℕ) (body : Option (List ℕ)) (size : ℕ) (w : World)
    → (send_packet s id body size w).game ≡ w.game
unfolding send_packet
game-send_packet s id none size w = ground (arith, game-post_send s (packet_bytes id [] size) w)
game-send_packet s id (some body) size w =
    ground (arith, game-post_send s (packet_bytes id body size) w)

game-send_chat :
    (p id : ℕ) (name msg : List ℕ) (w : World) → (send_chat p id name msg w).game ≡ w.game
unfolding send_chat
game-send_chat p id name msg w = elim (Option-cases (player w p).session) [
  | inl e ↦ rw (e, send_chat)
  | inr (s, e) ↦ ground (
    arith,
    e,
    game-send_packet s 3 (some (chat_body id name msg)) (u16 (4 + 2 + length name + 2 + length msg))
        w,
  )
]

game-send_to_others :
    (ps : List ℕ) (sender id : ℕ) (name msg : List ℕ) (w : World)
    → (send_to_others ps sender id name msg w).game ≡ w.game
unfolding send_to_others
game-send_to_others [] sender id name msg w = refl
game-send_to_others (p ∷ ps) sender id name msg w =
    game-send_to_others ps sender id name msg _ ∙ elim (Bool-cases (p == sender)) [
      | inl e ↦ rw e
      | inr e ↦ rw e (game-send_chat p id name msg w)
    ]

pub game-broadcast_chat :
    (r sender : ℕ) (msg : List ℕ) (w : World) → (broadcast_chat r sender msg w).game ≡ w.game
unfolding broadcast_chat
game-broadcast_chat r sender msg w = elim (Option-cases (player w sender).room) [
  | inl e ↦ rw (e, broadcast_chat)
  | inr (t, e) ↦ ground (
    arith,
    e,
    game-send_to_others (room w r).players sender (player w sender).id (player w sender).name
        (take (max_packet_size - chat_overhead (player w sender).name) msg) w,
  )
]

pub game-send_error :
    (s rejected code : ℕ) (w : World) → (send_error s rejected code w).game ≡ w.game
unfolding send_error
game-send_error s rejected code w = game-send_packet s _ _ _ w

pub game-refuse_hello : (s code : ℕ) (w : World) → (refuse_hello s code w).game ≡ w.game
unfolding refuse_hello
game-refuse_hello s code w = game-request_close s _ ∙ game-send_error s _ code w

game-send_room_state : (o : Option ℕ) (r : ℕ) (w : World) → (send_room_state o r w).game ≡ w.game
unfolding send_room_state
game-send_room_state none r w = refl
game-send_room_state (some s) r w = game-send_packet s _ _ _ w

game-send_room_states : (ps : List ℕ) (r : ℕ) (w : World) → (send_room_states ps r w).game ≡ w.game
unfolding send_room_states
game-send_room_states [] r w = refl
game-send_room_states (p ∷ ps) r w =
    game-send_room_states ps r _ ∙ game-send_room_state (player w p).session r w

pub game-broadcast_room_state : (r : ℕ) (w : World) → (broadcast_room_state r w).game ≡ w.game
unfolding broadcast_room_state
game-broadcast_room_state r w = game-send_room_states (room w r).players r w
