-- ===== src/Game/Keeps.antt =====
-- What holds of the sessions through the game thread: a property that sending, closing and the game's
-- own changes keep is kept by every handler.
pub mod Rooms
pub mod Lobby
pub mod Jobs
use iocp_game_chat_server.Prelude.{
  ℕ, ◌+◌, ◌-◌, ◌%◌, ◌^◌, ◌≤◌, ◌≡◌, refl, Bool, true, false, not, Option, none, some, inl, inr, List,
  [], ◌∷◌, ◌++◌, arith, ◌==◌, ltb, leb, if◌then◌else◌, Bool-cases, Option-cases, length, take,
  length-take, length-append, u16, u32,
}
use iocp_game_chat_server.Packet.{Packet, max_packet_size, header_size}
use iocp_game_chat_server.State.{
  World, Game, Player, Room, GameJobType, packet, disconnect, connect, shutdown, no_job, player,
  room, put_player, put_room, logged_in, in_room, in_game,
}
use iocp_game_chat_server.Wire.{writer_size, chat_body, le16, le32, read_u8, read_u32, put_u16}
use iocp_game_chat_server.Session.{send_packet, request_close}
use iocp_game_chat_server.Session.Sending.{Offers}
use iocp_game_chat_server.Room.{
  send_chat, send_to_others, broadcast_chat, chat_overhead, join, leave,
}
use iocp_game_chat_server.Server.{
  get_player, body_size, find_room, handle_login, handle_enter_room, enter_room, leave_room,
  get_or_create_room, create_room, handle_chat, on_chat, on_session_connected, finish_cleanup,
  remove_player,
}
use iocp_game_chat_server.Lobby.{
  send_buffer, send_error, refuse_hello, ensure_name, welcome, welcome_body, accept_hello,
  handle_hello, send_room_state, send_room_states, broadcast_room_state, room_state_body, take_seat,
  join_found, handle_join_room, first_open, next_game_room, acquire_game_room, current_tick,
  game_room_capacity,
}
use iocp_game_chat_server.Match.{
  announce, start_game, try_start_game, set_ready, handle_ready, game_start_body,
}
use iocp_game_chat_server.Fsm.{Handler, get_handler}
use iocp_game_chat_server.Dispatch.{
  fsm_login, fsm_enter_room, run_handler, on_packet, tell_room, on_session_disconnected, run_job,
}

-- The steps of which the handlers consist, seen from the sessions.
pub record Keeps (Q : World → Type 0) : Type 0 where
  pub sends :
      (s id size : ℕ) (body : Option (List ℕ)) (w : World)
      → Offers body size
      → Q w
      → Q (send_packet s id body size w)
  pub closes : (s : ℕ) (w : World) → Q w → Q (request_close s w)
  pub plays : (g : Game) (w : World) → Q w → Q (record w { game = g })
  pub ticks : (n : ℕ) (w : World) → Q w → Q (record w { tick_calls = n })
  pub cleans : (s : ℕ) (w : World) → Q w → Q (finish_cleanup s w)

-- A buffer that `Writer` has filled is at least as long as the size that it tells.
writer_size-Offers : (buf : List ℕ) → Offers (some buf) (writer_size buf)
unfolding writer_size
writer_size-Offers buf = omega arith

pub chat_body-Offers :
    (id : ℕ) (name msg : List ℕ)
    → 4 + 2 + length name + 2 + length msg + header_size ≤ max_packet_size
    → Offers (some (chat_body id name msg)) (u16 (4 + 2 + length name + 2 + length msg))
unfolding chat_body
chat_body-Offers id name msg h =
    let n : u16 (length name) ≡ length name = omega arith in
    let m : u16 (length msg) ≡ length msg = omega arith in
    omega (
      arith,
      n,
      m,
      length-take (u16 (length name)) name,
      length-take (u16 (length msg)) msg,
      length-append (take (u16 (length name)) name)
          (le16 (u16 (length msg)) ++ take (u16 (length msg)) msg),
    )

module _ (Q : World → Type 0) (k : Keeps Q) where
  pub sends_buffer-keeps : (s id : ℕ) (buf : List ℕ) (w : World) → Q w → Q (send_buffer s id buf w)
  sends_buffer-keeps s id buf w h =
      k.sends s id (writer_size buf) (some buf) w (writer_size-Offers buf) h

  pub send_error-keeps : (s rejected code : ℕ) (w : World) → Q w → Q (send_error s rejected code w)
  unfolding send_error
  send_error-keeps s rejected code w h = sends_buffer-keeps s _ _ w h

  send_chat-keeps : (p id : ℕ) (name msg : List ℕ) (w : World) → Q w → Q (send_chat p id name msg w)
  unfolding send_chat
  send_chat-keeps p id name msg w h = elim (Option-cases (player w p).session) [
    | inl e ↦ rw (e, send_chat) h
    | inr (s, e) ↦
        let size = 4 + 2 + length name + 2 + length msg in
        elim (Bool-cases (ltb max_packet_size (size + header_size))) [
          | inl long ↦ rw (e, send_chat, long) h
          | inr fits ↦
              rw (e, send_chat, fits)
                (k.sends s 3 (u16 size) _ w (chat_body-Offers id name msg (ground (arith, fits))) h)
        ]
  ]

  send_to_others-keeps :
      (ps : List ℕ) (sender id : ℕ) (name msg : List ℕ) (w : World)
      → Q w
      → Q (send_to_others ps sender id name msg w)
  unfolding send_to_others
  send_to_others-keeps [] sender id name msg w h = h
  send_to_others-keeps (p ∷ ps) sender id name msg w h =
      send_to_others-keeps ps sender id name msg _ (elim (Bool-cases (p == sender)) [
        | inl e ↦ rw e h
        | inr e ↦ rw e (send_chat-keeps p id name msg w h)
      ])

  pub broadcast_chat-keeps :
      (r sender : ℕ) (msg : List ℕ) (w : World) → Q w → Q (broadcast_chat r sender msg w)
  unfolding broadcast_chat
  broadcast_chat-keeps r sender msg w h = elim (Option-cases (player w sender).room) [
    | inl e ↦ rw (e, broadcast_chat) h
    | inr (t, e) ↦
        let x = player w sender in
        elim (Bool-cases (leb max_packet_size (chat_overhead x.name))) [
          | inl long ↦ rw (e, broadcast_chat, long) h
          | inr fits ↦
              rw (e, broadcast_chat, fits)
                (send_to_others-keeps (room w r).players sender x.id x.name _ w h)
        ]
  ]

  send_room_states-keeps : (ps : List ℕ) (r : ℕ) (w : World) → Q w → Q (send_room_states ps r w)
  unfolding send_room_states send_room_state
  send_room_states-keeps [] r w h = h
  send_room_states-keeps (p ∷ ps) r w h =
      send_room_states-keeps ps r _ (elim (Option-cases (player w p).session) [
        | inl e ↦ rw (e, send_room_state) h
        | inr (s, e) ↦ rw (e, send_room_state) (sends_buffer-keeps s _ _ w h)
      ])

  pub broadcast_room_state-keeps : (r : ℕ) (w : World) → Q w → Q (broadcast_room_state r w)
  unfolding broadcast_room_state
  broadcast_room_state-keeps r w h = send_room_states-keeps (room w r).players r w h
