-- ===== src/Game/Jobs.antt =====
-- Starting a match, disconnecting, and the whole game thread keep the pointers consistent.
use mathlib.Core.List.{Perm}
use iocp_game_chat_server.Prelude.{
  ℕ, ◌+◌, refl, Bool, true, not, Option, none, some, inl, inr, List, [], ◌∷◌, arith, ◌==◌,
  Option-cases, u32,
}
use iocp_game_chat_server.Packet.{Packet}
use iocp_game_chat_server.State.{
  World, GameJobType, packet, disconnect, connect, shutdown, no_job, in_room, in_game, player, room,
  put_player, put_room,
}
use iocp_game_chat_server.Fsm.{Handler, get_handler}
use iocp_game_chat_server.Wire.{read_u8, writer_size}
use iocp_game_chat_server.Server.{
  get_player, handle_login, handle_enter_room, leave_room, finish_cleanup, remove_player,
}
use iocp_game_chat_server.Lobby.{send_buffer, send_error, broadcast_room_state}
use iocp_game_chat_server.Match.{
  announce, start_game, try_start_game, set_ready, handle_ready, game_start_body,
}
use iocp_game_chat_server.Dispatch.{
  fsm_enter_room, run_handler, on_packet, tell_room, on_session_disconnected, run_job,
}
use iocp_game_chat_server.Game.Quiet.{game-send_packet, game-send_error, game-broadcast_room_state}
use iocp_game_chat_server.Game.Wired.{
  put_player-Wired, put_room-Wired, leave_room-Wired, on_session_connected-Wired,
  remove_player-Wired,
}
use iocp_game_chat_server.Game.Handlers.{
  WiredWorld, same-Wired, handle_login-Wired, handle_enter_room-Wired, on_chat-Wired,
  handle_hello-Wired, handle_join_room-Wired,
}

-- A member who is told: the state changes, the packet is sent.
told-Wired :
    (p : ℕ) (body : List ℕ) (w : World) (o : Option ℕ)
    → WiredWorld w
    → WiredWorld (elim o [ none ↦ w | some s ↦ send_buffer s 30 body w ])
told-Wired p body w none h = h
told-Wired p body w (some s) h = rw (game-send_packet s 30 (some body) (writer_size body) w) h

announce-Wired : (ps body : List ℕ) (w : World) → WiredWorld w → WiredWorld (announce ps body w)
unfolding announce
announce-Wired [] body w h = h
announce-Wired (p ∷ ps) body w h =
    let w' = put_player w p (record (player w p) { state = in_game }) in
    announce-Wired ps body _
      (told-Wired p body w' (player w p).session (put_player-Wired p _ w refl h))

start_game-Wired : (r : ℕ) (w : World) → WiredWorld w → WiredWorld (start_game r w)
unfolding start_game
start_game-Wired r w h =
    let w₁ = record w {
      game = record (w.game) { next_match_id = u32 (w.game.next_match_id + 1) };
    } in
    let h₁ : WiredWorld w₁ = record {
      linked = h.linked;
      unseated = h.unseated;
      unlisted = h.unlisted;
      players_made = h.players_made;
      rooms_made = h.rooms_made;
    } in
    let w₂ = put_room w₁ r (record (room w₁ r) { game_started = true }) in
    announce-Wired (room w r).players (game_start_body w.game.next_match_id (room w r).players w) w₂
      (put_room-Wired r _ w₁ refl h₁)

try_start_game-Wired : (r : ℕ) (w : World) → WiredWorld w → WiredWorld (try_start_game r w)
unfolding try_start_game
try_start_game-Wired r w h = ground (arith, h, start_game-Wired r w h)

set_ready-Wired :
    (p r : ℕ) (flag : Bool) (w : World) → WiredWorld w → WiredWorld (set_ready p r flag w)
unfolding set_ready
set_ready-Wired p r flag w h =
    let w₁ = put_player w p (record (player w p) { ready = flag }) in
    try_start_game-Wired r (broadcast_room_state r w₁)
      (rw (game-broadcast_room_state r w₁) (put_player-Wired p _ w refl h))

handle_ready-Wired :
    (s : ℕ) (pkt : Packet) (w : World) → WiredWorld w → WiredWorld (handle_ready s pkt w)
unfolding handle_ready
handle_ready-Wired s pkt w h = elim (Option-cases (get_player s w)) [
  | inl e ↦ rw (e, handle_ready) h
  | inr (p, e) ↦ elim (Option-cases (player w p).room) [
    | inl alone ↦ rw (e, alone, handle_ready) (rw (game-send_error s 22 3 w) h)
    | inr (r, there) ↦ ground (
      arith,
      e,
      there,
      same-Wired w (send_error s 22 6 w) (game-send_error s 22 6 w) h,
      same-Wired w (send_error s 22 2 w) (game-send_error s 22 2 w) h,
      set_ready-Wired p r (not (read_u8 pkt.body 0 == 0)) w h,
    )
  ]
]

fsm_enter_room-Wired :
    (s p : ℕ) (pkt : Packet) (w : World) → WiredWorld w → WiredWorld (fsm_enter_room s p pkt w)
unfolding fsm_enter_room
fsm_enter_room-Wired s p pkt w h =
    let w' = handle_enter_room s pkt w in
    let h' = handle_enter_room-Wired s pkt w h in
    elim (Option-cases (player w' p).room) [
      | inl e ↦ rw (e, fsm_enter_room) h'
      | inr (r, e) ↦
          rw (e, fsm_enter_room)
            (put_player-Wired p (record (player w' p) { state = in_room }) w' refl h')
    ]

run_handler-Wired :
    (t : Handler) (s p : ℕ) (pkt : Packet) (w : World)
    → WiredWorld w
    → Perm (w.visit w.game.rooms) w.game.rooms
    → WiredWorld (run_handler t s p pkt w)
unfolding run_handler
run_handler-Wired Handler.login s p pkt w h any =
    put_player-Wired p _ (handle_login s pkt w) refl (handle_login-Wired s pkt w h)
run_handler-Wired Handler.enter_room s p pkt w h any = fsm_enter_room-Wired s p pkt w h
run_handler-Wired Handler.chat s p pkt w h any = on_chat-Wired s pkt w h
run_handler-Wired Handler.hello s p pkt w h any = handle_hello-Wired s pkt w h
run_handler-Wired Handler.join_room s p pkt w h any = handle_join_room-Wired s pkt w h any
run_handler-Wired Handler.ready s p pkt w h any = handle_ready-Wired s pkt w h

on_packet-Wired :
    (s : ℕ) (pkt : Packet) (w : World)
    → WiredWorld w
    → Perm (w.visit w.game.rooms) w.game.rooms
    → WiredWorld (on_packet s pkt w)
unfolding on_packet
on_packet-Wired s pkt w h any = elim (Option-cases (get_player s w)) [
  | inl e ↦ rw (e, on_packet) h
  | inr (p, e) ↦ elim (Option-cases (get_handler (player w p).state pkt.header.id)) [
    | inl blocked ↦ rw (e, blocked, on_packet) h
    | inr (t, found) ↦ rw (e, found, on_packet) (run_handler-Wired t s p pkt w h any)
  ]
]

tell_room-Wired : (o : Option ℕ) (w : World) → WiredWorld w → WiredWorld (tell_room o w)
unfolding tell_room
tell_room-Wired none w h = h
tell_room-Wired (some r) w h =
    ground (arith, h, same-Wired w (broadcast_room_state r w) (game-broadcast_room_state r w) h)

on_session_disconnected-Wired :
    (s : ℕ) (w : World) → WiredWorld w → WiredWorld (on_session_disconnected s w)
unfolding on_session_disconnected finish_cleanup
on_session_disconnected-Wired s w h = elim (Option-cases (get_player s w)) [
  | inl e ↦ rw (e, on_session_disconnected) h
  | inr (p, e) ↦
      rw (e, on_session_disconnected)
        (tell_room-Wired (player w p).room (remove_player s p (leave_room p w))
          (remove_player-Wired s p (leave_room p w) (leave_room-Wired p w h).0))
]

-- Where each room lists exactly the players whose `room` points at it, each once, and no pointer or
-- map entry leads to an object that was never made, every job that the game thread runs keeps it so. The
-- iteration over the rooms may meet its entries in any order.
pub run_job-Wired :
    (t : GameJobType) (session : Option ℕ) (pkt : Packet) (w : World)
    → WiredWorld w
    → Perm (w.visit w.game.rooms) w.game.rooms
    → WiredWorld (run_job t session pkt w)
unfolding run_job
run_job-Wired packet none pkt w h any = h
run_job-Wired packet (some s) pkt w h any = on_packet-Wired s pkt w h any
run_job-Wired disconnect none pkt w h any = h
run_job-Wired disconnect (some s) pkt w h any = on_session_disconnected-Wired s w h
run_job-Wired connect none pkt w h any = h
run_job-Wired connect (some s) pkt w h any = on_session_connected-Wired s w h
run_job-Wired shutdown session pkt w h any = record {
  linked = h.linked;
  unseated = h.unseated;
  unlisted = h.unlisted;
  players_made = h.players_made;
  rooms_made = h.rooms_made;
}
run_job-Wired no_job session pkt w h any = h
