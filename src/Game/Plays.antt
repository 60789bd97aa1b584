-- ===== src/Game/Plays.antt =====
-- What holds of the game through the game thread's jobs: a property that the changes of which the handlers
-- consist keep is kept by every job but ENTER_ROOM, and by that too where it is kept by `EnterRoom`.
pub mod Jobs
use iocp_game_chat_server.Prelude.{
  ℕ, ◌+◌, ◌≡◌, ◌≢◌, refl, sym, ap, ◌∙◌, Bool, true, false, not, Option, none, some, inl, inr, List,
  [], ◌∷◌, arith, ◌==◌, ltb, if◌then◌else◌, Bool-cases, Option-cases, length, u32, ltb→ge,
}
use iocp_game_chat_server.Packet.{Packet}
use iocp_game_chat_server.State.{
  World, Game, Player, Room, GameJobType, packet, disconnect, connect, shutdown, no_job, in_room,
  in_game, logged_in, player, room, put_player, put_room,
}
use iocp_game_chat_server.Wire.{read_u8, read_u32, writer_size}
use iocp_game_chat_server.Fsm.{Handler, get_handler}
use iocp_game_chat_server.Room.{join, leave, is_full}
use iocp_game_chat_server.Server.{
  get_player, body_size, find_room, create_room, enter_room, handle_login, handle_enter_room,
  leave_room, finish_cleanup, remove_player, on_chat, on_session_connected,
}
use iocp_game_chat_server.Lobby.{
  send_buffer, send_error, broadcast_room_state, refuse_hello, accept_hello, ensure_name, welcome,
  handle_hello, first_open, next_game_room, acquire_game_room, game_room_capacity, take_seat,
  join_found, handle_join_room,
}
use iocp_game_chat_server.Match.{
  announce, start_game, try_start_game, set_ready, handle_ready, game_start_body,
}
use iocp_game_chat_server.Dispatch.{
  fsm_enter_room, run_handler, on_packet, tell_room, on_session_disconnected, run_job,
}
use iocp_game_chat_server.Game.Quiet.{
  game-send_packet, game-send_error, game-refuse_hello, game-broadcast_room_state,
}
use iocp_game_chat_server.Game.Handlers.{game-on_chat, game-welcome}

-- The changes to the game.
pub record Plays (Q : Game → Type 0) : Type 0 where
  pub changes : (p : ℕ) (x : Player) (w : World) → Q w.game → Q (put_player w p x).game
  pub begins :
      (r : ℕ) (w : World)
      → Q w.game
      → Q (put_room w r (record (room w r) { game_started = true })).game
  pub opens :
      (r : ℕ) (w : World)
      → length (room w r).players ≡ 0
      → Q w.game
      → Q (put_room w r (record (room w r) { capacity = game_room_capacity })).game
  pub makes : (id capacity : ℕ) (w : World) → Q w.game → Q (create_room id capacity w).0.game
  pub leaves : (r p : ℕ) (w : World) → Q w.game → Q (leave r p w).game
  pub counts :
      (m n : ℕ) (b : Bool) (g : Game)
      → Q g
      → Q (record g { next_match_id = m; next_game_room_id = n; running = b })
  pub connects : (s : ℕ) (w : World) → Q w.game → Q (on_session_connected s w).game
  pub removes :
      (s p : ℕ) (w : World) → get_player s w ≡ some p → Q w.game → Q (remove_player s p w).game
  pub sits :
      (p r : ℕ) (w : World) → is_full (room w r) ≡ false → Q w.game → Q (take_seat p r w).game

module _ (Q : Game → Type 0) (k : Plays Q) where
  pub same-plays : (w w' : World) → w'.game ≡ w.game → Q w.game → Q w'.game
  same-plays w w' e h = rw e h

  pub leave_room-plays : (p : ℕ) (w : World) → Q w.game → Q (leave_room p w).game
  unfolding leave_room
  leave_room-plays p w h = elim (Option-cases (player w p).room) [
    | inl e ↦ rw (e, leave_room) h
    | inr (r, e) ↦ rw (e, leave_room) (k.leaves r p w h)
  ]

  pub handle_login-plays :
      (s : ℕ) (pkt : Packet) (w : World) → Q w.game → Q (handle_login s pkt w).game
  unfolding handle_login
  handle_login-plays s pkt w h = elim (Bool-cases (body_size pkt == 0)) [
    | inl e ↦ rw e h
    | inr e ↦ rw e (elim (Option-cases (get_player s w)) [
      | inl none_there ↦ rw none_there h
      | inr (p, there) ↦ rw there (k.changes p _ w h)
    ])
  ]

  accept_hello-plays : (s p : ℕ) (w : World) → Q w.game → Q (accept_hello s p w).game
  unfolding accept_hello ensure_name
  accept_hello-plays s p w h =
      let w₁ = ensure_name p w in
      k.changes p _ (welcome s p w₁) (rw (game-welcome s p w₁) (k.changes p _ w h))

  pub handle_hello-plays :
      (s : ℕ) (pkt : Packet) (w : World) → Q w.game → Q (handle_hello s pkt w).game
  unfolding handle_hello
  handle_hello-plays s pkt w h = elim (Option-cases (get_player s w)) [
    | inl e ↦ rw (e, handle_hello) h
    | inr (p, e) ↦ ground (
      arith,
      e,
      accept_hello-plays s p w h,
      same-plays w (refuse_hello s 2 w) (game-refuse_hello s 2 w) h,
      same-plays w (refuse_hello s 1 w) (game-refuse_hello s 1 w) h,
    )
  ]

  next_game_room-plays : (w : World) → Q w.game → Q (next_game_room w).0.game
  unfolding next_game_room
  next_game_room-plays w h =
      k.makes w.game.next_game_room_id game_room_capacity _
        (k.counts w.game.next_match_id (u32 (w.game.next_game_room_id + 1)) w.game.running w.game h)

  -- A room that a number names.
  abbrev Out : World × Option ℕ → Type 0
  Out (w, r) = Q w.game

  named_room :
      (r : ℕ) (w : World)
      → Q w.game
      → Out (
          if not ((room w r).capacity == 0)
          then (w, some r)
          else if ltb 0 (length (room w r).players)
          then (w, none)
          else (put_room w r (record (room w r) { capacity = game_room_capacity }), some r))
  named_room r w h = elim (Bool-cases ((room w r).capacity == 0)) [
    | inr game ↦ rw game h
    | inl chat_room ↦ rw chat_room (elim (Bool-cases (ltb 0 (length (room w r).players))) [
      | inl busy ↦ rw busy h
      | inr empty ↦
          let nobody : length (room w r).players ≡ 0 = omega (arith, ltb→ge 0 _ empty) in
          rw empty (k.opens r w nobody h)
    ])
  ]

  acquire_game_room-plays : (id : ℕ) (w : World) → Q w.game → Q (acquire_game_room id w).0.game
  unfolding acquire_game_room
  acquire_game_room-plays id w h = elim (Bool-cases (id == 0)) [
    | inl any ↦ rw any (elim (Option-cases (first_open (w.visit w.game.rooms) w)) [
      | inl e ↦ rw e (next_game_room-plays w h)
      | inr (r, e) ↦ rw e h
    ])
    | inr named ↦ rw named (elim (Option-cases (find_room id w)) [
      | inl e ↦ rw e (k.makes id game_room_capacity w h)
      | inr (r, e) ↦ rw e (named_room r w h)
    ])
  ]

  join_found-plays : (s p : ℕ) (out : World × Option ℕ) → Q out.0.game → Q (join_found s p out).game
  unfolding join_found
  join_found-plays s p (w, none) h = rw (game-send_error s 20 4 w) h
  join_found-plays s p (w, some r) h = elim (Bool-cases (is_full (room w r))) [
    | inl full ↦ ground (
      arith,
      full,
      same-plays w (send_error s 20 6 w) (game-send_error s 20 6 w) h,
      same-plays w (send_error s 20 5 w) (game-send_error s 20 5 w) h,
    )
    | inr open_still ↦ ground (
      arith,
      open_still,
      same-plays w (send_error s 20 6 w) (game-send_error s 20 6 w) h,
      k.sits p r w open_still h,
    )
  ]

  pub handle_join_room-plays :
      (s : ℕ) (pkt : Packet) (w : World) → Q w.game → Q (handle_join_room s pkt w).game
  unfolding handle_join_room
  handle_join_room-plays s pkt w h = elim (Option-cases (get_player s w)) [
    | inl e ↦ rw (e, handle_join_room) h
    | inr (p, e) ↦
        let id = read_u32 pkt.body 0 in
        ground (
          arith,
          e,
          same-plays w (send_error s 20 2 w) (game-send_error s 20 2 w) h,
          same-plays w (send_error s 20 4 w) (game-send_error s 20 4 w) h,
          join_found-plays s p (acquire_game_room id w) (acquire_game_room-plays id w h),
        )
  ]
