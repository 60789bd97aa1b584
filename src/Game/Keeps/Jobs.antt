-- ===== src/Game/Keeps/Jobs.antt =====
-- Every job of the game thread keeps what sending, closing and the game's own changes keep.
use iocp_game_chat_server.Prelude.{ℕ, Option, none, some, inl, inr, List, arith, Option-cases}
use iocp_game_chat_server.Packet.{Packet}
use iocp_game_chat_server.State.{
  World, GameJob, GameJobType, packet, disconnect, connect, shutdown, no_job, player,
}
use iocp_game_chat_server.Server.{
  get_player, handle_enter_room, on_session_connected, remove_player,
}
use iocp_game_chat_server.Fsm.{Handler, get_handler}
use iocp_game_chat_server.Dispatch.{
  fsm_login, fsm_enter_room, run_handler, on_packet, tell_room, on_session_disconnected, run_job,
  game_thread_step,
}
use iocp_game_chat_server.JobQueue.{pop}
use iocp_game_chat_server.Game.Keeps.{Keeps, broadcast_room_state-keeps}
use iocp_game_chat_server.Game.Keeps.Rooms.{
  leave_room-keeps, handle_login-keeps, handle_enter_room-keeps, on_chat-keeps,
}
use iocp_game_chat_server.Game.Keeps.Lobby.{
  handle_hello-keeps, handle_join_room-keeps, handle_ready-keeps,
}

module _ (Q : World → Type 0) (k : Keeps Q) where
  run_handler-keeps :
      (t : Handler) (s p : ℕ) (pkt : Packet) (w : World) → Q w → Q (run_handler t s p pkt w)
  unfolding run_handler fsm_login fsm_enter_room
  run_handler-keeps Handler.login s p pkt w h = k.plays _ _ (handle_login-keeps Q k s pkt w h)
  run_handler-keeps Handler.enter_room s p pkt w h =
      let h' = handle_enter_room-keeps Q k s pkt w h in
      elim (Option-cases (player (handle_enter_room s pkt w) p).room) [
        | inl e ↦ rw (e, fsm_enter_room) h'
        | inr (r, e) ↦ rw (e, fsm_enter_room) (k.plays _ _ h')
      ]
  run_handler-keeps Handler.chat s p pkt w h = on_chat-keeps Q k s pkt w h
  run_handler-keeps Handler.hello s p pkt w h = handle_hello-keeps Q k s pkt w h
  run_handler-keeps Handler.join_room s p pkt w h = handle_join_room-keeps Q k s pkt w h
  run_handler-keeps Handler.ready s p pkt w h = handle_ready-keeps Q k s pkt w h

  on_packet-keeps : (s : ℕ) (pkt : Packet) (w : World) → Q w → Q (on_packet s pkt w)
  unfolding on_packet
  on_packet-keeps s pkt w h = elim (Option-cases (get_player s w)) [
    | inl e ↦ rw (e, on_packet) h
    | inr (p, e) ↦ elim (Option-cases (get_handler (player w p).state pkt.header.id)) [
      | inl blocked ↦ rw (e, blocked, on_packet) h
      | inr (t, found) ↦ rw (e, found, on_packet) (run_handler-keeps t s p pkt w h)
    ]
  ]

  tell_room-keeps : (o : Option ℕ) (w : World) → Q w → Q (tell_room o w)
  unfolding tell_room
  tell_room-keeps none w h = h
  tell_room-keeps (some r) w h = ground (arith, h, broadcast_room_state-keeps Q k r w h)

  on_session_disconnected-keeps : (s : ℕ) (w : World) → Q w → Q (on_session_disconnected s w)
  unfolding on_session_disconnected remove_player
  on_session_disconnected-keeps s w h = k.cleans s _ (elim (Option-cases (get_player s w)) [
    | inl e ↦ rw (e, on_session_disconnected) h
    | inr (p, e) ↦
        rw (e, on_session_disconnected)
          (tell_room-keeps (player w p).room _ (k.plays _ _ (leave_room-keeps Q k p w h)))
  ])

  pub run_job-keeps :
      (t : GameJobType) (session : Option ℕ) (pkt : Packet) (w : World)
      → Q w
      → Q (run_job t session pkt w)
  unfolding run_job on_session_connected
  run_job-keeps packet none pkt w h = h
  run_job-keeps packet (some s) pkt w h = on_packet-keeps s pkt w h
  run_job-keeps disconnect none pkt w h = h
  run_job-keeps disconnect (some s) pkt w h = on_session_disconnected-keeps s w h
  run_job-keeps connect none pkt w h = h
  run_job-keeps connect (some s) pkt w h = k.plays _ w h
  run_job-keeps shutdown session pkt w h = k.plays _ w h
  run_job-keeps no_job session pkt w h = h

  -- A property of the sessions that sending, closing, the game's changes and the cleanup of a session
  -- keep, and that does not look at the queue, is kept by every round of the game thread.
  pub game_thread_step-keeps :
      (w : World)
      → ((js : List GameJob) (w₁ : World) → Q w₁ → Q (record w₁ { jobs = js }))
      → Q w
      → Q (game_thread_step w)
  unfolding game_thread_step
  game_thread_step-keeps w queues h = elim (Option-cases (pop w.jobs)) [
    | inl e ↦ ground (arith, e, h)
    | inr ((job, queue), e) ↦
        let ran =
          run_job-keeps job.type job.session (record { header = job.header; body = job.body }) _
            (queues queue w h) in
        ground (arith, e, h, ran)
  ]
