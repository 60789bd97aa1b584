-- ===== src/Game/Plays/Jobs.antt =====
-- Matches, disconnects and the jobs of the game thread.
use iocp_game_chat_server.Prelude.{
  ℕ, ◌+◌, ◌≡◌, ◌≢◌, ◌⊎◌, refl, ◌∙◌, Bool, false, not, Option, none, some, inl, inr, List, [], ◌∷◌,
  arith, ◌==◌, Option-cases, u32,
}
use iocp_game_chat_server.Packet.{Packet}
use iocp_game_chat_server.State.{
  World, Game, GameJobType, packet, disconnect, connect, shutdown, no_job, in_room, in_game,
  logged_in, player, room, put_player,
}
use iocp_game_chat_server.Wire.{read_u8, read_u32, writer_size}
use iocp_game_chat_server.Fsm.{Handler, get_handler}
use iocp_game_chat_server.Room.{leave}
use iocp_game_chat_server.Server.{
  get_player, enter_room, handle_login, handle_enter_room, leave_room, finish_cleanup,
  remove_player,
}
use iocp_game_chat_server.Lobby.{send_buffer, send_error, broadcast_room_state}
use iocp_game_chat_server.Match.{
  announce, start_game, try_start_game, set_ready, handle_ready, game_start_body,
}
use iocp_game_chat_server.Dispatch.{
  fsm_enter_room, run_handler, on_packet, tell_room, on_session_disconnected, run_job,
}
use iocp_game_chat_server.Game.Quiet.{game-send_packet, game-send_error, game-broadcast_room_state}
use iocp_game_chat_server.Game.Handlers.{game-on_chat}
use iocp_game_chat_server.Packet.{pkt_cs_enter_room}
use iocp_game_chat_server.Fsm.Table.{Allows, get_handler-Allows}
use iocp_game_chat_server.State.{PlayerState, no_player, leaving}
use iocp_game_chat_server.Game.Plays.{
  Plays, same-plays, leave_room-plays, handle_login-plays, handle_hello-plays,
  handle_join_room-plays,
}

-- Only the packet ENTER_ROOM leads to `EnterRoom`.
enters_by :
    (st : PlayerState) (id : ℕ) (t : Handler)
    → Allows st id t
    → t ≡ Handler.enter_room
    → id ≡ pkt_cs_enter_room
enters_by no_player id t a e = ground (arith, a, e)
enters_by logged_in id t a e = ground (arith, a, e)
enters_by in_room id t a e = ground (arith, a, e)
enters_by in_game id t a e = absurd a
enters_by leaving id t a e = absurd a

get_player-leave_room : (s p : ℕ) (w : World) → get_player s (leave_room p w) ≡ get_player s w
unfolding get_player leave_room leave
get_player-leave_room s p w = elim (Option-cases (player w p).room) [
  | inl e ↦ rw (leave_room, e) refl
  | inr (r, e) ↦ ground (arith, e)
]

-- The packet is no ENTER_ROOM, or `EnterRoom` keeps the property.
abbrev pub Enters : (Game → Type 0) → Type 0 → Type 0
Enters Q Other = Other ⊎ ((p id : ℕ) (w : World) → Q w.game → Q (enter_room p id w).game)

module _ (Q : Game → Type 0) (k : Plays Q) where
  abbrev On : World → Type 0
  On w = Q w.game

  told-plays :
      (body : List ℕ) (w : World) (o : Option ℕ)
      → Q w.game
      → On (elim o [ none ↦ w | some s ↦ send_buffer s 30 body w ])
  told-plays body w none h = h
  told-plays body w (some s) h = rw (game-send_packet s 30 (some body) (writer_size body) w) h

  announce-plays : (ps body : List ℕ) (w : World) → Q w.game → Q (announce ps body w).game
  unfolding announce
  announce-plays [] body w h = h
  announce-plays (p ∷ ps) body w h =
      let w' = put_player w p (record (player w p) { state = in_game }) in
      announce-plays ps body _ (told-plays body w' (player w p).session (k.changes p _ w h))

  start_game-plays : (r : ℕ) (w : World) → Q w.game → Q (start_game r w).game
  unfolding start_game
  start_game-plays r w h =
      let w₁ = record w {
        game = record (w.game) { next_match_id = u32 (w.game.next_match_id + 1) };
      } in
      let h₁ =
        k.counts (u32 (w.game.next_match_id + 1)) w.game.next_game_room_id w.game.running w.game
          h in
      announce-plays (room w r).players (game_start_body w.game.next_match_id (room w r).players w)
        _ (k.begins r w₁ h₁)

  try_start_game-plays : (r : ℕ) (w : World) → Q w.game → Q (try_start_game r w).game
  unfolding try_start_game
  try_start_game-plays r w h = ground (arith, h, start_game-plays r w h)

  set_ready-plays : (p r : ℕ) (flag : Bool) (w : World) → Q w.game → Q (set_ready p r flag w).game
  unfolding set_ready
  set_ready-plays p r flag w h =
      let w₁ = put_player w p (record (player w p) { ready = flag }) in
      try_start_game-plays r (broadcast_room_state r w₁)
        (rw (game-broadcast_room_state r w₁) (k.changes p _ w h))

  handle_ready-plays : (s : ℕ) (pkt : Packet) (w : World) → Q w.game → Q (handle_ready s pkt w).game
  unfolding handle_ready
  handle_ready-plays s pkt w h = elim (Option-cases (get_player s w)) [
    | inl e ↦ rw (e, handle_ready) h
    | inr (p, e) ↦ elim (Option-cases (player w p).room) [
      | inl alone ↦ rw (e, alone, handle_ready) (rw (game-send_error s 22 3 w) h)
      | inr (r, there) ↦ ground (
        arith,
        e,
        there,
        same-plays Q k w (send_error s 22 6 w) (game-send_error s 22 6 w) h,
        same-plays Q k w (send_error s 22 2 w) (game-send_error s 22 2 w) h,
        set_ready-plays p r (not (read_u8 pkt.body 0 == 0)) w h,
      )
    ]
  ]

  handle_enter_room-plays :
      (s : ℕ) (pkt : Packet) (w : World)
      → ((p id : ℕ) (v : World) → Q v.game → Q (enter_room p id v).game)
      → Q w.game
      → Q (handle_enter_room s pkt w).game
  unfolding handle_enter_room
  handle_enter_room-plays s pkt w enters h = elim (Option-cases (get_player s w)) [
    | inl e ↦ rw (e, handle_enter_room) h
    | inr (p, e) ↦ ground (arith, e, h, enters p (read_u32 pkt.body 0) w h)
  ]

  fsm_enter_room-plays :
      (s p : ℕ) (pkt : Packet) (w : World)
      → ((q id : ℕ) (v : World) → Q v.game → Q (enter_room q id v).game)
      → Q w.game
      → Q (fsm_enter_room s p pkt w).game
  unfolding fsm_enter_room
  fsm_enter_room-plays s p pkt w enters h =
      let w' = handle_enter_room s pkt w in
      let h' = handle_enter_room-plays s pkt w enters h in
      elim (Option-cases (player w' p).room) [
        | inl e ↦ rw (e, fsm_enter_room) h'
        | inr (r, e) ↦ rw (e, fsm_enter_room) (k.changes p _ w' h')
      ]

  run_handler-plays :
      (t : Handler) (s p : ℕ) (pkt : Packet) (w : World)
      → Enters Q (t ≢ Handler.enter_room)
      → Q w.game
      → Q (run_handler t s p pkt w).game
  unfolding run_handler
  run_handler-plays Handler.login s p pkt w other h =
      k.changes p _ (handle_login s pkt w) (handle_login-plays Q k s pkt w h)
  run_handler-plays Handler.enter_room s p pkt w (inl other) h = absurd (other refl)
  run_handler-plays Handler.enter_room s p pkt w (inr enters) h =
      fsm_enter_room-plays s p pkt w enters h
  run_handler-plays Handler.chat s p pkt w other h = rw (game-on_chat s pkt w) h
  run_handler-plays Handler.hello s p pkt w other h = handle_hello-plays Q k s pkt w h
  run_handler-plays Handler.join_room s p pkt w other h = handle_join_room-plays Q k s pkt w h
  run_handler-plays Handler.ready s p pkt w other h = handle_ready-plays s pkt w h

  on_packet-plays :
      (s : ℕ) (pkt : Packet) (w : World)
      → Enters Q (pkt.header.id ≢ pkt_cs_enter_room)
      → Q w.game
      → Q (on_packet s pkt w).game
  unfolding on_packet
  on_packet-plays s pkt w other h = elim (Option-cases (get_player s w)) [
    | inl e ↦ rw (e, on_packet) h
    | inr (p, e) ↦ elim (Option-cases (get_handler (player w p).state pkt.header.id)) [
      | inl blocked ↦ rw (e, blocked, on_packet) h
      | inr (t, found) ↦
          let st = (player w p).state in
          let id = pkt.header.id in
          let enters : Enters Q (t ≢ Handler.enter_room) = elim other [
            | inl not_that ↦
                inl
                  (λ that. not_that (enters_by st id t ((get_handler-Allows st id t).0 found) that))
            | inr keeps ↦ inr keeps
          ] in
          rw (e, found, on_packet) (run_handler-plays t s p pkt w enters h)
    ]
  ]

  tell_room-plays : (o : Option ℕ) (w : World) → Q w.game → Q (tell_room o w).game
  unfolding tell_room
  tell_room-plays none w h = h
  tell_room-plays (some r) w h =
      ground
        (arith, h, same-plays Q k w (broadcast_room_state r w) (game-broadcast_room_state r w) h)

  on_session_disconnected-plays :
      (s : ℕ) (w : World) → Q w.game → Q (on_session_disconnected s w).game
  unfolding on_session_disconnected finish_cleanup
  on_session_disconnected-plays s w h = elim (Option-cases (get_player s w)) [
    | inl e ↦ rw (e, on_session_disconnected) h
    | inr (p, e) ↦
        let still : get_player s (leave_room p w) ≡ some p = get_player-leave_room s p w ∙ e in
        rw (e, on_session_disconnected)
          (tell_room-plays (player w p).room (remove_player s p (leave_room p w))
            (k.removes s p (leave_room p w) still (leave_room-plays Q k p w h)))
  ]

  pub run_job-plays :
      (t : GameJobType) (session : Option ℕ) (pkt : Packet) (w : World)
      → Enters Q (pkt.header.id ≢ pkt_cs_enter_room)
      → Q w.game
      → Q (run_job t session pkt w).game
  unfolding run_job
  run_job-plays packet none pkt w other h = h
  run_job-plays packet (some s) pkt w other h = on_packet-plays s pkt w other h
  run_job-plays disconnect none pkt w other h = h
  run_job-plays disconnect (some s) pkt w other h = on_session_disconnected-plays s w h
  run_job-plays connect none pkt w other h = h
  run_job-plays connect (some s) pkt w other h = k.connects s w h
  run_job-plays shutdown session pkt w other h =
      k.counts w.game.next_match_id w.game.next_game_room_id false w.game h
  run_job-plays no_job session pkt w other h = h
