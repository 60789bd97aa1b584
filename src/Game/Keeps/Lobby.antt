-- ===== src/Game/Keeps/Lobby.antt =====
-- The handlers of the waiting room keep what sending, closing and the game's own changes keep.
use iocp_game_chat_server.Prelude.{
  ℕ, ◌+◌, true, not, Option, none, some, inl, inr, List, [], ◌∷◌, arith, ◌==◌, Bool-cases,
  Option-cases, u32,
}
use iocp_game_chat_server.Packet.{Packet}
use iocp_game_chat_server.State.{World, player, room, put_player, put_room, in_game}
use iocp_game_chat_server.Wire.{read_u8, read_u32}
use iocp_game_chat_server.Server.{get_player, find_room}
use iocp_game_chat_server.Lobby.{
  refuse_hello, ensure_name, welcome, accept_hello, handle_hello, take_seat, join_found,
  handle_join_room, first_open, next_game_room, acquire_game_room, current_tick, game_room_capacity,
}
use iocp_game_chat_server.Match.{
  announce, start_game, try_start_game, set_ready, handle_ready, game_start_body,
}
use iocp_game_chat_server.Game.Keeps.{
  Keeps, sends_buffer-keeps, send_error-keeps, broadcast_room_state-keeps,
}
use iocp_game_chat_server.Game.Keeps.Rooms.{leave_room-keeps, join-keeps, create_room-keeps}

module _ (Q : World → Type 0) (k : Keeps Q) where
  accept_hello-keeps : (s p : ℕ) (w : World) → Q w → Q (accept_hello s p w)
  unfolding accept_hello welcome ensure_name current_tick
  accept_hello-keeps s p w h =
      let ticked = k.ticks (w.tick_calls + 1) _ (k.plays (ensure_name p w).game w h) in
      k.plays _ _ (sends_buffer-keeps Q k s 11 _ _ ticked)

  pub handle_hello-keeps : (s : ℕ) (pkt : Packet) (w : World) → Q w → Q (handle_hello s pkt w)
  unfolding handle_hello refuse_hello
  handle_hello-keeps s pkt w h = elim (Option-cases (get_player s w)) [
    | inl e ↦ rw (e, handle_hello) h
    | inr (p, e) ↦
        let refused = λ (code : ℕ). k.closes s _ (send_error-keeps Q k s 10 code w h) in
        ground (arith, e, refused 2, refused 1, accept_hello-keeps s p w h)
  ]

  acquire_game_room-keeps : (id : ℕ) (w : World) → Q w → Q (acquire_game_room id w).0
  unfolding acquire_game_room next_game_room
  acquire_game_room-keeps id w h = elim (Bool-cases (id == 0)) [
    | inl any ↦ rw any (elim (Option-cases (first_open (w.visit w.game.rooms) w)) [
      | inl e ↦ rw e (create_room-keeps Q k _ _ _ (k.plays _ w h))
      | inr (r, e) ↦ rw e h
    ])
    | inr named ↦ rw named (elim (Option-cases (find_room id w)) [
      | inl e ↦ rw e (create_room-keeps Q k id game_room_capacity w h)
      | inr (r, e) ↦ rw e (
          ground (
            arith,
            h,
            k.plays (put_room w r (record (room w r) { capacity = game_room_capacity })).game w h,
          ))
    ])
  ]

  take_seat-keeps : (p r : ℕ) (w : World) → Q w → Q (take_seat p r w)
  unfolding take_seat
  take_seat-keeps p r w h =
      let seated = join-keeps Q k r p _ (k.plays _ _ (leave_room-keeps Q k p w h)) in
      broadcast_room_state-keeps Q k r _ (k.plays _ _ seated)

  join_found-keeps : (s p : ℕ) (out : World × Option ℕ) → Q out.0 → Q (join_found s p out)
  unfolding join_found
  join_found-keeps s p (w, none) h = send_error-keeps Q k s _ _ w h
  join_found-keeps s p (w, some r) h = ground (
    arith,
    send_error-keeps Q k s 20 6 w h,
    send_error-keeps Q k s 20 5 w h,
    take_seat-keeps p r w h,
  )

  pub handle_join_room-keeps :
      (s : ℕ) (pkt : Packet) (w : World) → Q w → Q (handle_join_room s pkt w)
  unfolding handle_join_room
  handle_join_room-keeps s pkt w h = elim (Option-cases (get_player s w)) [
    | inl e ↦ rw (e, handle_join_room) h
    | inr (p, e) ↦
        let id = read_u32 pkt.body 0 in
        ground (
          arith,
          e,
          send_error-keeps Q k s 20 2 w h,
          send_error-keeps Q k s 20 4 w h,
          join_found-keeps s p (acquire_game_room id w) (acquire_game_room-keeps id w h),
        )
  ]

  announce-keeps : (ps body : List ℕ) (w : World) → Q w → Q (announce ps body w)
  unfolding announce
  announce-keeps [] body w h = h
  announce-keeps (p ∷ ps) body w h =
      let h' = k.plays (put_player w p (record (player w p) { state = in_game })).game w h in
      announce-keeps ps body _ (elim (Option-cases (player w p).session) [
        | inl e ↦ rw (e, announce) h'
        | inr (s, e) ↦ rw (e, announce) (sends_buffer-keeps Q k s 30 body _ h')
      ])

  try_start_game-keeps : (r : ℕ) (w : World) → Q w → Q (try_start_game r w)
  unfolding try_start_game start_game
  try_start_game-keeps r w h =
      let w₁ = record w {
        game = record (w.game) { next_match_id = u32 (w.game.next_match_id + 1) };
      } in
      let w₂ = put_room w₁ r (record (room w₁ r) { game_started = true }) in
      ground (
        arith,
        h,
        announce-keeps (room w r).players
            (game_start_body w.game.next_match_id (room w r).players w) w₂ (k.plays w₂.game w h),
      )

  pub handle_ready-keeps : (s : ℕ) (pkt : Packet) (w : World) → Q w → Q (handle_ready s pkt w)
  unfolding handle_ready set_ready
  handle_ready-keeps s pkt w h = elim (Option-cases (get_player s w)) [
    | inl e ↦ rw (e, handle_ready) h
    | inr (p, e) ↦ elim (Option-cases (player w p).room) [
      | inl alone ↦ rw (e, alone, handle_ready) (send_error-keeps Q k s 22 3 w h)
      | inr (r, there) ↦
          let marked =
            put_player w p (record (player w p) { ready = not (read_u8 pkt.body 0 == 0) }) in
          ground (
            arith,
            e,
            there,
            send_error-keeps Q k s 22 6 w h,
            send_error-keeps Q k s 22 2 w h,
            try_start_game-keeps r _
                (broadcast_room_state-keeps Q k r marked (k.plays marked.game w h)),
          )
    ]
  ]
