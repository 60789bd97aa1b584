-- ===== src/Game/Keeps/Rooms.antt =====
-- The handlers of login, chat rooms and chat keep what sending, closing and the game's changes keep.
use iocp_game_chat_server.Prelude.{ℕ, inl, inr, arith, ◌==◌, Bool-cases, Option-cases, take}
use iocp_game_chat_server.Packet.{Packet}
use iocp_game_chat_server.State.{World, player, room}
use iocp_game_chat_server.Wire.{read_u32}
use iocp_game_chat_server.Room.{join, leave, has_player}
use iocp_game_chat_server.Server.{
  get_player, body_size, find_room, handle_login, handle_enter_room, enter_room, leave_room,
  get_or_create_room, create_room, handle_chat, on_chat,
}
use iocp_game_chat_server.Game.Keeps.{Keeps, broadcast_chat-keeps}

module _ (Q : World → Type 0) (k : Keeps Q) where
  pub leave_room-keeps : (p : ℕ) (w : World) → Q w → Q (leave_room p w)
  unfolding leave_room leave
  leave_room-keeps p w h = elim (Option-cases (player w p).room) [
    | inl e ↦ rw (e, leave_room) h
    | inr (r, e) ↦ elim (Bool-cases (has_player p (room w r).players)) [
      | inl there ↦ rw (e, leave_room, there) (k.plays _ w h)
      | inr absent ↦ rw (e, leave_room, absent) h
    ]
  ]

  pub join-keeps : (r p : ℕ) (w : World) → Q w → Q (join r p w)
  unfolding join
  join-keeps r p w h = elim (Bool-cases (has_player p (room w r).players)) [
    | inl there ↦ rw there h
    | inr absent ↦ rw absent (k.plays _ w h)
  ]

  pub create_room-keeps : (id capacity : ℕ) (w : World) → Q w → Q (create_room id capacity w).0
  unfolding create_room
  create_room-keeps id capacity w h = k.plays _ w h

  enter_room-keeps : (p id : ℕ) (w : World) → Q w → Q (enter_room p id w)
  unfolding enter_room get_or_create_room
  enter_room-keeps p id w h =
      let w' = leave_room p w in
      let h' = leave_room-keeps p w h in
      elim (Option-cases (find_room id w')) [
        | inl e ↦ rw (e, get_or_create_room) (join-keeps _ p _ (create_room-keeps id 0 w' h'))
        | inr (r, e) ↦ rw (e, get_or_create_room) (join-keeps r p w' h')
      ]

  pub handle_login-keeps : (s : ℕ) (pkt : Packet) (w : World) → Q w → Q (handle_login s pkt w)
  unfolding handle_login
  handle_login-keeps s pkt w h = elim (Option-cases (get_player s w)) [
    | inl e ↦ ground (arith, e, h)
    | inr (p, e) ↦ elim (Bool-cases (body_size pkt == 0)) [
      | inl empty ↦ rw empty h
      | inr some_name ↦ rw (e, some_name) (k.plays _ w h)
    ]
  ]

  pub handle_enter_room-keeps :
      (s : ℕ) (pkt : Packet) (w : World) → Q w → Q (handle_enter_room s pkt w)
  unfolding handle_enter_room
  handle_enter_room-keeps s pkt w h = elim (Option-cases (get_player s w)) [
    | inl e ↦ rw (e, handle_enter_room) h
    | inr (p, e) ↦ ground (arith, e, h, enter_room-keeps p (read_u32 pkt.body 0) w h)
  ]

  pub on_chat-keeps : (s : ℕ) (pkt : Packet) (w : World) → Q w → Q (on_chat s pkt w)
  unfolding on_chat handle_chat
  on_chat-keeps s pkt w h = elim (Option-cases (get_player s w)) [
    | inl e ↦ rw (e, on_chat) h
    | inr (p, e) ↦ elim (Option-cases (player w p).room) [
      | inl alone ↦ ground (arith, e, alone, h)
      | inr (r, there) ↦
          ground
            (arith, e, there, h, broadcast_chat-keeps Q k r p (take (body_size pkt) pkt.body) w h)
    ]
  ]
