-- ===== src/Lobby.antt =====
-- The second part of GameServer.cpp: the waiting room of Bomb Arena (hello, join, ready, start).
pub mod Automatic
pub mod Roster
pub mod Telling
pub mod Leaving
pub mod Joining
pub mod Seating
use iocp_game_chat_server.Prelude.{
  ℕ, zero, suc, ◌+◌, ◌-◌, ◌*◌, ◌/◌, ◌%◌, ◌^◌, Bool, true, false, not, Option, none, some, List, [],
  ◌∷◌, ◌&&◌, ◌||◌, ltb, leb, ◌==◌, if◌then◌else◌, length, u16, u32,
}
use iocp_game_chat_server.Packet.{
  Packet, pkt_cs_hello, pkt_sc_welcome, pkt_cs_join_room, pkt_sc_room_state, pkt_sc_error,
  protocol_version, err_version_mismatch, err_bad_format, err_no_such_room, err_room_full,
  err_match_ended,
}
use iocp_game_chat_server.State.{
  World, Room, logged_in, in_room, player, room, put_player, put_room,
}
use iocp_game_chat_server.Session.{send_packet, request_close}
use iocp_game_chat_server.Wire.{
  put_u8, put_u16, put_u32, put_i32, put_str, writer_size, read_u16, read_u32,
}
use iocp_game_chat_server.Room.{is_full, join}
use iocp_game_chat_server.Server.{find_room, create_room, get_player, leave_room, body_size}

-- The game's constants
abbrev pub tick_rate : ℕ
tick_rate = 20

abbrev pub tile_unit : ℕ
tile_unit = 1000

abbrev pub map_width : ℕ
map_width = 15

abbrev pub map_height : ℕ
map_height = 13

abbrev pub game_room_capacity : ℕ
game_room_capacity = 2

-- `IsWallTile`
unfoldable pub is_wall_tile : ℕ → ℕ → Bool
is_wall_tile x y =
    if x == 0 || y == 0 || x == map_width - 1 || y == map_height - 1
    then true
    else x % 2 == 0 && y % 2 == 0

-- `TileCenter`
unfoldable pub tile_center : ℕ → ℕ
tile_center t = t * tile_unit + tile_unit / 2

-- `CurrentTick`
unfoldable pub current_tick : World → World × ℕ
current_tick w =
    (record w { tick_calls = w.tick_calls + 1 }, u32 (w.ticks w.tick_calls / (1000 / tick_rate)))

-- `s->SendPacket(id, w.Data(), w.Size())`
abbrev pub send_buffer : ℕ → ℕ → List ℕ → World → World
send_buffer s id buf w = send_packet s id (some buf) (writer_size buf) w

-- `GameServer::SendError`
unfoldable pub send_error : ℕ → ℕ → ℕ → World → World
send_error s rejected code w = send_buffer s pkt_sc_error (put_u16 (put_u16 [] rejected) code) w

-- `std::to_string` of a `uint32_t`: at most ten digits
unfoldable pub digits : ℕ → ℕ → List ℕ → List ℕ
digits zero n acc = acc
digits (suc fuel) n acc =
    let more = digits fuel (n / 10) ((b'0' + n % 10) ∷ acc) in
    if ltb n 10 then (b'0' + n % 10) ∷ acc else more

-- "Player " + std::to_string(id)
unfoldable pub default_name : ℕ → List ℕ
unfolding digits
default_name id = b'P' ∷ b'l' ∷ b'a' ∷ b'y' ∷ b'e' ∷ b'r' ∷ 32 ∷ digits 10 id []

-- The body of SC_WELCOME
unfoldable pub welcome_body : ℕ → ℕ → List ℕ
welcome_body id tick = put_u32 (put_u32 (put_u8 [] 0) id) tick

-- The refusals of `HandleHello`: the error, then the session is closed.
unfoldable pub refuse_hello : ℕ → ℕ → World → World
refuse_hello s code w = request_close s (send_error s pkt_cs_hello code w)

-- A player without a name gets one from the id.
unfoldable pub ensure_name : ℕ → World → World
ensure_name p w =
    let x = player w p in
    put_player w p (record x { name = if length x.name == 0 then default_name x.id else x.name })

-- The welcome of `HandleHello`
unfoldable pub welcome : ℕ → ℕ → World → World
welcome s p w =
    let (w', tick) = current_tick w in
    send_buffer s pkt_sc_welcome (welcome_body (player w p).id tick) w'

-- `HandleHello` behind its checks: the state is set after the welcome has been sent.
unfoldable pub accept_hello : ℕ → ℕ → World → World
accept_hello s p w =
    let w' = welcome s p (ensure_name p w) in
    put_player w' p (record (player w' p) { state = logged_in })

-- `GameServer::HandleHello`
unfoldable pub handle_hello : ℕ → Packet → World → World
handle_hello s pkt w = elim (get_player s w) [
  | none ↦ w
  | some p ↦
      if not (body_size pkt == 2)
      then refuse_hello s err_bad_format w
      else if not (read_u16 pkt.body 0 == protocol_version)
      then refuse_hello s err_version_mismatch w
      else accept_hello s p w
]

-- The test of the search in `AcquireGameRoom`
unfoldable pub is_open_game : Room → Bool
is_open_game r = not (r.capacity == 0) && not r.game_started && not (is_full r)

-- The search: the first open room among the entries in the order of iteration.
unfoldable pub first_open : List (ℕ × ℕ) → World → Option ℕ
first_open [] w = none
first_open ((id, r) ∷ entries) w = if is_open_game (room w r) then some r else first_open entries w

-- A room with a number of the server's own
unfoldable pub next_game_room : World → World × ℕ
next_game_room w =
    let id = w.game.next_game_room_id in
    create_room id game_room_capacity
      (record w { game = record (w.game) { next_game_room_id = u32 (id + 1) } })

-- `GameServer::AcquireGameRoom`; an `int32_t` is its bit pattern.
unfoldable pub acquire_game_room : ℕ → World → World × Option ℕ
acquire_game_room requested w =
    if requested == 0
    then elim (first_open (w.visit w.game.rooms) w) [
      | some r ↦ (w, some r)
      | none ↦ let (w', a) = next_game_room w in (w', some a)
    ]
    else elim (find_room requested w) [
      | none ↦ let (w', a) = create_room requested game_room_capacity w in (w', some a)
      | some r ↦
          let x = room w r in
          if not (x.capacity == 0)
          then (w, some r)
          else if ltb 0 (length x.players)
          then (w, none)
          else (put_room w r (record x { capacity = game_room_capacity }), some r)
    ]

-- The entry of one player in SC_ROOM_STATE
unfoldable pub put_member : World → ℕ → List ℕ → List ℕ
put_member w p buf =
    let x = player w p in put_str (put_u8 (put_u32 buf x.id) (if x.ready then 1 else 0)) x.name

unfoldable pub put_members : World → List ℕ → List ℕ → List ℕ
put_members w [] buf = buf
put_members w (p ∷ ps) buf = put_members w ps (put_member w p buf)

-- The body of SC_ROOM_STATE
unfoldable pub room_state_body : ℕ → World → List ℕ
room_state_body r w =
    let x = room w r in
    put_members w x.players
      (put_u16 (put_u8 (put_i32 [] x.room_id) x.capacity) (u16 (length x.players)))

-- `GameServer::SendRoomState`
unfoldable pub send_room_state : Option ℕ → ℕ → World → World
send_room_state none r w = w
send_room_state (some s) r w = send_buffer s pkt_sc_room_state (room_state_body r w) w

-- The loop of `BroadcastRoomState`
unfoldable pub send_room_states : List ℕ → ℕ → World → World
send_room_states [] r w = w
send_room_states (p ∷ ps) r w = send_room_states ps r (send_room_state (player w p).session r w)

-- `GameServer::BroadcastRoomState`
unfoldable pub broadcast_room_state : ℕ → World → World
broadcast_room_state r w = send_room_states (room w r).players r w

-- The end of `HandleJoinRoom`, once a room is found that takes the player.
unfoldable pub take_seat : ℕ → ℕ → World → World
take_seat p r w =
    let w₁ = leave_room p w in
    let w₂ = join r p (put_player w₁ p (record (player w₁ p) { ready = false })) in
    broadcast_room_state r (put_player w₂ p (record (player w₂ p) { state = in_room }))

-- `HandleJoinRoom` from the room on
unfoldable pub join_found : ℕ → ℕ → World × Option ℕ → World
join_found s p (w, none) = send_error s pkt_cs_join_room err_no_such_room w
join_found s p (w, some r) =
    if (room w r).game_started
    then send_error s pkt_cs_join_room err_match_ended w
    else if is_full (room w r)
    then send_error s pkt_cs_join_room err_room_full w
    else take_seat p r w

-- `GameServer::HandleJoinRoom`
unfoldable pub handle_join_room : ℕ → Packet → World → World
handle_join_room s pkt w = elim (get_player s w) [
  | none ↦ w
  | some p ↦
      if not (body_size pkt == 4)
      then send_error s pkt_cs_join_room err_bad_format w
      else if leb (2 ^ 31) (read_u32 pkt.body 0)
      then send_error s pkt_cs_join_room err_no_such_room w
      else join_found s p (acquire_game_room (read_u32 pkt.body 0) w)
]
