-- ===== src/Match.antt =====
-- `HandleReady` and `TryStartGame` of GameServer.cpp: when a match starts, and what it announces.
pub mod Start
pub mod Layout
pub mod Spawns
use iocp_game_chat_server.Prelude.{
  ℕ, zero, suc, ◌+◌, ◌-◌, ◌*◌, ◌%◌, Bool, true, false, not, Option, none, some, List, [], ◌∷◌, ◌++◌,
  ◌&&◌, ◌||◌, ltb, ◌==◌, if◌then◌else◌, length, u16, u32,
}
use iocp_game_chat_server.Packet.{
  Packet, pkt_cs_ready, pkt_sc_game_start, err_bad_format, err_not_allowed, err_match_ended,
}
use iocp_game_chat_server.State.{World, in_game, player, room, put_player, put_room}
use iocp_game_chat_server.Wire.{put_u8, put_u16, put_u32, put_i32, read_u8}
use iocp_game_chat_server.Server.{get_player, body_size}
use iocp_game_chat_server.Lobby.{
  tick_rate, tile_unit, map_width, map_height, is_wall_tile, tile_center, send_buffer, send_error,
  broadcast_room_state,
}

-- The inner loop over `x`, with `n` tiles of the row left.
unfoldable pub put_row : ℕ → ℕ → ℕ → List ℕ → List ℕ
put_row zero x y buf = buf
put_row (suc n) x y buf = put_row n (x + 1) y (put_u8 buf (if is_wall_tile x y then 1 else 0))

-- The outer loop over `y`, with `n` rows left.
unfoldable pub put_rows : ℕ → ℕ → List ℕ → List ℕ
put_rows zero y buf = buf
put_rows (suc n) y buf = put_rows n (y + 1) (put_row map_width 0 y buf)

-- `spawnTile`
unfoldable pub spawn_x : ℕ → ℕ
spawn_x slot = if slot == 0 then 1 else 13

unfoldable pub spawn_y : ℕ → ℕ
spawn_y slot = if slot == 0 then 1 else 11

-- The loop over the spawns, from the player with index `i` on.
unfoldable pub put_spawns : World → ℕ → List ℕ → List ℕ → List ℕ
put_spawns w i [] buf = buf
put_spawns w i (p ∷ ps) buf =
    let slot = i % 2 in
    put_spawns w (i + 1) ps (
      put_i32 (put_i32 (put_u32 buf (player w p).id) (tile_center (spawn_x slot)))
        (tile_center (spawn_y slot)))

-- The body of SC_GAME_START
unfoldable pub game_start_body : ℕ → List ℕ → World → List ℕ
game_start_body match_id members w =
    let head_part =
      put_u8 (put_u8 (put_u16 (put_u16 (put_u32 [] match_id) tick_rate) tile_unit) map_width)
        map_height in
    put_spawns w 0 members (put_u16 (put_rows map_height 0 head_part) (u16 (length members)))

-- The loop that looks for a member who is not ready
unfoldable pub all_ready : World → List ℕ → Bool
all_ready w [] = true
all_ready w (p ∷ ps) = (player w p).ready && all_ready w ps

-- The last loop: each member is in the game, and is told.
unfoldable pub announce : List ℕ → List ℕ → World → World
announce [] body w = w
announce (p ∷ ps) body w =
    let w' = put_player w p (record (player w p) { state = in_game }) in
    announce ps body
      (elim (player w p).session [ none ↦ w' | some s ↦ send_buffer s pkt_sc_game_start body w' ])

-- `TryStartGame` behind its checks
unfoldable pub start_game : ℕ → World → World
start_game r w =
    let members = (room w r).players in
    let match_id = w.game.next_match_id in
    let body = game_start_body match_id members w in
    let w₁ = record w { game = record (w.game) { next_match_id = u32 (match_id + 1) } } in
    announce members body (put_room w₁ r (record (room w₁ r) { game_started = true }))

-- `GameServer::TryStartGame`
unfoldable pub try_start_game : ℕ → World → World
try_start_game r w =
    let x = room w r in
    if x.game_started
    then w
    else if x.capacity == 0
    then w
    else if not (length x.players == x.capacity)
    then w
    else if not (all_ready w x.players)
    then w
    else start_game r w

-- `HandleReady` behind its checks
unfoldable pub set_ready : ℕ → ℕ → Bool → World → World
set_ready p r flag w =
    try_start_game r
      (broadcast_room_state r (put_player w p (record (player w p) { ready = flag })))

-- `GameServer::HandleReady`
unfoldable pub handle_ready : ℕ → Packet → World → World
handle_ready s pkt w = elim (get_player s w) [
  | none ↦ w
  | some p ↦ elim (player w p).room [
    | none ↦ send_error s pkt_cs_ready err_not_allowed w
    | some r ↦
        if (room w r).game_started
        then send_error s pkt_cs_ready err_match_ended w
        else if not (body_size pkt == 1)
        then send_error s pkt_cs_ready err_bad_format w
        else set_ready p r (not (read_u8 pkt.body 0 == 0)) w
  ]
]
