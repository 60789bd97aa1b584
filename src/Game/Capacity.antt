-- ===== src/Game/Capacity.antt =====
-- Game rooms are not overfilled, except by ENTER_ROOM.
use iocp_game_chat_server.Prelude.{
  ℕ, ◌≤◌, ◌<◌, ◌≡◌, ◌≢◌, ◌⊎◌, refl, false, Option, inl, inr, List, [], ◌∷◌, arith, length,
  length-append, Option-cases,
}
use iocp_game_chat_server.Packet.{Packet, pkt_cs_enter_room}
use iocp_game_chat_server.State.{World, Game, GameJobType, player, room, put_player, in_room}
use iocp_game_chat_server.Room.{join, leave, is_full, erase_player, fresh_room}
use iocp_game_chat_server.Server.{create_room, leave_room, on_session_connected, remove_player}
use iocp_game_chat_server.Lobby.{take_seat}
use iocp_game_chat_server.Dispatch.{run_job}
use iocp_game_chat_server.Game.Quiet.{game-broadcast_room_state}
use iocp_game_chat_server.Game.Plays.{Plays}
use iocp_game_chat_server.Game.Plays.Jobs.{run_job-plays}

-- No room with a limit has more players than it.
abbrev pub Capped : Game → Type 0
Capped g =
    (r : ℕ) → ((g.room_at r).capacity ≡ 0) ⊎ (length (g.room_at r).players ≤ (g.room_at r).capacity)

length-erase_player : (p : ℕ) (ps : List ℕ) → length (erase_player p ps) ≤ length ps
length-erase_player p [] = omega arith
length-erase_player p (q ∷ ps) = ground (arith, length-erase_player p ps)

leave-Capped : (r p : ℕ) (w : World) → Capped w.game → Capped (leave r p w).game
unfolding leave
leave-Capped r p w h j = ground (arith, h j, h r, length-erase_player p (room w r).players)

-- What leaving does to a room.
leave_room-fewer :
    (p r : ℕ) (w : World)
    → ((room (leave_room p w) r).capacity ≡ (room w r).capacity)
      × (length (room (leave_room p w) r).players ≤ length (room w r).players)
unfolding leave_room leave
leave_room-fewer p r w = elim (Option-cases (player w p).room) [
  | inl e ↦ rw (leave_room, e) (refl, omega arith)
  | inr (q, e) ↦
      let fewer = length-erase_player p (room w q).players in
      (ground (arith, e, fewer), ground (arith, e, fewer))
]

join-Capped :
    (r p : ℕ) (w : World)
    → ((room w r).capacity ≡ 0) ⊎ (length (room w r).players < (room w r).capacity)
    → Capped w.game
    → Capped (join r p w).game
unfolding join
join-Capped r p w space h j = ground (arith, space, h j, length-append (room w r).players (p ∷ []))

not_full :
    (r : ℕ) (w : World)
    → is_full (room w r) ≡ false
    → ((room w r).capacity ≡ 0) ⊎ (length (room w r).players < (room w r).capacity)
unfolding is_full
not_full r w e = ground (arith, e)

Capped-leave_room : (p : ℕ) (w : World) → Capped w.game → Capped (leave_room p w).game
unfolding leave_room
Capped-leave_room p w h = elim (Option-cases (player w p).room) [
  | inl e ↦ rw (e, leave_room) h
  | inr (r, e) ↦ rw (e, leave_room) (leave-Capped r p w h)
]

take_seat-Capped :
    (p r : ℕ) (w : World)
    → is_full (room w r) ≡ false
    → Capped w.game
    → Capped (take_seat p r w).game
unfolding take_seat
take_seat-Capped p r w space h =
    let w₁ = leave_room p w in
    let w₁' = put_player w₁ p (record (player w₁ p) { ready = false }) in
    let w₂ = join r p w₁' in
    let w₃ = put_player w₂ p (record (player w₂ p) { state = in_room }) in
    let (same, fewer) = leave_room-fewer p r w in
    let space' : ((room w₁' r).capacity ≡ 0)
        ⊎ (length (room w₁' r).players < (room w₁' r).capacity) =
      ground (arith, not_full r w space, same, fewer) in
    rw (game-broadcast_room_state r w₃) (join-Capped r p w₁' space' (Capped-leave_room p w h))

Capped-Plays : Plays Capped
Capped-Plays = record {
  changes = λ p x w h. h;
  begins = λ r w h j. ground (arith, h j, h r);
  opens = λ r w nobody h j. ground (arith, h j, nobody);
  makes = λ id capacity w h j. unfold create_room fresh_room in ground (arith, h j);
  leaves = leave-Capped;
  counts = λ m n b g h. h;
  connects = λ s w h. unfold on_session_connected in h;
  removes = λ s p w there h. unfold remove_player in h;
  sits = take_seat-Capped;
}

-- Rooms with a limit are not overfilled: where no room has more players than its limit (0 is no limit), no
-- job of the game thread changes that, whatever its kind, its session and its packet, but the packet
-- ENTER_ROOM.
pub run_job-Capped :
    (t : GameJobType) (session : Option ℕ) (pkt : Packet) (w : World)
    → pkt.header.id ≢ pkt_cs_enter_room
    → Capped w.game
    → Capped (run_job t session pkt w).game
run_job-Capped t session pkt w other h =
    run_job-plays Capped Capped-Plays t session pkt w (inl other) h
