-- ===== src/Lobby/Telling.antt =====
-- `BroadcastRoomState`: who is told, and what.
use iocp_game_chat_server.Prelude.{
  ℕ, ◌+◌, ◌≤◌, ◌≡◌, refl, sym, ap, ◌∙◌, none, some, inl, inr, List, [], ◌∷◌, ◌++◌, arith,
  Option-cases, length, append-nil, append_assoc, u16,
}
use iocp_game_chat_server.Packet.{header_size, max_packet_size, pkt_sc_room_state}
use iocp_game_chat_server.State.{World, Game, Room, player, room}
use iocp_game_chat_server.Wire.{writer_size, put_u8, put_u16, put_i32}
use iocp_game_chat_server.Session.{send_packet, packet_bytes}
use iocp_game_chat_server.Room.Broadcast.{Open, AllConnected, send_packet-Sent, AllConnected-Sent}
use iocp_game_chat_server.Lobby.{
  put_member, put_members, room_state_body, send_room_state, send_room_states,
}

-- ROOM_STATE tells of the game alone.
put_members-game :
    (w w' : World) (ps buf : List ℕ)
    → w'.game ≡ w.game
    → put_members w' ps buf ≡ put_members w ps buf
unfolding put_members put_member
put_members-game w w' [] buf e = refl
put_members-game w w' (p ∷ ps) buf e =
    ap (λ b. put_members w' ps b) (ap (λ (g : Game). put_member (record w { game = g }) p buf) e)
    ∙ put_members-game w w' ps (put_member w p buf) e

abbrev front_of : Room → List ℕ
front_of x = put_u16 (put_u8 (put_i32 [] x.room_id) x.capacity) (u16 (length x.players))

pub room_state_body-game :
    (r : ℕ) (w w' : World) → w'.game ≡ w.game → room_state_body r w' ≡ room_state_body r w
unfolding room_state_body
room_state_body-game r w w' e =
    put_members-game w w' (room w' r).players (front_of (room w' r)) e
    ∙ ap (λ (g : Game). put_members w (g.room_at r).players (front_of (g.room_at r))) e

-- The sessions of these players, each with a packet.
abbrev pub to_each : Game → List ℕ → List ℕ → List (ℕ × List ℕ)
to_each g bytes [] = []
to_each g bytes (q ∷ qs) =
    let rest = to_each g bytes qs in
    elim (g.player_at q).session [ none ↦ rest | some s ↦ (s, bytes) ∷ rest ]

-- SC_ROOM_STATE of a room
abbrev pub room_state_packet : ℕ → World → List ℕ
room_state_packet r w =
    packet_bytes pkt_sc_room_state (room_state_body r w) (length (room_state_body r w))

pub send_room_states-sent :
    (ps : List ℕ) (r : ℕ) (body : List ℕ) (w : World)
    → Open w
    → AllConnected w ps
    → room_state_body r w ≡ body
    → header_size + length body ≤ max_packet_size
    → (send_room_states ps r w).sent
      ≡ w.sent ++ to_each w.game (packet_bytes pkt_sc_room_state body (length body)) ps
unfolding send_room_states send_room_state writer_size
send_room_states-sent [] r body w o a same fits = sym (append-nil w.sent)
send_room_states-sent (q ∷ qs) r body w o (one, a) same fits =
    elim (Option-cases (player w q).session) [
      | inl e ↦
          let stay : send_room_state (player w q).session r w ≡ w = rw (e, send_room_state) refl in
          ap (λ v. (send_room_states qs r v).sent) stay
          ∙ rw (to_each, e) (send_room_states-sent qs r body w o a same fits)
      | inr (s, e) ↦
          let bytes = packet_bytes pkt_sc_room_state body (length body) in
          let w' = send_packet s pkt_sc_room_state (some body) (length body) w in
          let x =
            send_packet-Sent s pkt_sc_room_state (length body) body w o (one s e) fits
              (omega arith) in
          let later =
            send_room_states-sent qs r body w' x.healthy (AllConnected-Sent w w' _ qs x a)
              (room_state_body-game r w w' x.game ∙ same) fits in
          let whole : writer_size body ≡ length body = omega (arith, fits) in
          let sent_one : send_room_state (player w q).session r w ≡ w' =
            rw (e, send_room_state, same, whole) refl in
          ap (λ v. (send_room_states qs r v).sent) sent_one
          ∙ rw (to_each, e)
              (later
                ∙ ap (λ z. z ++ to_each w'.game bytes qs) x.sent
                ∙ append_assoc w.sent ((s, bytes) ∷ []) _
                ∙ ap (λ (g : Game). w.sent ++ ((s, bytes) ∷ to_each g bytes qs)) x.game)
    ]
