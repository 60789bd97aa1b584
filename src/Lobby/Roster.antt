-- ===== src/Lobby/Roster.antt =====
-- SC_ROOM_STATE: how long it is, and when it is dropped.
use iocp_game_chat_server.Prelude.{
  ℕ, zero, suc, ◌+◌, ◌*◌, ◌/◌, ◌%◌, u16, append-nil, Bool-cases, inl, inr, ◌^◌, ◌≤◌, ◌<◌, ◌≡◌, ap,
  ◌∙◌, true, some, List, [], ◌∷◌, ◌++◌, arith, ltb, if◌then◌else◌, length, length-append, ltb→ge,
}
use iocp_game_chat_server.Packet.{header_size, max_packet_size, pkt_sc_room_state}
use iocp_game_chat_server.State.{World, player, room, is_connected}
use iocp_game_chat_server.Wire.{
  put_u8, put_u16, put_u32_from, put_u32, put_i32, put_str, writer_size,
}
use iocp_game_chat_server.Session.{send_packet, post_send, packet_bytes}
use iocp_game_chat_server.Session.Sending.{packet_bytes-IsFramed}
use iocp_game_chat_server.Room.Broadcast.{Open}
use iocp_game_chat_server.Lobby.{put_member, put_members, room_state_body, send_room_state}

-- The room's number, its limit and the count of players; then for each player the id, the flag, the length
-- of the name and the name.
abbrev pub roster_size : World → List ℕ → ℕ
roster_size w [] = 0
roster_size w (p ∷ ps) = 7 + length (player w p).name + roster_size w ps

abbrev pub room_state_size : ℕ → World → ℕ
room_state_size r w = 7 + roster_size w (room w r).players

length-put_u32_from : (n i v : ℕ) (buf : List ℕ) → length (put_u32_from n i buf v) ≡ length buf + n
unfolding put_u32_from
length-put_u32_from zero i v buf = omega arith
length-put_u32_from (suc n) i v buf =
    let byte = v / 2 ^ (8 * i) % 256 in
    length-put_u32_from n (i + 1) v (buf ++ (byte ∷ []))
    ∙ omega (arith, length-append buf (byte ∷ []))

length-put_u32 : (v : ℕ) (buf : List ℕ) → length (put_u32 buf v) ≡ length buf + 4
unfolding put_u32
length-put_u32 v buf = length-put_u32_from 4 0 v buf

length-put_u8 : (v : ℕ) (buf : List ℕ) → length (put_u8 buf v) ≡ length buf + 1
unfolding put_u8
length-put_u8 v buf = length-append buf ((v % 256) ∷ [])

length-put_u16 : (v : ℕ) (buf : List ℕ) → length (put_u16 buf v) ≡ length buf + 2
unfolding put_u16
length-put_u16 v buf = length-append buf ((v % 256) ∷ (v / 256 % 256) ∷ [])

length-put_str : (v buf : List ℕ) → length (put_str buf v) ≡ length buf + 2 + length v
unfolding put_str
length-put_str v buf =
    length-append (put_u16 buf (u16 (length v))) v
    ∙ ap (λ n. n + length v) (length-put_u16 (u16 (length v)) buf)

length-put_member :
    (w : World) (p : ℕ) (buf : List ℕ)
    → length (put_member w p buf) ≡ length buf + 7 + length (player w p).name
unfolding put_member
length-put_member w p buf =
    let x = player w p in
    let flag = if x.ready then 1 else 0 in
    length-put_str x.name (put_u8 (put_u32 buf x.id) flag)
    ∙ omega (arith, length-put_u8 flag (put_u32 buf x.id), length-put_u32 x.id buf)

length-put_members :
    (w : World) (ps buf : List ℕ) → length (put_members w ps buf) ≡ length buf + roster_size w ps
unfolding put_members
length-put_members w [] buf = omega arith
length-put_members w (p ∷ ps) buf =
    omega (arith, length-put_members w ps (put_member w p buf), length-put_member w p buf)

pub length-room_state_body :
    (r : ℕ) (w : World) → length (room_state_body r w) ≡ room_state_size r w
unfolding room_state_body put_i32
length-room_state_body r w =
    let x = room w r in
    let number = put_u32 [] x.room_id in
    let limit = put_u8 number x.capacity in
    let front = put_u16 limit (u16 (length x.players)) in
    length-put_members w x.players front
    ∙ omega (
      arith,
      length-put_u16 (u16 (length x.players)) limit,
      length-put_u8 x.capacity number,
      length-put_u32 x.room_id [],
    )

-- What a packet to a connected session sends.
sent-send_packet :
    (s id size : ℕ) (body : List ℕ) (w : World)
    → Open w
    → is_connected (w.sessions s).state ≡ true
    → size ≤ length body
    → (send_packet s id (some body) size w).sent
      ≡ w.sent
        ++ (if ltb max_packet_size (header_size + size)
            then []
            else (s, packet_bytes id body size) ∷ [])
unfolding send_packet post_send
sent-send_packet s id size body w o con behind =
    elim (Bool-cases (ltb max_packet_size (header_size + size))) [
      | inl long ↦ rw (long, append-nil w.sent) (ground (arith, long, con, o.up))
      | inr short ↦
          let small : header_size + size ≤ max_packet_size = ltb→ge max_packet_size _ short in
          let f = packet_bytes-IsFramed id body size behind small in
          ground (arith, short, o.accepting w.io_calls, con, o.up, small, f.enough, f.within)
    ]

-- SC_ROOM_STATE has 7 bytes, and 7 and the name for each player of the room. Where that and the header fit 4096
-- bytes, it is sent to a connected session as one packet; where they do not (and the size is below
-- 2 ^ 16), nothing at all is sent. The server runs and the kernel takes every operation.
pub send_room_state_size :
    (s r : ℕ) (w : World)
    → Open w
    → is_connected (w.sessions s).state ≡ true
    → room_state_size r w < 2 ^ 16
    → (length (room_state_body r w) ≡ room_state_size r w)
      × ((send_room_state (some s) r w).sent
          ≡ w.sent
            ++ (if ltb max_packet_size (header_size + room_state_size r w)
                then []
                else (s, packet_bytes pkt_sc_room_state (room_state_body r w) (room_state_size r w))
                  ∷ []))
unfolding send_room_state
send_room_state_size s r w o con small =
    let long = length-room_state_body r w in
    let whole : writer_size (room_state_body r w) ≡ room_state_size r w =
      unfold writer_size in rw long (omega (arith, small)) in
    (
      long,
      ap (λ n. (send_packet s pkt_sc_room_state (some (room_state_body r w)) n w).sent) whole
          ∙ sent-send_packet s pkt_sc_room_state (room_state_size r w) (room_state_body r w) w o con
              (omega (arith, long)),
    )
