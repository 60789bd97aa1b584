-- ===== src/Room.antt =====
-- Room.cpp and Player.cpp. Players and rooms are named by their addresses; no caller passes a null
-- player.
pub mod Members
pub mod Broadcast
use iocp_game_chat_server.Prelude.{
  ℕ, ◌+◌, ◌-◌, Bool, true, false, not, Option, none, some, List, [], ◌∷◌, ◌++◌, ◌||◌, ltb, leb,
  ◌==◌, if◌then◌else◌, length, take, u16,
}
use iocp_game_chat_server.Packet.{header_size, max_packet_size, pkt_sc_chat}
use iocp_game_chat_server.State.{World, Player, Room, no_player, player, room, put_player, put_room}
use iocp_game_chat_server.Session.{send_packet}
use iocp_game_chat_server.Wire.{chat_body}

-- `Player::Player` and the members' initial values
unfoldable pub fresh_player : ℕ → Player
fresh_player s = record {
  session = some s;
  room = none;
  name = [];
  state = no_player;
  id = 0;
  ready = false;
}

-- `Player::IsLoggedIn`
unfoldable pub is_logged_in : Player → Bool
is_logged_in p = not (length p.name == 0)

-- `Room(uint16_t id)`: the room's number is cut to 16 bits.
unfoldable pub fresh_room : ℕ → ℕ → Room
fresh_room id capacity = record {
  room_id = u16 id;
  players = [];
  capacity = capacity;
  game_started = false;
}

-- `Room::IsFull`
unfoldable pub is_full : Room → Bool
is_full r = elim (r.capacity == 0) [ true ↦ false | false ↦ leb r.capacity (length r.players) ]

-- The search of `Join` and `Leave`.
abbrev pub has_player : ℕ → List ℕ → Bool
has_player p [] = false
has_player p (q ∷ qs) = q == p || has_player p qs

-- `players.erase(it)` at the first occurrence
abbrev pub erase_player : ℕ → List ℕ → List ℕ
erase_player p [] = []
erase_player p (q ∷ qs) = if q == p then qs else q ∷ erase_player p qs

-- `Room::Join`
unfoldable pub join : ℕ → ℕ → World → World
join r p w =
    let w' = put_room w r (record (room w r) { players = (room w r).players ++ (p ∷ []) }) in
    if has_player p (room w r).players
    then w
    else put_player w' p (record (player w p) { room = some r })

-- `Room::Leave`
unfoldable pub leave : ℕ → ℕ → World → World
leave r p w =
    let w' = put_room w r (record (room w r) { players = erase_player p (room w r).players }) in
    if has_player p (room w r).players
    then put_player w' p (record (player w p) { room = none })
    else w

-- `Player::SendChat`
unfoldable pub send_chat : ℕ → ℕ → List ℕ → List ℕ → World → World
send_chat p sender_id sender_name msg w =
    let body_size = 4 + 2 + length sender_name + 2 + length msg in
    elim (player w p).session [
      | none ↦ w
      | some s ↦
          if ltb max_packet_size (body_size + header_size)
          then w
          else send_packet s pkt_sc_chat (some (chat_body sender_id sender_name msg))
              (u16 body_size) w
    ]

-- The loop of `BroadcastChat`, over a copy of the room's players.
unfoldable pub send_to_others : List ℕ → ℕ → ℕ → List ℕ → List ℕ → World → World
send_to_others [] sender sender_id name msg w = w
send_to_others (target ∷ targets) sender sender_id name msg w =
    send_to_others targets sender sender_id name msg
      (if target == sender then w else send_chat target sender_id name msg w)

-- `overhead` of `BroadcastChat`, with the header
abbrev pub chat_overhead : List ℕ → ℕ
chat_overhead name = header_size + (4 + 2 + length name + 2)

-- `Room::BroadcastChat`
unfoldable pub broadcast_chat : ℕ → ℕ → List ℕ → World → World
broadcast_chat r sender msg w =
    let x = player w sender in
    elim x.room [
      | none ↦ w
      | some _ ↦
          if leb max_packet_size (chat_overhead x.name)
          then w
          else send_to_others (room w r).players sender x.id x.name
              (take (max_packet_size - chat_overhead x.name) msg) w
    ]
