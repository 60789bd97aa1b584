-- ===== src/Server.antt =====
-- The first part of GameServer.cpp: the maps of players and rooms, connections, login, chat rooms
-- and chat.
use iocp_game_chat_server.Prelude.{
  ℕ, ◌+◌, ◌-◌, Bool, true, false, not, Option, none, some, List, [], ◌∷◌, ◌++◌, ltb, ◌==◌,
  if◌then◌else◌, take, u32,
}
use iocp_game_chat_server.Packet.{Packet, header_size}
use iocp_game_chat_server.State.{World, Game, no_player, player, put_player, put_session, update}
use iocp_game_chat_server.Room.{fresh_player, fresh_room, is_logged_in, join, leave, broadcast_chat}
use iocp_game_chat_server.Wire.{read_u32}

-- `find` of an `unordered_map`
abbrev pub find : ℕ → List (ℕ × ℕ) → Option ℕ
find k [] = none
find k ((j, v) ∷ m) = if j == k then some v else find k m

-- `erase` at the entry that `find` gives
abbrev pub erase : ℕ → List (ℕ × ℕ) → List (ℕ × ℕ)
erase k [] = []
erase k ((j, v) ∷ m) = if j == k then m else (j, v) ∷ erase k m

-- `emplace`: a key that is there keeps its value. The flag tells whether the entry was made.
abbrev pub emplace : ℕ → ℕ → List (ℕ × ℕ) → List (ℕ × ℕ) × Bool
emplace k v m = elim (find k m) [ none ↦ (m ++ ((k, v) ∷ []), true) | some _ ↦ (m, false) ]

-- The members' initial values and `GameServer::GameServer`: room 1 is the lobby. Storage that has not
-- been given out holds no player and no room.
unfoldable pub initial_game : Game
initial_game = record {
  players = [];
  player_at = λ _. record {
    session = none;
    room = none;
    name = [];
    state = no_player;
    id = 0;
    ready = false;
  };
  rooms = (1, 0) ∷ [];
  room_at = λ a. if a == 0 then fresh_room 1 0 else fresh_room 0 0;
  next_address = 1;
  deleted = λ _. false;
  next_player_id = 1;
  next_game_room_id = 100;
  next_match_id = 1;
  running = true;
}

-- `GameServer::GetPlayer`. No entry holds a null pointer.
unfoldable pub get_player : ℕ → World → Option ℕ
get_player s w = find s w.game.players

-- `GameServer::FindRoom`
unfoldable pub find_room : ℕ → World → Option ℕ
find_room id w = find id w.game.rooms

-- `make_unique<Room>` with its capacity, and `rooms.emplace`: where the key is taken, the new object
-- is destroyed again, and its address is returned all the same.
unfoldable pub create_room : ℕ → ℕ → World → World × ℕ
create_room id capacity w =
    let g = w.game in
    let a = g.next_address in
    let (rooms, made) = emplace id a g.rooms in
    (
      record w {
        game = record g {
          rooms = rooms;
          room_at = update g.room_at a (fresh_room id capacity);
          next_address = a + 1;
          deleted = if made then g.deleted else update g.deleted a true;
        };
      },
      a,
    )

-- `GameServer::GetOrCreateRoom`
unfoldable pub get_or_create_room : ℕ → World → World × ℕ
get_or_create_room id w = elim (find_room id w) [ some r ↦ (w, r) | none ↦ create_room id 0 w ]

-- `GameServer::LeaveRoom`, and the first lines of `EnterRoom`
unfoldable pub leave_room : ℕ → World → World
leave_room p w = elim (player w p).room [ none ↦ w | some r ↦ leave r p w ]

-- `GameServer::EnterRoom`
unfoldable pub enter_room : ℕ → ℕ → World → World
enter_room p id w = let (w', r) = get_or_create_room id (leave_room p w) in join r p w'

-- `GameServer::HandleEnterRoom`
unfoldable pub handle_enter_room : ℕ → Packet → World → World
handle_enter_room s pkt w = elim (get_player s w) [
  | none ↦ w
  | some p ↦
      if not (is_logged_in (player w p))
      then w
      else if ltb pkt.header.size (header_size + 4)
      then w
      else enter_room p (read_u32 pkt.body 0) w
]

-- `bodySize`, where a negative one is treated as 0 by every test that reads it
abbrev pub body_size : Packet → ℕ
body_size pkt = pkt.header.size - header_size

-- `GameServer::HandleLogin`
unfoldable pub handle_login : ℕ → Packet → World → World
handle_login s pkt w = if body_size pkt == 0 then w else elim (get_player s w) [
  | none ↦ w
  | some p ↦ put_player w p (record (player w p) { name = take (body_size pkt) pkt.body })
]

-- `GameServer::HandleChat`
unfoldable pub handle_chat : ℕ → Packet → World → World
handle_chat p pkt w = if not (is_logged_in (player w p)) then w else elim (player w p).room [
  | none ↦ w
  | some r ↦ if body_size pkt == 0 then w else broadcast_chat r p (take (body_size pkt) pkt.body) w
]

-- `GameServer::OnChat`
unfoldable pub on_chat : ℕ → Packet → World → World
on_chat s pkt w = elim (get_player s w) [ none ↦ w | some p ↦ handle_chat p pkt w ]

-- `GameServer::OnSessionConnected`: `emplace` leaves an entry that is there.
unfoldable pub on_session_connected : ℕ → World → World
on_session_connected s w =
    let g = w.game in
    let a = g.next_address in
    record w {
      game = record g {
        players = (emplace s a g.players).0;
        player_at = update g.player_at a (record (fresh_player s) { id = g.next_player_id });
        next_address = a + 1;
        next_player_id = u32 (g.next_player_id + 1);
      };
    }

-- `MarkGameCleanupDone`, and the completion that wakes a worker for `TryDestroySession`
unfoldable pub finish_cleanup : ℕ → World → World
finish_cleanup s w = record (put_session w s (record (w.sessions s) { game_cleanup_done = true })) {
  notices = w.notices ++ (s ∷ []);
}

-- `players.erase(it); delete p;`
unfoldable pub remove_player : ℕ → ℕ → World → World
remove_player s p w = record w {
  game = record (w.game) {
    players = erase s w.game.players;
    deleted = update w.game.deleted p true;
  };
}
