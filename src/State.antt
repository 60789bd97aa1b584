-- ===== src/State.antt =====
-- The data of the server: sessions (Session.h), jobs (GameJob.h), players (Player.h), rooms
-- (Room.h), the game (GameServer.h), and the world in which their functions run.
use iocp_game_chat_server.Prelude.{ℕ, Bool, true, false, Option, List, ◌==◌, if◌then◌else◌}
use iocp_game_chat_server.RingBuffer.{RingBuffer}
use iocp_game_chat_server.Packet.{PacketHeader}

pub data SessionState : Type 0 where
  connected closing closed : SessionState

abbrev pub is_connected : SessionState → Bool
is_connected connected = true
is_connected closing = false
is_connected closed = false

abbrev pub is_closing : SessionState → Bool
is_closing connected = false
is_closing closing = true
is_closing closed = false

abbrev pub is_closed : SessionState → Bool
is_closed connected = false
is_closed closing = false
is_closed closed = true

pub data IoType : Type 0 where
  recv send : IoType

-- `Session`. `INVALID_SOCKET` is `none`; `pendingIO` is a 32-bit `long`, kept as its bit pattern.
pub record Session : Type 0 where
  pub sock : Option ℕ
  pub state : SessionState
  pub game_cleanup_done : Bool
  pub pending_io : ℕ
  pub destroying : Bool
  pub recv_posted : Bool
  pub close_issued : Bool
  pub recv_ring : RingBuffer

-- `no_job` is `GameJobType::None`.
pub data GameJobType : Type 0 where
  packet disconnect connect shutdown no_job : GameJobType

-- `GameJob`. A `Session*` is a number, and `nullptr` is `none`.
pub record GameJob : Type 0 where
  pub type : GameJobType
  pub session : Option ℕ
  pub header : PacketHeader
  pub body : List ℕ

-- `no_player` is `PlayerState::None`, and `leaving` is `PlayerState::Closing`.
pub data PlayerState : Type 0 where
  no_player logged_in in_room in_game leaving : PlayerState

pub record Player : Type 0 where
  pub session : Option ℕ
  pub room : Option ℕ
  pub name : List ℕ
  pub state : PlayerState
  pub id : ℕ
  pub ready : Bool

-- A `Player*` of `players` is never null: `Join` refuses a null pointer.
pub record Room : Type 0 where
  pub room_id : ℕ
  pub players : List ℕ
  pub capacity : ℕ
  pub game_started : Bool

pub data ServerState : Type 0 where
  running shutting_down stopped : ServerState

-- `GameServer`. The maps are association lists; objects made by `new` and `make_unique` lie at
-- addresses, and an object that is deleted keeps its last contents and is marked in `deleted`.
pub record Game : Type 0 where
  pub players : List (ℕ × ℕ)
  pub player_at : ℕ → Player
  pub rooms : List (ℕ × ℕ)
  pub room_at : ℕ → Room
  pub next_address : ℕ
  pub deleted : ℕ → Bool
  pub next_player_id : ℕ
  pub next_game_room_id : ℕ
  pub next_match_id : ℕ
  pub running : Bool

-- What the code runs in. `accepts` and `ticks` are the answers of the operating system: whether the
-- n-th WSASend or WSARecv is taken (0 or WSA_IO_PENDING), and GetTickCount64 at its n-th call.
-- `visit` is the order in which iteration over the unordered map of rooms meets its entries.
pub record World : Type 0 where
  pub sessions : ℕ → Session
  pub server_state : ServerState
  pub jobs : List GameJob
  pub game : Game
  pub accepts : ℕ → Bool
  pub io_calls : ℕ
  pub ticks : ℕ → ℕ
  pub tick_calls : ℕ
  pub visit : List (ℕ × ℕ) → List (ℕ × ℕ)
  -- the operations that the kernel has taken and not completed, and the sends among all it took
  pub in_flight : List (ℕ × IoType)
  pub sent : List (ℕ × List ℕ)
  -- the sessions for which PostQueuedCompletionStatus has posted a cleanup notice
  pub notices : List ℕ

abbrev pub update {ℓ} : {A : Type ℓ} → (ℕ → A) → ℕ → A → ℕ → A
update f k v j = if j == k then v else f j

abbrev pub put_session : World → ℕ → Session → World
put_session w s x = record w { sessions = update w.sessions s x }

abbrev pub is_shutting_down : World → Bool
is_shutting_down w = elim w.server_state [ shutting_down ↦ true | _ ↦ false ]

abbrev pub player : World → ℕ → Player
player w p = w.game.player_at p

abbrev pub room : World → ℕ → Room
room w r = w.game.room_at r

abbrev pub put_player : World → ℕ → Player → World
put_player w p x = record w { game = record (w.game) { player_at = update w.game.player_at p x } }

abbrev pub put_room : World → ℕ → Room → World
put_room w r x = record w { game = record (w.game) { room_at = update w.game.room_at r x } }
