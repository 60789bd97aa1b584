-- ===== src/Tests/Data.antt =====
-- A server that has just started, with sessions that have just been accepted.
use iocp_game_chat_server.Prelude.{ℕ, ◌+◌, true, false, none, some, [], ◌∷◌}
use iocp_game_chat_server.State.{World, Player, running, closed, in_room}
use iocp_game_chat_server.Session.{fresh_session}
use iocp_game_chat_server.Server.{initial_game}
use iocp_game_chat_server.Lobby.{game_room_capacity}

-- Every session is connected, on socket 7, and the kernel takes every operation.
abbrev pub started : World
started = record {
  sessions = λ _. fresh_session 7;
  server_state = running;
  jobs = [];
  game = initial_game;
  accepts = λ _. true;
  io_calls = 0;
  ticks = λ n. n;
  tick_calls = 0;
  visit = λ m. m;
  in_flight = [];
  sent = [];
  notices = [];
}

-- Session 5 is closed, its player is gone, and nothing of it is in flight.
abbrev pub over : World
over = record started {
  sessions = λ _. record (fresh_session 7) {
    sock = none;
    state = closed;
    close_issued = true;
    game_cleanup_done = true;
  };
}

abbrev pub ready_player : ℕ → Player
ready_player s = record {
  session = some s;
  room = some 3;
  name = 65 ∷ [];
  state = in_room;
  id = s;
  ready = true;
}

-- Players 1 and 2 wait in a game room at address 3, and are ready.
abbrev pub waiting : World
waiting = record started {
  game = record initial_game {
    players = (5, 1) ∷ ((6, 2) ∷ []);
    player_at = λ p. ready_player (p + 4);
    rooms = (1, 0) ∷ ((100, 3) ∷ []);
    room_at = λ _. record {
      room_id = 100;
      players = 1 ∷ (2 ∷ []);
      capacity = game_room_capacity;
      game_started = false;
    };
    next_address = 4;
  };
}
