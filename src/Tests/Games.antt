-- ===== src/Tests/Games.antt =====
-- The game thread on sample games.

use iocp_game_chat_server.Prelude.{◌≡◌, refl, true, arith}
use iocp_game_chat_server.State.{room}
use iocp_game_chat_server.Server.{initial_game}
use iocp_game_chat_server.Room.{fresh_room}
use iocp_game_chat_server.Match.{try_start_game}
use iocp_game_chat_server.Match.Start.{
  MayStart, AllInGame, try_start_game-started, try_start_game-refused,
}
use iocp_game_chat_server.Session.{fresh_session}
use iocp_game_chat_server.Room.Broadcast.{Open, AllConnected}
use iocp_game_chat_server.Tests.Data.{started, waiting}

waiting-MayStart : MayStart waiting 3
waiting-MayStart = record {
  waiting = refl;
  game = omega arith;
  full = refl;
  ready = (refl, (refl, tt));
}

try_start_game-started_example :
    ((room (try_start_game 3 waiting) 3).game_started ≡ true)
    × AllInGame (try_start_game 3 waiting) (room waiting 3).players
try_start_game-started_example = try_start_game-started 3 waiting waiting-MayStart

-- The lobby is no game room.
lobby_stays : ¬ MayStart started 0
unfolding initial_game fresh_room
lobby_stays may = may.game refl

try_start_game-refused_example : try_start_game 0 started ≡ started
try_start_game-refused_example = try_start_game-refused 0 started lobby_stays

pub waiting-Open : Open waiting
waiting-Open = record { up = refl; accepting = λ n. refl }

pub waiting-AllConnected : AllConnected waiting (room waiting 3).players
unfolding fresh_session
waiting-AllConnected = (λ s e. refl, (λ s e. refl, tt))
