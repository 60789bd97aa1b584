-- ===== src/Tests/Runs.antt =====
-- The server's first steps: a client is accepted, and the game thread takes the connect job.
use mathlib.Core.List.Perm
use iocp_game_chat_server.Prelude.{◌≡◌, refl, true, false, some, none, [], ◌∷◌, inr}
use iocp_game_chat_server.State.{recv, closed}
use iocp_game_chat_server.JobQueue.{enqueue_connect_job}
use iocp_game_chat_server.RingBuffer.Contents.{fresh-IsValid}
use iocp_game_chat_server.Session.{fresh_session, post_recv}
use iocp_game_chat_server.Session.Sending.{AllFramed}
use iocp_game_chat_server.Session.Sound.{AllSound}
use iocp_game_chat_server.Receive.Total.{RingsValid}
use iocp_game_chat_server.Dispatch.{game_thread_step}
use iocp_game_chat_server.Game.Wired.{initial_game-Wired}
use iocp_game_chat_server.Network.{Net, received, worker_step, accept_client}
use iocp_game_chat_server.Network.Steps.{Leaves, first, Steps, done, step, accepts, plays}
use iocp_game_chat_server.Network.Safety.{Steps-AllSound, Steps-live}
use iocp_game_chat_server.Network.Framing.{Steps-Framed}
use iocp_game_chat_server.Network.Progress.{Steps-handled}
use iocp_game_chat_server.Network.Wiring.{WiredNet, Steps-WiredNet}
use iocp_game_chat_server.Network.Registry.{Registered, Steps-Registered}
use iocp_game_chat_server.Network.Players.{Steps-get_player}
use iocp_game_chat_server.Game.Live.{Live}
use iocp_game_chat_server.Server.{get_player, initial_game, on_session_connected}
use iocp_game_chat_server.Dispatch.{run_job}
use iocp_game_chat_server.JobQueue.{pop, push}
use iocp_game_chat_server.Tests.Data.{started}

-- No session has been made.
abbrev pub start : Net
start = record {
  world = record started {
    sessions = λ _. record (fresh_session 7) {
      sock = none;
      state = closed;
      close_issued = true;
      destroying = true;
    };
  };
  registry = [];
  freed = [];
}

-- A client on socket 7, in a session at 5
abbrev pub accepted : Net
accepted = accept_client 7 5 start

abbrev played : Net
played = record accepted { world = game_thread_step (accepted.world) }

start-accepted : Steps start accepted
start-accepted = step start accepted accepted (accepts 7 5 start refl) (done accepted)

start-played : Steps start played
start-played =
    step start accepted played (accepts 7 5 start refl)
      (step accepted played played (plays accepted) (done played))

start-AllSound : AllSound start.world
unfolding fresh_session
start-AllSound j = record {
  settled = inr (refl, refl, refl);
  counted = refl;
  gone = inr (refl, refl);
}

start-RingsValid : RingsValid start.world
unfolding fresh_session
start-RingsValid j = fresh-IsValid

start-WiredNet : WiredNet start
start-WiredNet = record { wired = initial_game-Wired; any_order = λ m. Perm.refl m }

accepted-Leaves : Leaves 5 recv accepted.world.in_flight []
unfolding accept_client enqueue_connect_job fresh_session post_recv
accepted-Leaves = first []

Steps-AllSound_example : AllSound played.world
Steps-AllSound_example = Steps-AllSound start played start-played start-AllSound

Steps-live_example : (accepted.world.sessions 5).destroying ≡ false
Steps-live_example =
    Steps-live start accepted 5 recv [] start-AllSound start-accepted accepted-Leaves

Steps-Framed_example : AllFramed played.world.sent
Steps-Framed_example = Steps-Framed start played start-played tt

Steps-handled_example :
    (n'' : Net) × (worker_step 5 (received (5 ∷ (0 ∷ (1 ∷ []))) true) played ≡ some n'')
Steps-handled_example =
    Steps-handled start played 5 (5 ∷ (0 ∷ (1 ∷ []))) true start-RingsValid start-played

Steps-WiredNet_example : WiredNet played
Steps-WiredNet_example = Steps-WiredNet start played start-played start-WiredNet

start-Live : Live start.world.game
unfolding initial_game
start-Live = record { entries = tt; unused = λ a above. refl }

played-player : get_player 5 played.world ≡ some 1
unfolding get_player accept_client enqueue_connect_job post_recv fresh_session initial_game
    game_thread_step pop run_job on_session_connected push
played-player = refl

Steps-get_player_example : played.world.game.deleted 1 ≡ false
Steps-get_player_example = Steps-get_player start played 5 1 start-Live start-played played-player

Steps-Registered_example : Registered played
Steps-Registered_example =
    Steps-Registered start played start-played (record { once = tt; live = tt })
