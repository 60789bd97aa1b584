-- ===== src/Tests/Threads.antt =====
-- The server's threads: starting, shutting down, and the end of the workers.
use iocp_game_chat_server.Prelude.{
  ℕ, zero, suc, ◌≤◌, ◌≡◌, ◌⊎◌, refl, Bool, true, false, some, List, [], ◌∷◌, ◌++◌, arith, length,
}
use iocp_game_chat_server.JobQueue.{enqueue_shutdown_job, push}
use iocp_game_chat_server.State.{running}
use iocp_game_chat_server.Dispatch.{game_thread_step}
use iocp_game_chat_server.Network.{Net, shutdown, shutdown_sessions}
use iocp_game_chat_server.Network.Steps.{Steps, done, step, plays, played, rounds}
use iocp_game_chat_server.Network.Stopping.{Steps-stops}
use iocp_game_chat_server.Network.Threads.{Process, stop_worker_threads}
use iocp_game_chat_server.Network.Threads.Workers.{AllSmall, flatten, stop_worker_threads_lem}
use iocp_game_chat_server.Tests.Runs.{start}

-- The game thread's first round after the shutdown
abbrev told : Net
told = shutdown start

abbrev ended : Net
ended = record told { world = game_thread_step told.world }

told-ended : Steps told ended
told-ended = step told ended ended (plays told) (done ended)

told-jobs : length told.world.jobs ≤ rounds told-ended
unfolding shutdown shutdown_sessions enqueue_shutdown_job push rounds played told-ended
told-jobs = omega arith

Steps-stops_example : ended.world.game.running ≡ false
Steps-stops_example = Steps-stops start ended told-ended refl told-jobs

abbrev three : List ℕ
three = 21 ∷ (22 ∷ (23 ∷ []))

stop_worker_threads_lem_example :
    (groups : List (List ℕ)) × (left : List ℕ) × (stop_worker_threads (λ _. true) three
      ≡ some (length three, groups))
    × (three ≡ flatten groups ++ left)
    × AllSmall groups
    × ((left ≡ []) ⊎ ((group : List ℕ) × (true ≡ false)))
stop_worker_threads_lem_example = stop_worker_threads_lem (λ _. true) three

-- Two clients come, then the listening socket is closed.
abbrev reads : ℕ → Bool
reads zero = true
reads (suc zero) = true
reads (suc (suc zero)) = true
reads (suc (suc (suc n))) = false

abbrev serving : Process
serving = record {
  net = start;
  listener = record {
    up = true;
    listen_socket = some 3;
    accept_thread = some 20;
    closed_sockets = [];
    joined_threads = [];
  };
  threads = three;
  exits = 0;
  waited = [];
}
