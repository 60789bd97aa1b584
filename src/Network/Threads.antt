-- ===== src/Network/Threads.antt =====
-- Network.cpp: starting and stopping the threads, the accept loop, the console handler. GameServer.cpp:
-- `Init`, and `Shutdown` with the end of the workers.
pub mod Workers
pub mod Accepting
pub mod Control
use iocp_game_chat_server.Prelude.{
  ℕ, zero, suc, ◌+◌, ◌-◌, ◌*◌, Bool, true, false, Option, none, some, List, [], ◌∷◌, ◌++◌, ltb,
  ◌==◌, if◌then◌else◌, length, take, drop,
}
use iocp_game_chat_server.State.{World, running, shutting_down, stopped}
use iocp_game_chat_server.Network.{Net, accept_client, shutdown}

-- `GetWorkerThreadCount`, of what `hardware_concurrency` tells
pub get_worker_thread_count : ℕ → ℕ
get_worker_thread_count n = if n == 0 then 4 else n

-- The loop of `Network::StartWorkerThreads`, of so many rounds from the i-th on. `create` is CreateThread:
-- the handle of the i-th thread, or `none` for null.
pub start_workers_from : (ℕ → Option ℕ) → ℕ → ℕ → List ℕ → Bool × List ℕ
start_workers_from create zero i threads = (true, threads)
start_workers_from create (suc n) i threads = elim (create i) [
  | none ↦ (false, threads)
  | some handle ↦ start_workers_from create n (suc i) (threads ++ (handle ∷ []))
]

-- `Network::StartWorkerThreads`
pub start_worker_threads : (ℕ → Option ℕ) → ℕ → Bool × List ℕ
unfolding start_workers_from get_worker_thread_count
start_worker_threads create concurrency =
    start_workers_from create (get_worker_thread_count concurrency) 0 []

-- The most handles that WaitForMultipleObjects takes.
abbrev pub maximum_wait_objects : ℕ
maximum_wait_objects = 64

-- The loop of `Network::StopWorkerThreads`, from `index` on: the groups of handles that were waited for.
-- `wait` is WaitForMultipleObjects, which fails with `false`. `none` where the fuel runs out.
pub wait_from : (List ℕ → Bool) → ℕ → ℕ → List ℕ → Option (List (List ℕ))
wait_from wait zero index threads = none
wait_from wait (suc fuel) index threads =
    let remaining = length threads - index in
    let chunk = if ltb maximum_wait_objects remaining then maximum_wait_objects else remaining in
    let group = take chunk (drop index threads) in
    elim (ltb index (length threads)) [
      | false ↦ some []
      | true ↦ elim (wait group) [
        | false ↦ some []
        | true ↦ elim (wait_from wait fuel (index + chunk) threads) [
          | none ↦ none
          | some groups ↦ some (group ∷ groups)
        ]
      ]
    ]

-- `Network::StopWorkerThreads`: the number of exit notices posted, and the groups waited for.
pub stop_worker_threads : (List ℕ → Bool) → List ℕ → Option (ℕ × List (List ℕ))
unfolding wait_from
stop_worker_threads wait [] = some (0, [])
stop_worker_threads wait (handle ∷ handles) =
    elim (wait_from wait (suc (length (handle ∷ handles))) 0 (handle ∷ handles)) [
      | none ↦ none
      | some groups ↦ some (length (handle ∷ handles), groups)
    ]

-- The part of `Network` that the accept thread and `main` use.
pub record Listener : Type 0 where
  pub up : Bool
  pub listen_socket : Option ℕ
  pub accept_thread : Option ℕ
  pub closed_sockets : List ℕ
  pub joined_threads : List ℕ

-- `Network::StartAcceptThread`, with CreateThread's answer
pub start_accept_thread : Option ℕ → ℕ → Listener → Bool × Listener
start_accept_thread created sock l = (
  elim created [ none ↦ false | some _ ↦ true ],
  record l { listen_socket = some sock; accept_thread = created },
)

-- `Network::SignalStop`
pub signal_stop : Listener → Listener
signal_stop l = record l {
  up = false;
  listen_socket = none;
  closed_sockets = elim l.listen_socket [ none ↦ l.closed_sockets | some s ↦ s ∷ l.closed_sockets ];
}

-- `Network::JoinAcceptThread`
pub join_accept_thread : Listener → Listener
join_accept_thread l = elim l.accept_thread [
  | none ↦ l
  | some handle ↦ record l { accept_thread = none; joined_threads = handle ∷ l.joined_threads }
]

-- `AcceptThread`, from its k-th round on. `runs` says what the reads of `m_running` give, of which a round
-- makes up to two; `accepted` is what `accept` gives, and `memory` where `new` puts the session.
pub accept_loop : (ℕ → Bool) → (ℕ → Option ℕ) → (ℕ → ℕ) → ℕ → ℕ → Net → Option Net
accept_loop runs accepted memory zero k n = none
accept_loop runs accepted memory (suc fuel) k n = elim (runs (2 * k)) [
  | false ↦ some n
  | true ↦ elim (accepted k) [
    | some client ↦
        accept_loop runs accepted memory fuel (suc k) (accept_client client (memory k) n)
    | none ↦ elim (runs (2 * k + 1)) [
      | false ↦ some n
      | true ↦ accept_loop runs accepted memory fuel (suc k) n
    ]
  ]
]

-- The server's process: what the handler of control events touches.
pub record Process : Type 0 where
  pub net : Net
  pub listener : Listener
  pub threads : List ℕ
  pub exits : ℕ
  pub waited : List (List ℕ)

-- `GameServer::Shutdown`; the fields of the workers change only in its last call.
pub shut_down : (List ℕ → Bool) → Process → Option Process
unfolding stop_worker_threads
shut_down wait p = elim p.net.world.server_state [
  | running ↦ elim (stop_worker_threads wait p.threads) [
    | none ↦ none
    | some (posted, groups) ↦
        some
          (record p { net = shutdown p.net; exits = p.exits + posted; waited = p.waited ++ groups })
  ]
  | shutting_down ↦ some p
  | stopped ↦ some p
]

pub data ControlEvent : Type 0 where
  ctrl_c ctrl_close ctrl_break ctrl_shutdown other_event : ControlEvent

-- `ConsoleHandler`
pub console_handler : (List ℕ → Bool) → ControlEvent → Process → Option (Bool × Process)
unfolding shut_down signal_stop
console_handler wait event p =
    let stops : Option (Bool × Process) =
      elim (shut_down wait (record p { listener = signal_stop p.listener })) [
        | none ↦ none
        | some p' ↦ some (true, p')
      ] in
    elim event [
      | ctrl_c ↦ stops
      | ctrl_close ↦ stops
      | ctrl_break ↦ stops
      | ctrl_shutdown ↦ stops
      | other_event ↦ some (false, p)
    ]

-- `Network::Init`: whether a port was made, and the workers. What `StartWorkerThreads` returns is not looked
-- at.
pub network_init : Bool → (ℕ → Option ℕ) → ℕ → Bool × List ℕ
unfolding start_worker_threads
network_init made_port create concurrency =
    if made_port then (true, (start_worker_threads create concurrency).1) else (false, [])

-- `main` up to its wait for the end, with the listening socket that Windows gave: the process, or `none`
-- for the exit code -1.
pub start_server : Bool → (ℕ → Option ℕ) → ℕ → Option ℕ → ℕ → Net → Listener → Option Process
unfolding network_init start_accept_thread
start_server made_port create concurrency created sock net l =
    let (ready, threads) = network_init made_port create concurrency in
    let (accepting, l') = start_accept_thread created sock l in
    if ready
    then if accepting
      then some (record { net = net; listener = l'; threads = threads; exits = 0; waited = [] })
      else none
    else none
