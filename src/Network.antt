-- ===== src/Network.antt =====
-- Network.cpp: the registry of sessions, the completions that a worker thread handles, the accept
-- loop's work for one client, and shutdown. `m_lock` is held throughout each registry function.
use iocp_game_chat_server.Prelude.{
  ℕ, Bool, true, false, not, Option, none, some, List, [], ◌∷◌, ◌&&◌, ◌==◌, if◌then◌else◌, length,
}
pub mod Destroy
pub mod Steps
pub mod Keeps
pub mod Safety
pub mod Progress
pub mod Framing
pub mod Quiet
pub mod Wiring
pub mod Beside
pub mod Stopping
pub mod Threads
pub mod Registry
pub mod Farewell
pub mod Delivery
pub mod Players
use Prim.Native.Nat.{compare, Ordering}
use iocp_game_chat_server.Packet.{pkt_sc_shutdown}
use iocp_game_chat_server.State.{
  World, IoType, recv, send, shutting_down, running, ServerState, is_connected, put_session,
}
use iocp_game_chat_server.JobQueue.{enqueue_connect_job, enqueue_shutdown_job}
use iocp_game_chat_server.Session.{
  fresh_session, send_packet, request_close, post_recv, on_send_complete, try_begin_destroy,
}
use iocp_game_chat_server.Receive.{on_recv_complete}

-- The world with `m_sessions`, a map from sockets to sessions in the order of the sockets.
pub record Net : Type 0 where
  pub world : World
  pub registry : List (ℕ × ℕ)
  pub freed : List ℕ

-- `Network::AddSession`. The order of a `std::map` shows only in the order in which shutdown
-- visits the sessions.
unfoldable pub insert : ℕ → ℕ → List (ℕ × ℕ) → List (ℕ × ℕ)
insert sock s [] = (sock, s) ∷ []
insert sock s ((k, v) ∷ m) = elim (compare sock k) [
  | Ordering.lt ↦ (sock, s) ∷ ((k, v) ∷ m)
  | Ordering.eq ↦ (k, v) ∷ m
  | Ordering.gt ↦ (k, v) ∷ insert sock s m
]

-- `Network::RemoveSession`: the first entry that holds the session
unfoldable pub remove : ℕ → List (ℕ × ℕ) → List (ℕ × ℕ)
remove s [] = []
remove s ((k, v) ∷ m) = if v == s then m else (k, v) ∷ remove s m

-- `TryDestroySession`
unfoldable pub try_destroy_session : ℕ → Net → Net
try_destroy_session s n =
    let x = n.world.sessions s in
    let (w', first) = try_begin_destroy s n.world in
    if is_connected x.state
    then n
    else if not x.game_cleanup_done
    then n
    else if not (x.pending_io == 0)
    then n
    else if first
    then record n { world = w'; registry = remove s n.registry; freed = s ∷ n.freed }
    else n

-- A completion as `GetQueuedCompletionStatus` gives it to `WorkerThread`, with a session.
pub data Completion : Type 0 where
  cleanup : Completion
  received : List ℕ → Bool → Completion
  was_sent : ℕ → Bool → Completion

-- What `WorkerThread` does with a completion of a session; `none` if the receive loop ran out of
-- fuel.
unfoldable pub worker_step : ℕ → Completion → Net → Option Net
worker_step s cleanup n = some (try_destroy_session s n)
worker_step s (received bytes success) n = elim (on_recv_complete s bytes success n.world) [
  | none ↦ none
  | some w' ↦ some (try_destroy_session s (record n { world = w' }))
]
worker_step s (was_sent bytes success) n =
    some (try_destroy_session s (record n { world = on_send_complete s bytes success n.world }))

-- `AcceptThread` for a client: `s` is the address of the new session.
unfoldable pub accept_client : ℕ → ℕ → Net → Net
accept_client sock s n =
    let w = put_session n.world s (fresh_session sock) in
    record n { world = post_recv s (enqueue_connect_job s w); registry = insert sock s n.registry }

-- The loop of `Network::RequestShutdownAllSessions`
unfoldable pub shutdown_sessions : List (ℕ × ℕ) → World → World
shutdown_sessions [] w = w
shutdown_sessions ((sock, s) ∷ m) w =
    shutdown_sessions m (request_close s (send_packet s pkt_sc_shutdown none 0 w))

-- `GameServer::Shutdown`, up to the signals to the workers
unfoldable pub shutdown : Net → Net
shutdown n = elim n.world.server_state [
  | running ↦ record n {
    world =
        enqueue_shutdown_job
          (shutdown_sessions n.registry (record (n.world) { server_state = shutting_down }));
  }
  | _ ↦ n
]

-- `Network::AllSessionsIOCompleted`
unfoldable pub all_sessions_io_completed : List (ℕ × ℕ) → World → Bool
all_sessions_io_completed [] w = true
all_sessions_io_completed ((sock, s) ∷ m) w =
    if not ((w.sessions s).pending_io == 0) then false else all_sessions_io_completed m w
