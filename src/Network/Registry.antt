-- ===== src/Network/Registry.antt =====
-- The registry holds no session that was freed.
pub mod Marks
pub mod Entries
use iocp_game_chat_server.Prelude.{
  ℕ, ◌≡◌, ◌≢◌, ◌⊎◌, inl, inr, refl, sym, ap, subst, ◌∙◌, Bool, true, false, not, Option, none, some,
  List, [], ◌∷◌, arith, ◌==◌, ==→eq, ==→ne, ne→==, ==_self, ◌&&◌, Bool-cases, if◌then◌else◌,
}
use Prim.Native.Nat.{compare, Ordering}
use iocp_game_chat_server.State.{World, GameJob, is_connected}
use iocp_game_chat_server.JobQueue.{enqueue_connect_job, enqueue_disconnect_job}
use iocp_game_chat_server.Session.{
  request_close, post_send, send_packet, packet_bytes, post_recv, on_send_complete, fresh_session,
  try_begin_destroy,
}
use iocp_game_chat_server.Receive.Keeps.{KeepsReceiving, KeptAfter, on_recv_complete-KeptAfter}
use iocp_game_chat_server.Server.{finish_cleanup}
use iocp_game_chat_server.Game.Keeps.{Keeps}
use iocp_game_chat_server.Game.Keeps.Jobs.{game_thread_step-keeps}
use iocp_game_chat_server.Network.{
  Net, insert, remove, try_destroy_session, accept_client, worker_step, shutdown,
}
use iocp_game_chat_server.Network.Keeps.{KeepsShutdown, shutdown-keeps}
use iocp_game_chat_server.Network.Steps.{
  holding, Step, accepts, receives, sends, cleans, plays, shuts, Steps, done, step,
}
use iocp_game_chat_server.Network.Registry.Marks.{
  SameMarks, SameMarks-request_close, SameMarks-post_send, SameMarks-send_packet,
  SameMarks-post_recv, SameMarks-on_send_complete, SameMarks-Keeps, SameMarks-KeepsReceiving,
  SameMarks-KeepsShutdown,
}
use iocp_game_chat_server.Network.Registry.Entries.{
  NotIn, Once, AllLive, NotIn-insert, Once-insert, AllLive-insert, NotIn-remove, Once-remove,
  AllLive-remove, NotIn-removed, AllLive-SameMarks, AllLive-other, NotIn-free,
}

-- The registry of a server.
pub record Registered (n : Net) : Type 0 where
  pub once : Once n.registry
  pub live : AllLive n.world n.registry

SameMarks-Registered :
    (n n' : Net)
    → n'.registry ≡ n.registry
    → SameMarks n.world n'.world
    → Registered n
    → Registered n'
SameMarks-Registered n n' r e h = record {
  once = rw r h.once;
  live = rw r (AllLive-SameMarks n.world n'.world n.registry e h.live);
}

try_destroy_session-cases :
    (s : ℕ) (n : Net)
    → (try_destroy_session s n ≡ n) ⊎ ((try_destroy_session s n).registry ≡ remove s n.registry)
unfolding try_destroy_session try_begin_destroy
try_destroy_session-cases s n = ground arith

try_destroy_session-other :
    (s j : ℕ) (n : Net)
    → (j == s) ≡ false
    → ((try_destroy_session s n).world.sessions j).destroying ≡ (n.world.sessions j).destroying
unfolding try_destroy_session try_begin_destroy
try_destroy_session-other s j n e = ground (arith, e)

-- A session that is freed leaves the registry at once.
Registered-try_destroy_session :
    (s : ℕ) (n : Net) → Registered n → Registered (try_destroy_session s n)
Registered-try_destroy_session s n h = elim (try_destroy_session-cases s n) [
  | inl same ↦ rw same h
  | inr gone ↦ record {
    once = rw gone (Once-remove s n.registry h.once);
    live = rw gone (
        AllLive-other s n.world (try_destroy_session s n).world (remove s n.registry)
          (NotIn-removed s n.registry h.once)
          (λ j other. try_destroy_session-other s j n (ne→== j s other))
          (AllLive-remove n.world s n.registry h.live));
  }
]

Registered-destroyed :
    (s : ℕ) (o : Option World) (n n' : Net)
    → KeptAfter (SameMarks n.world) o
    → elim o [ none ↦ none | some w ↦ some (try_destroy_session s (record n { world = w })) ]
      ≡ some n'
    → Registered n
    → Registered n'
Registered-destroyed s none n n' k e h = absurd (cc)
Registered-destroyed s (some w) n n' k e h =
    let here : try_destroy_session s (record n { world = w }) ≡ n' = cc in
    subst Registered here (
      Registered-try_destroy_session s (record n { world = w }) (SameMarks-Registered n _ refl k h))

accept_client-marks :
    (sock s j : ℕ) (n : Net)
    → ((accept_client sock s n).world.sessions j).destroying
      ≡ (if j == s then false else (n.world.sessions j).destroying)
unfolding accept_client post_recv enqueue_connect_job request_close enqueue_disconnect_job
    fresh_session
accept_client-marks sock s j n = ground arith

registry-accept_client :
    (sock s : ℕ) (n : Net) → (accept_client sock s n).registry ≡ insert sock s n.registry
unfolding accept_client
registry-accept_client sock s n = refl

Registered-accept_client :
    (sock s : ℕ) (n : Net)
    → (n.world.sessions s).destroying ≡ true
    → Registered n
    → Registered (accept_client sock s n)
Registered-accept_client sock s n free h =
    let n' = accept_client sock s n in
    let out = NotIn-free s n.world n.registry free h.live in
    let new : (n'.world.sessions s).destroying ≡ false =
      accept_client-marks sock s s n
      ∙ ap (λ b. if b then false else (n.world.sessions s).destroying) (==_self s) in
    let old = λ (j : ℕ) (other : j ≢ s).
      accept_client-marks sock s j n
      ∙ ap (λ b. if b then false else (n.world.sessions j).destroying) (ne→== j s other) in
    record {
      once = rw (registry-accept_client sock s n) (Once-insert sock s n.registry out h.once);
      live = rw (registry-accept_client sock s n) (
          AllLive-insert n'.world sock s n.registry new
            (AllLive-other s n.world n'.world n.registry out old h.live));
    }

registry-shutdown : (n : Net) → (shutdown n).registry ≡ n.registry
unfolding shutdown
registry-shutdown n = ground arith

Step-Registered : (n n' : Net) → Step n n' → Registered n → Registered n'
unfolding worker_step
Step-Registered _ _ (accepts sock s n free) h = Registered-accept_client sock s n free h
Step-Registered _ _ (receives s bytes success ops n n' l e small) h =
    let w = record (n.world) { in_flight = ops } in
    Registered-destroyed s _ (holding ops n) n'
      (on_recv_complete-KeptAfter (SameMarks n.world) (SameMarks-KeepsReceiving n.world) s bytes
        success w (λ r j. ground arith))
      e (record { once = h.once; live = h.live })
Step-Registered _ _ (sends s bytes success ops n n' l e small) h =
    let w = record (n.world) { in_flight = ops } in
    Registered-destroyed s (some (on_send_complete s bytes success w)) (holding ops n) n'
      (SameMarks-on_send_complete s bytes success w) e (record { once = h.once; live = h.live })
Step-Registered _ _ (cleans s rest n n' queued e small) h =
    Registered-destroyed s (some (record (n.world) { notices = rest })) n n' (λ j. refl) e h
Step-Registered _ _ (plays n) h =
    SameMarks-Registered n _ refl
      (game_thread_step-keeps (SameMarks n.world) (SameMarks-Keeps n.world) n.world (λ js w a. a)
        (λ j. refl))
      h
Step-Registered _ _ (shuts n) h =
    SameMarks-Registered n _ (registry-shutdown n)
      (shutdown-keeps (SameMarks n.world) (SameMarks-KeepsShutdown n.world) n (λ j. refl)) h

-- No dangling pointer in the registry: from a state in which the registry lists no session twice and none
-- that is marked for deletion, any sequence of steps of the threads leads to such a state again, so that
-- `RequestShutdownAllSessions` and `AllSessionsIOCompleted` meet live sessions only.
pub Steps-Registered : (n n' : Net) → Steps n n' → Registered n → Registered n'
Steps-Registered _ _ (done n) h = h
Steps-Registered _ _ (step n n' n'' one more) h =
    Steps-Registered n' n'' more (Step-Registered n n' one h)
