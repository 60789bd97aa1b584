-- ===== src/Network/Farewell.antt =====
-- What shutdown does to the sessions: each is told, and none stays connected.
use iocp_game_chat_server.Prelude.{
  ℕ, ◌≡◌, refl, sym, ap, ◌∙◌, Bool, true, false, none, List, [], ◌∷◌, ◌++◌, arith, ◌==◌, ==_self,
  ne→==, append-nil, append_assoc,
}
use iocp_game_chat_server.Packet.{pkt_sc_shutdown}
use iocp_game_chat_server.State.{World, Session, is_connected, is_closed, running, shutting_down}
use iocp_game_chat_server.JobQueue.{enqueue_disconnect_job, enqueue_shutdown_job}
use iocp_game_chat_server.Session.{
  request_close, send_packet, post_send, packet_bytes, header_bytes,
}
use iocp_game_chat_server.Network.{Net, shutdown, shutdown_sessions}
use iocp_game_chat_server.Network.Registry.Entries.{NotIn, Once}

-- The round of the loop for a session.
abbrev tell : ℕ → World → World
tell s w = request_close s (send_packet s pkt_sc_shutdown none 0 w)

abbrev pub farewell : List ℕ
farewell = packet_bytes pkt_sc_shutdown [] 0

-- The sessions of these entries are not closed.
abbrev pub AllOpen : (ℕ → Session) → List (ℕ × ℕ) → Type 0
AllOpen f [] = Unit {0}
AllOpen f ((k, s) ∷ m) = (is_closed (f s).state ≡ false) × AllOpen f m

-- The sessions of these entries are not connected.
abbrev pub AllDown : (ℕ → Session) → List (ℕ × ℕ) → Type 0
AllDown f [] = Unit {0}
AllDown f ((k, s) ∷ m) = (is_connected (f s).state ≡ false) × AllDown f m

abbrev pub farewells : List (ℕ × ℕ) → List (ℕ × List ℕ)
farewells [] = []
farewells ((k, s) ∷ m) = (s, farewell) ∷ farewells m

sent-tell :
    (s : ℕ) (w : World)
    → ((n : ℕ) → w.accepts n ≡ true)
    → is_closed (w.sessions s).state ≡ false
    → (tell s w).sent ≡ w.sent ++ ((s, farewell) ∷ [])
unfolding request_close send_packet post_send enqueue_disconnect_job packet_bytes header_bytes
sent-tell s w accepting not_closed = ground (arith, not_closed, accepting w.io_calls)

accepts-tell : (s : ℕ) (w : World) → (tell s w).accepts ≡ w.accepts
unfolding request_close send_packet post_send enqueue_disconnect_job packet_bytes header_bytes
accepts-tell s w = ground arith

tell-other :
    (s j : ℕ) (w : World) → (j == s) ≡ false → ((tell s w).sessions j).state ≡ (w.sessions j).state
unfolding request_close send_packet post_send enqueue_disconnect_job packet_bytes header_bytes
tell-other s j w e = ground (arith, e)

request_close-down :
    (s : ℕ) (w : World) → is_connected ((request_close s w).sessions s).state ≡ false
unfolding request_close enqueue_disconnect_job
request_close-down s w = ground (arith, ==_self s)

tell-down : (s : ℕ) (w : World) → is_connected ((tell s w).sessions s).state ≡ false
tell-down s w = request_close-down s (send_packet s pkt_sc_shutdown none 0 w)

AllOpen-tell :
    (s : ℕ) (w : World) (m : List (ℕ × ℕ))
    → NotIn s m
    → AllOpen w.sessions m
    → AllOpen (tell s w).sessions m
AllOpen-tell s w [] out h = tt
AllOpen-tell s w ((k, v) ∷ m) (other, out) (one, h) =
    (ap is_closed (tell-other s v w (ne→== v s other)) ∙ one, AllOpen-tell s w m out h)

-- What the loop leaves of a session that it does not meet.
state-shutdown_sessions :
    (j : ℕ) (m : List (ℕ × ℕ)) (w : World)
    → NotIn j m
    → ((shutdown_sessions m w).sessions j).state ≡ (w.sessions j).state
unfolding shutdown_sessions
state-shutdown_sessions j [] w out = refl
state-shutdown_sessions j ((k, s) ∷ m) w (other, out) =
    state-shutdown_sessions j m (tell s w) out ∙ tell-other s j w (ne→== j s (λ e. other (sym e)))

AllDown-shutdown_sessions :
    (m : List (ℕ × ℕ)) (w : World) → Once m → AllDown (shutdown_sessions m w).sessions m
unfolding shutdown_sessions
AllDown-shutdown_sessions [] w once = tt
AllDown-shutdown_sessions ((k, s) ∷ m) w (out, once) = (
  ap is_connected (state-shutdown_sessions s m (tell s w) out) ∙ tell-down s w,
  AllDown-shutdown_sessions m (tell s w) once,
)

sent-shutdown_sessions :
    (m : List (ℕ × ℕ)) (w : World)
    → ((n : ℕ) → w.accepts n ≡ true)
    → Once m
    → AllOpen w.sessions m
    → (shutdown_sessions m w).sent ≡ w.sent ++ farewells m
unfolding shutdown_sessions
sent-shutdown_sessions [] w accepting once all = sym (append-nil w.sent)
sent-shutdown_sessions ((k, s) ∷ m) w accepting (out, once) (one, all) =
    let accepting' : (n : ℕ) → (tell s w).accepts n ≡ true =
      λ n. ap (λ (f : ℕ → Bool). f n) (accepts-tell s w) ∙ accepting n in
    sent-shutdown_sessions m (tell s w) accepting' once (AllOpen-tell s w m out all)
    ∙ ap (λ xs. xs ++ farewells m) (sent-tell s w accepting one)
    ∙ append_assoc w.sent ((s, farewell) ∷ []) (farewells m)

-- A running server that is shut down sends every session of the registry exactly one SC_SHUTDOWN, in the
-- order of the entries, and nothing else, and leaves none of them connected: where the registry lists
-- no session twice, none of its sessions is closed and the kernel takes every operation.
pub sent-shutdown :
    (n : Net)
    → n.world.server_state ≡ running
    → ((k : ℕ) → n.world.accepts k ≡ true)
    → Once n.registry
    → AllOpen n.world.sessions n.registry
    → ((shutdown n).world.sent ≡ n.world.sent ++ farewells n.registry)
      × AllDown (shutdown n).world.sessions n.registry
unfolding shutdown enqueue_shutdown_job
sent-shutdown n up accepting once all =
    let w = record (n.world) { server_state = shutting_down } in
    let told = sent-shutdown_sessions n.registry w accepting once all in
    let down = AllDown-shutdown_sessions n.registry w once in rw (shutdown, up) (told, down)
