-- ===== src/Session/Lifecycle.antt =====
-- Closing a session: what `RequestClose` does, once.
use iocp_game_chat_server.Prelude.{
  ℕ, ◌≡◌, Bool, true, false, Option, none, some, ◌⊎◌, inl, inr, List, [], ◌∷◌, ◌++◌, arith,
  if◌then◌else◌,
}
use iocp_game_chat_server.State.{World, Session, connected, closed, is_connected, disconnect}
use iocp_game_chat_server.JobQueue.{enqueue_disconnect_job, job_of, push}
use iocp_game_chat_server.Session.{
  request_close, post_send, send_packet, post_recv, on_send_complete, packet_bytes,
}

-- Between two steps a session is connected and open, or closed for good; `closing` is passed through
-- inside `RequestClose` alone.
abbrev pub Settled : Session → Type 0
Settled x =
    ((x.state ≡ connected) × (x.close_issued ≡ false))
    ⊎ ((x.state ≡ closed) × (x.close_issued ≡ true) × (x.sock ≡ none))

-- `RequestClose` on a connected session closes it, gives the socket up and leaves one disconnect job.
pub request_close-connected :
    (s : ℕ) (w : World)
    → (w.sessions s).state ≡ connected
    → (w.sessions s).close_issued ≡ false
    → (((request_close s w).sessions s).state ≡ closed)
      × (((request_close s w).sessions s).sock ≡ none)
      × (((request_close s w).sessions s).close_issued ≡ true)
      × ((request_close s w).jobs ≡ w.jobs ++ (job_of disconnect (some s) ∷ []))
unfolding request_close enqueue_disconnect_job push
request_close-connected s w con unissued = ground (arith, con, unissued)

-- On any other session it does nothing.
pub request_close-other :
    (s : ℕ) (w : World) → is_connected (w.sessions s).state ≡ false → request_close s w ≡ w
unfolding request_close
request_close-other s w h = rw h

-- On a session that is connected and open, or closed for good, `RequestClose` leaves the session
-- closed, queues a disconnect job if it was connected and none if not, and a second call then changes
-- nothing at all.
pub request_close_once :
    (s : ℕ) (w : World)
    → Settled (w.sessions s)
    → let w' = request_close s w in
      ((w'.sessions s).state ≡ closed)
      × (w'.jobs ≡ (
          if is_connected (w.sessions s).state
          then w.jobs ++ (job_of disconnect (some s) ∷ [])
          else w.jobs))
      × (request_close s w' ≡ w')
request_close_once s w (inl (con, unissued)) =
    let (shut, _, _, jobs) = request_close-connected s w con unissued in
    (
      shut,
      ground (arith, con, jobs),
      request_close-other s (request_close s w) (ground (arith, shut)),
    )
request_close_once s w (inr (shut, _, _)) =
    let same = request_close-other s w (ground (arith, shut)) in
    (ground (arith, same, shut), ground (arith, same, shut), rw (same, same))

pub request_close-Settled :
    (s j : ℕ) (w : World)
    → Settled (w.sessions s)
    → Settled (w.sessions j)
    → Settled ((request_close s w).sessions j)
unfolding request_close enqueue_disconnect_job
request_close-Settled s j w hs hj = ground arith

pub post_send-Settled :
    (s j : ℕ) (bytes : List ℕ) (w : World)
    → Settled (w.sessions s)
    → Settled (w.sessions j)
    → Settled ((post_send s bytes w).sessions j)
unfolding post_send enqueue_disconnect_job
post_send-Settled s j bytes w hs hj = ground arith

pub send_packet-Settled :
    (s j id size : ℕ) (body : Option (List ℕ)) (w : World)
    → Settled (w.sessions s)
    → Settled (w.sessions j)
    → Settled ((send_packet s id body size w).sessions j)
unfolding send_packet
send_packet-Settled s j id size none w hs hj =
    ground (arith, post_send-Settled s j (packet_bytes id [] size) w hs hj)
send_packet-Settled s j id size (some bytes) w hs hj =
    ground (arith, post_send-Settled s j (packet_bytes id bytes size) w hs hj)

pub post_recv-Settled :
    (s j : ℕ) (w : World)
    → Settled (w.sessions s)
    → Settled (w.sessions j)
    → Settled ((post_recv s w).sessions j)
unfolding post_recv request_close enqueue_disconnect_job
post_recv-Settled s j w hs hj = ground arith

pub on_send_complete-Settled :
    (s j bytes : ℕ) (success : Bool) (w : World)
    → Settled (w.sessions s)
    → Settled (w.sessions j)
    → Settled ((on_send_complete s bytes success w).sessions j)
unfolding on_send_complete request_close enqueue_disconnect_job
on_send_complete-Settled s j bytes success w hs hj = ground arith
