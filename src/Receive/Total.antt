-- ===== src/Receive/Total.antt =====
-- `OnRecvComplete` returns on every input, and keeps the ring of every session well formed.
use iocp_game_chat_server.Prelude.{
  ℕ, ◌≤◌, ◌<◌, ◌≡◌, refl, ap, ◌∙◌, Bool, true, false, some, inl, inr, List, [], ◌∷◌, ◌++◌, arith,
  Bool-cases, ==→eq, ==→ne, leb→le, leb→gt, Option, length, ◌+◌, leb, ◌==◌,
}
use iocp_game_chat_server.Packet.{Packet}
use iocp_game_chat_server.State.{World, is_connected, put_session}
use iocp_game_chat_server.RingBuffer.{ring_size}
use iocp_game_chat_server.RingBuffer.Contents.{IsValid, contents, write_full}
use iocp_game_chat_server.Session.{request_close, post_recv, io_ended}
use iocp_game_chat_server.Session.Rings.{ring_of, ring_of-request_close, ring_of-post_recv}
use iocp_game_chat_server.Receive.{on_recv_complete, finish}
use iocp_game_chat_server.Receive.Frames.{cut, Tail, rest, broken, frames, frame}
use iocp_game_chat_server.Receive.Loop.{
  feed, feed_one, feed_one-ring, loop_spec, ring_of-feed_one_other,
}
use iocp_game_chat_server.Receive.Split.{Splits, waits, breaks, takes, frames-Splits}
use iocp_game_chat_server.Receive.Stream.{received, received-ring, on_recv_complete_lem}

-- Every session's ring is well formed.
abbrev pub RingsValid : World → Type 0
RingsValid w = (j : ℕ) → IsValid (ring_of w j)

feed_one-RingsValid :
    (s : ℕ) (w : World) (p : Packet) (q' : List ℕ)
    → RingsValid w
    → cut (contents (ring_of w s)) ≡ frame p q'
    → RingsValid (feed_one s p w)
feed_one-RingsValid s w p q' v e j = elim (Bool-cases (j == s)) [
  | inl same ↦ rw (==→eq j s same) (feed_one-ring s w p q' (v s) e).0
  | inr other ↦ rw (ring_of-feed_one_other s j p w (==→ne j s other)) (v j)
]

feed-RingsValid :
    (s : ℕ) {q : List ℕ} {ps : List Packet} {t : Tail} (w : World)
    → Splits q ps t
    → RingsValid w
    → contents (ring_of w s) ≡ q
    → RingsValid (feed s ps w)
unfolding feed
feed-RingsValid s w (waits q e) v c = v
feed-RingsValid s w (breaks q e) v c = v
feed-RingsValid s w (takes q p q' e k) v c =
    feed-RingsValid s (feed_one s p w) k (feed_one-RingsValid s w p q' v (ap cut c ∙ e))
      (feed_one-ring s w p q' (v s) (ap cut c ∙ e)).1

request_close-RingsValid : (s : ℕ) (w : World) → RingsValid w → RingsValid (request_close s w)
request_close-RingsValid s w v j = rw (ring_of-request_close s j w) (v j)

post_recv-RingsValid : (s : ℕ) (w : World) → RingsValid w → RingsValid (post_recv s w)
post_recv-RingsValid s w v j = rw (ring_of-post_recv s j w) (v j)

received-RingsValid :
    (s : ℕ) (bytes : List ℕ) (w : World)
    → RingsValid w
    → length (contents (ring_of w s)) + length bytes ≤ ring_size
    → RingsValid (received s bytes w)
received-RingsValid s bytes w v fits j = elim (Bool-cases (j == s)) [
  | inl same ↦ rw (==→eq j s same) (received-ring s bytes w (v s) fits).0
  | inr other ↦ rw (other, ring_of) (v j)
]

-- The value of a handler that returns, with what holds of it.
abbrev pub Returns : Option World → Type 0
Returns out = (w' : World) × (out ≡ some w') × RingsValid w'

finish-Returns :
    (s : ℕ) (w : World) (out : List Packet × Tail)
    → RingsValid (feed s out.0 w)
    → Returns (finish s (loop_spec s w out))
finish-Returns s w (ps, rest r) v = (post_recv s (feed s ps w), refl, post_recv-RingsValid s _ v)
finish-Returns s w (ps, broken) v =
    (request_close s (feed s ps w), refl, request_close-RingsValid s _ v)

-- The session after a completion that brings nothing into the ring.
abbrev settled : ℕ → World → World
settled s w = let x = w.sessions s in put_session w s (io_ended (record x { recv_posted = false }))

settled-RingsValid : (s : ℕ) (w : World) → RingsValid w → RingsValid (settled s w)
settled-RingsValid s w v j =
    let same : ring_of (settled s w) j ≡ ring_of w j = ground arith in rw same (v j)

-- Where every session's ring is well formed, `OnRecvComplete` returns for any completion on any
-- session (the receive loop never runs out of fuel), and every session's ring is well formed after it.
pub on_recv_complete-Returns :
    (s : ℕ) (bytes : List ℕ) (success : Bool) (w : World)
    → RingsValid w
    → Returns (on_recv_complete s bytes success w)
unfolding on_recv_complete
on_recv_complete-Returns s bytes false w v =
    (request_close s (settled s w), refl, request_close-RingsValid s _ (settled-RingsValid s w v))
on_recv_complete-Returns s [] true w v =
    (request_close s (settled s w), refl, request_close-RingsValid s _ (settled-RingsValid s w v))
on_recv_complete-Returns s (b ∷ bytes) true w v = by_state (is_connected (w.sessions s).state) refl
  where
    all : List ℕ
    all = b ∷ bytes

    by_state :
        (con : Bool)
        → is_connected (w.sessions s).state ≡ con
        → Returns (on_recv_complete s (b ∷ bytes) true w)
    by_state false e = (settled s w, ground (arith, e), settled-RingsValid s w v)
    by_state true e =
        elim (Bool-cases (leb (length (contents (ring_of w s)) + length all) ring_size)) [
          | inl fits ↦
              let room = leb→le _ _ fits in
              rw (on_recv_complete_lem s all w (v s) e (omega arith) room) (
                finish-Returns s (received s all w) (frames (contents (ring_of w s) ++ all)) (
                  feed-RingsValid s (received s all w) (frames-Splits _)
                    (received-RingsValid s all w v room) (received-ring s all w (v s) room).1))
          | inr full ↦
              let over : ring_size < length (contents (ring_of w s)) + length all =
                leb→gt _ _ full in
              (
                request_close s (settled s w),
                ground (arith, e, write_full (ring_of w s) all (v s) over),
                request_close-RingsValid s _ (settled-RingsValid s w v),
              )
        ]
