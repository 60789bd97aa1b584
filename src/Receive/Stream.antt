-- ===== src/Receive/Stream.antt =====
-- A whole connection's stream through `OnRecvComplete`: which jobs its completions leave behind.
use iocp_game_chat_server.Prelude.{
  ℕ, suc, ◌+◌, ◌≤◌, ◌<◌, ◌≡◌, refl, sym, ap, subst, ◌∙◌, true, false, some, List, [], ◌∷◌, ◌++◌,
  arith, map, length, append_assoc, append-nil,
}
use iocp_game_chat_server.Packet.{Packet, is_valid, is_known_packet_id}
use iocp_game_chat_server.State.{World, is_connected, is_shutting_down, put_session}
use iocp_game_chat_server.RingBuffer
use iocp_game_chat_server.RingBuffer.{ring_size}
use iocp_game_chat_server.RingBuffer.Contents.{IsValid, contents, write_fits, length-contents}
use iocp_game_chat_server.JobQueue.{enqueue_packet_job, packet_job, push}
use iocp_game_chat_server.Session.{post_recv, io_ended}
use iocp_game_chat_server.Session.Rings.{ring_of}
use iocp_game_chat_server.Protocol.{process_packet}
use iocp_game_chat_server.Receive.{
  on_recv_complete, receive_loop, finish, loop_fuel, recv_buffer_size,
}
use iocp_game_chat_server.Receive.Frames.{wait, cut, Tail, rest, frames, frames_fuel}
use iocp_game_chat_server.Receive.Loop.{feed, feed_one, loop_spec, receive_loop_lem, feed_one-ring}
use iocp_game_chat_server.Receive.Split.{
  Splits, waits, breaks, takes, frames-Splits, Splits-rest, cut-wait_short,
}

-- The world right after the received bytes have been written to the ring.
abbrev pub received : ℕ → List ℕ → World → World
received s bytes w =
    let x = w.sessions s in
    put_session w s (
      io_ended
        (record x { recv_posted = false; recv_ring = (RingBuffer.write x.recv_ring bytes).0 }))

ring_of-received :
    (s : ℕ) (bytes : List ℕ) (w : World)
    → ring_of (received s bytes w) s ≡ (RingBuffer.write (ring_of w s) bytes).0
ring_of-received s bytes w = ground arith

pub received-ring :
    (s : ℕ) (bytes : List ℕ) (w : World)
    → IsValid (ring_of w s)
    → length (contents (ring_of w s)) + length bytes ≤ ring_size
    → IsValid (ring_of (received s bytes w) s)
      × (contents (ring_of (received s bytes w) s) ≡ contents (ring_of w s) ++ bytes)
received-ring s bytes w v fits =
    let (_, valid, joined) = write_fits (ring_of w s) bytes v fits in
    rw (ring_of-received s bytes w) (valid, joined)

-- A successful completion of at least one byte, on a connected session with a well-formed ring in
-- which the bytes fit: the packets of the stream so far are
-- processed in order, then a receive is posted, or the session is closed at a size out of range.
pub on_recv_complete_lem :
    (s : ℕ) (bytes : List ℕ) (w : World)
    → IsValid (ring_of w s)
    → is_connected (w.sessions s).state ≡ true
    → 0 < length bytes
    → length (contents (ring_of w s)) + length bytes ≤ ring_size
    → on_recv_complete s bytes true w
      ≡ finish s (loop_spec s (received s bytes w) (frames (contents (ring_of w s) ++ bytes)))
unfolding on_recv_complete frames
on_recv_complete_lem s bytes w v con pos fits =
    let (valid, joined) = received-ring s bytes w v fits in
    let w₂ = received s bytes w in
    let fuel : suc (length (contents (ring_of w₂ s))) ≡ loop_fuel s w₂ =
      ap suc (length-contents (ring_of w₂ s)) in
    let loop : receive_loop (loop_fuel s w₂) s w₂
        ≡ loop_spec s w₂ (
            frames_fuel (suc (length (contents (ring_of w s) ++ bytes)))
              (contents (ring_of w s) ++ bytes)) =
      rw (← fuel) (
        rw (← joined)
          (receive_loop_lem (suc (length (contents (ring_of w₂ s)))) s w₂ valid (omega arith))) in
    ground (arith, con, pos, write_fits (ring_of w s) bytes v fits, loop)

-- A session that is connected while the server runs and the kernel takes every operation.
pub record Healthy (s : ℕ) (w : World) : Type 0 where
  pub connected : is_connected (w.sessions s).state ≡ true
  pub up : is_shutting_down w ≡ false
  pub accepting : (n : ℕ) → w.accepts n ≡ true

-- The packets that the protocol layer passes on.
abbrev pub Passes : Packet → Type 0
Passes p = (is_valid p ≡ true) × (is_known_packet_id p.header.id ≡ true)

abbrev pub AllPass : List Packet → Type 0
AllPass [] = Unit {0}
AllPass (p ∷ ps) = Passes p × AllPass ps

feed_one-Healthy :
    (s : ℕ) (p : Packet) (w : World)
    → Healthy s w
    → Passes p
    → Healthy s (feed_one s p w) × ((feed_one s p w).jobs ≡ w.jobs ++ (packet_job s p ∷ []))
unfolding feed_one process_packet enqueue_packet_job push
feed_one-Healthy s p w h ok = (
  record {
    connected = ground arith;
    up = ground arith;
    accepting = λ n. ground (arith, h.accepting n);
  },
  ground arith,
)

feed-Healthy :
    (s : ℕ) (ps : List Packet) (w : World)
    → Healthy s w
    → AllPass ps
    → Healthy s (feed s ps w) × ((feed s ps w).jobs ≡ w.jobs ++ map (packet_job s) ps)
unfolding feed
feed-Healthy s [] w h ok = (h, sym (append-nil w.jobs))
feed-Healthy s (p ∷ ps) w h (one, ok) =
    let (h₁, j₁) = feed_one-Healthy s p w h one in
    let (h₂, j₂) = feed-Healthy s ps (feed_one s p w) h₁ ok in
    (
      h₂,
      j₂
          ∙ ap (λ js. js ++ map (packet_job s) ps) j₁
          ∙ append_assoc w.jobs (packet_job s p ∷ []) (map (packet_job s) ps),
    )

-- After the packets of a stream the ring holds what waits.
feed-ring :
    (s : ℕ) {q : List ℕ} {ps : List Packet} {t : Tail} (r : List ℕ) (w : World)
    → Splits q ps t
    → t ≡ rest r
    → IsValid (ring_of w s)
    → contents (ring_of w s) ≡ q
    → IsValid (ring_of (feed s ps w) s) × (contents (ring_of (feed s ps w) s) ≡ r)
unfolding feed
feed-ring s r w (waits q e) same v c = (v, cc)
feed-ring s r w (breaks q e) same v c = absurd (cc)
feed-ring s r w (takes q p q' e k) same v c =
    let (v', c') = feed_one-ring s w p q' v (ap cut c ∙ e) in
    feed-ring s r (feed_one s p w) k same v' c'

received-Healthy :
    (s : ℕ) (bytes : List ℕ) (w : World)
    → Healthy s w
    → Healthy s (received s bytes w) × ((received s bytes w).jobs ≡ w.jobs)
received-Healthy s bytes w h =
    (record { connected = ground arith; up = h.up; accepting = h.accepting }, refl)

post_recv-Healthy :
    (s : ℕ) (w : World)
    → Healthy s w
    → Healthy s (post_recv s w)
      × ((post_recv s w).jobs ≡ w.jobs)
      × (ring_of (post_recv s w) s ≡ ring_of w s)
unfolding post_recv
post_recv-Healthy s w h =
    let yes_again = h.accepting w.io_calls in
    (
      record {
        connected = ground (arith, yes_again);
        up = ground (arith, yes_again);
        accepting = λ n. ground (arith, yes_again, h.accepting n);
      },
      ground (arith, yes_again),
      ground (arith, yes_again),
    )

-- What the completions of a session have to find, and what each leaves.
pub record Receiving (s : ℕ) (w : World) : Type 0 where
  pub healthy : Healthy s w
  pub valid : IsValid (ring_of w s)
  pub waiting : cut (contents (ring_of w s)) ≡ wait

-- A completion whose bytes leave no packet of a bad size at the front.
pub one_completion :
    (s : ℕ) (c : List ℕ) (w : World) (ps : List Packet) (r : List ℕ)
    → Receiving s w
    → 0 < length c
    → length c ≤ recv_buffer_size
    → frames (contents (ring_of w s) ++ c) ≡ (ps, rest r)
    → AllPass ps
    → (w' : World) × (on_recv_complete s c true w ≡ some w')
      × Receiving s w'
      × (contents (ring_of w' s) ≡ r)
      × (w'.jobs ≡ w.jobs ++ map (packet_job s) ps)
one_completion s c w ps r h pos small out ok =
    let fits : length (contents (ring_of w s)) + length c ≤ ring_size =
      omega (arith, cut-wait_short (contents (ring_of w s)) h.waiting) in
    let (v₁, c₁) = received-ring s c w h.valid fits in
    let split = subst (λ o. Splits (contents (ring_of w s) ++ c) o.0 o.1) out (frames-Splits _) in
    let (v₂, c₂) = feed-ring s r (received s c w) split refl v₁ c₁ in
    let (h₁, j₁) = received-Healthy s c w h.healthy in
    let (h₂, j₂) = feed-Healthy s ps (received s c w) h₁ ok in
    let (h₃, j₃, same_ring) = post_recv-Healthy s (feed s ps (received s c w)) h₂ in
    (
      post_recv s (feed s ps (received s c w)),
      rw (on_recv_complete_lem s c w h.valid h.healthy.connected pos fits) (rw out),
      record {
        healthy = h₃;
        valid = rw same_ring v₂;
        waiting = rw same_ring (rw c₂ (Splits-rest r split));
      },
      ap contents same_ring ∙ c₂,
      j₃ ∙ j₂,
    )
