-- ===== src/Receive/Keeps.antt =====
-- What holds through the receive loop: whatever its steps keep.
use iocp_game_chat_server.Prelude.{
  ℕ, zero, suc, ◌-◌, ◌≡◌, refl, Bool, true, false, not, Option, none, some, inl, inr, List, arith,
  ◌==◌, ◌||◌, ltb, length, Bool-cases, Option-cases,
}
use iocp_game_chat_server.Packet.{Packet, PacketHeader, header_size, max_packet_size}
use iocp_game_chat_server.State.{World, put_session, GameJob, is_shutting_down, is_connected}
use iocp_game_chat_server.RingBuffer
use iocp_game_chat_server.RingBuffer.{RingBuffer}
use iocp_game_chat_server.JobQueue.{enqueue_packet_job, push_job, packet_job}
use iocp_game_chat_server.Session.{io_ended, request_close, send_packet, post_recv}
use iocp_game_chat_server.Session.Sending.{Offers}
use iocp_game_chat_server.Protocol.{kick, process_packet}
use iocp_game_chat_server.Receive.{
  skip_in, Round, break, return, again, take_packet, round, receive_loop, finish, header_of,
  on_recv_complete,
}

-- The steps of which the receive loop consists.
pub record KeepsReceiving (Q : World → Type 0) : Type 0 where
  pub sends :
      (s id size : ℕ) (body : Option (List ℕ)) (w : World)
      → Offers body size
      → Q w
      → Q (send_packet s id body size w)
  pub closes : (s : ℕ) (w : World) → Q w → Q (request_close s w)
  pub receives : (s : ℕ) (w : World) → Q w → Q (post_recv s w)
  pub queues : (job : GameJob) (w : World) → Q w → Q (push_job w job)
  pub skips : (s n : ℕ) (w : World) → Q w → Q (skip_in s n w)

-- A world that comes out of a handler, if one does.
abbrev pub KeptAfter : (World → Type 0) → Option World → Type 0
KeptAfter Q none = Unit {0}
KeptAfter Q (some w) = Q w

module _ (Q : World → Type 0) (k : KeepsReceiving Q) where
  enqueue_packet_job-keeps :
      (s : ℕ) (pkt : Packet) (w : World) → Q w → Q (enqueue_packet_job s pkt w)
  unfolding enqueue_packet_job
  enqueue_packet_job-keeps s pkt w h = elim (Bool-cases (is_shutting_down w)) [
    | inl down ↦ rw (down, enqueue_packet_job) h
    | inr up ↦ rw (up, enqueue_packet_job) (k.queues (packet_job s pkt) w h)
  ]

  process_packet-keeps : (s : ℕ) (pkt : Packet) (w : World) → Q w → Q (process_packet s pkt w)
  unfolding process_packet kick
  process_packet-keeps s pkt w h =
      let kicked = k.closes s _ (k.sends s 1001 0 none w refl h) in
      let queued = enqueue_packet_job-keeps s pkt w h in ground (arith, h, kicked, queued)

  -- However a round ends, the world it leaves has the property.
  abbrev RoundKeeps : Round → Type 0
  RoundKeeps (break w) = Q w
  RoundKeeps (return w) = Q w
  RoundKeeps (again w) = Q w

  take_packet-RoundKeeps :
      (s : ℕ) (header : PacketHeader) (w : World) → Q w → RoundKeeps (take_packet s header w)
  unfolding take_packet
  take_packet-RoundKeeps s header w h =
      let w' = skip_in s header_size w in
      let h' = k.skips s header_size w h in
      let bytes = RingBuffer.peek (w'.sessions s).recv_ring (header.size - header_size) in
      elim (Bool-cases (ltb header.size header_size || ltb max_packet_size header.size)) [
        | inl bad ↦ rw bad (k.closes s w h)
        | inr ok ↦ rw ok (elim (Bool-cases (RingBuffer.has (w.sessions s).recv_ring header.size)) [
          | inr short ↦ rw short h
          | inl whole ↦ rw whole (elim (Bool-cases (header.size - header_size == 0)) [
            | inl empty ↦ rw empty (k.skips s 0 _ (process_packet-keeps s _ w' h'))
            | inr more ↦ elim (Option-cases bytes) [
              | inl e ↦ rw (more, e) (k.closes s w' h')
              | inr (body, e) ↦ rw (more, e) (k.skips s _ _ (process_packet-keeps s _ w' h'))
            ]
          ])
        ])
      ]

  round-RoundKeeps : (s : ℕ) (w : World) → Q w → RoundKeeps (round s w)
  unfolding round
  round-RoundKeeps s w h = elim (Bool-cases (RingBuffer.has (w.sessions s).recv_ring header_size)) [
    | inr short ↦ rw short h
    | inl whole ↦ elim (Option-cases (RingBuffer.peek (w.sessions s).recv_ring header_size)) [
      | inl e ↦ rw (whole, e) h
      | inr (bytes, e) ↦ rw (whole, e) (take_packet-RoundKeeps s (header_of bytes) w h)
    ]
  ]

  -- What the loop leaves, if it ends.
  abbrev Ended : Option (World × Bool) → Type 0
  Ended none = Unit {0}
  Ended (some (w, broke)) = Q w

  loop_round-Ended :
      (fuel s : ℕ) (w : World) (r : Round)
      → ((w' : World) → Q w' → Ended (receive_loop fuel s w'))
      → round s w ≡ r
      → RoundKeeps r
      → Ended (receive_loop (suc fuel) s w)
  unfolding receive_loop
  loop_round-Ended fuel s w (break w') next e h = rw (e, receive_loop) h
  loop_round-Ended fuel s w (return w') next e h = rw (e, receive_loop) h
  loop_round-Ended fuel s w (again w') next e h = rw (e, receive_loop) (next w' h)

  receive_loop-Ended : (fuel s : ℕ) (w : World) → Q w → Ended (receive_loop fuel s w)
  receive_loop-Ended zero s w h = unfold receive_loop in tt
  receive_loop-Ended (suc fuel) s w h =
      loop_round-Ended fuel s w (round s w) (receive_loop-Ended fuel s) refl
        (round-RoundKeeps s w h)

  finish-KeptAfter : (s : ℕ) (o : Option (World × Bool)) → Ended o → KeptAfter Q (finish s o)
  finish-KeptAfter s none h = tt
  finish-KeptAfter s (some (w, true)) h = k.receives s w h
  finish-KeptAfter s (some (w, false)) h = h

  loop-KeptAfter : (fuel s : ℕ) (w : World) → Q w → KeptAfter Q (finish s (receive_loop fuel s w))
  loop-KeptAfter fuel s w h = finish-KeptAfter s _ (receive_loop-Ended fuel s w h)

  -- The session first takes note of the completion; the ring may have taken the bytes.
  pub on_recv_complete-KeptAfter :
      (s : ℕ) (bytes : List ℕ) (success : Bool) (w : World)
      → ((r : RingBuffer)
          → Q (
              put_session w s
                (io_ended (record (w.sessions s) { recv_posted = false; recv_ring = r }))))
      → KeptAfter Q (on_recv_complete s bytes success w)
  unfolding on_recv_complete
  on_recv_complete-KeptAfter s bytes success w noted =
      let x = w.sessions s in
      let written = RingBuffer.write x.recv_ring bytes in
      elim (Bool-cases (not success || length bytes == 0)) [
        | inl over ↦ rw over (k.closes s _ (noted x.recv_ring))
        | inr came ↦ rw came (elim (Bool-cases (is_connected x.state)) [
          | inr shut ↦ rw shut (noted x.recv_ring)
          | inl con ↦ rw con (elim (Bool-cases written.1) [
            | inr full ↦ rw full (k.closes s _ (noted x.recv_ring))
            | inl fits ↦ rw fits (loop-KeptAfter _ s _ (noted written.0))
          ])
        ])
      ]
