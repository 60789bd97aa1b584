-- ===== src/Receive/Chunks.antt =====
-- A connection's stream cut into completions in any way.
use iocp_game_chat_server.Prelude.{
  ℕ, ◌≤◌, ◌<◌, ◌≡◌, refl, sym, ap, subst, ◌∙◌, true, Option, none, some, List, [], ◌∷◌, ◌++◌, map,
  length, append_assoc, append-nil, map-append,
}
use iocp_game_chat_server.Packet.{Packet}
use iocp_game_chat_server.State.{World}
use iocp_game_chat_server.RingBuffer.Contents.{contents}
use iocp_game_chat_server.JobQueue.{packet_job}
use iocp_game_chat_server.Session.Rings.{ring_of}
use iocp_game_chat_server.Receive.{on_recv_complete, recv_buffer_size}
use iocp_game_chat_server.Receive.Frames.{Tail, rest, broken, frames}
use iocp_game_chat_server.Receive.Split.{
  Splits, waits, frames-Splits, Splits-unique, Splits-append, Splits-append_broken,
}
use iocp_game_chat_server.Receive.Stream.{AllPass, Receiving, one_completion}

-- Completions of one session, one after another.
abbrev pub receive_all : ℕ → List (List ℕ) → World → Option World
receive_all s [] w = some w
receive_all s (c ∷ cs) w = elim (on_recv_complete s c true w) [
  | none ↦ none
  | some w' ↦ receive_all s cs w'
]

abbrev pub joined : List (List ℕ) → List ℕ
joined [] = []
joined (c ∷ cs) = c ++ joined cs

-- No completion is empty, or longer than the receive buffer.
abbrev pub Chunks : List (List ℕ) → Type 0
Chunks [] = Unit {0}
Chunks (c ∷ cs) = (0 < length c) × (length c ≤ recv_buffer_size) × Chunks cs

AllPass-append : (ps qs : List Packet) → AllPass (ps ++ qs) → AllPass ps × AllPass qs
AllPass-append [] qs ok = (tt, ok)
AllPass-append (p ∷ ps) qs (one, ok) =
    let (front, back) = AllPass-append ps qs ok in ((one, front), back)

-- Where a stream ends with bytes that wait, its first part does too, and the rest goes on from there.
record Parts (q c ys : List ℕ) (ps : List Packet) (r : List ℕ) : Type 0 where
  first_packets : List Packet
  kept : List ℕ
  later_packets : List Packet
  first : frames (q ++ c) ≡ (first_packets, rest kept)
  later : Splits (kept ++ ys) later_packets (rest r)
  all : ps ≡ first_packets ++ later_packets

parts :
    (q c ys : List ℕ) (ps : List Packet) (r : List ℕ)
    → Splits (q ++ (c ++ ys)) ps (rest r)
    → Parts q c ys ps r
parts q c ys ps r h = go (frames (q ++ c)) refl
  where
    whole : Splits ((q ++ c) ++ ys) ps (rest r)
    whole = subst (λ k. Splits k ps (rest r)) (sym (append_assoc q c ys)) h

    go : (out : List Packet × Tail) → frames (q ++ c) ≡ out → Parts q c ys ps r
    go (ps₁, broken) e =
        let front = subst (λ o. Splits (q ++ c) o.0 o.1) e (frames-Splits (q ++ c)) in
        let (_, impossible) = Splits-unique (Splits-append_broken ys front refl) whole in
        absurd (cc)
    go (ps₁, rest k) e =
        let front = subst (λ o. Splits (q ++ c) o.0 o.1) e (frames-Splits (q ++ c)) in
        let out = frames (k ++ ys) in
        let (packets, tail) =
          Splits-unique (Splits-append ys k front refl (frames-Splits (k ++ ys))) whole in
        record {
          first_packets = ps₁;
          kept = k;
          later_packets = out.0;
          first = e;
          later = subst (Splits (k ++ ys) out.0) tail (frames-Splits (k ++ ys));
          all = sym packets;
        }

-- However a connection's stream is cut into completions of 1 to 4096 bytes, the receive handler
-- returns each time, the job queue receives exactly the packets of the joined stream, in order, the
-- ring keeps exactly the bytes that wait, and the session goes on receiving. The stream ends in bytes
-- that wait, its packets are ones that the protocol layer passes, the ring is well formed and waits for
-- more, the session is connected, the server runs and the kernel takes every operation.
pub receive_all-jobs :
    (s : ℕ) (cs : List (List ℕ)) (w : World) (ps : List Packet) (r : List ℕ)
    → Receiving s w
    → Chunks cs
    → Splits (contents (ring_of w s) ++ joined cs) ps (rest r)
    → AllPass ps
    → (w' : World) × (receive_all s cs w ≡ some w')
      × Receiving s w'
      × (contents (ring_of w' s) ≡ r)
      × (w'.jobs ≡ w.jobs ++ map (packet_job s) ps)
receive_all-jobs s [] w ps r h ok split pass =
    let here = subst (λ q. Splits q ps (rest r)) (append-nil (contents (ring_of w s))) split in
    let (no_packets, tail) = Splits-unique (waits (contents (ring_of w s)) h.waiting) here in
    (
      w,
      refl,
      h,
      cc,
      sym (append-nil w.jobs) ∙ ap (λ js. w.jobs ++ map (packet_job s) js) no_packets,
    )
receive_all-jobs s (c ∷ cs) w ps r h (pos, small, ok) split pass =
    let p = parts (contents (ring_of w s)) c (joined cs) ps r split in
    let (pass₁, pass₂) =
      AllPass-append p.first_packets p.later_packets (subst AllPass p.all pass) in
    let (w₁, done₁, h₁, c₁, j₁) =
      one_completion s c w p.first_packets p.kept h pos small p.first pass₁ in
    let (w₂, done₂, h₂, c₂, j₂) =
      receive_all-jobs s cs w₁ p.later_packets r h₁ ok
        (subst (λ q. Splits (q ++ joined cs) p.later_packets (rest r)) (sym c₁) p.later) pass₂ in
    (
      w₂,
      rw (done₁, receive_all) done₂,
      h₂,
      c₂,
      j₂
          ∙ ap (λ js. js ++ map (packet_job s) p.later_packets) j₁
          ∙ append_assoc w.jobs (map (packet_job s) p.first_packets)
              (map (packet_job s) p.later_packets)
          ∙ ap (◌++◌ w.jobs) (
              sym (map-append (packet_job s) p.first_packets p.later_packets)
              ∙ ap (map (packet_job s)) (sym p.all)),
    )
