-- ===== src/Receive/Loop.antt =====
-- The receive loop against the framing rules.
use iocp_game_chat_server.Prelude.{
  ℕ, zero, suc, ◌+◌, ◌-◌, ◌≤◌, ◌<◌, ◌≡◌, ◌≢◌, refl, sym, ap, ◌∙◌, Bool, true, false, Option, none,
  some, inl, inr, List, [], ◌∷◌, arith, ltb, Bool-cases, length, take, drop, length-drop, drop-drop,
  ltb→ge,
}
use iocp_game_chat_server.Packet.{Packet, header_size}
use iocp_game_chat_server.State.{World}
use iocp_game_chat_server.RingBuffer
use iocp_game_chat_server.RingBuffer.{RingBuffer}
use iocp_game_chat_server.RingBuffer.Contents.{IsValid, contents, peek_enough, has_lem, skip_lem}
use iocp_game_chat_server.JobQueue.{enqueue_packet_job}
use iocp_game_chat_server.Session.{request_close, send_packet}
use iocp_game_chat_server.Session.Rings.{ring_of, ring_of-request_close, ring_of-send_packet}
use iocp_game_chat_server.Protocol.{process_packet, kick}
use iocp_game_chat_server.Receive.{
  header_of, skip_in, Round, break, return, again, take_packet, round, receive_loop,
}
use iocp_game_chat_server.Receive.Frames.{
  Cut, wait, bad, frame, cut, front_packet, Tail, rest, broken, frames_fuel, also, cut-frame,
}

pub ring_of-process_packet :
    (s j : ℕ) (p : Packet) (w : World) → ring_of (process_packet s p w) j ≡ ring_of w j
unfolding process_packet kick enqueue_packet_job
ring_of-process_packet s j p w = ground (
  arith,
  ring_of-request_close s j (send_packet s 1001 none 0 w),
  ring_of-send_packet s j 1001 0 none w,
)

-- What the loop does with one packet.
unfoldable pub feed_one : ℕ → Packet → World → World
feed_one s p w =
    skip_in s (p.header.size - header_size) (process_packet s p (skip_in s header_size w))

ring_of-feed_one :
    (s : ℕ) (p : Packet) (w : World)
    → ring_of (feed_one s p w) s
      ≡ RingBuffer.skip (RingBuffer.skip (ring_of w s) header_size) (p.header.size - header_size)
unfolding feed_one
ring_of-feed_one s p w = ground (arith, ring_of-process_packet s s p (skip_in s header_size w))

-- Another session's ring is not touched.
pub ring_of-feed_one_other :
    (s j : ℕ) (p : Packet) (w : World) → j ≢ s → ring_of (feed_one s p w) j ≡ ring_of w j
unfolding feed_one
ring_of-feed_one_other s j p w other =
    ground (arith, other, ring_of-process_packet s j p (skip_in s header_size w))

header_of-take : (q : List ℕ) → header_of (take 4 q) ≡ header_of q
unfolding header_of
header_of-take [] = refl
header_of-take (a ∷ []) = refl
header_of-take (a ∷ b ∷ []) = refl
header_of-take (a ∷ b ∷ c ∷ []) = refl
header_of-take (a ∷ b ∷ c ∷ d ∷ q) = refl

-- A round on a front that is cut: what the loop's body does.
abbrev round_spec : ℕ → World → Cut → Round
round_spec s w wait = break w
round_spec s w bad = return (request_close s w)
round_spec s w (frame p q) = again (feed_one s p w)

-- The body is what `Peek` copies once the header has been skipped.
peek_body :
    (r : RingBuffer) (size : ℕ)
    → IsValid r
    → header_size ≤ size
    → size ≤ length (contents r)
    → RingBuffer.peek (RingBuffer.skip r header_size) (size - header_size)
      ≡ some (take (size - header_size) (drop header_size (contents r)))
peek_body r size v lo hi =
    let (v', e) = skip_lem r header_size v (omega arith) in
    peek_enough (RingBuffer.skip r header_size) (size - header_size) v'
      (omega (arith, ap length e, length-drop header_size (contents r)))
    ∙ ap (λ q. some (take (size - header_size) q)) e

take_packet_lem :
    (s : ℕ) (w : World)
    → IsValid (ring_of w s)
    → header_size ≤ length (contents (ring_of w s))
    → take_packet s (header_of (contents (ring_of w s))) w
      ≡ round_spec s w (cut (contents (ring_of w s)))
unfolding take_packet cut front_packet feed_one
take_packet_lem s w v h = ground (
  arith,
  h,
  has_lem (ring_of w s) (header_of (contents (ring_of w s))).size,
  peek_body (ring_of w s) (header_of (contents (ring_of w s))).size v,
)

round_lem :
    (s : ℕ) (w : World)
    → IsValid (ring_of w s)
    → round s w ≡ round_spec s w (cut (contents (ring_of w s)))
unfolding round
round_lem s w v = elim (Bool-cases (ltb (length (contents (ring_of w s))) header_size)) [
  | inl short ↦ unfold cut in ground (arith, short, has_lem (ring_of w s) header_size)
  | inr enough ↦
      let lo = ltb→ge _ _ enough in
      ground (
        arith,
        lo,
        has_lem (ring_of w s) header_size,
        peek_enough (ring_of w s) header_size v lo,
        header_of-take (contents (ring_of w s)),
        take_packet_lem s w v lo,
      )
]

unfoldable pub feed : ℕ → List Packet → World → World
feed s [] w = w
feed s (p ∷ ps) w = feed s ps (feed_one s p w)

pub feed_one-ring :
    (s : ℕ) (w : World) (p : Packet) (q' : List ℕ)
    → IsValid (ring_of w s)
    → cut (contents (ring_of w s)) ≡ frame p q'
    → IsValid (ring_of (feed_one s p w) s) × (contents (ring_of (feed_one s p w) s) ≡ q')
feed_one-ring s w p q' v e =
    let (rest_is, lo, hi, fits, _) = cut-frame _ p q' e in
    let r = ring_of w s in
    let (v₁, e₁) = skip_lem r header_size v (omega arith) in
    let room : p.header.size - header_size ≤ length (contents (RingBuffer.skip r header_size)) =
      omega (arith, ap length e₁, length-drop header_size (contents r)) in
    let (v₂, e₂) = skip_lem (RingBuffer.skip r header_size) (p.header.size - header_size) v₁ room in
    let whole : header_size + (p.header.size - header_size) ≡ p.header.size = omega arith in
    rw (ring_of-feed_one s p w) (
      v₂,
      e₂
          ∙ ap (drop (p.header.size - header_size)) e₁
          ∙ drop-drop header_size (p.header.size - header_size) (contents r)
          ∙ ap (λ k. drop k (contents r)) whole
          ∙ sym rest_is,
    )

-- What the loop does on a stream whose packets and tail are given.
abbrev pub loop_spec : ℕ → World → List Packet × Tail → Option (World × Bool)
loop_spec s w (ps, rest _) = some (feed s ps w, true)
loop_spec s w (ps, broken) = some (request_close s (feed s ps w), false)

loop_spec-also :
    (s : ℕ) (w : World) (p : Packet) (out : List Packet × Tail)
    → loop_spec s (feed_one s p w) out ≡ loop_spec s w (also p out)
unfolding feed
loop_spec-also s w p (ps, rest q) = refl
loop_spec-also s w p (ps, broken) = refl

abbrev pub LoopMeets : ℕ → ℕ → World → Type 0
LoopMeets fuel s w =
    receive_loop fuel s w ≡ loop_spec s w (frames_fuel fuel (contents (ring_of w s)))

loop_step :
    (fuel s : ℕ) (w : World) (c : Cut)
    → IsValid (ring_of w s)
    → length (contents (ring_of w s)) < suc fuel
    → ((w' : World)
        → IsValid (ring_of w' s)
        → length (contents (ring_of w' s)) < fuel
        → LoopMeets fuel s w')
    → cut (contents (ring_of w s)) ≡ c
    → LoopMeets (suc fuel) s w
unfolding receive_loop frames_fuel
loop_step fuel s w wait v h ih e = unfold feed in ground (arith, round_lem s w v, e)
loop_step fuel s w bad v h ih e = unfold feed in ground (arith, round_lem s w v, e)
loop_step fuel s w (frame p q') v h ih e =
    let (v', e') = feed_one-ring s w p q' v e in
    let (rest_is, lo, _, fits, _) = cut-frame _ p q' e in
    let shorter : length (contents (ring_of (feed_one s p w) s)) < fuel = omega (
      arith,
      ap length e',
      ap length rest_is,
      length-drop p.header.size (contents (ring_of w s)),
    ) in
    let next = ih (feed_one s p w) v' shorter in
    ground (arith, round_lem s w v, e, e', next, loop_spec-also s w p (frames_fuel fuel q'))

pub receive_loop_lem :
    (fuel s : ℕ) (w : World)
    → IsValid (ring_of w s)
    → length (contents (ring_of w s)) < fuel
    → LoopMeets fuel s w
receive_loop_lem zero s w v h = elim h [ ]
receive_loop_lem (suc fuel) s w v h =
    loop_step fuel s w (cut (contents (ring_of w s))) v h (receive_loop_lem fuel s) refl
