-- ===== src/Receive/Frames.antt =====
-- The framing rules of docs/protocol-v1.md (section 1) on the bare byte stream: an independent
-- description of how a stream is cut into packets.
use iocp_game_chat_server.Prelude.{
  ℕ, zero, suc, ◌-◌, List, [], ◌∷◌, ◌||◌, ltb, if◌then◌else◌, length, take, drop, ◌≡◌, ◌≤◌, arith,
  length-take, length-drop,
}
use iocp_game_chat_server.Packet.{Packet, header_size, max_packet_size}
use iocp_game_chat_server.Receive.{header_of}

-- What stands at the front of a stream: too little, a size out of range, or a packet and the rest.
pub data Cut : Type 0 where
  wait bad : Cut
  frame : Packet → List ℕ → Cut

unfoldable pub front_packet : List ℕ → Packet
front_packet q =
    let h = header_of q in
    record { header = h; body = take (h.size - header_size) (drop header_size q) }

unfoldable pub cut : List ℕ → Cut
cut q =
    let size = (header_of q).size in
    if ltb (length q) header_size
    then wait
    else if ltb size header_size || ltb max_packet_size size
    then bad
    else if ltb (length q) size
    then wait
    else frame (front_packet q) (drop size q)

-- A cut takes a whole packet, of a size in range, off the front.
pub cut-frame :
    (q : List ℕ) (p : Packet) (q' : List ℕ)
    → cut q ≡ frame p q'
    → (q' ≡ drop p.header.size q)
      × (header_size ≤ p.header.size)
      × (p.header.size ≤ max_packet_size)
      × (p.header.size ≤ length q)
      × (length p.body ≡ p.header.size - header_size)
unfolding cut front_packet
cut-frame q p q' e = ground (
  arith,
  e,
  length-take ((header_of q).size - header_size) (drop header_size q),
  length-drop header_size q,
)

-- How a stream ends: with bytes that wait for more, or at a size out of range.
pub data Tail : Type 0 where
  rest : List ℕ → Tail
  broken : Tail

abbrev pub also : Packet → List Packet × Tail → List Packet × Tail
also p (ps, t) = (p ∷ ps, t)

-- The packets of a stream. Each takes at least four bytes, so the stream's length is fuel enough.
unfoldable pub frames_fuel : ℕ → List ℕ → List Packet × Tail
frames_fuel zero q = ([], rest q)
frames_fuel (suc fuel) q = elim (cut q) [
  | wait ↦ ([], rest q)
  | bad ↦ ([], broken)
  | frame p q' ↦ also p (frames_fuel fuel q')
]

unfoldable pub frames : List ℕ → List Packet × Tail
frames q = frames_fuel (suc (length q)) q
