-- ===== src/Receive/Split.antt =====
-- How the packets of a stream depend on its parts: a relation that the framing function decides, and
-- its laws for streams that are joined.
use iocp_game_chat_server.Prelude.{
  ℕ, zero, suc, ◌-◌, ◌≤◌, ◌<◌, ◌≡◌, refl, ap, ap₂, subst, List, [], ◌∷◌, ◌++◌, arith, length, drop,
  length-append, length-drop, take-append_le, drop-append_le,
}
use iocp_game_chat_server.Packet.{Packet, header_size, max_packet_size}
use iocp_game_chat_server.Receive.{header_of}
use iocp_game_chat_server.Receive.Frames.{
  Cut, wait, bad, frame, cut, front_packet, cut-frame, Tail, rest, broken, frames_fuel, frames,
  also,
}

pub data Splits : List ℕ → List Packet → Tail → Type 0 where
  waits : (q : List ℕ) → cut q ≡ wait → Splits q [] (rest q)
  breaks : (q : List ℕ) → cut q ≡ bad → Splits q [] broken
  takes :
      (q : List ℕ) (p : Packet) (q' : List ℕ) {ps : List Packet} {t : Tail}
      → cut q ≡ frame p q'
      → Splits q' ps t
      → Splits q (p ∷ ps) t

abbrev pub SplitsTo : List ℕ → List Packet × Tail → Type 0
SplitsTo q out = Splits q out.0 out.1

also-Splits :
    (q : List ℕ) (p : Packet) (q' : List ℕ) (out : List Packet × Tail)
    → cut q ≡ frame p q'
    → SplitsTo q' out
    → SplitsTo q (also p out)
also-Splits q p q' (ps, t) e h = takes q p q' e h

frames_fuel-step :
    (fuel : ℕ) (q : List ℕ) (c : Cut)
    → length q < suc fuel
    → ((q' : List ℕ) → length q' < fuel → SplitsTo q' (frames_fuel fuel q'))
    → cut q ≡ c
    → SplitsTo q (frames_fuel (suc fuel) q)
unfolding frames_fuel
frames_fuel-step fuel q wait h ih e = rw (e, frames_fuel) (waits q e)
frames_fuel-step fuel q bad h ih e = rw (e, frames_fuel) (breaks q e)
frames_fuel-step fuel q (frame p q') h ih e =
    let (is_rest, lo, _, fits, _) = cut-frame q p q' e in
    rw (e, frames_fuel)
      (also-Splits q p q' (frames_fuel fuel q') e
        (ih q' (omega (arith, ap length is_rest, length-drop p.header.size q))))

frames_fuel-Splits : (fuel : ℕ) (q : List ℕ) → length q < fuel → SplitsTo q (frames_fuel fuel q)
frames_fuel-Splits zero q h = elim h [ ]
frames_fuel-Splits (suc fuel) q h = frames_fuel-step fuel q (cut q) h (frames_fuel-Splits fuel) refl

pub frames-Splits : (q : List ℕ) → SplitsTo q (frames q)
unfolding frames
frames-Splits q = frames_fuel-Splits (suc (length q)) q (omega arith)

-- A stream splits in one way.
pub Splits-unique :
    {q : List ℕ} {ps qs : List Packet} {t u : Tail}
    → Splits q ps t
    → Splits q qs u
    → (ps ≡ qs) × (t ≡ u)
Splits-unique (waits q e) (waits _ f) = (refl, refl)
Splits-unique (waits q e) (breaks _ f) = absurd (cc)
Splits-unique (waits q e) (takes _ p q' f h) = absurd (cc)
Splits-unique (breaks q e) (waits _ f) = absurd (cc)
Splits-unique (breaks q e) (breaks _ f) = (refl, refl)
Splits-unique (breaks q e) (takes _ p q' f h) = absurd (cc)
Splits-unique (takes q p q' e h) (waits _ f) = absurd (cc)
Splits-unique (takes q p q' e h) (breaks _ f) = absurd (cc)
Splits-unique (takes q p q' e h) (takes _ p₂ q₂ {ps = qs} {t = u} f k) =
    let same_rest : q₂ ≡ q' = cc in
    let same_packet : p ≡ p₂ = cc in
    let (same_packets, same_tail) = Splits-unique h (subst (λ r. Splits r qs u) same_rest k) in
    (ap₂ ◌∷◌ same_packet same_packets, same_tail)

header_of-append : (q ys : List ℕ) → header_size ≤ length q → header_of (q ++ ys) ≡ header_of q
unfolding header_of
header_of-append [] ys h = absurd (omega arith)
header_of-append (a ∷ []) ys h = absurd (omega arith)
header_of-append (a ∷ b ∷ []) ys h = absurd (omega arith)
header_of-append (a ∷ b ∷ c ∷ []) ys h = absurd (omega arith)
header_of-append (a ∷ b ∷ c ∷ d ∷ q) ys h = refl

-- Bytes that come later change neither a packet at the front nor a size out of range.
cut-append_frame :
    (q ys : List ℕ) (p : Packet) (q' : List ℕ)
    → cut q ≡ frame p q'
    → cut (q ++ ys) ≡ frame p (q' ++ ys)
unfolding cut front_packet
cut-append_frame q ys p q' e =
    let (is_rest, lo, hi, fits, _) = cut-frame q p q' e in
    let size = p.header.size in
    ground (
      arith,
      e,
      header_of-append q ys (omega arith),
      length-append q ys,
      drop-append_le (header_of q).size q ys,
      drop-append_le header_size q ys (omega arith),
      take-append_le ((header_of q).size - header_size) (drop header_size q) ys,
      length-drop header_size q,
    )

cut-append_bad : (q ys : List ℕ) → cut q ≡ bad → cut (q ++ ys) ≡ bad
unfolding cut
cut-append_bad q ys e = ground (arith, e, header_of-append q ys, length-append q ys)

-- What waits is shorter than a packet.
pub cut-wait_short : (q : List ℕ) → cut q ≡ wait → length q < max_packet_size
unfolding cut
cut-wait_short q e = ground (arith, e)

pub Splits-rest : {q : List ℕ} {ps : List Packet} (r : List ℕ) → Splits q ps (rest r) → cut r ≡ wait
Splits-rest r h = go h refl
  where
    go : {q : List ℕ} {ps : List Packet} {t : Tail} → Splits q ps t → t ≡ rest r → cut r ≡ wait
    go (waits q e) same = let there : q ≡ r = cc in rw (← there) e
    go (breaks q e) same = absurd (cc)
    go (takes q p q' e h) same = go h same

-- The packets of a joined stream: those of its first part, then those of what waits with the second.
pub Splits-append :
    {xs : List ℕ} {ps qs : List Packet} {t u : Tail} (ys r : List ℕ)
    → Splits xs ps t
    → t ≡ rest r
    → Splits (r ++ ys) qs u
    → Splits (xs ++ ys) (ps ++ qs) u
Splits-append {qs = qs} {u = u} ys r (waits q e) same h =
    let there : r ≡ q = cc in subst (λ k. Splits (k ++ ys) qs u) there h
Splits-append ys r (breaks q e) same h = absurd (cc)
Splits-append ys r (takes q p q' e k) same h =
    takes (q ++ ys) p (q' ++ ys) (cut-append_frame q ys p q' e) (Splits-append ys r k same h)

pub Splits-append_broken :
    {xs : List ℕ} {ps : List Packet} {t : Tail} (ys : List ℕ)
    → Splits xs ps t
    → t ≡ broken
    → Splits (xs ++ ys) ps broken
Splits-append_broken ys (waits q e) same = absurd (cc)
Splits-append_broken ys (breaks q e) same = breaks (q ++ ys) (cut-append_bad q ys e)
Splits-append_broken ys (takes q p q' e k) same =
    takes (q ++ ys) p (q' ++ ys) (cut-append_frame q ys p q' e) (Splits-append_broken ys k same)
