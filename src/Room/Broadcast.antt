-- ===== src/Room/Broadcast.antt =====
-- Who gets a chat message, and what they get.
use iocp_game_chat_server.Prelude.{
  ℕ, ◌+◌, ◌≤◌, ◌≡◌, sym, ap, ◌∙◌, true, false, none, some, List, [], ◌∷◌, ◌++◌, arith, ◌==◌,
  if◌then◌else◌, length, u16,
}
use iocp_game_chat_server.Packet.{max_packet_size, header_size}
use iocp_game_chat_server.State.{World, Game, player, is_connected, is_shutting_down}
use iocp_game_chat_server.Wire.{chat_body}
use iocp_game_chat_server.Session.{send_packet, post_send, packet_bytes}
use iocp_game_chat_server.Session.Sending.{packet_bytes-IsFramed}
use iocp_game_chat_server.Game.Quiet.{game-send_packet}

-- The server runs, and the kernel takes every operation.
pub record Open (w : World) : Type 0 where
  pub up : is_shutting_down w ≡ false
  pub accepting : (n : ℕ) → w.accepts n ≡ true

abbrev pub AllConnected : World → List ℕ → Type 0
AllConnected w [] = Unit {0}
AllConnected w (q ∷ qs) =
    ((s : ℕ) → (player w q).session ≡ some s → is_connected (w.sessions s).state ≡ true)
    × AllConnected w qs

-- What a send leaves behind, for the next one.
pub record Sent (w w' : World) (out : List (ℕ × List ℕ)) : Type 0 where
  pub healthy : Open w'
  pub game : w'.game ≡ w.game
  pub states : (j : ℕ) → (w'.sessions j).state ≡ (w.sessions j).state
  pub sent : w'.sent ≡ w.sent ++ out

abbrev pub chat_packet : ℕ → List ℕ → List ℕ → List ℕ
chat_packet id name msg =
    packet_bytes 3 (chat_body id name msg) (u16 (4 + 2 + length name + 2 + length msg))

pub send_packet-Sent :
    (s id size : ℕ) (body : List ℕ) (w : World)
    → Open w
    → is_connected (w.sessions s).state ≡ true
    → header_size + size ≤ max_packet_size
    → size ≤ length body
    → Sent w (send_packet s id (some body) size w) ((s, packet_bytes id body size) ∷ [])
unfolding send_packet post_send
send_packet-Sent s id size body w o con small behind =
    let yes_now = o.accepting w.io_calls in
    let up = o.up in
    let f = packet_bytes-IsFramed id body size behind small in
    record {
      healthy = record {
        up = ground (arith, yes_now, con, up, small, f.enough, f.within);
        accepting = λ n. ground (arith, yes_now, con, up, small, f.enough, f.within, o.accepting n);
      };
      game = game-send_packet s id (some body) size w;
      states = λ j. ground (arith, yes_now, con, up, small, f.enough, f.within);
      sent = ground (arith, yes_now, con, up, small, f.enough, f.within);
    }

-- The sessions that a message goes to, with the packet.
abbrev pub others : Game → ℕ → List ℕ → List ℕ → List (ℕ × List ℕ)
others g sender pkt [] = []
others g sender pkt (q ∷ qs) =
    let rest = others g sender pkt qs in
    if q == sender
    then rest
    else elim (g.player_at q).session [ none ↦ rest | some s ↦ (s, pkt) ∷ rest ]

pub AllConnected-Sent :
    (w w' : World) (out : List (ℕ × List ℕ)) (ps : List ℕ)
    → Sent w w' out
    → AllConnected w ps
    → AllConnected w' ps
AllConnected-Sent w w' out [] x a = tt
AllConnected-Sent w w' out (q ∷ qs) x (one, a) = (
  λ s e.
      ap is_connected (x.states s)
      ∙ one s (ap (λ (g : Game). (g.player_at q).session) (sym x.game) ∙ e),
  AllConnected-Sent w w' out qs x a,
)
