-- ===== src/Lobby/Joining.antt =====
-- The change that `HandleJoinRoom` makes to the player and the room.
use iocp_game_chat_server.Prelude.{
  ℕ, ◌+◌, ◌≡◌, ◌≢◌, refl, sym, ap, ◌∙◌, false, some, inl, inr, List, [], ◌∷◌, ◌++◌, arith, ◌==◌,
  ne→==, ==_self, ==→eq, ==→ne, Bool, Bool-cases, length,
}
use iocp_game_chat_server.State.{
  World, Player, Room, Session, in_room, player, room, put_player, is_connected,
}
use iocp_game_chat_server.Room.{has_player, join}
use iocp_game_chat_server.Room.Broadcast.{Open, AllConnected}
use iocp_game_chat_server.Room.Members.{has_player-occurrences}
use iocp_game_chat_server.Lobby.Roster.{roster_size}
use iocp_game_chat_server.Lobby.Leaving.{Left}

-- The player has the last place of the room, and is in it; all other players stay as they were.
pub record Seated (p r : ℕ) (w w' : World) : Type 0 where
  pub placed : (player w' p).room ≡ some r
  pub entered : (player w' p).state ≡ in_room
  pub not_ready : (player w' p).ready ≡ false
  pub listed : (room w' r).players ≡ (room w r).players ++ (p ∷ [])
  pub others_stay : (q : ℕ) → q ≢ p → player w' q ≡ player w q

-- `take_seat` between the old room and the broadcast
abbrev pub joins_room : ℕ → ℕ → World → World
joins_room p r w =
    let w' = join r p (put_player w p (record (player w p) { ready = false })) in
    put_player w' p (record (player w' p) { state = in_room })

absent : (p r : ℕ) (w w₁ : World) → Left p r w w₁ → has_player p (room w₁ r).players ≡ false
absent p r w w₁ left =
    let counted = has_player-occurrences p (room w₁ r).players in
    let seats = left.linked p r in counted ∙ rw (seats, left.nowhere) refl

pub joins_room-Seated : (p r : ℕ) (w w₁ : World) → Left p r w w₁ → Seated p r w (joins_room p r w₁)
unfolding join
joins_room-Seated p r w w₁ left =
    let out = absent p r w w₁ left in
    let before : (room w₁ r).players ≡ (room w r).players =
      ap (λ (x : Room). x.players) left.room_stays in
    record {
      placed = ground (arith, out, ==_self p);
      entered = ground (arith, out, ==_self p);
      not_ready = ground (arith, out, ==_self p);
      listed =
          let here : (room (joins_room p r w₁) r).players ≡ (room w₁ r).players ++ (p ∷ []) =
            ground (arith, out, ==_self r) in
          here ∙ ap (λ xs. xs ++ (p ∷ [])) before;
      others_stay = λ q other.
          let off = ne→== q p other in
          let here : player (joins_room p r w₁) q ≡ player w₁ q = ground (arith, out, off) in
          here ∙ left.others_stay q other;
    }

-- What the sends after it need.
pub record Ready (w w' : World) : Type 0 where
  pub connections : (q : ℕ) → (player w' q).session ≡ (player w q).session
  pub names : (q : ℕ) → (player w' q).name ≡ (player w q).name
  pub sessions_stay : w'.sessions ≡ w.sessions
  pub sent_stays : w'.sent ≡ w.sent
  pub healthy : Open w → Open w'

-- What no step of the joining touches of a player.
joins_room-player :
    (A : Type 0) (of : Player → A) (p r : ℕ) (w w₁ : World)
    → Left p r w w₁
    → of (player w₁ p) ≡ of (player w p)
    → of (player (joins_room p r w₁) p) ≡ of (player w₁ p)
    → (q : ℕ) → of (player (joins_room p r w₁) q) ≡ of (player w q)
joins_room-player A of p r w w₁ left stays here q = elim (Bool-cases (q == p)) [
  | inl same ↦
      let me = ==→eq q p same in
      ap (λ j. of (player (joins_room p r w₁) j)) me
      ∙ here
      ∙ stays
      ∙ ap (λ j. of (player w j)) (sym me)
  | inr off ↦ ap of ((joins_room-Seated p r w w₁ left).others_stay q (==→ne q p off))
]

pub joins_room-Ready : (p r : ℕ) (w w₁ : World) → Left p r w w₁ → Ready w (joins_room p r w₁)
unfolding join
joins_room-Ready p r w w₁ left =
    let out = absent p r w w₁ left in
    record {
      connections =
          joins_room-player _ (λ x. x.session) p r w w₁ left left.session_stays
            (ground (arith, out, ==_self p));
      names =
          joins_room-player _ (λ x. x.name) p r w w₁ left left.name_stays
            (ground (arith, out, ==_self p));
      sessions_stay =
          let here : (joins_room p r w₁).sessions ≡ w₁.sessions = ground (arith, out) in
          here ∙ left.sessions_stay;
      sent_stays =
          let here : (joins_room p r w₁).sent ≡ w₁.sent = ground (arith, out) in
          here ∙ left.sent_stays;
      healthy = λ o. record {
        up =
            let here : (joins_room p r w₁).server_state ≡ w₁.server_state = ground (arith, out) in
            let state = here ∙ left.state_stays in rw state o.up;
        accepting = λ n.
            let here : (joins_room p r w₁).accepts ≡ w₁.accepts = ground (arith, out) in
            ap (λ (f : ℕ → Bool). f n) (here ∙ left.accepts_stay) ∙ o.accepting n;
      };
    }

-- The size of ROOM_STATE with one player more
pub roster_size-Ready :
    (w w' : World) (p : ℕ) (ps : List ℕ)
    → Ready w w'
    → roster_size w' (ps ++ (p ∷ [])) ≡ roster_size w ps + (7 + length (player w p).name)
roster_size-Ready w w' p [] x = let name = ap length (x.names p) in omega (arith, name)
roster_size-Ready w w' p (q ∷ ps) x =
    let name = ap length (x.names q) in omega (arith, name, roster_size-Ready w w' p ps x)

pub AllConnected-Ready :
    (w w' : World) (ps : List ℕ) → Ready w w' → AllConnected w ps → AllConnected w' ps
AllConnected-Ready w w' [] x a = tt
AllConnected-Ready w w' (q ∷ qs) x (one, a) = (
  λ s e.
      ap (λ (f : ℕ → Session). is_connected (f s).state) x.sessions_stay
      ∙ one s (sym (x.connections q) ∙ e),
  AllConnected-Ready w w' qs x a,
)
