-- ===== src/Match/Start.antt =====
-- When a match starts, and what the start announces.
use iocp_game_chat_server.Prelude.{
  ℕ, ◌+◌, ◌≡◌, ◌≢◌, ◌↔◌, refl, ap, ◌∙◌, true, false, Option, none, some, List, [], ◌∷◌, arith,
  length, u32,
}
use iocp_game_chat_server.State.{World, Game, Room, in_game, player, room, put_player, put_room}
use iocp_game_chat_server.Wire.{writer_size}
use iocp_game_chat_server.Lobby.{send_buffer}
use iocp_game_chat_server.Match.{announce, start_game, try_start_game, game_start_body, all_ready}
use iocp_game_chat_server.Game.Quiet.{game-send_packet}

-- Every member of a list has the ready flag set.
abbrev pub AllReady : World → List ℕ → Type 0
AllReady w [] = Unit {0}
AllReady w (p ∷ ps) = ((player w p).ready ≡ true) × AllReady w ps

all_ready-AllReady : (w : World) (ps : List ℕ) → (all_ready w ps ≡ true) ↔ AllReady w ps
unfolding all_ready
all_ready-AllReady w [] = (λ e. tt, λ a. refl)
all_ready-AllReady w (p ∷ ps) = (
  λ e. ground (arith, e, (all_ready-AllReady w ps).0),
  λ a. ground (arith, a, (all_ready-AllReady w ps).1 a.1),
)

-- What the rules ask before a match: a game room, not started, full, everybody ready.
pub record MayStart (w : World) (r : ℕ) : Type 0 where
  pub waiting : (room w r).game_started ≡ false
  pub game : (room w r).capacity ≢ 0
  pub full : length (room w r).players ≡ (room w r).capacity
  pub ready : AllReady w (room w r).players

abbrev pub AllInGame : World → List ℕ → Type 0
AllInGame w [] = Unit {0}
AllInGame w (p ∷ ps) = ((player w p).state ≡ in_game) × AllInGame w ps

-- A member of the list stays in the game, and so does a player who is there already.
told : List ℕ → World → Option ℕ → World
told body w o = elim o [ none ↦ w | some s ↦ send_buffer s 30 body w ]

game-told : (body : List ℕ) (w : World) (o : Option ℕ) → (told body w o).game ≡ w.game
unfolding told
game-told body w none = refl
game-told body w (some s) = game-send_packet s 30 (some body) (writer_size body) w

announce-in_game :
    (q : ℕ) (ps body : List ℕ) (w : World)
    → (player w q).state ≡ in_game
    → (player (announce ps body w) q).state ≡ in_game
unfolding announce told
announce-in_game q [] body w e = e
announce-in_game q (p ∷ ps) body w e =
    let w' = put_player w p (record (player w p) { state = in_game }) in
    announce-in_game q ps body (told body w' (player w p).session)
      (rw (game-told body w' (player w p).session, player) (ground (arith, e)))

announce-AllInGame : (ps body : List ℕ) (w : World) → AllInGame (announce ps body w) ps
unfolding announce told
announce-AllInGame [] body w = tt
announce-AllInGame (p ∷ ps) body w =
    let w' = put_player w p (record (player w p) { state = in_game }) in
    (
      announce-in_game p ps body (told body w' (player w p).session)
          (rw (game-told body w' (player w p).session, player) (ground arith)),
      announce-AllInGame ps body (told body w' (player w p).session),
    )

room-announce : (r : ℕ) (ps body : List ℕ) (w : World) → room (announce ps body w) r ≡ room w r
unfolding announce told
room-announce r [] body w = refl
room-announce r (p ∷ ps) body w =
    let w' = put_player w p (record (player w p) { state = in_game }) in
    room-announce r ps body (told body w' (player w p).session)
    ∙ ap (λ (g : Game). g.room_at r) (game-told body w' (player w p).session)

-- Behind the checks, the room is marked and its members are in the game.
start_game-room :
    (r : ℕ) (w : World)
    → ((room (start_game r w) r).game_started ≡ true)
      × AllInGame (start_game r w) (room w r).players
unfolding start_game
start_game-room r w =
    let w₁ = record w {
      game = record (w.game) { next_match_id = u32 (w.game.next_match_id + 1) };
    } in
    let w₂ = put_room w₁ r (record (room w₁ r) { game_started = true }) in
    let body = game_start_body w.game.next_match_id (room w r).players w in
    (
      ap (λ (x : Room). x.game_started) (room-announce r (room w r).players body w₂)
          ∙ ground (arith),
      announce-AllInGame (room w r).players body w₂,
    )

try_start_game-allowed : (r : ℕ) (w : World) → MayStart w r → try_start_game r w ≡ start_game r w
unfolding try_start_game
try_start_game-allowed r w m =
    let flags = (all_ready-AllReady w (room w r).players).1 m.ready in
    ground (arith, m.waiting, m.game, m.full, flags)

-- A match starts where the rules ask for it: then the room is marked as started and every member of
-- the room is in the game.
pub try_start_game-started :
    (r : ℕ) (w : World)
    → MayStart w r
    → ((room (try_start_game r w) r).game_started ≡ true)
      × AllInGame (try_start_game r w) (room w r).players
try_start_game-started r w m = rw (try_start_game-allowed r w m) (start_game-room r w)

-- Where the rules do not allow a match, nothing at all changes.
pub try_start_game-refused : (r : ℕ) (w : World) → ¬ MayStart w r → try_start_game r w ≡ w
unfolding try_start_game
try_start_game-refused r w not_allowed =
    let decide : (room w r).game_started ≡ false
        → (room w r).capacity ≢ 0
        → length (room w r).players ≡ (room w r).capacity
        → all_ready w (room w r).players ≡ true
        → ⊥ =
      λ a b c d. not_allowed (record {
        waiting = a;
        game = b;
        full = c;
        ready = (all_ready-AllReady w (room w r).players).0 d;
      }) in
    ground (arith, decide)
