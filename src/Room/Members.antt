-- ===== src/Room/Members.antt =====
-- Members and their rooms: a room lists a player exactly where the player's pointer says so.
use iocp_game_chat_server.Prelude.{
  ℕ, suc, ◌+◌, ◌-◌, ◌≡◌, refl, Option, none, some, List, [], ◌∷◌, ◌++◌, arith, ◌==◌, if◌then◌else◌,
  ltb,
}
use iocp_game_chat_server.State.{World, Game, player, room}
use iocp_game_chat_server.Room.{has_player, erase_player, join, leave}

abbrev pub occurrences : ℕ → List ℕ → ℕ
occurrences p [] = 0
occurrences p (q ∷ qs) = if q == p then suc (occurrences p qs) else occurrences p qs

occurrences-append :
    (p q : ℕ) (ps : List ℕ)
    → occurrences p (ps ++ (q ∷ [])) ≡ occurrences p ps + (if q == p then 1 else 0)
occurrences-append p q [] = ground arith
occurrences-append p q (r ∷ ps) = ground (arith, occurrences-append p q ps)

pub has_player-occurrences : (p : ℕ) (ps : List ℕ) → has_player p ps ≡ ltb 0 (occurrences p ps)
has_player-occurrences p [] = refl
has_player-occurrences p (q ∷ ps) = ground (arith, has_player-occurrences p ps)

occurrences-erase :
    (p q : ℕ) (ps : List ℕ)
    → occurrences q (erase_player p ps)
      ≡ (if q == p then occurrences q ps - 1 else occurrences q ps)
occurrences-erase p q [] = ground arith
occurrences-erase p q (r ∷ ps) =
    ground (arith, occurrences-erase p q ps, has_player-occurrences p ps)

-- How often a room should list a player whose pointer is `o`.
abbrev pub seat : Option ℕ → ℕ → ℕ
seat none r = 0
seat (some q) r = if q == r then 1 else 0

-- Each room lists each player once if the player's `room` points at it, and not at all if not.
abbrev pub Linked : Game → Type 0
Linked g = (p r : ℕ) → occurrences p (g.room_at r).players ≡ seat (g.player_at p).room r

pub join-Linked :
    (r p : ℕ) (w : World) → Linked w.game → (player w p).room ≡ none → Linked (join r p w).game
unfolding join
join-Linked r p w h alone q t = ground (
  arith,
  alone,
  h q t,
  h p r,
  h q r,
  has_player-occurrences p (room w r).players,
  occurrences-append q p (room w r).players,
)

pub leave-Linked : (r p : ℕ) (w : World) → Linked w.game → Linked (leave r p w).game
unfolding leave
leave-Linked r p w h q t = ground (
  arith,
  h q t,
  h p r,
  h p t,
  h q r,
  has_player-occurrences p (room w r).players,
  occurrences-erase p q (room w r).players,
)
