-- ===== src/Game/Wired.antt =====
-- The pointers of the game: players and rooms point at each other consistently, and at objects that
-- have been made.

use iocp_game_chat_server.Prelude.{
  ℕ, ◌≤◌, ◌<◌, ◌≡◌, refl, ◌∙◌, true, none, some, inl, inr, arith, Option-cases,
}
use iocp_game_chat_server.State.{World, Game, Player, Room, player, room, put_player, put_room}
use iocp_game_chat_server.Room.{has_player, join, leave, fresh_room, fresh_player}
use iocp_game_chat_server.Room.Members.{
  Linked, seat, has_player-occurrences, join-Linked, leave-Linked,
}
use iocp_game_chat_server.Server.{
  initial_game, find, create_room, get_or_create_room, find_room, get_player, leave_room,
  enter_room, on_session_connected, remove_player,
}
use iocp_game_chat_server.Game.Maps.{
  ValuesBelow, find-ValuesBelow, ValuesBelow-mono, emplace-ValuesBelow, erase-ValuesBelow,
}

pub record Wired (g : Game) : Type 0 where
  -- rooms list players exactly where the players' pointers say so
  pub linked : Linked g
  -- an address not yet given out is in no room, and is no one's room
  pub unseated : (p : ℕ) → g.next_address ≤ p → (g.player_at p).room ≡ none
  pub unlisted : (p r : ℕ) → g.next_address ≤ r → seat (g.player_at p).room r ≡ 0
  pub players_made : ValuesBelow g.next_address g.players
  pub rooms_made : ValuesBelow g.next_address g.rooms

-- The game as it is constructed.
pub initial_game-Wired : Wired initial_game
unfolding initial_game fresh_room
initial_game-Wired = record {
  linked = λ p r. ground arith;
  unseated = λ p n. refl;
  unlisted = λ p r n. refl;
  players_made = tt;
  rooms_made = (omega arith, tt);
}

-- A change of a player that keeps the room.
pub put_player-Wired :
    (p : ℕ) (x : Player) (w : World)
    → x.room ≡ (player w p).room
    → Wired w.game
    → Wired (put_player w p x).game
put_player-Wired p x w e h = record {
  linked = λ q r. ground (arith, e, h.linked q r, h.linked p r);
  unseated = λ q n. ground (arith, e, h.unseated q n);
  unlisted = λ q r n. ground (arith, e, h.unlisted q r n, h.unlisted p r n);
  players_made = h.players_made;
  rooms_made = h.rooms_made;
}

-- A change of a room that keeps its players.
pub put_room-Wired :
    (r : ℕ) (x : Room) (w : World)
    → x.players ≡ (room w r).players
    → Wired w.game
    → Wired (put_room w r x).game
put_room-Wired r x w e h = record {
  linked = λ q t. ground (arith, e, h.linked q t, h.linked q r);
  unseated = h.unseated;
  unlisted = h.unlisted;
  players_made = h.players_made;
  rooms_made = h.rooms_made;
}

pub leave-Wired : (r p : ℕ) (w : World) → Wired w.game → Wired (leave r p w).game
unfolding leave
leave-Wired r p w h = record {
  linked = unfold leave in leave-Linked r p w h.linked;
  unseated = λ q n. ground (arith, h.unseated q);
  unlisted = λ q t n. ground (arith, h.unlisted q t);
  players_made = ground (arith, h.players_made);
  rooms_made = ground (arith, h.rooms_made);
}

pub join-Wired :
    (r p : ℕ) (w : World)
    → Wired w.game
    → (player w p).room ≡ none
    → p < w.game.next_address
    → r < w.game.next_address
    → Wired (join r p w).game
unfolding join
join-Wired r p w h alone hp hr = record {
  linked = unfold join in join-Linked r p w h.linked alone;
  unseated = λ q n. ground (arith, h.unseated q);
  unlisted = λ q t n. ground (arith, h.unlisted q t);
  players_made = ground (arith, h.players_made);
  rooms_made = ground (arith, h.rooms_made);
}

-- A new room is empty and no one's, at an address of its own.
pub create_room-Wired :
    (id capacity : ℕ) (w : World)
    → Wired w.game
    → let (w', a) = create_room id capacity w in
      Wired w'.game × (a < w'.game.next_address) × (w.game.next_address ≤ w'.game.next_address)
unfolding create_room fresh_room
create_room-Wired id capacity w h = (
  record {
    linked = λ q t. ground (arith, h.linked q t, h.unlisted q w.game.next_address (omega arith));
    unseated = λ q n. h.unseated q (omega arith);
    unlisted = λ q t n. h.unlisted q t (omega arith);
    players_made = ValuesBelow-mono _ _ w.game.players (omega arith) h.players_made;
    rooms_made = emplace-ValuesBelow id w.game.next_address w.game.rooms h.rooms_made;
  },
  omega arith,
  omega arith,
)

get_or_create_room-Wired :
    (id : ℕ) (w : World)
    → Wired w.game
    → let (w', a) = get_or_create_room id w in
      Wired w'.game × (a < w'.game.next_address) × (w.game.next_address ≤ w'.game.next_address)
unfolding get_or_create_room find_room
get_or_create_room-Wired id w h = elim (Option-cases (find id w.game.rooms)) [
  | inl e ↦ rw (e, get_or_create_room) (create_room-Wired id 0 w h)
  | inr (r, e) ↦
      rw (e, get_or_create_room)
        (h, find-ValuesBelow id w.game.next_address w.game.rooms r h.rooms_made e, omega arith)
]

-- A player who leaves is in no room, and nothing is made or forgotten.
pub leave_room-Wired :
    (p : ℕ) (w : World)
    → Wired w.game
    → Wired (leave_room p w).game
      × ((player (leave_room p w) p).room ≡ none)
      × ((leave_room p w).game.next_address ≡ w.game.next_address)
unfolding leave_room
leave_room-Wired p w h = elim (Option-cases (player w p).room) [
  | inl e ↦ rw (e, leave_room) (h, e, refl)
  | inr (r, e) ↦
      let listed : has_player p (room w r).players ≡ true =
        ground (arith, h.linked p r, e, has_player-occurrences p (room w r).players) in
      rw (e, leave_room)
        (
          leave-Wired r p w h,
          unfold leave in ground (arith, listed),
          unfold leave in ground (arith, listed),
        )
]

room-get_or_create_room :
    (p id : ℕ) (w : World) → (player (get_or_create_room id w).0 p).room ≡ (player w p).room
unfolding get_or_create_room create_room
room-get_or_create_room p id w = ground arith

-- `EnterRoom` keeps the pointers consistent, whatever room the player was in.
pub enter_room-Wired :
    (p id : ℕ) (w : World) → Wired w.game → p < w.game.next_address → Wired (enter_room p id w).game
unfolding enter_room
enter_room-Wired p id w h hp =
    let (h₁, alone, same) = leave_room-Wired p w h in
    let w₁ = leave_room p w in
    let (h₂, made, grows) = get_or_create_room-Wired id w₁ h₁ in
    join-Wired (get_or_create_room id w₁).1 p (get_or_create_room id w₁).0 h₂
      (room-get_or_create_room p id w₁ ∙ alone) (omega (arith, same)) made

-- A connection makes a player who is in no room.
pub on_session_connected-Wired :
    (s : ℕ) (w : World) → Wired w.game → Wired (on_session_connected s w).game
unfolding on_session_connected fresh_player
on_session_connected-Wired s w h = record {
  linked = λ q t. ground (arith, h.linked q t, h.unseated q);
  unseated = λ q n. ground (arith, h.unseated q (omega arith));
  unlisted = λ q t n. ground (arith, h.unlisted q t (omega arith));
  players_made = emplace-ValuesBelow s w.game.next_address w.game.players h.players_made;
  rooms_made = ValuesBelow-mono _ _ w.game.rooms (omega arith) h.rooms_made;
}

pub remove_player-Wired : (s p : ℕ) (w : World) → Wired w.game → Wired (remove_player s p w).game
unfolding remove_player
remove_player-Wired s p w h = record {
  linked = h.linked;
  unseated = h.unseated;
  unlisted = h.unlisted;
  players_made = erase-ValuesBelow s w.game.next_address w.game.players h.players_made;
  rooms_made = h.rooms_made;
}

pub get_player-made :
    (s p : ℕ) (w : World) → Wired w.game → get_player s w ≡ some p → p < w.game.next_address
unfolding get_player
get_player-made s p w h e = find-ValuesBelow s w.game.next_address w.game.players p h.players_made e

pub find_room-made :
    (id r : ℕ) (w : World) → Wired w.game → find_room id w ≡ some r → r < w.game.next_address
unfolding find_room
find_room-made id r w h e = find-ValuesBelow id w.game.next_address w.game.rooms r h.rooms_made e
