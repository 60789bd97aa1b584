-- ===== src/Game/Live.antt =====
-- The map of players never leads to a player that was deleted.
use iocp_game_chat_server.Prelude.{
  ℕ, ◌+◌, ◌≤◌, ◌<◌, ◌≡◌, ◌≢◌, refl, sym, subst, ◌∙◌, true, false, Bool, Option, some, inl, inr,
  List, [], ◌∷◌, ◌++◌, arith, ◌==◌, ne→==, Bool-cases, Option-cases,
}
use iocp_game_chat_server.Packet.{Packet}
use iocp_game_chat_server.State.{World, Game, GameJobType, player, put_player, in_room, update}
use iocp_game_chat_server.Room.{join, leave}
use iocp_game_chat_server.Server.{
  find, erase, emplace, get_player, find_room, create_room, get_or_create_room, enter_room,
  leave_room, on_session_connected, remove_player,
}
use iocp_game_chat_server.Lobby.{take_seat}
use iocp_game_chat_server.Dispatch.{run_job}
use iocp_game_chat_server.Game.Quiet.{game-broadcast_room_state}
use iocp_game_chat_server.Game.Plays.{Plays}
use iocp_game_chat_server.Game.Plays.Jobs.{run_job-plays}

-- The player is in no entry.
abbrev Unlisted : ℕ → List (ℕ × ℕ) → Type 0
Unlisted p [] = Unit {0}
Unlisted p ((s, q) ∷ m) = (q ≢ p) × Unlisted p m

-- The players of the entries are all different, made and not deleted.
abbrev pub LiveEntries : ℕ → (ℕ → Bool) → List (ℕ × ℕ) → Type 0
LiveEntries next deleted [] = Unit {0}
LiveEntries next deleted ((s, q) ∷ m) =
    (q < next) × (deleted q ≡ false) × Unlisted q m × LiveEntries next deleted m

pub record Live (g : Game) : Type 0 where
  pub entries : LiveEntries g.next_address g.deleted g.players
  pub unused : (a : ℕ) → g.next_address ≤ a → g.deleted a ≡ false

-- What a lookup finds is live.
live_found :
    (s p next : ℕ) (deleted : ℕ → Bool) (m : List (ℕ × ℕ))
    → LiveEntries next deleted m
    → find s m ≡ some p
    → (p < next) × (deleted p ≡ false)
live_found s p next deleted [] h e = absurd (cc)
live_found s p next deleted ((k, q) ∷ m) (made, live, once, h) e =
    ground (arith, made, live, e, live_found s p next deleted m h)

Unlisted-erase : (p s : ℕ) (m : List (ℕ × ℕ)) → Unlisted p m → Unlisted p (erase s m)
Unlisted-erase p s [] h = tt
Unlisted-erase p s ((k, q) ∷ m) (one, h) = ground (arith, one, h, Unlisted-erase p s m h)

found_other : (s p q : ℕ) (m : List (ℕ × ℕ)) → Unlisted q m → find s m ≡ some p → q ≢ p
found_other s p q [] out e = absurd (cc)
found_other s p q ((k, v) ∷ m) (other, out) e = elim (Bool-cases (k == s)) [
  | inl here ↦ let same : v ≡ p = ground (arith, e, here) in λ x. other (same ∙ sym x)
  | inr there ↦
      let later : find s m ≡ some p = ground (arith, e, there) in found_other s p q m out later
]

-- Erasing the entry of a player leaves none that holds it, and the others live.
erased_live :
    (s p next : ℕ) (deleted : ℕ → Bool) (m : List (ℕ × ℕ))
    → LiveEntries next deleted m
    → find s m ≡ some p
    → Unlisted p (erase s m) × LiveEntries next deleted (erase s m)
erased_live s p next deleted [] h e = absurd (cc)
erased_live s p next deleted ((k, q) ∷ m) (made, live, once, h) e = elim (Bool-cases (k == s)) [
  | inl here ↦
      let same : q ≡ p = ground (arith, e, here) in rw here (subst (λ x. Unlisted x m) same once, h)
  | inr other ↦
      let later : find s m ≡ some p = ground (arith, e, other) in
      let (out, rest) = erased_live s p next deleted m h later in
      rw other
        ((found_other s p q m once later, out), (made, live, Unlisted-erase q s m once, rest))
]

-- A player that no entry holds is deleted.
LiveEntries-delete :
    (p next : ℕ) (deleted : ℕ → Bool) (m : List (ℕ × ℕ))
    → Unlisted p m
    → LiveEntries next deleted m
    → LiveEntries next (update deleted p true) m
LiveEntries-delete p next deleted [] out h = tt
LiveEntries-delete p next deleted ((k, q) ∷ m) (other, out) (made, live, once, h) =
    (made, rw (ne→== q p other) live, once, LiveEntries-delete p next deleted m out h)

-- A new object's address is above those of the entries.
Unlisted-new :
    (next : ℕ) (deleted : ℕ → Bool) (m : List (ℕ × ℕ))
    → LiveEntries next deleted m
    → Unlisted next m
Unlisted-new next deleted [] h = tt
Unlisted-new next deleted ((k, q) ∷ m) (made, live, once, h) =
    (λ e. absurd (omega arith), Unlisted-new next deleted m h)

LiveEntries-up :
    (next : ℕ) (deleted : ℕ → Bool) (m : List (ℕ × ℕ))
    → LiveEntries next deleted m
    → LiveEntries (next + 1) deleted m
LiveEntries-up next deleted [] h = tt
LiveEntries-up next deleted ((k, q) ∷ m) (made, live, once, h) =
    (omega arith, live, once, LiveEntries-up next deleted m h)

Unlisted-append :
    (q s p : ℕ) (m : List (ℕ × ℕ)) → p ≢ q → Unlisted q m → Unlisted q (m ++ ((s, p) ∷ []))
Unlisted-append q s p [] other h = (other, tt)
Unlisted-append q s p ((k, v) ∷ m) other (one, h) = (one, Unlisted-append q s p m other h)

LiveEntries-append :
    (s next : ℕ) (deleted : ℕ → Bool) (m : List (ℕ × ℕ))
    → deleted next ≡ false
    → LiveEntries next deleted m
    → LiveEntries (next + 1) deleted (m ++ ((s, next) ∷ []))
LiveEntries-append s next deleted [] fresh h = (omega arith, fresh, tt, tt)
LiveEntries-append s next deleted ((k, q) ∷ m) fresh (made, live, once, h) = (
  omega arith,
  live,
  Unlisted-append q s next m (λ e. absurd (omega arith)) once,
  LiveEntries-append s next deleted m fresh h,
)

-- Changes to the objects themselves.
same_maps :
    (g g' : Game)
    → g'.players ≡ g.players
    → g'.deleted ≡ g.deleted
    → g'.next_address ≡ g.next_address
    → Live g
    → Live g'
same_maps g g' e f n h = record {
  entries = rw (e, f, n) h.entries;
  unused = λ a above. rw f (h.unused a (omega (arith, above, n)));
}

leave-Live : (r p : ℕ) (w : World) → Live w.game → Live (leave r p w).game
unfolding leave
leave-Live r p w h = same_maps w.game _ (ground arith) (ground arith) (ground arith) h

join-Live : (r p : ℕ) (w : World) → Live w.game → Live (join r p w).game
unfolding join
join-Live r p w h = same_maps w.game _ (ground arith) (ground arith) (ground arith) h

leave_room-Live : (p : ℕ) (w : World) → Live w.game → Live (leave_room p w).game
unfolding leave_room
leave_room-Live p w h = elim (Option-cases (player w p).room) [
  | inl e ↦ rw (e, leave_room) h
  | inr (r, e) ↦ rw (e, leave_room) (leave-Live r p w h)
]

create_room-Live :
    (id capacity : ℕ) (w : World) → Live w.game → Live (create_room id capacity w).0.game
unfolding create_room
create_room-Live id capacity w h =
    let next = w.game.next_address in
    let up = LiveEntries-up next w.game.deleted w.game.players h.entries in
    let out = Unlisted-new next w.game.deleted w.game.players h.entries in
    elim (Bool-cases (emplace id next w.game.rooms).1) [
      | inl made ↦ rw made (record { entries = up; unused = λ a above. h.unused a (omega arith) })
      | inr twice ↦ rw twice (record {
        entries = LiveEntries-delete next (next + 1) w.game.deleted w.game.players out up;
        unused =
            λ a above. rw (ne→== a next (λ e. absurd (omega arith))) (h.unused a (omega arith));
      })
    ]

on_session_connected-Live : (s : ℕ) (w : World) → Live w.game → Live (on_session_connected s w).game
unfolding on_session_connected
on_session_connected-Live s w h =
    let next = w.game.next_address in
    let fresh = h.unused next (omega arith) in
    elim (Option-cases (find s w.game.players)) [
      | inl new ↦
          rw (on_session_connected, emplace, new)
            (record {
              entries = LiveEntries-append s next w.game.deleted w.game.players fresh h.entries;
              unused = λ a above. h.unused a (omega arith);
            })
      | inr (p, there) ↦
          rw (on_session_connected, emplace, there)
            (record {
              entries = LiveEntries-up next w.game.deleted w.game.players h.entries;
              unused = λ a above. h.unused a (omega arith);
            })
    ]

remove_player-Live :
    (s p : ℕ) (w : World) → get_player s w ≡ some p → Live w.game → Live (remove_player s p w).game
unfolding remove_player get_player
remove_player-Live s p w there h =
    let (made, _) =
      live_found s p w.game.next_address w.game.deleted w.game.players h.entries there in
    let (out, rest) =
      erased_live s p w.game.next_address w.game.deleted w.game.players h.entries there in
    record {
      entries = LiveEntries-delete p w.game.next_address w.game.deleted _ out rest;
      unused = λ a above. rw (ne→== a p (λ e. absurd (omega arith))) (h.unused a above);
    }

get_or_create_room-Live : (id : ℕ) (w : World) → Live w.game → Live (get_or_create_room id w).0.game
unfolding get_or_create_room
get_or_create_room-Live id w h = elim (Option-cases (find_room id w)) [
  | inl e ↦ rw (get_or_create_room, e) (create_room-Live id 0 w h)
  | inr (r, e) ↦ rw (get_or_create_room, e) h
]

enter_room-Live : (p id : ℕ) (w : World) → Live w.game → Live (enter_room p id w).game
unfolding enter_room
enter_room-Live p id w h =
    join-Live _ p _ (get_or_create_room-Live id (leave_room p w) (leave_room-Live p w h))

take_seat-Live : (p r : ℕ) (w : World) → Live w.game → Live (take_seat p r w).game
unfolding take_seat
take_seat-Live p r w h =
    let w₁ = leave_room p w in
    let w₁' = put_player w₁ p (record (player w₁ p) { ready = false }) in
    let w₂ = join r p w₁' in
    let w₃ = put_player w₂ p (record (player w₂ p) { state = in_room }) in
    let h₁ = same_maps w₁.game w₁'.game refl refl refl (leave_room-Live p w h) in
    rw (game-broadcast_room_state r w₃)
      (same_maps w₂.game w₃.game refl refl refl (join-Live r p w₁' h₁))

Live-Plays : Plays Live
Live-Plays = record {
  changes = λ p x w h. same_maps w.game _ refl refl refl h;
  begins = λ r w h. same_maps w.game _ refl refl refl h;
  opens = λ r w nobody h. same_maps w.game _ refl refl refl h;
  makes = create_room-Live;
  leaves = leave-Live;
  counts = λ m n b g h. same_maps g _ refl refl refl h;
  connects = on_session_connected-Live;
  removes = remove_player-Live;
  sits = λ p r w space h. take_seat-Live p r w h;
}

-- What `GetPlayer` gives is live.
pub get_player-Live :
    (s p : ℕ) (w : World) → Live w.game → get_player s w ≡ some p → w.game.deleted p ≡ false
unfolding get_player
get_player-Live s p w h e =
    (live_found s p w.game.next_address w.game.deleted w.game.players h.entries e).1

-- Every job of the game thread keeps the players of the map different, made and not deleted.
pub run_job-Live :
    (t : GameJobType) (session : Option ℕ) (pkt : Packet) (w : World)
    → Live w.game
    → Live (run_job t session pkt w).game
run_job-Live t session pkt w h =
    run_job-plays Live Live-Plays t session pkt w (inr enter_room-Live) h
