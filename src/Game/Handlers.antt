-- ===== src/Game/Handlers.antt =====
-- Every handler of the game thread keeps the pointers of the game consistent.
use mathlib.Core.List.{Perm}
use iocp_game_chat_server.Prelude.{
  ℕ, ◌+◌, ◌≤◌, ◌<◌, ◌≡◌, refl, false, not, Option, none, some, inl, inr, List, [], ◌∷◌, arith, ◌==◌,
  ltb, if◌then◌else◌, Bool-cases, Option-cases, length, take, u32,
}
use iocp_game_chat_server.Packet.{Packet}
use iocp_game_chat_server.State.{World, in_room, player, room, put_player, put_room}
use iocp_game_chat_server.Room.{join}
use iocp_game_chat_server.Server.{
  get_player, handle_login, handle_enter_room, handle_chat, on_chat, leave_room, create_room,
  find_room, body_size,
}
use iocp_game_chat_server.Wire.{read_u32}
use iocp_game_chat_server.Lobby.{
  game_room_capacity, current_tick, send_error, refuse_hello, accept_hello, ensure_name, welcome,
  handle_hello, first_open, next_game_room, acquire_game_room, take_seat, join_found,
  handle_join_room,
}
use iocp_game_chat_server.Game.Quiet.{
  game-send_packet, game-broadcast_chat, game-send_error, game-refuse_hello,
  game-broadcast_room_state,
}
use iocp_game_chat_server.Game.Wired.{
  Wired, put_player-Wired, put_room-Wired, join-Wired, create_room-Wired, leave_room-Wired,
  enter_room-Wired, get_player-made, find_room-made,
}
use iocp_game_chat_server.Game.Maps.{ValuesBelow, ValuesBelow-Perm}

abbrev pub WiredWorld : World → Type 0
WiredWorld w = Wired w.game

-- Sending and closing do not matter.
pub same-Wired : (w w' : World) → w'.game ≡ w.game → WiredWorld w → WiredWorld w'
same-Wired w w' e h = rw e h

pub handle_login-Wired :
    (s : ℕ) (pkt : Packet) (w : World) → WiredWorld w → WiredWorld (handle_login s pkt w)
unfolding handle_login
handle_login-Wired s pkt w h = elim (Bool-cases (body_size pkt == 0)) [
  | inl e ↦ rw e h
  | inr e ↦ rw e (elim (Option-cases (get_player s w)) [
    | inl none_there ↦ rw none_there h
    | inr (p, there) ↦ rw there (put_player-Wired p _ w refl h)
  ])
]

pub handle_enter_room-Wired :
    (s : ℕ) (pkt : Packet) (w : World) → WiredWorld w → WiredWorld (handle_enter_room s pkt w)
unfolding handle_enter_room
handle_enter_room-Wired s pkt w h = elim (Option-cases (get_player s w)) [
  | inl e ↦ rw (e, handle_enter_room) h
  | inr (p, e) ↦
      let entered = λ (id : ℕ). enter_room-Wired p id w h (get_player-made s p w h e) in
      ground (arith, e, h, entered (read_u32 pkt.body 0))
]

game-handle_chat : (p : ℕ) (pkt : Packet) (w : World) → (handle_chat p pkt w).game ≡ w.game
unfolding handle_chat
game-handle_chat p pkt w = elim (Option-cases (player w p).room) [
  | inl e ↦ ground (arith, e)
  | inr (r, e) ↦ ground (arith, e, game-broadcast_chat r p (take (body_size pkt) pkt.body) w)
]

pub game-on_chat : (s : ℕ) (pkt : Packet) (w : World) → (on_chat s pkt w).game ≡ w.game
unfolding on_chat
game-on_chat s pkt w = elim (Option-cases (get_player s w)) [
  | inl e ↦ rw (e, on_chat)
  | inr (p, e) ↦ rw (e, on_chat) (game-handle_chat p pkt w)
]

pub on_chat-Wired : (s : ℕ) (pkt : Packet) (w : World) → WiredWorld w → WiredWorld (on_chat s pkt w)
on_chat-Wired s pkt w h = rw (game-on_chat s pkt w) h

pub game-welcome : (s p : ℕ) (w : World) → (welcome s p w).game ≡ w.game
unfolding welcome current_tick
game-welcome s p w = game-send_packet s _ _ _ _

accept_hello-Wired : (s p : ℕ) (w : World) → WiredWorld w → WiredWorld (accept_hello s p w)
unfolding accept_hello ensure_name
accept_hello-Wired s p w h =
    let w₁ = ensure_name p w in
    put_player-Wired p _ (welcome s p w₁) refl
      (rw (game-welcome s p w₁) (put_player-Wired p _ w refl h))

pub handle_hello-Wired :
    (s : ℕ) (pkt : Packet) (w : World) → WiredWorld w → WiredWorld (handle_hello s pkt w)
unfolding handle_hello
handle_hello-Wired s pkt w h = elim (Option-cases (get_player s w)) [
  | inl e ↦ rw (e, handle_hello) h
  | inr (p, e) ↦ ground (
    arith,
    e,
    accept_hello-Wired s p w h,
    same-Wired w (refuse_hello s 2 w) (game-refuse_hello s 2 w) h,
    same-Wired w (refuse_hello s 1 w) (game-refuse_hello s 1 w) h,
  )
]

first_open-made :
    (n : ℕ) (es : List (ℕ × ℕ)) (w : World) (r : ℕ)
    → ValuesBelow n es
    → first_open es w ≡ some r
    → r < n
unfolding first_open
first_open-made n [] w r b e = absurd (cc)
first_open-made n ((id, t) ∷ es) w r b e = ground (arith, first_open-made n es w r b.1)

-- The room that is found is one that has been made; players stay where they are.
record Acquired (w : World) (out : World × Option ℕ) : Type 0 where
  wired : WiredWorld out.0
  made : (r : ℕ) → out.1 ≡ some r → r < out.0.game.next_address
  grows : w.game.next_address ≤ out.0.game.next_address

Acquired-same :
    (w : World) (r : ℕ) → WiredWorld w → r < w.game.next_address → Acquired w (w, some r)
Acquired-same w r h lt = record { wired = h; made = λ q e. ground (arith, lt); grows = omega arith }

Acquired-create :
    (id capacity : ℕ) (w : World)
    → WiredWorld w
    → let (w', a) = create_room id capacity w in Acquired w (w', some a)
Acquired-create id capacity w h =
    let (h', made, grows) = create_room-Wired id capacity w h in
    record { wired = h'; made = λ q e. ground (arith, made); grows = grows }

next_game_room-Acquired :
    (w : World) → WiredWorld w → let (w', a) = next_game_room w in Acquired w (w', some a)
unfolding next_game_room
next_game_room-Acquired w h =
    let w₀ = record w {
      game = record (w.game) { next_game_room_id = u32 (w.game.next_game_room_id + 1) };
    } in
    let h₀ : WiredWorld w₀ = record {
      linked = h.linked;
      unseated = h.unseated;
      unlisted = h.unlisted;
      players_made = h.players_made;
      rooms_made = h.rooms_made;
    } in
    let a = Acquired-create w.game.next_game_room_id game_room_capacity w₀ h₀ in
    record { wired = a.wired; made = a.made; grows = a.grows }

-- A room that a number names.
Acquired-named :
    (r : ℕ) (w : World)
    → WiredWorld w
    → r < w.game.next_address
    → Acquired w (
        if not ((room w r).capacity == 0)
        then (w, some r)
        else if ltb 0 (length (room w r).players)
        then (w, none)
        else (put_room w r (record (room w r) { capacity = game_room_capacity }), some r))
Acquired-named r w h lt = elim (Bool-cases ((room w r).capacity == 0)) [
  | inr game ↦ rw game (Acquired-same w r h lt)
  | inl chat_room ↦ rw chat_room (elim (Bool-cases (ltb 0 (length (room w r).players))) [
    | inl busy ↦ rw busy (record { wired = h; made = λ q e. absurd (cc); grows = omega arith })
    | inr empty ↦ rw empty (record {
      wired = put_room-Wired r (record (room w r) { capacity = game_room_capacity }) w refl h;
      made = λ q e. ground (arith, lt);
      grows = omega arith;
    })
  ])
]

acquire_game_room-Acquired :
    (id : ℕ) (w : World)
    → WiredWorld w
    → Perm (w.visit w.game.rooms) w.game.rooms
    → Acquired w (acquire_game_room id w)
unfolding acquire_game_room
acquire_game_room-Acquired id w h any_order = elim (Bool-cases (id == 0)) [
  | inl any ↦ rw any (elim (Option-cases (first_open (w.visit w.game.rooms) w)) [
    | inl e ↦ rw e (next_game_room-Acquired w h)
    | inr (r, e) ↦
        let below = ValuesBelow-Perm w.game.next_address _ _ any_order h.rooms_made in
        rw e (Acquired-same w r h (first_open-made w.game.next_address _ w r below e))
  ])
  | inr named ↦ rw named (elim (Option-cases (find_room id w)) [
    | inl e ↦ rw e (Acquired-create id game_room_capacity w h)
    | inr (r, e) ↦ rw e (Acquired-named r w h (find_room-made id r w h e))
  ])
]

take_seat-Wired :
    (p r : ℕ) (w : World)
    → WiredWorld w
    → p < w.game.next_address
    → r < w.game.next_address
    → WiredWorld (take_seat p r w)
unfolding take_seat
take_seat-Wired p r w h hp hr =
    let (h₁, alone, same) = leave_room-Wired p w h in
    let w₁ = leave_room p w in
    let w₁' = put_player w₁ p (record (player w₁ p) { ready = false }) in
    let alone' : (player w₁' p).room ≡ none = ground (arith, alone) in
    let w₂ = join r p w₁' in
    let h₂ : WiredWorld w₂ =
      join-Wired r p w₁' (put_player-Wired p _ w₁ refl h₁) alone' (omega (arith, same))
        (omega (arith, same)) in
    let w₃ = put_player w₂ p (record (player w₂ p) { state = in_room }) in
    rw (game-broadcast_room_state r w₃) (put_player-Wired p _ w₂ refl h₂)

join_found-Wired :
    (s p : ℕ) (w : World) (out : World × Option ℕ)
    → p < w.game.next_address
    → Acquired w out
    → WiredWorld (join_found s p out)
unfolding join_found
join_found-Wired s p w (w', none) hp a = rw (game-send_error s 20 4 w') a.wired
join_found-Wired s p w (w', some r) hp a = ground (
  arith,
  same-Wired w' (send_error s 20 6 w') (game-send_error s 20 6 w') a.wired,
  same-Wired w' (send_error s 20 5 w') (game-send_error s 20 5 w') a.wired,
  take_seat-Wired p r w' a.wired (omega (arith, a.grows)) (a.made r refl),
)

pub handle_join_room-Wired :
    (s : ℕ) (pkt : Packet) (w : World)
    → WiredWorld w
    → Perm (w.visit w.game.rooms) w.game.rooms
    → WiredWorld (handle_join_room s pkt w)
unfolding handle_join_room
handle_join_room-Wired s pkt w h any_order = elim (Option-cases (get_player s w)) [
  | inl e ↦ rw (e, handle_join_room) h
  | inr (p, e) ↦
      let made = get_player-made s p w h e in
      let id = read_u32 pkt.body 0 in
      ground (
        arith,
        e,
        same-Wired w (send_error s 20 2 w) (game-send_error s 20 2 w) h,
        same-Wired w (send_error s 20 4 w) (game-send_error s 20 4 w) h,
        join_found-Wired s p w (acquire_game_room id w) made
            (acquire_game_room-Acquired id w h any_order),
      )
]
