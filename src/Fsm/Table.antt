-- ===== src/Fsm/Table.antt =====
-- What the FSM lets through, stated by itself.
use iocp_game_chat_server.Prelude.{ℕ, ◌≡◌, ◌↔◌, ◌⊎◌, refl, true, some, inl, inr, arith}
use iocp_game_chat_server.Packet.{is_known_packet_id}
use iocp_game_chat_server.State.{PlayerState, no_player, logged_in, in_room, in_game, leaving}
use iocp_game_chat_server.Fsm.{
  Handler, login, enter_room, chat, hello, join_room, ready, get_handler,
}

-- The packets of each state, with what handles them: before login LOGIN and HELLO, then the two ways
-- into a room, then chat, ready and a change of room; nothing in a match or while leaving.
abbrev pub Allows : PlayerState → ℕ → Handler → Type 0
Allows no_player id h = ((id ≡ 1) × (h ≡ login)) ⊎ ((id ≡ 10) × (h ≡ hello))
Allows logged_in id h = ((id ≡ 4) × (h ≡ enter_room)) ⊎ ((id ≡ 20) × (h ≡ join_room))
Allows in_room id h =
    ((id ≡ 2) × (h ≡ chat)) ⊎ (((id ≡ 4) × (h ≡ enter_room)) ⊎ ((id ≡ 22) × (h ≡ ready)))
Allows in_game id h = ⊥
Allows leaving id h = ⊥

-- The table that `InitFSM` fills gives a handler exactly for the packets that each state allows: LOGIN
-- and HELLO before login, ENTER_ROOM and JOIN_ROOM then, CHAT, ENTER_ROOM and READY in a room, and none
-- in a match or while leaving.
pub get_handler-Allows :
    (st : PlayerState) (id : ℕ) (h : Handler) → (get_handler st id ≡ some h) ↔ Allows st id h
unfolding get_handler
get_handler-Allows no_player id h = (λ e. ground arith, λ a. ground arith)
get_handler-Allows logged_in id h = (λ e. ground arith, λ a. ground arith)
get_handler-Allows in_room id h = (λ e. ground arith, λ a. ground arith)
get_handler-Allows in_game id h = (λ e. ground arith, λ a. absurd a)
get_handler-Allows leaving id h = (λ e. ground arith, λ a. absurd a)

known-cases :
    (id : ℕ)
    → is_known_packet_id id ≡ true
    → (id ≡ 1) ⊎ ((id ≡ 2) ⊎ ((id ≡ 4) ⊎ ((id ≡ 10) ⊎ ((id ≡ 20) ⊎ (id ≡ 22)))))
unfolding is_known_packet_id
known-cases id e = ground (arith, e)

Handled : ℕ → Type 0
Handled id = (st : PlayerState) × (h : Handler) × (get_handler st id ≡ some h)

known-Handled : (id : ℕ) → is_known_packet_id id ≡ true → Handled id
unfolding Handled
known-Handled id e = elim (known-cases id e) [
  | inl a ↦ (no_player, login, (get_handler-Allows no_player id login).1 (inl (a, refl)))
  | inr (inl a) ↦ (in_room, chat, (get_handler-Allows in_room id chat).1 (inl (a, refl)))
  | inr (inr (inl a)) ↦
      (logged_in, enter_room, (get_handler-Allows logged_in id enter_room).1 (inl (a, refl)))
  | inr (inr (inr (inl a))) ↦
      (no_player, hello, (get_handler-Allows no_player id hello).1 (inr (a, refl)))
  | inr (inr (inr (inr (inl a)))) ↦
      (logged_in, join_room, (get_handler-Allows logged_in id join_room).1 (inr (a, refl)))
  | inr (inr (inr (inr (inr a)))) ↦
      (in_room, ready, (get_handler-Allows in_room id ready).1 (inr (inr (a, refl))))
]

known_of_Allows :
    (st : PlayerState) (id : ℕ) (h : Handler) → Allows st id h → is_known_packet_id id ≡ true
unfolding is_known_packet_id
known_of_Allows no_player id h a = ground (arith, a)
known_of_Allows logged_in id h a = ground (arith, a)
known_of_Allows in_room id h a = ground (arith, a)
known_of_Allows in_game id h a = absurd a
known_of_Allows leaving id h a = absurd a

-- The two filters agree: `IsKnownPacketId` passes an id exactly if the table has a handler for it in
-- some state.
pub known-iff-handled :
    (id : ℕ)
    → (is_known_packet_id id ≡ true)
      ↔ ((st : PlayerState) × (h : Handler) × (get_handler st id ≡ some h))
unfolding Handled
known-iff-handled id = (
  known-Handled id,
  λ out. known_of_Allows out.0 id out.1 ((get_handler-Allows out.0 id out.1).0 out.2),
)
