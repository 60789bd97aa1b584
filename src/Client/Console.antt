-- ===== src/Client/Console.antt =====
-- client.cpp: the loop of `main`, and the packets that it sends.
pub mod Typed
pub mod Delivered
use iocp_game_chat_server.Prelude.{
  ℕ, zero, suc, Bool, true, false, Option, none, some, List, [], ◌∷◌,
}
use iocp_game_chat_server.Client.{send_login, send_enter_room, send_chat}
use iocp_game_chat_server.Client.Text.{
  Command, nothing, quit, help, clear, unknown, chat, command_of,
}
use iocp_game_chat_server.Client.Sockets.{Winsock, Outgoing, send_all}

-- What the loop shows of a line.
pub data Echo : Type 0 where
  help_text cleared unknown_command send_failed : Echo
  me : List ℕ → Echo

-- A packet that was built, or refused, on its way to `SendAll`.
pub send_built : Winsock → Option (List ℕ) → Outgoing → Option (Bool × Outgoing)
send_built k none o = some (false, o)
send_built k (some packet) o = send_all k packet o

-- `SendLogin` and then `SendEnterRoom`: what they leave in `running`
pub greet : Winsock → List ℕ → ℕ → Outgoing → Option (Bool × Outgoing)
unfolding send_built
greet k nickname room_id o = elim (send_built k (send_login nickname) o) [
  | none ↦ none
  | some (false, o') ↦ some (false, o')
  | some (true, o') ↦ send_built k (send_enter_room room_id) o'
]

-- A line shown before the rest.
abbrev pub echoed : Echo → Option (List Echo × Outgoing) → Option (List Echo × Outgoing)
echoed e none = none
echoed e (some (es, o)) = some (e ∷ es, o)

-- The loop over the lines typed; where these end, `getline` fails. `running` is read before each round;
-- `alive` says what `RecvThread` has left in it.
pub input_loop : Winsock → (ℕ → Bool) → ℕ → List (List ℕ) → Outgoing → Option (List Echo × Outgoing)
unfolding send_built
input_loop k alive n [] o = some ([], o)
input_loop k alive n (line ∷ lines) o = elim (alive n) [
  | false ↦ some ([], o)
  | true ↦ elim (command_of line) [
    | nothing ↦ input_loop k alive (suc n) lines o
    | quit ↦ some ([], o)
    | help ↦ echoed help_text (input_loop k alive (suc n) lines o)
    | clear ↦ echoed cleared (input_loop k alive (suc n) lines o)
    | unknown ↦ echoed unknown_command (input_loop k alive (suc n) lines o)
    | chat msg ↦ elim (send_built k (send_chat msg) o) [
      | none ↦ none
      | some (false, o') ↦ some (send_failed ∷ [], o')
      | some (true, o') ↦ echoed (me msg) (input_loop k alive (suc n) lines o')
    ]
  ]
]

-- `main` from the connection on.
pub run_client :
    Winsock → (ℕ → Bool) → List ℕ → ℕ → List (List ℕ) → Outgoing → Option (List Echo × Outgoing)
unfolding greet input_loop
run_client k alive nickname room_id lines o = elim (greet k nickname room_id o) [
  | none ↦ none
  | some (false, o') ↦ some ([], o')
  | some (true, o') ↦ input_loop k alive 0 lines o'
]
