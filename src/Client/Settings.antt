-- ===== src/Client/Settings.antt =====
-- client.cpp: `AskString`, `AskInt`, and what `main` does before the loop.
pub mod Numbers
use iocp_game_chat_server.Prelude.{
  ℕ, zero, suc, ◌+◌, ◌-◌, ◌*◌, ◌%◌, ◌^◌, Bool, true, false, Option, none, some, List, [], ◌∷◌, ltb,
  leb, ◌==◌, ◌&&◌, ◌||◌, if◌then◌else◌, length, u16,
}
use iocp_game_chat_server.Client.Text.{trim}
use iocp_game_chat_server.Client.Sockets.{Winsock, Outgoing}
use iocp_game_chat_server.Client.Console.{Echo, run_client}

-- `std::stoi`, which skips white space, takes a sign and reads the digits that follow: the bit pattern of
-- the `int`, or `none` where it throws, because there is no digit or the number is no `int`.
unfoldable pub is_digit : ℕ → Bool
is_digit c = leb b'0' c && leb c b'9'

pub digits_value : ℕ → List ℕ → ℕ
unfolding is_digit
digits_value v [] = v
digits_value v (c ∷ s) =
    let rest = digits_value (v * 10 + (c - b'0')) s in if is_digit c then rest else v

unfoldable pub starts_with_digit : List ℕ → Bool
unfolding is_digit
starts_with_digit [] = false
starts_with_digit (c ∷ s) = is_digit c

unfoldable pub signed : Bool → List ℕ → Option ℕ
unfolding digits_value starts_with_digit
signed negative s =
    let v = digits_value 0 s in
    if starts_with_digit s
    then if negative
      then if ltb (2 ^ 31) v then none else some ((2 ^ 32 - v) % 2 ^ 32)
      else if ltb v (2 ^ 31)
      then some v
      else none
    else none

unfoldable pub stoi : List ℕ → Option ℕ
unfolding signed
stoi [] = none
stoi (c ∷ s) =
    let rest = stoi s in
    if c == 32 || leb 9 c && leb c 13
    then rest
    else if c == b'-'
    then signed true s
    else if c == b'+'
    then signed false s
    else signed false (c ∷ s)

-- `getline`: a line and those after it. At the end of the input the line is empty.
abbrev pub next_line : List (List ℕ) → List ℕ × List (List ℕ)
next_line [] = ([], [])
next_line (line ∷ lines) = (line, lines)

-- `AskString`
pub ask_string : List ℕ → List (List ℕ) → List ℕ × List (List ℕ)
ask_string default_value lines =
    let (line, rest) = next_line lines in
    let input = trim line in (if length input == 0 then default_value else input, rest)

-- `AskInt`: a line that is no number is asked again.
pub ask_int : ℕ → List (List ℕ) → ℕ × List (List ℕ)
unfolding stoi
ask_int default_value [] = (default_value, [])
ask_int default_value (line ∷ lines) =
    let again = ask_int default_value lines in
    let input = trim line in
    if length input == 0
    then (default_value, lines)
    else elim (stoi input) [ none ↦ again | some value ↦ (value, lines) ]

abbrev pub default_ip : List ℕ
default_ip = b'1' ∷ b'2' ∷ b'7' ∷ b'.' ∷ b'0' ∷ b'.' ∷ b'0' ∷ b'.' ∷ b'1' ∷ []

abbrev pub default_nickname : List ℕ
default_nickname = b'C' ∷ b'p' ∷ b'p' ∷ b'C' ∷ b'l' ∷ b'i' ∷ b'e' ∷ b'n' ∷ b't' ∷ []

pub record Settings : Type 0 where
  pub server_ip : List ℕ
  pub server_port : ℕ
  pub nickname : List ℕ
  pub room_id : ℕ

-- The address: from the arguments behind the program's name, or asked for.
pub ask_server : List (List ℕ) → List (List ℕ) → List ℕ × ℕ × List (List ℕ)
unfolding ask_string ask_int
ask_server [] lines =
    let (server_ip, lines₁) = ask_string default_ip lines in
    let (server_port, lines₂) = ask_int 9000 lines₁ in (server_ip, server_port, lines₂)
ask_server (server_ip ∷ []) lines =
    let (server_port, lines₁) = ask_int 9000 lines in (server_ip, server_port, lines₁)
ask_server (server_ip ∷ port ∷ args) lines =
    (server_ip, elim (stoi port) [ none ↦ 9000 | some value ↦ value ], lines)

-- The first part of `main`: the settings, and the lines that are left.
pub read_settings : List (List ℕ) → List (List ℕ) → Settings × List (List ℕ)
unfolding ask_server
read_settings args lines =
    let (server_ip, server_port, lines₁) = ask_server args lines in
    let (nickname, lines₂) = ask_string default_nickname lines₁ in
    let (room_id, lines₃) = ask_int 1 lines₂ in
    (
      record {
        server_ip = server_ip;
        server_port = server_port;
        nickname = nickname;
        room_id = room_id;
      },
      lines₃,
    )

-- Whether Windows starts Winsock, makes a socket, reads an address, and connects to it at a port.
pub record Platform : Type 0 where
  pub wsa_startup : Bool
  pub makes_socket : Bool
  pub reads_address : List ℕ → Bool
  pub connects : List ℕ → ℕ → Bool

-- `main`: the exit code, the lines shown by the loop, and what is sent.
pub main :
    Platform
    → Winsock
    → (ℕ → Bool)
    → List (List ℕ)
    → List (List ℕ)
    → Option (ℕ × List Echo × Outgoing)
unfolding read_settings
main p k alive args lines =
    let (settings, rest) = read_settings args lines in
    let fresh : Outgoing = record { sent = []; calls = 0 } in
    let port = u16 settings.server_port in
    if p.wsa_startup
      && p.makes_socket
      && p.reads_address settings.server_ip
      && p.connects settings.server_ip port
    then elim (run_client k alive settings.nickname settings.room_id rest fresh) [
      | none ↦ none
      | some (shown, o) ↦ some (0, shown, o)
    ]
    else some (1, [], fresh)
