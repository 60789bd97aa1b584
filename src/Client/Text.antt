-- ===== src/Client/Text.antt =====
-- The text helpers of client.cpp: `Trim`, `ToLowerAscii`, and which command a line is.
pub mod Trimming
use iocp_game_chat_server.Prelude.{
  ℕ, zero, suc, ◌+◌, ◌-◌, Bool, true, false, Option, none, some, List, [], ◌∷◌, map, ◌&&◌, ◌||◌,
  leb, ◌==◌, if◌then◌else◌, take, drop, get_or,
}

-- The characters " \t\r\n"
unfoldable pub is_blank : ℕ → Bool
is_blank c = c == 32 || c == 9 || c == 13 || c == 10

-- `find_first_not_of(" \t\r\n")`, where `npos` is `none`
unfoldable pub first_not_blank : List ℕ → Option ℕ
unfolding is_blank
first_not_blank [] = none
first_not_blank (c ∷ s) =
    if is_blank c then elim (first_not_blank s) [ none ↦ none | some i ↦ some (suc i) ] else some 0

-- `find_last_not_of(" \t\r\n")`
unfoldable pub last_not_blank : List ℕ → Option ℕ
unfolding is_blank
last_not_blank [] = none
last_not_blank (c ∷ s) = elim (last_not_blank s) [
  | none ↦ if is_blank c then none else some 0
  | some i ↦ some (suc i)
]

-- `Trim`. Where there is a first such character there is a last one, so that the empty text of the
-- second `none` is never returned.
unfoldable pub trim : List ℕ → List ℕ
unfolding first_not_blank last_not_blank
trim value = elim (first_not_blank value) [
  | none ↦ []
  | some begin ↦ elim (last_not_blank value) [
    | none ↦ []
    | some end ↦ take (end - begin + 1) (drop begin value)
  ]
]

-- `ToLowerAscii`
unfoldable pub to_lower : ℕ → ℕ
to_lower ch = if leb b'A' ch && leb ch b'Z' then ch - b'A' + b'a' else ch

unfoldable pub to_lower_ascii : List ℕ → List ℕ
unfolding to_lower
to_lower_ascii value = map to_lower value

-- `==` of two texts
unfoldable pub same_text : List ℕ → List ℕ → Bool
same_text [] [] = true
same_text [] (d ∷ t) = false
same_text (c ∷ s) [] = false
same_text (c ∷ s) (d ∷ t) = c == d && same_text s t

-- What the loop of `main` does with a line.
pub data Command : Type 0 where
  nothing quit help clear unknown : Command
  chat : List ℕ → Command

abbrev pub slash_quit : List ℕ
slash_quit = b'/' ∷ b'q' ∷ b'u' ∷ b'i' ∷ b't' ∷ []

abbrev pub slash_exit : List ℕ
slash_exit = b'/' ∷ b'e' ∷ b'x' ∷ b'i' ∷ b't' ∷ []

abbrev pub slash_help : List ℕ
slash_help = b'/' ∷ b'h' ∷ b'e' ∷ b'l' ∷ b'p' ∷ []

abbrev pub slash_clear : List ℕ
slash_clear = b'/' ∷ b'c' ∷ b'l' ∷ b'e' ∷ b'a' ∷ b'r' ∷ []

abbrev pub plain_quit : List ℕ
plain_quit = b'q' ∷ b'u' ∷ b'i' ∷ b't' ∷ []

abbrev pub plain_exit : List ℕ
plain_exit = b'e' ∷ b'x' ∷ b'i' ∷ b't' ∷ []

abbrev pub plain_cls : List ℕ
plain_cls = b'c' ∷ b'l' ∷ b's' ∷ []

-- The tests of the loop, on the trimmed line.
unfoldable pub command_of_trimmed : List ℕ → Command
unfolding to_lower_ascii same_text
command_of_trimmed [] = nothing
command_of_trimmed (c ∷ s) =
    let command = to_lower_ascii (c ∷ s) in
    if same_text command slash_quit
      || same_text command slash_exit
      || same_text command plain_quit
      || same_text command plain_exit
    then quit
    else if same_text command slash_help
    then help
    else if same_text command slash_clear || same_text command plain_cls
    then clear
    else if c == b'/'
    then unknown
    else chat (c ∷ s)

unfoldable pub command_of : List ℕ → Command
unfolding command_of_trimmed trim
command_of line = command_of_trimmed (trim line)
