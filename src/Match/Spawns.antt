-- ===== src/Match/Spawns.antt =====
-- The bytes of SC_GAME_START: where the client finds each player, and where the players start.
use iocp_game_chat_server.Prelude.{ℕ, ◌+◌, ◌*◌, ◌≡◌, List, [], ◌∷◌, ◌++◌, length}
use iocp_game_chat_server.State.{World}
use iocp_game_chat_server.Match.{put_spawns}
use iocp_game_chat_server.Match.Layout.{spawn}

-- The entries before a player's, and those after it.
record Around (w : World) (i p : ℕ) (before after : List ℕ) : Type 0 where
  front : List ℕ
  back : List ℕ
  here :
      put_spawns w i (before ++ (p ∷ after)) [] ≡ front ++ (spawn w (i + length before) p ++ back)
  long : length front ≡ 12 * length before
