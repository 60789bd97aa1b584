-- ===== src/Tests/Layout.antt =====
-- The start of a match between the two players of a sample room.
use iocp_game_chat_server.Prelude.{◌+◌, ◌*◌, ◌≡◌, [], ◌∷◌, arith, get_or, if◌then◌else◌}
use iocp_game_chat_server.Lobby.{is_wall_tile, map_width}
use iocp_game_chat_server.Match.{game_start_body}
use iocp_game_chat_server.Match.Layout.{game_start_body-tile}
use iocp_game_chat_server.Tests.Data.{waiting}

-- The tile in the corner of the border
game_start_body-tile_example :
    get_or (game_start_body 1 (1 ∷ (2 ∷ [])) waiting) (10 + (12 * map_width + 14)) 0
    ≡ (if is_wall_tile 14 12 then 1 else 0)
game_start_body-tile_example =
    game_start_body-tile 1 (1 ∷ (2 ∷ [])) waiting 14 12 (omega arith) (omega arith)
