-- ===== src/Match/Layout.antt =====
-- The bytes of SC_GAME_START: where the client finds each tile of the map.
use iocp_game_chat_server.Prelude.{
  ℕ, zero, suc, ◌+◌, ◌*◌, ◌%◌, ◌<◌, ◌≡◌, refl, sym, ap, ◌∙◌, List, [], ◌∷◌, ◌++◌, arith,
  if◌then◌else◌, length, length-append, append_assoc, append-nil, get_or, u16,
}
use iocp_game_chat_server.State.{World, player}
use iocp_game_chat_server.Wire.{le32, put_u8, put_u16, put_u32, put_i32}
use iocp_game_chat_server.Wire.RoundTrip.{put_u32-le32, get_or-append}
use iocp_game_chat_server.Lobby.{
  is_wall_tile, tile_center, tick_rate, tile_unit, map_width, map_height,
}
use iocp_game_chat_server.Match.{put_row, put_rows, put_spawns, spawn_x, spawn_y, game_start_body}

-- The byte of a tile
abbrev pub tile : ℕ → ℕ → ℕ
tile x y = if is_wall_tile x y then 1 else 0

put_row-append : (n x y : ℕ) (buf : List ℕ) → put_row n x y buf ≡ buf ++ put_row n x y []
unfolding put_row put_u8
put_row-append zero x y buf = sym (append-nil buf)
put_row-append (suc n) x y buf =
    put_row-append n (x + 1) y _
    ∙ append_assoc buf _ (put_row n (x + 1) y [])
    ∙ ap (◌++◌ buf) (sym (put_row-append n (x + 1) y _))

length-put_row : (n x y : ℕ) → length (put_row n x y []) ≡ n
unfolding put_row put_u8
length-put_row zero x y = refl
length-put_row (suc n) x y =
    rw (put_row-append n (x + 1) y) (omega (arith, length-put_row n (x + 1) y))

get_or-put_row : (n x y i : ℕ) → i < n → get_or (put_row n x y []) i 0 ≡ tile (x + i) y
unfolding put_row put_u8
get_or-put_row zero x y i h = absurd (omega arith)
get_or-put_row (suc n) x y zero h =
    let e : x + 0 ≡ x = omega arith in rw (put_row-append n (x + 1) y, e) (ground arith)
get_or-put_row (suc n) x y (suc i) h =
    let e : x + suc i ≡ x + 1 + i = omega arith in
    rw (put_row-append n (x + 1) y, e) (get_or-put_row n (x + 1) y i (omega arith))

put_rows-append : (n y : ℕ) (buf : List ℕ) → put_rows n y buf ≡ buf ++ put_rows n y []
unfolding put_rows
put_rows-append zero y buf = sym (append-nil buf)
put_rows-append (suc n) y buf =
    put_rows-append n (y + 1) _
    ∙ ap (λ b. b ++ put_rows n (y + 1) []) (put_row-append map_width 0 y buf)
    ∙ append_assoc buf _ (put_rows n (y + 1) [])
    ∙ ap (◌++◌ buf) (sym (put_rows-append n (y + 1) _))

get_or-front : (xs ys : List ℕ) (i : ℕ) → i < length xs → get_or (xs ++ ys) i 0 ≡ get_or xs i 0
get_or-front [] ys i h = absurd (omega arith)
get_or-front (x ∷ xs) ys zero h = refl
get_or-front (x ∷ xs) ys (suc i) h = get_or-front xs ys i (omega arith)

pub length-put_rows : (n y : ℕ) → length (put_rows n y []) ≡ n * map_width
unfolding put_rows
length-put_rows zero y = omega arith
length-put_rows (suc n) y = rw (put_rows-append n (y + 1)) (
    omega (
      arith,
      length-append (put_row map_width 0 y []) (put_rows n (y + 1) []),
      length-put_row map_width 0 y,
      length-put_rows n (y + 1),
    ))

get_or-put_rows :
    (n y i j : ℕ)
    → i < map_width
    → j < n
    → get_or (put_rows n y []) (j * map_width + i) 0 ≡ tile i (y + j)
unfolding put_rows
get_or-put_rows zero y i j hi hj = absurd (omega arith)
get_or-put_rows (suc n) y i zero hi hj =
    let row = put_row map_width 0 y [] in
    let long : i < length row = omega (arith, length-put_row map_width 0 y) in
    let at : 0 * map_width + i ≡ i = omega arith in
    let same : y + 0 ≡ y = omega arith in
    rw (put_rows-append n (y + 1), at, same)
      (get_or-front row _ i long
        ∙ get_or-put_row map_width 0 y i hi
        ∙ ap (λ k. tile k y) (omega arith))
get_or-put_rows (suc n) y i (suc j) hi hj =
    let row = put_row map_width 0 y [] in
    let at : suc j * map_width + i ≡ length row + (j * map_width + i) =
      omega (arith, length-put_row map_width 0 y) in
    let same : y + suc j ≡ y + 1 + j = omega arith in
    rw (put_rows-append n (y + 1), at, same)
      (get_or-append row _ (j * map_width + i) ∙ get_or-put_rows n (y + 1) i j hi (omega arith))

-- The entry of a player: the id, and the centre of the spawn tile.
abbrev pub spawn : World → ℕ → ℕ → List ℕ
spawn w i p =
    le32 (player w p).id
    ++ (le32 (tile_center (spawn_x (i % 2))) ++ le32 (tile_center (spawn_y (i % 2))))

pub put_three :
    (buf : List ℕ) (a b c : ℕ)
    → put_i32 (put_i32 (put_u32 buf a) b) c ≡ buf ++ (le32 a ++ (le32 b ++ le32 c))
unfolding put_i32
put_three buf a b c =
    put_u32-le32 _ c
    ∙ ap (λ z. z ++ le32 c) (put_u32-le32 _ b ∙ ap (λ z. z ++ le32 b) (put_u32-le32 buf a))
    ∙ append_assoc (buf ++ le32 a) (le32 b) (le32 c)
    ∙ append_assoc buf (le32 a) (le32 b ++ le32 c)

pub put_spawns-append :
    (w : World) (i : ℕ) (ps buf : List ℕ) → put_spawns w i ps buf ≡ buf ++ put_spawns w i ps []
unfolding put_spawns
put_spawns-append w i [] buf = sym (append-nil buf)
put_spawns-append w i (p ∷ ps) buf =
    let behind = put_spawns w (i + 1) ps [] in
    let from = λ (b : List ℕ).
      put_spawns-append w (i + 1) ps _ ∙ ap (λ z. z ++ behind) (put_three b _ _ _) in
    from buf ∙ append_assoc buf (spawn w i p) behind ∙ ap (◌++◌ buf) (sym (from []))

-- The fields before the map
abbrev pub start_head : ℕ → List ℕ
start_head match_id =
    put_u8 (put_u8 (put_u16 (put_u16 (put_u32 [] match_id) tick_rate) tile_unit) map_width)
      map_height

pub length-start_head : (match_id : ℕ) → length (start_head match_id) ≡ 10
unfolding put_u8 put_u16
length-start_head match_id = rw (put_u32-le32 [] match_id)

-- The body is the fields, the map, the number of players, and the players.
pub game_start_body-parts :
    (match_id : ℕ) (ps : List ℕ) (w : World)
    → game_start_body match_id ps w
      ≡ start_head match_id
        ++ (put_rows map_height 0 [] ++ (put_u16 [] (u16 (length ps)) ++ put_spawns w 0 ps []))
unfolding game_start_body put_u16
game_start_body-parts match_id ps w =
    let rows = put_rows map_height 0 [] in
    let number = put_u16 [] (u16 (length ps)) in
    put_spawns-append w 0 ps _
    ∙ ap (λ b. (b ++ number) ++ put_spawns w 0 ps [])
        (put_rows-append map_height 0 (start_head match_id))
    ∙ append_assoc (start_head match_id ++ rows) number (put_spawns w 0 ps [])
    ∙ append_assoc (start_head match_id) rows (number ++ put_spawns w 0 ps [])

-- In the body of SC_GAME_START the byte at offset 10 + 15 * y + x is 1 if the tile at column x and
-- row y of the 15 by 13 map is a wall, and 0 if it is free.
pub game_start_body-tile :
    (match_id : ℕ) (ps : List ℕ) (w : World) (x y : ℕ)
    → x < map_width
    → y < map_height
    → get_or (game_start_body match_id ps w) (10 + (y * map_width + x)) 0
      ≡ (if is_wall_tile x y then 1 else 0)
game_start_body-tile match_id ps w x y hx hy =
    let rows = put_rows map_height 0 [] in
    let inside : y * map_width + x < length rows = omega (arith, length-put_rows map_height 0) in
    let at : 10 + (y * map_width + x) ≡ length (start_head match_id) + (y * map_width + x) =
      omega (arith, length-start_head match_id) in
    rw (game_start_body-parts match_id ps w, at)
      (get_or-append (start_head match_id) _ (y * map_width + x)
        ∙ get_or-front rows _ (y * map_width + x) inside
        ∙ get_or-put_rows map_height 0 x y hx hy
        ∙ ap (tile x) (omega arith))
