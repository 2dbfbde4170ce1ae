-- ===== src/Tron.antt =====
-- Userland/uCodeModule/tron.c: the rounds of a game.
-- An `int` below 0 is its 32-bit pattern. A round reads one key; the drawing, the sounds and the
-- pause change nothing that a game depends on.
pub mod Start
pub mod Cells
pub mod Rounds
mod Tests
use s_o.Base.{
  ℕ, ◌+◌, ◌-◌, ◌%◌, ◌^◌, Bool, true, not, ◌&&◌, ◌||◌, Option, none, some, List, [], ◌∷◌, ltb, leb,
  ◌==◌, if◌then◌else◌, update,
}

pub record Player : Type 0 where
  pub x : ℕ
  pub y : ℕ
  pub dir : ℕ
  pub color : ℕ

pub record Canvas : Type 0 where
  pub width : ℕ
  pub height : ℕ
  pub board : ℕ → ℕ → ℕ

-- What `playTron` works on, `oldKey` and the scores.
pub record Game : Type 0 where
  pub p1 : Player
  pub p2 : Player
  pub canvas : Canvas
  pub old_key : ℕ
  pub score1 : ℕ
  pub score2 : ℕ

-- UP, DOWN, LEFT and RIGHT are 0 to 3.
unfoldable pub tick : Player → Player
tick p =
    if p.dir == 0
    then record p { y = (p.y + 2 ^ 32 - 1) % 2 ^ 32 }
    else if p.dir == 1
    then record p { y = (p.y + 1) % 2 ^ 32 }
    else if p.dir == 2
    then record p { x = (p.x + 2 ^ 32 - 1) % 2 ^ 32 }
    else if p.dir == 3
    then record p { x = (p.x + 1) % 2 ^ 32 }
    else p

abbrev is_negative : ℕ → Bool
is_negative n = leb (2 ^ 31) n

abbrev pub is_valid_point : ℕ → ℕ → Canvas → Bool
is_valid_point x y c = not (
    (not (is_negative x) && leb c.width x)
    || (not (is_negative y) && leb c.height y)
    || is_negative x
    || is_negative y)

-- The new direction, if the key is one of the four for that player.
abbrev pub turned : ℕ → ℕ → ℕ → ℕ → ℕ → ℕ → Option ℕ
turned dir key left right up down =
    if dir == 0 || dir == 1
    then (if key == left then some 2 else if key == right then some 3 else none)
    else if dir == 2 || dir == 3
    then (if key == up then some 0 else if key == down then some 1 else none)
    else none

abbrev pub with_dir2 : Game → Option ℕ → Game
with_dir2 g none = g
with_dir2 g (some d) = record g { p2 = record g.p2 { dir = d } }

abbrev pub turn_second : Game → ℕ → Game
turn_second g key = with_dir2 g (turned g.p2.dir key 97 100 119 115)

-- `input` for a key that restarts nothing. Each key is LEFT_KEY, RIGHT_KEY, UP_KEY or DOWN_KEY for
-- the first player, and A, D, W or S for the second.
unfoldable pub input : Game → ℕ → Game
input g key = if g.old_key == key then g else elim (turned g.p1.dir key 1 2 3 4) [
  | some d ↦ record g { old_key = key; p1 = record g.p1 { dir = d } }
  | none ↦ turn_second (record g { old_key = key }) key
]

-- `a - b` is 1 or -1; it is 0 in the second test as well.
abbrev apart_by_one : ℕ → ℕ → Bool
apart_by_one a b = (a + 2 ^ 32 - b) % 2 ^ 32 == 1 || (a + 2 ^ 32 - b) % 2 ^ 32 == 2 ^ 32 - 1

abbrev near : ℕ → ℕ → Bool
near a b = apart_by_one a b || (a + 2 ^ 32 - b) % 2 ^ 32 == 0

-- The two tests of `validPositions` for players that meet.
unfoldable pub meet : Player → Player → Bool
meet p1 p2 =
    (p1.x == p2.x && near p1.y p2.y && (p1.dir == 0 || p1.dir == 1) && apart_by_one p1.dir p2.dir)
    || (p1.y == p2.y
        && near p1.x p2.x
        && ((p1.dir == 2 && not (p2.dir == 1)) || p1.dir == 3)
        && apart_by_one p1.dir p2.dir)

-- `canvas->board[x][y]`; `none` is a read outside of the array.
abbrev pub cell : Canvas → Player → Option ℕ
cell c p = if ltb p.x 1024 && ltb p.y 768 then some (c.board p.x p.y) else none

abbrev pub whiten : Bool → Player → Player
whiten lost p = if lost then record p { color = 16777215 } else p

-- How a round ends: the game goes on, or it is over, or a cell outside of the array is read.
pub data Round : Type 0 where
  playing : Game → Round
  over : Game → Round
  outside : Round

abbrev pub game_tied : Game → Round
game_tied g = over (record g { p1 = whiten true g.p1; p2 = whiten true g.p2 })

-- The end of `validPositions`, with what is read and who has lost so far.
unfoldable pub verdict : Game → Bool → Bool → Round
verdict g lost1 lost2 =
    if (g.p1.x == g.p2.x && g.p1.y == g.p2.y) || (lost1 && lost2)
    then game_tied g
    else if lost1
    then over (record g { score2 = g.score2 + 1; p1 = whiten true g.p1 })
    else if lost2
    then over (record g { score1 = g.score1 + 1; p2 = whiten true g.p2 })
    else playing g

unfoldable pub valid_positions : Game → Round
valid_positions g =
    let bad1 = not (is_valid_point g.p1.x g.p1.y g.canvas) in
    let bad2 = not (is_valid_point g.p2.x g.p2.y g.canvas) in
    let g' : Game = record g { p1 = whiten bad1 g.p1; p2 = whiten bad2 g.p2 } in
    if meet g.p1 g.p2 then game_tied g' else elim (cell g.canvas g.p1) [
      | none ↦ outside
      | some c1 ↦ elim (cell g.canvas g.p2) [
        | none ↦ outside
        | some c2 ↦ verdict g' (bad1 || not (c1 == 0)) (bad2 || not (c2 == 0))
      ]
    ]

-- `canvas->board[p->x][p->y] = 1;`
abbrev pub mark : Canvas → Player → Canvas
mark c p = record c { board = update c.board p.x (update (c.board p.x) p.y 1) }

abbrev pub marked : Round → Round
marked (playing g) = playing (record g { canvas = mark (mark g.canvas g.p1) g.p2 })
marked (over g) = over g
marked outside = outside

-- One round of `playTron`; `r` ends the game.
unfoldable pub play_round : Game → ℕ → Round
play_round g key =
    if key == 114
    then over g
    else (let turned_game = input g key in
        marked (
          valid_positions
            (record turned_game { p1 = tick turned_game.p1; p2 = tick turned_game.p2 })))

abbrev pub if_playing : (Game → Round) → Round → Round
if_playing go_on (playing g) = go_on g
if_playing go_on (over g) = over g
if_playing go_on outside = outside

-- The loop of `playTron`, over the keys of the rounds.
unfoldable pub play_tron : Game → List ℕ → Round
play_tron g [] = playing g
play_tron g (key ∷ keys) = if_playing (λ g'. play_tron g' keys) (play_round g key)
