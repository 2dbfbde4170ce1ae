-- ===== src/Tron/Start.antt =====
-- The start of a game of Userland/uCodeModule/tron.c.
use s_o.Base.{ℕ, ◌*◌, ◌/◌, ◌&&◌, ltb, if◌then◌else◌}
use s_o.Tron.{Game, Canvas, Player, mark}

-- `dimensions`, for a screen of `w` columns and `h` rows; the board is what the stack held.
abbrev pub dimensions : ℕ → ℕ → (ℕ → ℕ → ℕ) → Canvas
dimensions w h b = record { width = w / 8; height = h / 8; board = b }

abbrev pub initialize_canvas : Canvas → Canvas
initialize_canvas c = record c {
  board = λ i j. if ltb i c.width && ltb j c.height then 0 else c.board i j;
}

-- `initializePlayers`; a product with 0.8, 0.2 or 0.5 is cut off to a whole number. RED is 0xFF0000
-- and BLUE 0x0000FF.
abbrev pub player1 : Canvas → Player
player1 c = record { x = c.width * 8 / 10; y = c.height * 5 / 10; dir = 2; color = 16711680 }

abbrev pub player2 : Canvas → Player
player2 c = record { x = c.width * 2 / 10; y = c.height * 5 / 10; dir = 3; color = 255 }

-- `startGame` and the beginning of `playTron`; `oldKey` is -1.
abbrev pub start_game : ℕ → ℕ → (ℕ → ℕ → ℕ) → ℕ → ℕ → Game
start_game w h b score1 score2 =
    let c = dimensions w h b in
    record {
      p1 = player1 c;
      p2 = player2 c;
      canvas = mark (mark (initialize_canvas c) (player1 c)) (player2 c);
      old_key = 4294967295;
      score1 = score1;
      score2 = score2;
    }
