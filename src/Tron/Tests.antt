-- ===== src/Tron/Tests.antt =====
-- Games of Userland/uCodeModule/tron.c on a board of eight columns and six rows.
use s_o.Base.{ℕ, zero, suc, ◌≡◌, refl, ◌≢◌, List, [], ◌∷◌, arith, update}
use s_o.Tron.{
  Game, Round, play_tron, playing, input, meet, outside, over, play_round, tick, valid_positions,
  verdict,
}
use s_o.Tron.Start.{start_game}
use s_o.Tron.Rounds.{play_tron_ends}

abbrev opening_game : Game
opening_game = start_game 64 48 (λ i j. 7) 0 0

abbrev points : Round → List ℕ
points (playing g) = 0 ∷ g.p1.x ∷ g.p1.y ∷ g.p2.x ∷ g.p2.y ∷ []
points (over g) = 1 ∷ g.score1 ∷ g.score2 ∷ []
points outside = []

-- Nobody presses a key: the players run towards each other, and meet in the second round.
one_round : points (play_tron opening_game (0 ∷ [])) ≡ 0 ∷ 5 ∷ 3 ∷ 2 ∷ 3 ∷ []
unfolding play_tron play_round input tick valid_positions meet verdict update
one_round = refl

draw : points (play_tron opening_game (0 ∷ 0 ∷ [])) ≡ 1 ∷ 0 ∷ 0 ∷ []
unfolding play_tron play_round input tick valid_positions meet verdict update
draw = refl

-- The first player goes up and over the upper edge: the cell read then is outside of the array.
over_the_edge : points (play_tron opening_game (3 ∷ 3 ∷ 3 ∷ 119 ∷ [])) ≡ []
unfolding play_tron play_round input tick valid_positions meet verdict update
over_the_edge = refl

abbrev no_keys : ℕ → List ℕ
no_keys zero = []
no_keys (suc n) = 0 ∷ no_keys n

play_tron_ends_example : play_tron opening_game (no_keys 25) ≢ playing opening_game
play_tron_ends_example = play_tron_ends (no_keys 25) opening_game opening_game (ground arith)
