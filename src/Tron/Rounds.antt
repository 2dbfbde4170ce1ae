-- ===== src/Tron/Rounds.antt =====
-- How long a game of Userland/uCodeModule/tron.c lasts.
use s_o.Base.{
  ℕ, ◌+◌, ◌*◌, ◌<◌, ◌≡◌, refl, sym, ap, ◌∙◌, subst, ◌≢◌, inl, inr, Bool, true, false, not, ◌&&◌,
  ◌||◌, Option, none, some, List, [], ◌∷◌, arith, ◌==◌, Bool-cases, length, update,
}
use s_o.Tron.{
  Game, playing, verdict, valid_positions, is_valid_point, Player, whiten, Round, input, mark,
  marked, outside, over, play_round, play_tron, tick, turned, if_playing, with_dir2,
}
use s_o.Tron.Cells.{free_cells, free_cells-mark, free_cells-bound}

verdict-playing :
    (g g' : Game) (lost1 lost2 : Bool)
    → verdict g lost1 lost2 ≡ playing g'
    → lost1 ≡ false × lost2 ≡ false × (g.p1.x == g.p2.x && g.p1.y == g.p2.y) ≡ false × g ≡ g'
unfolding verdict
verdict-playing g g' lost1 lost2 e =
    (ground (arith, e), ground (arith, e), ground (arith, e), ground (arith, e))

-- A round that goes on has moved both players to free cells of the board, and not to the same one.
abbrev Moved : Game → Type 0
Moved g =
    is_valid_point g.p1.x g.p1.y g.canvas ≡ true
    × is_valid_point g.p2.x g.p2.y g.canvas ≡ true
    × g.canvas.board g.p1.x g.p1.y ≡ 0
    × g.canvas.board g.p2.x g.p2.y ≡ 0
    × (g.p1.x == g.p2.x && g.p1.y == g.p2.y) ≡ false

abbrev lost : Game → Player → Bool
lost g p = not (is_valid_point p.x p.y g.canvas) || not (g.canvas.board p.x p.y == 0)

abbrev whitened : Game → Game
whitened g = record g {
  p1 = whiten (not (is_valid_point g.p1.x g.p1.y g.canvas)) g.p1;
  p2 = whiten (not (is_valid_point g.p2.x g.p2.y g.canvas)) g.p2;
}

valid_positions-verdict :
    (g g' : Game)
    → valid_positions g ≡ playing g'
    → verdict (whitened g) (lost g g.p1) (lost g g.p2) ≡ playing g'
unfolding valid_positions
valid_positions-verdict g g' e = ground (arith, e)

whitened-valid :
    (g : Game)
    → is_valid_point g.p1.x g.p1.y g.canvas ≡ true
    → is_valid_point g.p2.x g.p2.y g.canvas ≡ true
    → whitened g ≡ g
whitened-valid g valid1 valid2 = rw (valid1, valid2) refl

valid_positions-playing : (g g' : Game) → valid_positions g ≡ playing g' → Moved g × g ≡ g'
valid_positions-playing g g' e =
    let (alive1, alive2, apart, same) =
      verdict-playing (whitened g) g' (lost g g.p1) (lost g g.p2)
        (valid_positions-verdict g g' e) in
    let valid1 : is_valid_point g.p1.x g.p1.y g.canvas ≡ true = ground (arith, alive1) in
    let valid2 : is_valid_point g.p2.x g.p2.y g.canvas ≡ true = ground (arith, alive2) in
    let kept : whitened g ≡ g = whitened-valid g valid1 valid2 in
    let places : (g.p1.x == g.p2.x && g.p1.y == g.p2.y) ≡ false =
      ap (λ h. h.p1.x == h.p2.x && h.p1.y == h.p2.y) (sym kept) ∙ apart in
    ((valid1, valid2, ground (arith, alive1), ground (arith, alive2), places), sym kept ∙ same)

marked_playing :
    (r : Round) (g' : Game)
    → marked r ≡ playing g'
    → (g : Game) × r ≡ playing g × g' ≡ record g { canvas = mark (mark g.canvas g.p1) g.p2 }
marked_playing (playing g) g' e = (g, refl, ground (arith, e))
marked_playing (over g) g' e = ground (arith, e)
marked_playing outside g' e = ground (arith, e)

mark-other :
    (b : ℕ → ℕ → ℕ) (x y x' y' : ℕ)
    → (x == x' && y == y') ≡ false
    → update b x (update (b x) y 1) x' y' ≡ b x' y'
unfolding update
mark-other b x y x' y' apart = elim (Bool-cases (x' == x)) [
  | inl same ↦
      (let column : b x y' ≡ b x' y' = ap (λ i. b i y') (ground (arith, same)) in
        ground (arith, same, apart, column))
  | inr other ↦ ground (arith, other)
]

-- The two marks of a round.
free_cells-marks :
    (g : Game) → Moved g → free_cells (mark (mark g.canvas g.p1) g.p2) + 2 ≡ free_cells g.canvas
free_cells-marks g (valid1, valid2, free1, free2, apart) =
    let first_mark =
      free_cells-mark g.canvas g.p1 (ground (arith, valid1)) (ground (arith, valid1)) free1 in
    let still_free : (mark g.canvas g.p1).board g.p2.x g.p2.y ≡ 0 =
      mark-other g.canvas.board g.p1.x g.p1.y g.p2.x g.p2.y apart ∙ free2 in
    let second_mark =
      free_cells-mark (mark g.canvas g.p1) g.p2 (ground (arith, valid2)) (ground (arith, valid2))
        still_free in
    omega (arith, first_mark, second_mark)

with_dir2-canvas : (g : Game) (d : Option ℕ) → (with_dir2 g d).canvas ≡ g.canvas
with_dir2-canvas g none = refl
with_dir2-canvas g (some d) = refl

input-canvas : (g : Game) (key : ℕ) → (input g key).canvas ≡ g.canvas
unfolding input
input-canvas g key =
    ground
      (arith, with_dir2-canvas (record g { old_key = key }) (turned g.p2.dir key 97 100 119 115))

play_round-playing :
    (g g' : Game) (key : ℕ)
    → play_round g key ≡ playing g'
    → free_cells g'.canvas + 2 ≡ free_cells g.canvas
      × g'.canvas.width ≡ g.canvas.width
      × g'.canvas.height ≡ g.canvas.height
unfolding play_round
play_round-playing g g' key e = elim (Bool-cases (key == 114)) [
  | inl restart ↦ absurd (ground (arith, restart, e))
  | inr go_on ↦
      (let h : Game = record (input g key) {
        p1 = tick (input g key).p1;
        p2 = tick (input g key).p2;
      } in
        let (g0, on, made) = marked_playing (valid_positions h) g' (rw go_on at e) in
        let (moved, same) = valid_positions-playing h g0 on in
        let board : g0.canvas ≡ g.canvas = ap (λ k. k.canvas) (sym same) ∙ input-canvas g key in
        let moved0 : Moved g0 = subst Moved same moved in
        let free = free_cells-marks g0 moved0 in
        (
          ap (λ k. free_cells k.canvas + 2) made ∙ free ∙ ap free_cells board,
          ap (λ k. k.canvas.width) made ∙ ap (λ c. c.width) board,
          ap (λ k. k.canvas.height) made ∙ ap (λ c. c.height) board,
        ))
]

if_playing_lem :
    (go_on : Game → Round) (r : Round) (g' : Game)
    → if_playing go_on r ≡ playing g'
    → (g : Game) × r ≡ playing g × go_on g ≡ playing g'
if_playing_lem go_on (playing g) g' e = (g, refl, e)
if_playing_lem go_on (over g) g' e = absurd (ground (arith, e))
if_playing_lem go_on outside g' e = absurd (ground (arith, e))

-- Every round that goes on takes two free cells.
play_tron-playing :
    (keys : List ℕ) (g g' : Game)
    → play_tron g keys ≡ playing g'
    → free_cells g'.canvas + 2 * length keys ≡ free_cells g.canvas
unfolding play_tron
play_tron-playing [] g g' e =
    let same : g.canvas ≡ g'.canvas = ground (arith, e) in omega (arith, ap free_cells same)
play_tron-playing (key ∷ keys) g g' e =
    let (g1, on, further) = if_playing_lem (λ h. play_tron h keys) (play_round g key) g' e in
    let round = play_round-playing g g1 key on in
    omega (arith, round.0, play_tron-playing keys g1 g' further)

-- A game ends: with two rounds for each pair of cells, and one more, it does not go on any longer,
-- whatever keys are pressed.
pub play_tron_ends :
    (keys : List ℕ) (g g' : Game)
    → g.canvas.width * g.canvas.height < 2 * length keys
    → play_tron g keys ≢ playing g'
play_tron_ends keys g g' long e =
    omega (arith, long, play_tron-playing keys g g' e, free_cells-bound g.canvas)
