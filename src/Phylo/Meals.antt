-- ===== src/Phylo/Meals.antt =====
-- Who sits at the table of Userland/uCodeModule/phylo.c, in the runs in which nobody is taken away.
use s_o.Base.{ℕ, ◌-◌, ◌≤◌, ◌<◌, ◌≡◌, ◌∙◌, false, arith}
use s_o.Phylo.{Table, at_table, remove_phylo, right}
use s_o.Phylo.Forks.{right_of}
use s_o.Phylo.Core.{Core, is_gone}

record Inv (t : Table) : Type 0 where
  two : 2 ≤ t.count
  core : Core t.count t.state t.hungry_lock t.place
  seated : (i : ℕ) → is_gone (t.place i) ≡ false → i < t.count

-- When the last philosopher is taken away while its two neighbours eat, these become neighbours of
-- each other, and both of them go on eating.
pub remove_phylo-clash :
    (t : Table)
    → 2 < t.count
    → t.place 0 ≡ at_table
    → t.place (t.count - 2) ≡ at_table
    → (right (remove_phylo t).count (t.count - 2) ≡ 0)
      × ((remove_phylo t).place (t.count - 2) ≡ at_table)
      × ((remove_phylo t).place 0 ≡ at_table)
unfolding remove_phylo
remove_phylo-clash t h e e' =
    (right_of (t.count - 1) (t.count - 2) (omega (arith, h)) ∙ ground (arith, h), e', e)
