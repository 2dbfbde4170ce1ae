-- ===== src/Phylo/Tests.antt =====
-- Five philosophers: the first one eats; and a table at which the last one is taken away.
use s_o.Base.{ℕ, ◌-◌, ◌||◌, ◌==◌, if◌then◌else◌, update}
use s_o.Phylo.{
  PhyloState, Table, at_table, eating, gone, opening, removing, stand, take_fork, thinking, to_eat,
  to_rest,
}

abbrev calm : ℕ → PhyloState
calm _ = thinking

abbrev first_took : Table
first_took = stand (take_fork (opening calm) 0) 0 to_eat

abbrev first_eats : Table
first_eats =
    stand
      (record first_took {
        hungry_lock = update first_took.hungry_lock 0 (first_took.hungry_lock 0 - 1);
      })
      0 at_table

-- The first and the last but one eat, and the last one, between them, is about to be taken away.
abbrev about_to_remove : Table
about_to_remove = record {
  count = 5;
  state = λ i. if i == 0 || i == 3 then eating else thinking;
  hungry_lock = λ _. 0;
  think_unlock = λ _. 0;
  place = λ i. if i == 0 || i == 3 then at_table else (if i == 4 then to_rest else gone);
  main = removing;
}
