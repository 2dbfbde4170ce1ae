-- ===== src/Pipe/Tests.antt =====
-- A pipe in use, and the calls of Kernel/pipe.c on it.
use s_o.Base.{ℕ, ◌+◌, ◌≡◌, refl, [], ◌∷◌, ltb, if◌then◌else◌}
use s_o.Pipe.{Pipe}
use s_o.Pipe.Table.{serve, open_pipe}
use s_o.Pipe.Boot.{serve-no_pipe, no_pipe}

-- The letters `a`, `b` and `c`, and the sentinel.
abbrev letters : ℕ → ℕ
letters j = if ltb j 3 then 97 + j else 255

abbrev pipe_abc : Pipe
pipe_abc = record {
  name = 112 ∷ [];
  initialized = 1;
  in_use = 1;
  fd = 3;
  data_bytes = letters;
  r_pids = λ i. 0;
  w_pids = λ i. 0;
  pos_read = 0;
  pos_write = 3;
}

abbrev unused : Pipe
unused = record {
  name = [];
  initialized = 0;
  in_use = 0;
  fd = 0;
  data_bytes = λ i. 0;
  r_pids = λ i. 0;
  w_pids = λ i. 0;
  pos_read = 0;
  pos_write = 0;
}

serve-no_pipe_example : serve (λ i. unused) (open_pipe (112 ∷ [])) ≡ no_pipe (open_pipe (112 ∷ []))
serve-no_pipe_example =
    serve-no_pipe (λ i. unused) (open_pipe (112 ∷ [])) (λ i lt. (refl, refl, refl, refl)) tt
