-- ===== src/Scheduler/Ring.antt =====
-- The ring as a list of nodes, and what an insertion and a removal do to it.
use s_o.Base.{
  ℕ, ◌≡◌, refl, sym, ap, ap₂, ◌∙◌, subst, ◌≢◌, List, [], ◌∷◌, map, ==_of_ne, All, update,
  update_self, update-ne,
}
use s_o.Scheduler.Nodes.{Sched, insert_node, unlink}

-- The links lead from `a` through the nodes of the list to `b`.
abbrev pub Chain : (ℕ → ℕ) → ℕ → List ℕ → ℕ → Type 0
Chain next a [] b = a ≡ b
Chain next a (x ∷ xs) b = (a ≡ x) × Chain next (next x) xs b

abbrev pub Without : ℕ → List ℕ → Type 0
Without n xs = All (λ x. x ≢ n) xs

-- A link that is not in the list can be turned.
Chain-update :
    (next : ℕ → ℕ) (n v a b : ℕ) (xs : List ℕ)
    → Without n xs
    → Chain next a xs b
    → Chain (update next n v) a xs b
unfolding update
Chain-update next n v a b [] o c = c
Chain-update next n v a b (x ∷ xs) o c =
    (c.0, rw (==_of_ne x n o.0) (Chain-update next n v (next x) b xs o.1 c.1))

map-update : (f : ℕ → ℕ) (n v : ℕ) (xs : List ℕ) → Without n xs → map (update f n v) xs ≡ map f xs
unfolding update
map-update f n v [] o = refl
map-update f n v (x ∷ xs) o = ap₂ (λ y ys. y ∷ ys) (update-ne f n v x o.0) (map-update f n v xs o.1)

-- The ring from `n` on loses a node, and the process of `n`.
pub unlink-Chain :
    (s : Sched) (n m : ℕ) (xs : List ℕ)
    → Chain s.next n (n ∷ m ∷ xs) n
    → Without n (m ∷ xs)
    → Chain (unlink s n).next n (n ∷ xs) n × (map (unlink s n).proc (n ∷ xs) ≡ map s.proc (m ∷ xs))
unfolding unlink
unlink-Chain s n m xs c o = (
  (
    refl,
    subst (λ a. Chain (update s.next n (s.next (s.next n))) a xs n)
        (sym (update_self s.next n (s.next (s.next n)) ∙ ap s.next c.1.0))
        (Chain-update s.next n (s.next (s.next n)) (s.next m) n xs o.1 c.1.1),
  ),
  ap₂ (λ y ys. y ∷ ys) (update_self s.proc n (s.proc (s.next n)) ∙ ap s.proc c.1.0)
      (map-update s.proc n (s.proc (s.next n)) xs o.1),
)

-- A new node comes right behind the current one.
pub insert_node-Chain :
    (s : Sched) (node process : ℕ) (xs : List ℕ)
    → Chain s.next s.current (s.current ∷ xs) s.current
    → Without node (s.current ∷ xs)
    → Without s.current xs
    → Chain (insert_node s node process).next s.current (s.current ∷ node ∷ xs) s.current
      × (map (insert_node s node process).proc (s.current ∷ node ∷ xs)
          ≡ s.proc s.current ∷ process ∷ map s.proc xs)
unfolding insert_node
insert_node-Chain s node process xs c o here =
    let inner = update s.next node (s.next s.current) in
    let start : update inner s.current node node ≡ s.next s.current =
      update-ne inner s.current node node (λ e. o.0 (sym e))
      ∙ update_self s.next node (s.next s.current) in
    let rest : Chain (update inner s.current node) (s.next s.current) xs s.current =
      Chain-update inner s.current node (s.next s.current) s.current xs here
        (Chain-update s.next node (s.next s.current) (s.next s.current) s.current xs o.1 c.1) in
    (
      (
        refl,
        (
          update_self inner s.current node,
          subst (λ a. Chain (update inner s.current node) a xs s.current) (sym start) rest,
        ),
      ),
      ap₂ (λ y ys. y ∷ ys) (update-ne s.proc node process s.current o.0)
          (ap₂ (λ y ys. y ∷ ys) (update_self s.proc node process)
            (map-update s.proc node process xs o.1)),
    )
