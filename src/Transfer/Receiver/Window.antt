-- ===== src/Transfer/Receiver/Window.antt =====
-- The receive window of `recvfile.c`: which chunks of the file its flags and nodes hold.
use comp429_computer_network.Base.{
  ℕ, zero, suc, ◌+◌, ◌-◌, ◌%◌, ◌≤◌, ◌<◌, ◌≡◌, ◌≢◌, refl, ◌∙◌, ap, List, [], ◌∷◌, ◌++◌, length,
  get_or, set, take, arith, length-set, length-append, get_or-set_self, get_or-set_ne, dec_eq,
}
use comp429_computer_network.Transfer.Queue.{Node, enqueue, dequeue, enqueue-append}
use comp429_computer_network.Transfer.Receiver.{flag, fresh_node}

-- What `fwrite` would put out for node number k.
abbrev pub held_data : List Node → ℕ → List ℕ
held_data root k = let n = get_or root k fresh_node in take n.size n.contents

-- Chunk numbers are absolute. A raised flag among the sixteen from `last` on stands for a chunk of the
-- window's eight, and the chunk's node holds its data.
pub record Window (chunks : List (List ℕ)) (last : ℕ) (received : List ℕ) (root : List Node)
    : Type 0 where
  pub flags_len : length received ≡ 16
  pub nodes_len : length root ≡ 8
  pub held :
      (j : ℕ)
      → last ≤ j
      → j < last + 16
      → flag received j ≢ 0
      → (j < last + 8) × (j < length chunks) × (held_data root (j - last) ≡ get_or chunks j [])

get_or-snoc : (q : List Node) (f : Node) (k : ℕ) → get_or (q ++ f ∷ []) k f ≡ get_or q k f
get_or-snoc [] f zero = refl
get_or-snoc [] f (suc k) = refl
get_or-snoc (n ∷ q) f zero = refl
get_or-snoc (n ∷ q) f (suc k) = get_or-snoc q f k

get_or-dequeue : (q : List Node) (f : Node) (k : ℕ) → get_or (dequeue q) k f ≡ get_or q (suc k) f
unfolding dequeue
get_or-dequeue [] f k = refl
get_or-dequeue (n ∷ q) f k = refl

length-rotate :
    (q : List Node) (f : Node) (m : ℕ) → length q ≡ suc m → length (enqueue (dequeue q) f) ≡ suc m
unfolding dequeue
length-rotate [] f m h = absurd (omega arith)
length-rotate (n ∷ q) f m h = rw (enqueue-append q f) (omega (arith, length-append q (f ∷ [])))

held_data-rotate :
    (q : List Node) (k : ℕ) → held_data (enqueue (dequeue q) fresh_node) k ≡ held_data q (suc k)
held_data-rotate q k =
    ap (λ (n : Node). take n.size n.contents)
      (rw (enqueue-append (dequeue q) fresh_node)
        (get_or-snoc (dequeue q) fresh_node k ∙ get_or-dequeue q fresh_node k))

module _ {chunks : List (List ℕ)} {last : ℕ} {received : List ℕ} {root : List Node} where
  -- Storing a chunk of the window keeps it.
  pub Window-set :
      (j₀ : ℕ) (n : Node)
      → Window chunks last received root
      → last ≤ j₀
      → j₀ < last + 8
      → j₀ < length chunks
      → take n.size n.contents ≡ get_or chunks j₀ []
      → Window chunks last (set received (j₀ % 16) 1) (set root (j₀ - last) n)
  Window-set j₀ n w lo hi within data_eq = record {
    flags_len = length-set received (j₀ % 16) 1 ∙ w.flags_len;
    nodes_len = length-set root (j₀ - last) n ∙ w.nodes_len;
    held = λ j p q raised. elim (dec_eq j j₀) [
      | yes e ↦ (
        omega arith,
        omega arith,
        rw e (
            ap (λ (m : Node). take m.size m.contents)
              (get_or-set_self root (j₀ - last) n fresh_node (omega (arith, w.nodes_len)))
            ∙ data_eq),
      )
      | no ne ↦
          let old =
            w.held j p q
              (rw (get_or-set_ne received (j₀ % 16) (j % 16) 1 0 (omega arith)) at raised) in
          (
            old.0,
            old.1,
            ap (λ (m : Node). take m.size m.contents)
                  (get_or-set_ne root (j₀ - last) (j - last) n fresh_node (omega arith))
                ∙ old.2,
          )
    ];
  }

  -- Writing out the first chunk moves the window on by one.
  pub Window-shift :
      Window chunks last received root
      → Window chunks (last + 1) (set received (last % 16) 0) (enqueue (dequeue root) fresh_node)
  Window-shift w = record {
    flags_len = length-set received (last % 16) 0 ∙ w.flags_len;
    nodes_len = length-rotate root fresh_node 7 w.nodes_len;
    held = λ j p q raised. elim (dec_eq j (last + 16)) [
      | yes e ↦ absurd (raised (cleared j e))
      | no ne ↦
          let old =
            w.held j (omega arith) (omega arith)
              (rw (get_or-set_ne received (last % 16) (j % 16) 0 0 (omega arith)) at raised) in
          let next : suc (j - (last + 1)) ≡ j - last = omega arith in
          (
            omega arith,
            old.1,
            held_data-rotate root (j - (last + 1)) ∙ ap (held_data root) next ∙ old.2,
          )
    ];
  }
    where
      cleared : (j : ℕ) → j ≡ last + 16 → flag (set received (last % 16) 0) j ≡ 0
      cleared j e =
          let at : j % 16 ≡ last % 16 = omega arith in
          rw at (get_or-set_self received (last % 16) 0 0 (omega (arith, w.flags_len)))
