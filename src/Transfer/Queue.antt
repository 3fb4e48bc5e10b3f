-- ===== src/Transfer/Queue.antt =====
-- project2/fix_queue.h: the singly linked list of packet buffers, as the list of its nodes. A node
-- is in one queue at a time, and its buffer belongs to it alone.
use comp429_computer_network.Base.{
  ℕ, zero, suc, ◌≡◌, refl, List, [], ◌∷◌, ◌++◌, Option, none, some, get_elem?, ap,
}

-- `struct Node`, less its link.
pub record Node : Type 0 where
  pub contents : List ℕ
  pub size : ℕ

-- The walk to the last node.
unfoldable pub enqueue : List Node → Node → List Node
enqueue [] new_node = new_node ∷ []
enqueue (n ∷ rest) new_node = n ∷ enqueue rest new_node

unfoldable pub dequeue : List Node → List Node
dequeue [] = []
dequeue (n ∷ rest) = rest

-- `while (k > 0 && temp->next)`, then the test of what is left of `k`; no caller passes a negative k.
unfoldable pub get_k : List Node → ℕ → Option Node
get_k [] k = none
get_k (n ∷ rest) zero = some n
get_k (n ∷ []) (suc k) = none
get_k (n ∷ m ∷ rest) (suc k) = get_k (m ∷ rest) k

pub enqueue-append : (q : List Node) (n : Node) → enqueue q n ≡ q ++ n ∷ []
unfolding enqueue
enqueue-append [] n = refl
enqueue-append (m ∷ q) n = ap (◌∷◌ m) (enqueue-append q n)

-- `GetK` finds the node at its position in the queue, and NULL past the end.
pub get_k-get_elem? : (q : List Node) (k : ℕ) → get_k q k ≡ get_elem? q k
unfolding get_k
get_k-get_elem? [] k = refl
get_k-get_elem? (n ∷ q) zero = refl
get_k-get_elem? (n ∷ []) (suc k) = refl
get_k-get_elem? (n ∷ m ∷ q) (suc k) = get_k-get_elem? (m ∷ q) k
