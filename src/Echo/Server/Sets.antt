-- ===== src/Echo/Server/Sets.antt =====
-- The descriptor sets of a pass of the server.
use comp429_computer_network.Base.{
  ℕ, ◌≤◌, ◌≡◌, refl, ◌⊎◌, inl, inr, List, [], ◌∷◌, ◌++◌, Bool, true, false, ◌||◌, arith, ltb, ◌==◌,
  ==_iff, if◌then◌else◌, Bool-cases,
}
use comp429_computer_network.Echo.Node.{Node}
use comp429_computer_network.Echo.Server.{Watch, watch_nodes, watch, is_member}

-- Every descriptor in the sets is at most the one that `select` is given.
abbrev Bounded : Watch → Type 0
Bounded w =
    (fd : ℕ) → (is_member fd w.read_set ≡ true) ⊎ (is_member fd w.write_set ≡ true) → fd ≤ w.max

either : (a b : Bool) → (a || b) ≡ true → (a ≡ true) ⊎ (b ≡ true)
either true b e = inl refl
either false b e = inr e

either_right : (a b : Bool) → b ≡ true → (a || b) ≡ true
either_right true b e = refl
either_right false b e = e

watch_nodes-Bounded : (nodes : List Node) (w : Watch) → Bounded w → Bounded (watch_nodes nodes w)
unfolding watch_nodes
watch_nodes-Bounded [] w h = h
watch_nodes-Bounded (n ∷ nodes) w h = watch_nodes-Bounded nodes _ (λ fd m. grown fd m)
  where
    larger :
        (fd : ℕ)
        → (fd ≤ w.max) ⊎ (fd ≡ n.socket)
        → fd ≤ (if ltb w.max n.socket then n.socket else w.max)
    larger fd (inl le) = ground arith
    larger fd (inr e) = ground arith

    one :
        (fd : ℕ) (xs : List ℕ)
        → is_member fd (n.socket ∷ xs) ≡ true
        → (fd ≡ n.socket) ⊎ (is_member fd xs ≡ true)
    one fd xs m =
        unfold is_member in
        elim (either (fd == n.socket) (is_member fd xs) m) [
          | inl e ↦ inl ((==_iff fd n.socket).0 e)
          | inr k ↦ inr k
        ]

    grown :
        (fd : ℕ)
        → (is_member fd (n.socket ∷ w.read_set) ≡ true)
          ⊎ (is_member fd (if n.pending_data == 0 then w.write_set else n.socket ∷ w.write_set)
              ≡ true)
        → fd ≤ (if ltb w.max n.socket then n.socket else w.max)
    grown fd (inl m) = elim (one fd w.read_set m) [
      | inl e ↦ larger fd (inr e)
      | inr k ↦ larger fd (inl (h fd (inl k)))
    ]
    grown fd (inr m) = elim (Bool-cases (n.pending_data == 0)) [
      | inl idle ↦ larger fd (inl (h fd (inr (rw idle at m))))
      | inr busy ↦ elim (one fd w.write_set (rw busy at m)) [
        | inl e ↦ larger fd (inr e)
        | inr k ↦ larger fd (inl (h fd (inr k)))
      ]
    ]

-- Every descriptor that the server puts in a set is at most the `max` that it gives to `select`.
pub watch-Bounded :
    (sock : ℕ) (nodes : List Node) (fd : ℕ)
    → (is_member fd (watch sock nodes).read_set ≡ true)
      ⊎ (is_member fd (watch sock nodes).write_set ≡ true)
    → fd ≤ (watch sock nodes).max
unfolding watch
watch-Bounded sock nodes = watch_nodes-Bounded nodes _ (λ fd m. first fd m)
  where
    first : (fd : ℕ) → (is_member fd (sock ∷ []) ≡ true) ⊎ (is_member fd [] ≡ true) → fd ≤ sock
    first fd (inl m) = unfold is_member in ground (arith, m)
    first fd (inr m) = unfold is_member in absurd (ground (arith, m))

-- The server listens to every connection.
watch_nodes-member :
    (nodes : List Node) (w : Watch) (fd : ℕ)
    → is_member fd w.read_set ≡ true
    → is_member fd (watch_nodes nodes w).read_set ≡ true
unfolding watch_nodes is_member
watch_nodes-member [] w fd m = m
watch_nodes-member (n ∷ nodes) w fd m =
    watch_nodes-member nodes _ fd (either_right (fd == n.socket) (is_member fd w.read_set) m)

pub watch_nodes-listens :
    (before after : List Node) (n : Node) (w : Watch)
    → is_member n.socket (watch_nodes (before ++ n ∷ after) w).read_set ≡ true
unfolding watch_nodes is_member
watch_nodes-listens [] after n w =
    let same : (n.socket == n.socket) ≡ true = (==_iff n.socket n.socket).1 refl in
    watch_nodes-member after _ n.socket (rw same refl)
watch_nodes-listens (m ∷ before) after n w = watch_nodes-listens before after n _
