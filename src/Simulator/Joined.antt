-- ===== src/Simulator/Joined.antt =====
-- The nodes and the links that the reader of the configuration file makes.
use comp429_computer_network.Base.{
  ℕ, ◌<◌, ◌≡◌, refl, List, [], ◌∷◌, ◌++◌, Option, some, arith, All, Bool-cases, Option-cases, inl,
  inr, ◌>>=◌, ◌==◌, if◌then◌else◌,
}
use comp429_computer_network.Routing.State.{p_dv}
use comp429_computer_network.Routing.Protocol.{fresh_router}
use comp429_computer_network.Routing.Consistency.Handlers.Reach.{fresh_router-IsSettled}
use comp429_computer_network.Simulator.{Node, Link, add_node, new_node, find_node}
use comp429_computer_network.Simulator.Text.{trim}
use comp429_computer_network.Simulator.Config.{
  Decimals, Net, Read, read_nodes, read_links, has_bracket, add_nodes, add_link, connect, read_link,
  split_blank,
}
use comp429_computer_network.Simulator.Cables.{find_node-vector_of}
use comp429_computer_network.Simulator.Wiring.{IsBare, IsWired, add_node-IsBare, add-IsWired}
use comp429_computer_network.Simulator.Sound.{IsSound, OnSome, any, bind-OnSome}

new_node-IsSound : (id : ℕ) → id < 65536 → IsSound (new_node id [])
unfolding new_node fresh_router
new_node-IsSound id small = record {
  small = small;
  settled = fresh_router-IsSettled 0 id p_dv;
  same_id = refl;
  quiet = refl;
}

add_node-All :
    (n : Node) (nodes : List Node) → IsSound n → All IsSound nodes → All IsSound (add_node n nodes)
unfolding add_node
add_node-All n [] h k = (h, tt)
add_node-All n (m ∷ nodes) h k = elim (Bool-cases (m.id == n.id)) [
  | inl same ↦ rw same (h, k.1)
  | inr other ↦ rw other (k.0, add_node-All n nodes h k.1)
]

-- Sound nodes, without links.
pub record IsFresh (nodes : List Node) : Type 0 where
  pub sound : All IsSound nodes
  pub bare : IsBare nodes

new_node-bare : (id : ℕ) → (new_node id []).link_vector ≡ []
unfolding new_node
new_node-bare id = refl

add_new-IsFresh :
    (id : ℕ) (nodes : List Node)
    → id < 65536
    → IsFresh nodes
    → IsFresh (add_node (new_node id []) nodes)
add_new-IsFresh id nodes small h = record {
  sound = add_node-All (new_node id []) nodes (new_node-IsSound id small) h.sound;
  bare = add_node-IsBare (new_node id []) nodes (new_node-bare id) h.bare;
}

add_nodes-IsFresh :
    (ws : List (List ℕ)) (nodes : List Node) → IsFresh nodes → IsFresh (add_nodes ws nodes)
unfolding add_nodes
add_nodes-IsFresh [] nodes h = h
add_nodes-IsFresh (w ∷ ws) nodes h =
    add_nodes-IsFresh ws _ (add_new-IsFresh _ nodes (omega arith) h)

pub read_nodes-IsFresh :
    (ls : List (List ℕ)) (nodes : List Node)
    → IsFresh nodes
    → OnSome (λ r. IsFresh r.value) (read_nodes ls nodes)
unfolding read_nodes
read_nodes-IsFresh [] nodes h = tt
read_nodes-IsFresh (l ∷ ls) nodes h = elim (Bool-cases (has_bracket (trim l))) [
  | inl title ↦ rw title h
  | inr more ↦ rw more (read_nodes-IsFresh ls _ (add_nodes-IsFresh (split_blank (trim l)) nodes h))
]

add_link-All :
    (id l : ℕ) (nodes : List Node) → All IsSound nodes → All IsSound (add_link id l nodes)
unfolding add_link
add_link-All id l [] h = tt
add_link-All id l (n ∷ nodes) h = elim (Bool-cases (n.id == id)) [
  | inl same ↦ rw same (
    record { small = h.0.small; settled = h.0.settled; same_id = h.0.same_id; quiet = h.0.quiet },
    h.1,
  )
  | inr other ↦ rw other (h.0, add_link-All id l nodes h.1)
]

-- Sound nodes that are wired by links.
pub record IsNet (net : Net) : Type 0 where
  pub sound : All IsSound net.nodes
  pub wired : IsWired net

pub All-snoc :
    {A : Type 0} (P : A → Type 0) (xs : List A) (x : A) → All P xs → P x → All P (xs ++ x ∷ [])
All-snoc P [] x h k = (k, tt)
All-snoc P (y ∷ xs) x h k = (h.0, All-snoc P xs x h.1 k)

connect-IsNet : (link : Link) (net : Net) → IsNet net → OnSome IsNet (connect link net)
unfolding connect
connect-IsNet link net h = elim (Option-cases (find_node link.node1 net.nodes)) [
  | inl none_of ↦ rw none_of tt
  | inr (a, from) ↦ elim (Option-cases (find_node link.node2 net.nodes)) [
    | inl none_of ↦ rw (from, none_of) tt
    | inr (b, to) ↦
        rw (from, to)
          (record {
            sound = add_link-All link.node2 _ _ (add_link-All link.node1 _ net.nodes h.sound);
            wired =
                add-IsWired link net a.link_vector b.link_vector
                  (find_node-vector_of link.node1 net.nodes a from)
                  (find_node-vector_of link.node2 net.nodes b to) h.wired;
          })
  ]
]

pub read_links-IsNet :
    (decimals : Decimals) (ls : List (List ℕ)) (net : Net)
    → IsNet net
    → OnSome (λ r. IsNet r.value) (read_links decimals ls net)
unfolding read_links
read_links-IsNet decimals [] net h = h
read_links-IsNet decimals (l ∷ ls) net h =
    by_line (λ net' h'. read_links-IsNet decimals ls net' h') (trim l)
  where
    Later : Type 0
    Later = (net' : Net) → IsNet net' → OnSome (λ r. IsNet r.value) (read_links decimals ls net')

    next : Option (Read Net)
    next = (read_link decimals (trim l) >>= λ link. connect link net) >>= λ net'.
        read_links decimals ls net'

    next-IsNet : Later → OnSome (λ r. IsNet r.value) next
    next-IsNet later =
        bind-OnSome IsNet (λ r. IsNet r.value)
          (read_link decimals (trim l) >>= λ link. connect link net) _
          (bind-OnSome (λ link. Unit {0}) IsNet (read_link decimals (trim l)) _ (any _)
            λ link _. connect-IsNet link net h)
          later

    by_line :
        Later
        → (line : List ℕ)
        → OnSome
            (λ r. IsNet r.value)
            (elim line [
              | [] ↦ read_links decimals ls net
              | c ∷ t ↦
                  if has_bracket (c ∷ t)
                  then some (record { value = net; line = c ∷ t; lines = ls })
                  else next
            ])
    by_line later [] = later net h
    by_line later (c ∷ t) = elim (Bool-cases (has_bracket (c ∷ t))) [
      | inl title ↦ rw title h
      | inr more ↦ rw more (next-IsNet later)
    ]
