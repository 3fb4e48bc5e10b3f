-- ===== src/Simulator/Wiring.antt =====
-- How the reader of the configuration file wires the nodes.
use comp429_computer_network.Base.{
  ℕ, zero, suc, ◌<◌, ◌≡◌, refl, sym, ap, subst, ◌∙◌, ◌⊎◌, inl, inr, List, [], ◌∷◌, ◌++◌, true,
  false, Option, none, some, some-inj, length, arith, All, ◌==◌, ==_iff, if◌then◌else◌, Bool-cases,
  In, Unrepeated,
}
use comp429_computer_network.Simulator.{Link, Node, add_node}
use comp429_computer_network.Simulator.Config.{Net, add_link}
use comp429_computer_network.Simulator.Cables.{ids, vector_of, ends_of, pair_of, Cabled}

-- The node with this id has the link at a port.
abbrev pub Has : List Node → ℕ → ℕ → Type 0
Has nodes id l = (v : List ℕ) × (vector_of id nodes ≡ some v) × In l v

abbrev snoc : ℕ → Option (List ℕ) → Option (List ℕ)
snoc l none = none
snoc l (some v) = some (v ++ l ∷ [])

vector_of-add_link :
    (k id l : ℕ) (nodes : List Node)
    → vector_of k (add_link id l nodes)
      ≡ (if id == k then snoc l (vector_of k nodes) else vector_of k nodes)
unfolding vector_of add_link
vector_of-add_link k id l [] = elim (Bool-cases (id == k)) [ inl e ↦ rw e refl | inr e ↦ rw e refl ]
vector_of-add_link k id l (n ∷ nodes) = elim (Bool-cases (n.id == id)) [
  | inl this ↦ elim (Bool-cases (n.id == k)) [
    | inl that ↦
        let both : (id == k) ≡ true = ground (arith, this, that) in rw (this, that, both) refl
    | inr not_that ↦
        let neither : (id == k) ≡ false = ground (arith, this, not_that) in
        rw (this, not_that, neither) refl
  ]
  | inr other ↦ elim (Bool-cases (n.id == k)) [
    | inl that ↦
        let apart : (id == k) ≡ false = ground (arith, other, that) in rw (other, that, apart) refl
    | inr not_that ↦ rw (other, not_that) (vector_of-add_link k id l nodes)
  ]
]

In-snoc : (x l : ℕ) (v : List ℕ) → In x v ⊎ (x ≡ l) → In x (v ++ l ∷ [])
In-snoc x l [] (inl h) = absurd h
In-snoc x l [] (inr e) = inl e
In-snoc x l (y ∷ v) (inl (inl e)) = inl e
In-snoc x l (y ∷ v) (inl (inr h)) = inr (In-snoc x l v (inl h))
In-snoc x l (y ∷ v) (inr e) = inr (In-snoc x l v (inr e))

In-snoc_back : (x l : ℕ) (v : List ℕ) → In x (v ++ l ∷ []) → In x v ⊎ (x ≡ l)
In-snoc_back x l [] (inl e) = inr e
In-snoc_back x l [] (inr h) = absurd h
In-snoc_back x l (y ∷ v) (inl e) = inl (inl e)
In-snoc_back x l (y ∷ v) (inr h) = elim (In-snoc_back x l v h) [
  | inl k ↦ inl (inr k)
  | inr e ↦ inr e
]

module _ (id l : ℕ) (nodes : List Node) where
  -- What a node has it keeps.
  add_link-Has : (k x : ℕ) → Has nodes k x → Has (add_link id l nodes) k x
  add_link-Has k x (v, at, h) = elim (Bool-cases (id == k)) [
    | inl same ↦
        (v ++ l ∷ [], rw (vector_of-add_link k id l nodes, same, at) refl, In-snoc x l v (inl h))
    | inr other ↦ (v, rw (vector_of-add_link k id l nodes, other) at, h)
  ]

  add_link-Has_new : (v : List ℕ) → vector_of id nodes ≡ some v → Has (add_link id l nodes) id l
  add_link-Has_new v at =
      let same : (id == id) ≡ true = (==_iff id id).1 refl in
      (v ++ l ∷ [], rw (vector_of-add_link id id l nodes, same, at) refl, In-snoc l l v (inr refl))

  add_link-Has_back : (k x : ℕ) → Has (add_link id l nodes) k x → Has nodes k x ⊎ (x ≡ l)
  add_link-Has_back k x (v, at, h) = elim (Bool-cases (id == k)) [
    | inl same ↦
        by_vector (vector_of k nodes) refl (rw (vector_of-add_link k id l nodes, same) at at)
    | inr other ↦ inl (v, rw (vector_of-add_link k id l nodes, other) at at, h)
  ]
    where
      by_vector :
          (o : Option (List ℕ))
          → vector_of k nodes ≡ o
          → snoc l o ≡ some v
          → Has nodes k x ⊎ (x ≡ l)
      by_vector none at' e = cc
      by_vector (some w) at' e = elim (In-snoc_back x l w (subst (In x) (sym (some-inj e)) h)) [
        | inl old ↦ inl (w, at', old)
        | inr new ↦ inr new
      ]

ids-add_link : (id l : ℕ) (nodes : List Node) → ids (add_link id l nodes) ≡ ids nodes
unfolding add_link
ids-add_link id l [] = refl
ids-add_link id l (n ∷ nodes) = elim (Bool-cases (n.id == id)) [
  | inl this ↦ rw this refl
  | inr other ↦ rw other (ap (λ ks. n.id ∷ ks) (ids-add_link id l nodes))
]

ends_of-snoc :
    (l : ℕ) (links : List Link) (link : Link) (p : ℕ × ℕ)
    → ends_of l (links ++ link ∷ []) ≡ some p
    → (ends_of l links ≡ some p) ⊎ ((l ≡ length links) × (pair_of link ≡ p))
unfolding ends_of
ends_of-snoc zero [] link p e = inr (refl, some-inj e)
ends_of-snoc (suc l) [] link p e = cc
ends_of-snoc zero (k ∷ links) link p e = inl e
ends_of-snoc (suc l) (k ∷ links) link p e = elim (ends_of-snoc l links link p e) [
  | inl old ↦ inl old
  | inr (at, same) ↦ inr (ap suc at, same)
]

ends_of-lt :
    (l : ℕ) (links : List Link)
    → l < length links
    → (a : ℕ) × (b : ℕ) × (ends_of l links ≡ some (a, b))
unfolding ends_of
ends_of-lt l [] lt = absurd (omega arith)
ends_of-lt zero (link ∷ links) lt = (link.node1, link.node2, refl)
ends_of-lt (suc l) (link ∷ links) lt = ends_of-lt l links (omega arith)

length-snoc : (links : List Link) (link : Link) → length (links ++ link ∷ []) ≡ suc (length links)
length-snoc [] link = refl
length-snoc (k ∷ links) link = ap suc (length-snoc links link)

-- No two nodes have one id, both ends of a link hold it, and what a node holds is a link.
pub record IsWired (net : Net) : Type 0 where
  pub unique : Unrepeated (ids net.nodes)
  pub both : (l a b : ℕ) → ends_of l net.links ≡ some (a, b) → Has net.nodes a l × Has net.nodes b l
  pub real : (id l : ℕ) → Has net.nodes id l → l < length net.links

-- A new link between two nodes.
pub add-IsWired :
    (link : Link) (net : Net) (v w : List ℕ)
    → vector_of link.node1 net.nodes ≡ some v
    → vector_of link.node2 net.nodes ≡ some w
    → IsWired net
    → IsWired (record {
      nodes =
          add_link link.node2 (length net.links) (add_link link.node1 (length net.links) net.nodes);
      links = net.links ++ link ∷ [];
    })
add-IsWired link net v w at_a at_b h = record {
  unique = rw (ids-add_link link.node2 new once, ids-add_link link.node1 new net.nodes) h.unique;
  both = λ l a b e. elim (ends_of-snoc l net.links link (a, b) e) [
    | inl old ↦ (kept a l (h.both l a b old).0, kept b l (h.both l a b old).1)
    | inr (at, same) ↦
        let one : Has twice link.node1 new =
          add_link-Has link.node2 new once link.node1 new
            (add_link-Has_new link.node1 new net.nodes v at_a) in
        let (w', at_b') = second in
        let two : Has twice link.node2 new = add_link-Has_new link.node2 new once w' at_b' in
        (
          subst (λ k. Has twice k l) (ap (λ (p : ℕ × ℕ). p.0) same)
              (subst (Has twice link.node1) (sym at) one),
          subst (λ k. Has twice k l) (ap (λ (p : ℕ × ℕ). p.1) same)
              (subst (Has twice link.node2) (sym at) two),
        )
  ];
  real = λ id l has.
      let size = length-snoc net.links link in
      elim (add_link-Has_back link.node2 new once id l has) [
        | inl first ↦ elim (add_link-Has_back link.node1 new net.nodes id l first) [
          | inl old ↦ let lt = h.real id l old in omega (arith, lt, size)
          | inr e ↦ omega (arith, e, size)
        ]
        | inr e ↦ omega (arith, e, size)
      ];
}
  where
    new : ℕ
    new = length net.links

    once : List Node
    once = add_link link.node1 new net.nodes

    twice : List Node
    twice = add_link link.node2 new once

    kept : (k x : ℕ) → Has net.nodes k x → Has twice k x
    kept k x has =
        add_link-Has link.node2 new once k x (add_link-Has link.node1 new net.nodes k x has)

    second : (w' : List ℕ) × (vector_of link.node2 once ≡ some w')
    second = elim (Bool-cases (link.node1 == link.node2)) [
      | inl same ↦ (
        w ++ new ∷ [],
        rw (vector_of-add_link link.node2 link.node1 new net.nodes, same, at_b) refl,
      )
      | inr other ↦ (w, rw (vector_of-add_link link.node2 link.node1 new net.nodes, other) at_b)
    ]

-- Nodes before there are links.
pub record IsBare (nodes : List Node) : Type 0 where
  pub once : Unrepeated (ids nodes)
  pub empty : All (λ n. n.link_vector ≡ []) nodes

In-add_node :
    (k : ℕ) (n : Node) (nodes : List Node)
    → In k (ids (add_node n nodes))
    → (k ≡ n.id) ⊎ In k (ids nodes)
unfolding add_node
In-add_node k n [] (inl e) = inl e
In-add_node k n [] (inr h) = absurd h
In-add_node k n (m ∷ nodes) h = elim (Bool-cases (m.id == n.id)) [
  | inl same ↦
      let h' : (k ≡ n.id) ⊎ In k (ids nodes) = rw (add_node, same) at h in
      elim h' [ inl e ↦ inl e | inr later ↦ inr (inr later) ]
  | inr other ↦ elim (rw (add_node, other) at h) [
    | inl e ↦ inr (inl e)
    | inr later ↦ elim (In-add_node k n nodes later) [ inl e ↦ inl e | inr old ↦ inr (inr old) ]
  ]
]

add_node-once :
    (n : Node) (nodes : List Node) → Unrepeated (ids nodes) → Unrepeated (ids (add_node n nodes))
unfolding add_node
add_node-once n [] h = ((λ e. e), tt)
add_node-once n (m ∷ nodes) h = elim (Bool-cases (m.id == n.id)) [
  | inl same ↦ rw same (rw ((==_iff m.id n.id).0 same) at h)
  | inr other ↦ rw other (
    (λ k. elim (In-add_node m.id n nodes k) [
      | inl e ↦ absurd (ground (arith, e, other))
      | inr old ↦ h.0 old
    ]),
    add_node-once n nodes h.1,
  )
]

add_node-empty :
    (n : Node) (nodes : List Node)
    → n.link_vector ≡ []
    → All (λ n. n.link_vector ≡ []) nodes
    → All (λ n. n.link_vector ≡ []) (add_node n nodes)
unfolding add_node
add_node-empty n [] e h = (e, tt)
add_node-empty n (m ∷ nodes) e h = elim (Bool-cases (m.id == n.id)) [
  | inl same ↦ rw same (e, h.1)
  | inr other ↦ rw other (h.0, add_node-empty n nodes e h.1)
]

pub add_node-IsBare :
    (n : Node) (nodes : List Node) → n.link_vector ≡ [] → IsBare nodes → IsBare (add_node n nodes)
add_node-IsBare n nodes bare h = record {
  once = add_node-once n nodes h.once;
  empty = add_node-empty n nodes bare h.empty;
}

empty-Has :
    (nodes : List Node) (id l : ℕ) → All (λ n. n.link_vector ≡ []) nodes → Has nodes id l → ⊥
unfolding vector_of
empty-Has [] id l h (v, e, k) = cc
empty-Has (n ∷ nodes) id l h (v, e, k) = elim (Bool-cases (n.id == id)) [
  | inl this ↦
      let same : some n.link_vector ≡ some v = rw (vector_of, this) at e in
      let nothing : v ≡ [] = sym (some-inj same) ∙ h.0 in rw nothing at k
  | inr other ↦ empty-Has nodes id l h.1 (v, rw (vector_of, other) at e, k)
]

pub IsBare-IsWired :
    (nodes : List Node) → IsBare nodes → IsWired (record { nodes = nodes; links = [] })
unfolding ends_of
IsBare-IsWired nodes h = record {
  unique = h.once;
  both = λ l a b e. cc;
  real = λ id l has. absurd (empty-Has nodes id l h.empty has);
}

pub IsWired-Cabled :
    (net : Net) → IsWired net → Cabled (λ id. vector_of id net.nodes) (λ l. ends_of l net.links)
IsWired-Cabled net h = record {
  both = h.both;
  real = λ id l has. ends_of-lt l net.links (h.real id l has);
}

-- Without a second node of the same id, every node is the one that its id finds.
pub unique-listed :
    (nodes : List Node)
    → Unrepeated (ids nodes)
    → All (λ n. vector_of n.id nodes ≡ some n.link_vector) nodes
unfolding vector_of
unique-listed [] h = tt
unique-listed (n ∷ nodes) h =
    let self : (n.id == n.id) ≡ true = (==_iff n.id n.id).1 refl in
    (rw self refl, behind nodes h.0 (unique-listed nodes h.1))
  where
    behind :
        (ms : List Node)
        → (In n.id (ids ms) → ⊥)
        → All (λ m. vector_of m.id nodes ≡ some m.link_vector) ms
        → All (λ m. vector_of m.id (n ∷ nodes) ≡ some m.link_vector) ms
    behind [] apart k = tt
    behind (m ∷ ms) apart k =
        let other : (n.id == m.id) ≡ false = elim (Bool-cases (n.id == m.id)) [
          | inl same ↦ absurd (apart (inl ((==_iff n.id m.id).0 same)))
          | inr ne ↦ ne
        ] in
        (rw other k.0, behind ms (λ i. apart (inr i)) k.1)
