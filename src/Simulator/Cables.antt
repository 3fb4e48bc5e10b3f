-- ===== src/Simulator/Cables.antt =====
-- Where the links of the network lead, and what is sent over them: Node.cc, `send`.
use comp429_computer_network.Base.{
  ℕ, ◌⊎◌, inl, inr, ◌>>=◌, ◌≤◌, u16, zero, suc, ◌+◌, ◌<◌, ◌≡◌, refl, sym, ap, ◌∙◌, inl, inr, List,
  [], ◌∷◌, Option, none, some, some-inj, get_elem?, set, length, arith, All, ◌==◌, if◌then◌else◌,
  Bool-cases, In,
}
use comp429_computer_network.Routing.State.{Router, Effect, send, set_alarm, overruns}
use comp429_computer_network.Routing.Within.{IsOn}
use comp429_computer_network.Routing.Starting.{Overran}
use comp429_computer_network.Simulator.{
  Simulator, Link, Node, Event, Timed, change_delay, link_die, link_come_up, xmit_end_to_end,
  xmit_on_link, recv_pkt, alarm, get_link_port, find_node, set_rp, node_send, sim_set_alarm,
  perform, handled,
}
use comp429_computer_network.Simulator.Ports.{find_node-id}

abbrev pub ids : List Node → List ℕ
ids [] = []
ids (n ∷ nodes) = n.id ∷ ids nodes

-- The links at the ports of the node with this id.
unfoldable pub vector_of : ℕ → List Node → Option (List ℕ)
vector_of id [] = none
vector_of id (n ∷ nodes) =
    let later = vector_of id nodes in if n.id == id then some n.link_vector else later

-- The nodes at the ends of a link.
abbrev pub pair_of : Link → ℕ × ℕ
pair_of link = (link.node1, link.node2)

unfoldable pub ends_of : ℕ → List Link → Option (ℕ × ℕ)
ends_of l [] = none
ends_of zero (link ∷ links) = some (pair_of link)
ends_of (suc l) (link ∷ links) = ends_of l links

pub find_node-vector_of :
    (id : ℕ) (nodes : List Node) (n : Node)
    → find_node id nodes ≡ some n
    → vector_of id nodes ≡ some n.link_vector
unfolding find_node vector_of
find_node-vector_of id [] n e = cc
find_node-vector_of id (m ∷ nodes) n e = elim (Bool-cases (m.id == id)) [
  | inl here ↦
      let same : some m ≡ some n = rw (find_node, here) at e in
      rw here (ap (λ (n : Node). some n.link_vector) (some-inj same))
  | inr further ↦ rw further (find_node-vector_of id nodes n (rw (find_node, further) at e))
]

pub vector_of-find_node :
    (id : ℕ) (nodes : List Node) (v : List ℕ)
    → vector_of id nodes ≡ some v
    → (n : Node) × (find_node id nodes ≡ some n) × (n.link_vector ≡ v)
unfolding find_node vector_of
vector_of-find_node id [] v e = cc
vector_of-find_node id (m ∷ nodes) v e = elim (Bool-cases (m.id == id)) [
  | inl here ↦
      let same : some m.link_vector ≡ some v = rw (vector_of, here) at e in
      (m, rw here refl, some-inj same)
  | inr further ↦
      let (n, found, same) = vector_of-find_node id nodes v (rw (vector_of, further) at e) in
      (n, rw (find_node, further) found, same)
]

pub ends_of-get_elem? :
    (l : ℕ) (links : List Link) (a b : ℕ)
    → ends_of l links ≡ some (a, b)
    → (link : Link) × (get_elem? links l ≡ some link) × (pair_of link ≡ (a, b))
unfolding ends_of
ends_of-get_elem? l [] a b e = cc
ends_of-get_elem? zero (link ∷ links) a b e = (link, refl, some-inj e)
ends_of-get_elem? (suc l) (link ∷ links) a b e = ends_of-get_elem? l links a b e

pub vector_of-set_rp :
    (id k : ℕ) (rp : Router) (nodes : List Node)
    → vector_of id (set_rp k rp nodes) ≡ vector_of id nodes
unfolding vector_of set_rp
vector_of-set_rp id k rp [] = refl
vector_of-set_rp id k rp (n ∷ nodes) = elim (Bool-cases (n.id == k)) [
  | inl here ↦ rw here refl
  | inr further ↦ elim (Bool-cases (n.id == id)) [
    | inl found ↦ rw (further, found) refl
    | inr not_yet ↦ rw (further, not_yet) (vector_of-set_rp id k rp nodes)
  ]
]

pub ends_of-set :
    (l i : ℕ) (links : List Link) (link new : Link)
    → get_elem? links i ≡ some link
    → pair_of new ≡ pair_of link
    → ends_of l (set links i new) ≡ ends_of l links
unfolding ends_of
ends_of-set l i [] link new e same = refl
ends_of-set zero zero (k ∷ links) link new e same = ap some (same ∙ ap pair_of (sym (some-inj e)))
ends_of-set (suc l) zero (k ∷ links) link new e same = refl
ends_of-set zero (suc i) (k ∷ links) link new e same = refl
ends_of-set (suc l) (suc i) (k ∷ links) link new e same = ends_of-set l i links link new e same

-- A link that a node holds is at one of its ports.
get_link_port-In :
    (l i : ℕ) (ls : List ℕ)
    → In l ls
    → (q : ℕ) × (get_link_port l i ls ≡ some (u16 (i + q))) × (q < length ls)
unfolding get_link_port
get_link_port-In l i [] h = absurd h
get_link_port-In l i (k ∷ ls) h = elim (Bool-cases (k == l)) [
  | inl here ↦
      (0, let at : i ≡ i + 0 = omega arith in rw here (ap (λ k. some (u16 k)) at), omega arith)
  | inr further ↦
      let in_rest : In l ls = elim h [
        | inl same ↦ absurd (ground (arith, same, further))
        | inr later ↦ later
      ] in
      let (q, e, lt) = get_link_port-In l (i + 1) ls in_rest in
      let at : i + 1 + q ≡ i + suc q = omega arith in
      (suc q, rw further (e ∙ ap (λ k. some (u16 k)) at), omega arith)
]

pub get_elem?-lt :
    (ls : List ℕ) (k : ℕ) → k < length ls → (l : ℕ) × (get_elem? ls k ≡ some l) × In l ls
get_elem?-lt [] k lt = absurd (omega arith)
get_elem?-lt (l ∷ ls) zero lt = (l, refl, inl refl)
get_elem?-lt (m ∷ ls) (suc k) lt = let (l, e, h) = get_elem?-lt ls k (omega arith) in (l, e, inr h)

-- A network that stands still: the links at each node's ports, and the ends of each link.
module _ (vectors : ℕ → Option (List ℕ)) (ends : ℕ → Option (ℕ × ℕ)) where
  abbrev pub Holds : ℕ → ℕ → Type 0
  Holds id l = (v : List ℕ) × (vectors id ≡ some v) × In l v

  -- Both ends of a link hold it, and what a node holds is a link.
  pub record Cabled : Type 0 where
    pub both : (l a b : ℕ) → ends l ≡ some (a, b) → Holds a l × Holds b l
    pub real : (id l : ℕ) → Holds id l → (a : ℕ) × (b : ℕ) × (ends l ≡ some (a, b))

  abbrev pub IsNode : ℕ → Type 0
  IsNode id = (v : List ℕ) × (vectors id ≡ some v)

  abbrev pub HasPort : ℕ → ℕ → Type 0
  HasPort id port = (v : List ℕ) × (vectors id ≡ some v) × (port < length v)

  abbrev pub IsLink : ℕ → Type 0
  IsLink l = (a : ℕ) × (b : ℕ) × (ends l ≡ some (a, b))

  -- The nodes, ports and links that an event names are there.
  abbrev pub IsPlaced : Event → Type 0
  IsPlaced (change_delay l d) = IsLink l
  IsPlaced (link_die l) = IsLink l
  IsPlaced (link_come_up l) = IsLink l
  IsPlaced (xmit_end_to_end src packet) = IsNode src
  IsPlaced (xmit_on_link dest dport l packet) = HasPort dest dport × IsLink l
  IsPlaced (recv_pkt dest dport packet) = HasPort dest dport
  IsPlaced (alarm id kind) = IsNode id

  abbrev pub ArePlaced : List Timed → Type 0
  ArePlaced = All (λ e. IsPlaced e.event)

  -- A simulator on this network.
  pub record IsOver (s : Simulator) : Type 0 where
    pub nodes : (id : ℕ) → vector_of id s.nodes ≡ vectors id
    pub links : (l : ℕ) → ends_of l s.links ≡ ends l

  module _ (cabled : Cabled) (s : Simulator) (shape : IsOver s) where
    -- Where the clock is not near its end, these are not in the past.
    abbrev pub Later : List Timed → Type 0
    Later es = s.global_time + 30000 < 4294967296 → All (λ e. s.global_time ≤ e.time) es

    sent :
        (n m : Node) (port l q : ℕ) (link : Link) (packet : List ℕ)
        → get_elem? n.link_vector (u16 port) ≡ some l
        → get_elem? s.links l ≡ some link
        → find_node (if link.node1 == n.id then link.node2 else link.node1) s.nodes ≡ some m
        → get_link_port l 0 m.link_vector ≡ some q
        → node_send s n port packet
          ≡ some (record { time = s.global_time; event = xmit_on_link m.id q l packet })
    unfolding node_send
    sent n m port l q link packet at there found port_at = rw (at, there, found, port_at) refl

    -- A node that holds the link takes what is sent over it at one of its ports.
    arrives :
        (l o : ℕ)
        → Holds o l
        → (m : Node) × (q : ℕ) × (find_node o s.nodes ≡ some m)
          × (get_link_port l 0 m.link_vector ≡ some q)
          × HasPort m.id q
    arrives l o (v, at, holds) =
        let (m, found, same) = vector_of-find_node o s.nodes v (shape.nodes o ∙ at) in
        port_of m found same
      where
        port_of :
            (m : Node)
            → find_node o s.nodes ≡ some m
            → m.link_vector ≡ v
            → (m : Node) × (q : ℕ) × (find_node o s.nodes ≡ some m)
              × (get_link_port l 0 m.link_vector ≡ some q)
              × HasPort m.id q
        port_of m found same =
            let (q, port_at, lt) = get_link_port-In l 0 v holds in
            let id_m = find_node-id o s.nodes m found in
            (m, u16 (0 + q), found, rw same port_at, (v, ap vectors id_m ∙ at, omega (arith, lt)))

    other_end-Holds :
        (n l : ℕ) (link : Link)
        → Holds link.node1 l × Holds link.node2 l
        → Holds (if link.node1 == n then link.node2 else link.node1) l
    other_end-Holds n l link held = elim (Bool-cases (link.node1 == n)) [
      | inl one ↦ rw one held.1
      | inr two ↦ rw two held.0
    ]

    node_send-IsPlaced :
        (n : Node) (port : ℕ) (packet : List ℕ)
        → vectors n.id ≡ some n.link_vector
        → port < length n.link_vector
        → (e : Timed) × (node_send s n port packet ≡ some e) × IsPlaced e.event
    node_send-IsPlaced n port packet vector lt =
        let (l, at, holds) = get_elem?-lt n.link_vector (u16 port) (omega (arith, lt)) in
        let (a, b, ends_at) = cabled.real n.id l (n.link_vector, vector, holds) in
        let (link, there, same) = ends_of-get_elem? l s.links a b (shape.links l ∙ ends_at) in
        let ends_of_it : ends l ≡ some (link.node1, link.node2) = ends_at ∙ ap some (sym same) in
        let held = cabled.both l link.node1 link.node2 ends_of_it in
        let (m, q, found, port_at, has) = arrives l _ (other_end-Holds n.id l link held) in
        (
          record { time = s.global_time; event = xmit_on_link m.id q l packet },
          sent n m port l q link packet at there found port_at,
          (has, (link.node1, link.node2, ends_of_it)),
        )

    node_send-now :
        (n : Node) (port : ℕ) (packet : List ℕ) (e : Timed)
        → node_send s n port packet ≡ some e
        → e.time ≡ s.global_time
    node_send-now n port packet e gone = rw gone at (at_time n port packet)
      where
        AtNow : Option Timed → Type 0
        AtNow none = Unit {0}
        AtNow (some e) = e.time ≡ s.global_time

        bound :
            {A : Type 0} (o : Option A) (f : A → Option Timed)
            → ((a : A) → AtNow (f a))
            → AtNow (o >>= f)
        bound none f h = tt
        bound (some a) f h = h a

        at_time : (n : Node) (port : ℕ) (packet : List ℕ) → AtNow (node_send s n port packet)
        at_time n port packet =
            unfold node_send in
            bound (get_elem? n.link_vector (u16 port)) _ λ l. bound (get_elem? s.links l) _ λ link.
              bound (find_node (if link.node1 == n.id then link.node2 else link.node1) s.nodes) _
                λ m. bound (get_link_port l 0 m.link_vector) _ λ q. refl

    perform-ArePlaced :
        (n : Node) (effects : List Effect)
        → vectors n.id ≡ some n.link_vector
        → All (IsOn (length n.link_vector)) effects
        → ((es : List Timed) × (perform s n effects ≡ some es) × ArePlaced es × Later es)
          ⊎ Overran effects
    unfolding perform sim_set_alarm
    perform-ArePlaced n [] vector h = inl ([], refl, tt, λ soon. tt)
    perform-ArePlaced n (send port packet ∷ effects) vector h =
        let (e, gone, placed) = node_send-IsPlaced n port packet vector h.0 in
        let now = node_send-now n port packet e gone in
        elim (perform-ArePlaced n effects vector h.1) [
          | inl (es, done, all, later) ↦ inl (
            e ∷ es,
            rw (gone, done) refl,
            (placed, all),
            λ soon. (omega (arith, now), later soon),
          )
          | inr past ↦ inr (inr past)
        ]
    perform-ArePlaced n (set_alarm duration kind ∷ effects) vector h =
        elim (perform-ArePlaced n effects vector h.1) [
          | inl (es, done, all, later) ↦
              let short : duration ≤ 30000 = h.0 in
              inl (
                sim_set_alarm s n.id duration kind ∷ es,
                rw done refl,
                ((n.link_vector, vector), all),
                λ soon. (omega (arith, soon, short), later soon),
              )
          | inr past ↦ inr (inr past)
        ]
    perform-ArePlaced n (overruns count ∷ effects) vector h = inr (inl h.0)

    -- The calls of a handler are carried out, and the network stands.
    pub handled-ArePlaced :
        (n : Node) (r : Router)
        → vectors n.id ≡ some n.link_vector
        → All (IsOn (length n.link_vector)) r.effects
        → ((es : List Timed) × (handled s n r
              ≡ some (record s { nodes = set_rp n.id (record r { effects = [] }) s.nodes }, es))
            × ArePlaced es
            × Later es)
          ⊎ Overran r.effects
    unfolding handled
    handled-ArePlaced n r vector h = elim (perform-ArePlaced n r.effects vector h) [
      | inl (es, done, all, later) ↦ inl (es, rw done refl, all, later)
      | inr past ↦ inr past
    ]

    pub set_rp-IsOver : (id : ℕ) (rp : Router) → IsOver (record s { nodes = set_rp id rp s.nodes })
    set_rp-IsOver id rp = record {
      nodes = λ k. vector_of-set_rp k id rp s.nodes ∙ shape.nodes k;
      links = shape.links;
    }
