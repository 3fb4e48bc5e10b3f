-- ===== src/Simulator/Ports.antt =====
-- Which port a packet arrives at: Node.cc, `send` and `get_link_port`.
use comp429_computer_network.Base.{
  ℕ, length, u16, ◌≤◌, ◌<◌, zero, suc, ◌+◌, ◌≡◌, ◌≢◌, refl, sym, ap, ◌∙◌, ◌⊎◌, inl, inr, List, [],
  ◌∷◌, true, false, some, some-inj, get_elem?, arith, ◌==◌, ==_iff, if◌then◌else◌, Bool-cases, In,
  Unrepeated,
}
use comp429_computer_network.Simulator.{
  Simulator, Link, Node, xmit_on_link, get_link_port, find_node, node_send,
}

In-get_elem? : (ls : List ℕ) (k l : ℕ) → get_elem? ls k ≡ some l → In l ls
In-get_elem? [] k l e = cc
In-get_elem? (m ∷ ls) zero l e = inl (sym (some-inj e))
In-get_elem? (m ∷ ls) (suc k) l e = inr (In-get_elem? ls k l e)

-- A link that stands once in a node's list is at its port.
get_link_port-only :
    (l i : ℕ) (ls : List ℕ) (k : ℕ)
    → Unrepeated ls
    → i + length ls ≤ 65536
    → get_elem? ls k ≡ some l
    → get_link_port l i ls ≡ some (i + k)
unfolding get_link_port
get_link_port-only l i [] k once small e = cc
get_link_port-only l i (m ∷ ls) zero once small e =
    let this : (m == l) ≡ true = (==_iff m l).1 (some-inj e) in
    let at : u16 i ≡ i + 0 = omega (arith, small) in rw (get_link_port, this) (ap some at)
get_link_port-only l i (m ∷ ls) (suc k) once small e = elim (Bool-cases (m == l)) [
  | inl this ↦ absurd (once.0 (rw (sym ((==_iff m l).0 this)) at (In-get_elem? ls k l e)))
  | inr further ↦
      let at : i + 1 + k ≡ i + suc k = omega arith in
      rw (get_link_port, further)
        (get_link_port-only l (i + 1) ls k once.1 (omega (arith, small)) e ∙ ap some at)
]

get_elem?-lt : (ls : List ℕ) (k l : ℕ) → get_elem? ls k ≡ some l → k < length ls
get_elem?-lt [] k l e = cc
get_elem?-lt (m ∷ ls) zero l e = omega arith
get_elem?-lt (m ∷ ls) (suc k) l e = let lt = get_elem?-lt ls k l e in omega arith

pub find_node-id : (id : ℕ) (nodes : List Node) (n : Node) → find_node id nodes ≡ some n → n.id ≡ id
unfolding find_node
find_node-id id [] n e = cc
find_node-id id (m ∷ nodes) n e = elim (Bool-cases (m.id == id)) [
  | inl here ↦
      let at : some m ≡ some n = rw (find_node, here) at e in
      let same : m ≡ n = some-inj at in ap (λ (n : Node). n.id) (sym same) ∙ (==_iff m.id id).0 here
  | inr further ↦ find_node-id id nodes n (rw (find_node, further) at e)
]

-- A link between two nodes, as one of them sees it.
pub record Wired (sim : Simulator) (a b : Node) (l : ℕ) (link : Link) : Type 0 where
  pub exists : get_elem? sim.links l ≡ some link
  pub apart : a.id ≢ b.id
  pub ends :
      ((link.node1 ≡ a.id) × (link.node2 ≡ b.id)) ⊎ ((link.node1 ≡ b.id) × (link.node2 ≡ a.id))
  pub here : find_node a.id sim.nodes ≡ some a
  pub there : find_node b.id sim.nodes ≡ some b

Wired-sym :
    (sim : Simulator) (a b : Node) (l : ℕ) (link : Link)
    → Wired sim a b l link
    → Wired sim b a l link
Wired-sym sim a b l link w = record {
  exists = w.exists;
  apart = λ e. w.apart (sym e);
  ends = elim w.ends [ inl h ↦ inr h | inr h ↦ inl h ];
  here = w.there;
  there = w.here;
}

other_end :
    (sim : Simulator) (a b : Node) (l : ℕ) (link : Link)
    → Wired sim a b l link
    → (if link.node1 == a.id then link.node2 else link.node1) ≡ b.id
other_end sim a b l link w = elim w.ends [
  | inl (one, two) ↦ rw ((==_iff link.node1 a.id).1 one) two
  | inr (one, two) ↦
      let other : (link.node1 == a.id) ≡ false = ground (arith, w.apart) in rw other one
]

one_way :
    (sim : Simulator) (a b : Node) (l : ℕ) (link : Link) (p q : ℕ) (packet : List ℕ)
    → Wired sim a b l link
    → length a.link_vector ≤ 65536
    → length b.link_vector ≤ 65536
    → Unrepeated b.link_vector
    → get_elem? a.link_vector p ≡ some l
    → get_elem? b.link_vector q ≡ some l
    → node_send sim a p packet
      ≡ some (record { time = sim.global_time; event = xmit_on_link b.id q l packet })
unfolding node_send
one_way sim a b l link p q packet w small_a small_b once at_a at_b =
    let port = get_link_port-only l 0 b.link_vector q once (omega arith) at_b in
    let lt = get_elem?-lt a.link_vector p l at_a in
    let cut : u16 p ≡ p = omega (arith, lt, small_a) in
    let zero_more : 0 + q ≡ q = omega arith in
    rw (cut, at_a, w.exists, other_end sim a b l link w, w.there, port, zero_more) refl

-- Where no node has more than 65536 links, a packet that node a sends on a port goes to the node at the other end of the port's link, which
-- will see it at the port that this link has there; an answer sent on that port comes back to node a,
-- at the port that it was sent from.
pub node_send-back :
    (sim : Simulator) (a b : Node) (l : ℕ) (link : Link) (p q : ℕ) (packet answer : List ℕ)
    → Wired sim a b l link
    → length a.link_vector ≤ 65536
    → length b.link_vector ≤ 65536
    → Unrepeated a.link_vector
    → Unrepeated b.link_vector
    → get_elem? a.link_vector p ≡ some l
    → get_elem? b.link_vector q ≡ some l
    → (node_send sim a p packet
        ≡ some (record { time = sim.global_time; event = xmit_on_link b.id q l packet }))
      × (node_send sim b q answer
          ≡ some (record { time = sim.global_time; event = xmit_on_link a.id p l answer }))
node_send-back sim a b l link p q packet answer w small_a small_b once_a once_b at_a at_b = (
  one_way sim a b l link p q packet w small_a small_b once_b at_a at_b,
  one_way sim b a l link q p answer (Wired-sym sim a b l link w) small_b small_a once_a at_b at_a,
)
