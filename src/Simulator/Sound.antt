-- ===== src/Simulator/Sound.antt =====
-- What holds of all routers and of all packets on their way, while the simulator runs.
use comp429_computer_network.Base.{
  ℕ, u16, zero, suc, ◌<◌, ◌≡◌, ◌≢◌, refl, sym, ◌∙◌, List, [], ◌∷◌, Option, none, some, get_elem?,
  set, arith, All, ◌==◌, ==_iff, if◌then◌else◌, Bool-cases, inl, inr, ◌>>=◌, byte_at,
}
use comp429_computer_network.Routing.State.{Router, Effect, send, set_alarm, overruns, type_data}
use comp429_computer_network.Routing.Consistency.Handlers.Effects.{IsSettled}
use comp429_computer_network.Simulator.{
  Simulator, Node, Link, Timed, Event, change_delay, link_die, link_come_up, xmit_end_to_end,
  xmit_on_link, recv_pkt, alarm, handled, perform, find_node, node_send, sim_set_alarm, set_rp,
  get_link_port,
}
use comp429_computer_network.Simulator.Wire.{IsWire, IsFit, IsFitting}

-- A node with a settled router, which has made no call that is not carried out.
pub record IsSound (n : Node) : Type 0 where
  pub small : n.id < 65536
  pub settled : IsSettled n.rp
  pub same_id : n.rp.router_id ≡ n.id
  pub quiet : n.rp.effects ≡ []

-- A packet for this node: one that is not of type DATA carries the id of another router as its source,
-- a DV update has whole pairs, and a PING has twelve bytes.
abbrev pub IsForeign : ℕ → List ℕ → Type 0
IsForeign dest packet = (sender : ℕ) × (sender ≢ dest) × IsWire sender packet

-- An event whose packet a router can take.
abbrev pub IsFair : Event → Type 0
IsFair (xmit_on_link dest dport l packet) = IsForeign dest packet
IsFair (recv_pkt dest dport packet) = IsForeign dest packet
IsFair (xmit_end_to_end src packet) = byte_at packet 0 ≡ type_data
IsFair (change_delay l d) = Unit {0}
IsFair (link_die l) = Unit {0}
IsFair (link_come_up l) = Unit {0}
IsFair (alarm id kind) = Unit {0}

abbrev pub AreFair : List Timed → Type 0
AreFair = All (λ e. IsFair e.event)

abbrev pub IsApart : Link → Type 0
IsApart link = link.node1 ≢ link.node2

-- All nodes are sound, no link leads from a node to itself, and every queued packet can be taken.
pub record Sound (s : Simulator) : Type 0 where
  pub nodes : All IsSound s.nodes
  pub links : All IsApart s.links
  pub queue : AreFair s.event_q

abbrev pub OnSome : {A : Type 0} → (A → Type 0) → Option A → Type 0
OnSome P none = Unit
OnSome P (some a) = P a

module _ {A : Type 0} where
  pub any : (o : Option A) → OnSome (λ a. Unit {0}) o
  any none = tt
  any (some a) = tt

  pub bind-OnSome :
      {B : Type 0} (P : A → Type 0) (Q : B → Type 0) (o : Option A) (f : A → Option B)
      → OnSome P o
      → ((a : A) → P a → OnSome Q (f a))
      → OnSome Q (o >>= f)
  bind-OnSome P Q none f h k = tt
  bind-OnSome P Q (some a) f h k = k a h

  pub get_elem?-OnSome :
      (P : A → Type 0) (xs : List A) (i : ℕ) → All P xs → OnSome P (get_elem? xs i)
  get_elem?-OnSome P [] i h = tt
  get_elem?-OnSome P (x ∷ xs) zero h = h.0
  get_elem?-OnSome P (x ∷ xs) (suc i) h = get_elem?-OnSome P xs i h.1

  pub set-All : (P : A → Type 0) (xs : List A) (i : ℕ) (a : A) → All P xs → P a → All P (set xs i a)
  set-All P [] i a h k = tt
  set-All P (x ∷ xs) zero a h k = (k, h.1)
  set-All P (x ∷ xs) (suc i) a h k = (h.0, set-All P xs i a h.1 k)

pub find_node-OnSome :
    (id : ℕ) (nodes : List Node)
    → All IsSound nodes
    → OnSome (λ n. (n.id ≡ id) × IsSound n) (find_node id nodes)
unfolding find_node
find_node-OnSome id [] h = tt
find_node-OnSome id (n ∷ nodes) h = elim (Bool-cases (n.id == id)) [
  | inl here ↦ rw here ((==_iff n.id id).0 here, h.0)
  | inr further ↦ rw further (find_node-OnSome id nodes h.1)
]

set_rp-All :
    (id : ℕ) (rp : Router) (nodes : List Node)
    → IsSettled rp
    → rp.router_id ≡ id
    → rp.effects ≡ []
    → All IsSound nodes
    → All IsSound (set_rp id rp nodes)
unfolding set_rp
set_rp-All id rp [] settled same quiet h = tt
set_rp-All id rp (n ∷ nodes) settled same quiet h = elim (Bool-cases (n.id == id)) [
  | inl here ↦ rw here (
    record {
      small = h.0.small;
      settled = settled;
      same_id = same ∙ sym ((==_iff n.id id).0 here);
      quiet = quiet;
    },
    h.1,
  )
  | inr further ↦ rw further (h.0, set_rp-All id rp nodes settled same quiet h.1)
]

-- A simulator whose nodes are sound, with what was pushed.
abbrev pub IsGood : Simulator × List Timed → Type 0
IsGood r = All IsSound r.0.nodes × All IsApart r.0.links × AreFair r.1

module _ (s : Simulator) (nodes : All IsSound s.nodes) (links : All IsApart s.links) where
  node_send-IsFair :
      (n : Node) (port : ℕ) (packet : List ℕ)
      → IsWire n.id packet
      → OnSome (λ e. IsFair e.event) (node_send s n port packet)
  unfolding node_send
  node_send-IsFair n port packet wire =
      bind-OnSome (λ l. Unit {0}) _ (get_elem? n.link_vector (u16 port)) _ (any _)
        λ l _.
          bind-OnSome IsApart _ (get_elem? s.links l) _ (get_elem?-OnSome IsApart s.links l links)
            λ link apart.
              bind-OnSome
                (λ m. (m.id ≡ (if link.node1 == n.id then link.node2 else link.node1)) × IsSound m)
                _ (find_node _ s.nodes) _ (find_node-OnSome _ s.nodes nodes)
                λ m found.
                  bind-OnSome (λ q. Unit {0}) _ (get_link_port l 0 m.link_vector) _ (any _)
                    λ q _. (n.id, ground (arith, apart, found.0), wire)

  perform-AreFair :
      (n : Node) (effects : List Effect)
      → All (IsFit n.id) effects
      → OnSome AreFair (perform s n effects)
  unfolding perform sim_set_alarm
  perform-AreFair n [] h = tt
  perform-AreFair n (send port packet ∷ effects) h =
      bind-OnSome (λ e. IsFair e.event) _ (node_send s n port packet) _
        (node_send-IsFair n port packet h.0)
        λ e fair.
          bind-OnSome AreFair _ (perform s n effects) _ (perform-AreFair n effects h.1)
            λ es fairs. (fair, fairs)
  perform-AreFair n (set_alarm duration kind ∷ effects) h =
      bind-OnSome AreFair _ (perform s n effects) _ (perform-AreFair n effects h.1)
        λ es fairs. (tt, fairs)
  perform-AreFair n (overruns count ∷ effects) h = tt

  pub handled-IsGood :
      (n : Node) (r : Router) → IsSettled r → IsFitting n.id r → OnSome IsGood (handled s n r)
  unfolding handled
  handled-IsGood n r settled fits =
      bind-OnSome AreFair _ (perform s n r.effects) _ (perform-AreFair n r.effects fits.calls)
        λ es fairs. (
          set_rp-All n.id (record r { effects = [] }) s.nodes settled fits.same_id refl nodes,
          links,
          fairs,
        )
