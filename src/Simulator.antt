-- ===== src/Simulator.antt =====
-- project3's simulator: Simulator.cc with Event.cc, Node.cc, Link.cc and their headers. Links and nodes
-- are pointers there; here a link is its place in `links`, and a node its id. `none` is a pointer that
-- leads nowhere, the `exit(-1)` of `get_link_port`, a fault of a handler, or the `pop` of another event
-- than the one that was dispatched.
pub mod Ports
pub mod Order
pub mod Wire
pub mod Fitting
pub mod Sound
pub mod Safety
pub mod Text
pub mod Config
pub mod Setup
pub mod Joined
pub mod Cables
pub mod Progress
pub mod Starts
pub mod Goes
pub mod Wiring
pub mod Configured
mod Tests
use comp429_computer_network.Base.{
  ℕ, u16, zero, suc, ◌+◌, List, [], ◌∷◌, ◌++◌, Bool, true, false, not, ◌&&◌, Option, none, some,
  length, get_elem?, set, ltb, leb, ◌==◌, if◌then◌else◌, ◌>>=◌, u32,
}
use comp429_computer_network.Routing.State.{
  Router, ProtocolType, p_dv, Alarm, Effect, send, set_alarm, overruns,
}
use comp429_computer_network.Routing.Protocol.{fresh_router, init, recv, handle_alarm}

-- `Link`; a draw of 0 to 9 is kept if it is at least `10 * loss_prob`, which is the same as at least
-- `loss_tenths`, that product rounded up.
pub record Link : Type 0 where
  pub node1 : ℕ
  pub node2 : ℕ
  pub delay : ℕ
  pub loss_tenths : ℕ
  pub cost : ℕ
  pub is_alive : Bool

-- `Node`
pub record Node : Type 0 where
  pub id : ℕ
  pub link_vector : List ℕ
  pub rp : Router

-- The subclasses of `Event`, less its time.
pub data Event : Type 0 where
  change_delay : ℕ → ℕ → Event
  link_die : ℕ → Event
  link_come_up : ℕ → Event
  xmit_end_to_end : ℕ → List ℕ → Event
  xmit_on_link : ℕ → ℕ → ℕ → List ℕ → Event
  recv_pkt : ℕ → ℕ → List ℕ → Event
  alarm : ℕ → Alarm → Event

pub record Timed : Type 0 where
  pub time : ℕ
  pub event : Event

-- `Simulator`; `is_over` is set when the loop of `run` breaks off.
pub record Simulator : Type 0 where
  pub global_time : ℕ
  pub stop_time : ℕ
  pub nodes : List Node
  pub links : List Link
  pub event_q : List Timed
  pub is_over : Bool

abbrev pub special_port : ℕ
special_port = 0xffff

-- `Node::get_link_port` from port i on; it returns an `unsigned short`.
unfoldable pub get_link_port : ℕ → ℕ → List ℕ → Option ℕ
get_link_port l i [] = none
get_link_port l i (k ∷ ls) =
    let later = get_link_port l (i + 1) ls in if k == l then some (u16 i) else later

-- The node that a pointer to it leads to.
unfoldable pub find_node : ℕ → List Node → Option Node
find_node id [] = none
find_node id (n ∷ nodes) = let later = find_node id nodes in if n.id == id then some n else later

unfoldable pub set_rp : ℕ → Router → List Node → List Node
set_rp id rp [] = []
set_rp id rp (n ∷ nodes) =
    let later = set_rp id rp nodes in if n.id == id then record n { rp = rp } ∷ nodes else n ∷ later

-- `Node::send`, whose port is an `unsigned short`: the node at the other end of the port's link, and its port for this link.
unfoldable pub node_send : Simulator → Node → ℕ → List ℕ → Option Timed
unfolding get_link_port find_node
node_send sim n port packet = do
  l ← get_elem? n.link_vector (u16 port)
  link ← get_elem? sim.links l
  rcpt ← find_node (if link.node1 == n.id then link.node2 else link.node1) sim.nodes
  rcpt_port ← get_link_port l 0 rcpt.link_vector
  some (record { time = sim.global_time; event = xmit_on_link rcpt.id rcpt_port l packet })

-- `Simulator::set_alarm`
unfoldable pub sim_set_alarm : Simulator → ℕ → ℕ → Alarm → Timed
sim_set_alarm sim id duration kind = record {
  time = u32 (sim.global_time + duration);
  event = alarm id kind;
}

-- The calls that a handler of the node's router made, as the events that they push. A store of the
-- handler past the end of a buffer is a fault.
unfoldable pub perform : Simulator → Node → List Effect → Option (List Timed)
unfolding node_send sim_set_alarm
perform sim n [] = some []
perform sim n (send port packet ∷ effects) = do
  e ← node_send sim n port packet
  es ← perform sim n effects
  some (e ∷ es)
perform sim n (overruns count ∷ effects) = none
perform sim n (set_alarm duration kind ∷ effects) = do
  es ← perform sim n effects
  some (sim_set_alarm sim n.id duration kind ∷ es)

-- The node with its router after a handler, and the events that were pushed.
unfoldable pub handled : Simulator → Node → Router → Option (Simulator × List Timed)
unfolding perform set_rp
handled sim n r = do
  es ← perform sim n r.effects
  some (record sim { nodes = set_rp n.id (record r { effects = [] }) sim.nodes }, es)

-- `Node::recv_packet`
unfoldable pub recv_packet : ℕ → Simulator → ℕ → ℕ → List ℕ → Option (Simulator × List Timed)
unfolding handled
recv_packet indeterminate sim id port packet = do
  n ← find_node id sim.nodes
  r ← recv indeterminate sim.global_time port packet n.rp
  handled sim n r

unfoldable pub set_link : Simulator → ℕ → (Link → Link) → Option (Simulator × List Timed)
set_link sim l change = do
  link ← get_elem? sim.links l
  some (record sim { links = set sim.links l (change link) }, [])

-- `dispatch` of each event; `draw` is `rand() % 10`.
unfoldable pub dispatch : ℕ → ℕ → Event → Simulator → Option (Simulator × List Timed)
unfolding set_link recv_packet
dispatch indeterminate draw (change_delay l d) sim =
    set_link sim l (λ link. record link { delay = d })
dispatch indeterminate draw (link_die l) sim =
    set_link sim l (λ link. record link { is_alive = false })
dispatch indeterminate draw (link_come_up l) sim =
    set_link sim l (λ link. record link { is_alive = true })
dispatch indeterminate draw (xmit_end_to_end src packet) sim =
    recv_packet indeterminate sim src special_port packet
dispatch indeterminate draw (xmit_on_link dest dport l packet) sim = do
  link ← get_elem? sim.links l
  let arrival : Timed = record {
    time = u32 (sim.global_time + link.delay);
    event = recv_pkt dest dport packet;
  }
  some (sim, if link.is_alive && leb link.loss_tenths draw then arrival ∷ [] else [])
dispatch indeterminate draw (recv_pkt dest dport packet) sim =
    recv_packet indeterminate sim dest dport packet
dispatch indeterminate draw (alarm id kind) sim = do
  n ← find_node id sim.nodes
  r ← handle_alarm sim.global_time kind n.rp
  handled sim n r

unfoldable pub all_from : ℕ → List Timed → Bool
all_from now [] = true
all_from now (e ∷ es) = leb now e.time && all_from now es

-- One round of `run` for the event on top of the queue, with the others in `rest`. It stays on top
-- while no earlier one is pushed, and is popped after the dispatch. Where an earlier one was pushed, whose
-- time wrapped around, `pop` takes that one and `delete` leaves the queue with a freed event, whose time
-- the queue's comparisons read: undefined, and `none`.
unfoldable pub run_event : ℕ → ℕ → Timed → List Timed → Simulator → Option Simulator
unfolding dispatch
run_event indeterminate draw e rest sim = do
  (sim', pushed) ← dispatch indeterminate draw e.event (record sim { global_time = e.time })
  let next = record sim' {
    event_q = rest ++ pushed;
    is_over = not (sim'.stop_time == 0) && ltb sim'.stop_time e.time;
  }
  if all_from e.time pushed then some next else none

-- `Simulator::init_routing_protocol`: each node's router, in the order of `node_table`.
unfoldable pub init_routing_protocol : ProtocolType → List Node → Simulator → Option Simulator
init_routing_protocol type [] sim = some sim
init_routing_protocol type (n ∷ nodes) sim = do
  (sim', pushed) ← handled sim n (init (u16 (length n.link_vector)) n.id type sim.global_time)
  init_routing_protocol type nodes (record sim' { event_q = sim'.event_q ++ pushed })

-- `new Node`, with its links. It has no router before `init_routing_protocol`, which stands here for one
-- that has no ports.
unfoldable pub new_node : ℕ → List ℕ → Node
new_node id links = record { id = id; link_vector = links; rp = fresh_router 0 id p_dv }

-- `Simulator::add_node`
unfoldable pub add_node : Node → List Node → List Node
add_node n [] = n ∷ []
add_node n (m ∷ nodes) =
    let later = add_node n nodes in if m.id == n.id then n ∷ nodes else m ∷ later
