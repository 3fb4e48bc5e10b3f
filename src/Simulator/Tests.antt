-- ===== src/Simulator/Tests.antt =====
-- A network of two nodes and one link between them.
use comp429_computer_network.Base.{
  ℕ, drop, ◌*◌, map, ◌≤◌, ◌≡◌, ◌≢◌, refl, List, [], ◌∷◌, ◌++◌, true, false, Option, none, some,
  arith, inl, length, take, All, ◌⊎◌, store16, store32, htons, htonl,
}
use comp429_computer_network.Routing.State.{exp_alarm, pp_alarm, update_alarm, p_dv}
use comp429_computer_network.Routing.Protocol.{init, fresh_router}
use comp429_computer_network.Routing.Consistency.Handlers.Reach.{fresh_router-IsSettled}
use comp429_computer_network.Simulator.{
  Simulator, Node, Link, Timed, xmit_on_link, xmit_end_to_end, link_die, change_delay, recv_pkt,
  alarm, run_event, handled, all_from, node_send, init_routing_protocol, new_node, get_link_port,
  add_node, find_node,
}
use comp429_computer_network.Web.Text.{codes}
use comp429_computer_network.Simulator.Text.{atoi}
use comp429_computer_network.Simulator.Config.{
  Decimals, read_nodes, read_links, add_nodes, split_blank,
}
use comp429_computer_network.Simulator.Setup.{read_network, read_file, read_events}
use comp429_computer_network.Simulator.Configured.{read_network-IsConnected}
use comp429_computer_network.Simulator.Cables.{ArePlaced, vector_of, ends_of}
use comp429_computer_network.Simulator.Starts.{
  IsConnected, IsStart, IsInitialized, init_routing_protocol-ends,
}
use comp429_computer_network.Simulator.Progress.{IsSoon, Overruns}
use comp429_computer_network.Simulator.Goes.{Runs-goes_on}
use comp429_computer_network.Simulator.Ports.{Wired, node_send-back}
use comp429_computer_network.Simulator.Order.{Step, takes, here, next, Ordered, all_from-All}
use comp429_computer_network.Simulator.Sound.{Sound}
use comp429_computer_network.Simulator.Safety.{Runs-Sound}

abbrev first_node : Node
first_node = record { id = 1; link_vector = 0 ∷ []; rp = fresh_router 0 1 p_dv }

abbrev second_node : Node
second_node = record { id = 2; link_vector = 0 ∷ []; rp = fresh_router 0 2 p_dv }

abbrev wire : Link
wire = record { node1 = 1; node2 = 2; delay = 10; loss_tenths = 3; cost = 1; is_alive = true }

abbrev network : Simulator
network = record {
  global_time = 0;
  stop_time = 0;
  nodes = first_node ∷ second_node ∷ [];
  links = wire ∷ [];
  event_q = [];
  is_over = false;
}

get_link_port_second : get_link_port 7 0 (5 ∷ 7 ∷ []) ≡ some 1
unfolding get_link_port
get_link_port_second = refl

add_node_twice : length (add_node first_node (first_node ∷ second_node ∷ [])) ≡ 2
unfolding add_node
add_node_twice = refl

new_node_first : new_node 1 (0 ∷ []) ≡ first_node
unfolding new_node
new_node_first = refl

wired : Wired network first_node second_node 0 wire
unfolding find_node
wired = record {
  exists = refl;
  apart = λ e. absurd (one_two e);
  ends = inl (refl, refl);
  here = refl;
  there = refl;
}
  where
    one_two : ◌≢◌ {A = ℕ} 1 2
    one_two e = omega arith

node_send-back_example :
    (node_send network first_node 0 (2 ∷ [])
      ≡ some (record { time = 0; event = xmit_on_link 2 0 0 (2 ∷ []) }))
    × (node_send network second_node 0 (3 ∷ [])
        ≡ some (record { time = 0; event = xmit_on_link 1 0 0 (3 ∷ []) }))
node_send-back_example =
    node_send-back network first_node second_node 0 wire 0 0 (2 ∷ []) (3 ∷ []) wired (omega arith)
      (omega arith) ((λ e. e), tt) ((λ e. e), tt) refl refl

network-Sound : Sound network
unfolding fresh_router
network-Sound = record {
  nodes = (
    record {
      small = omega arith;
      settled = fresh_router-IsSettled 0 1 p_dv;
      same_id = refl;
      quiet = refl;
    },
    (
      record {
        small = omega arith;
        settled = fresh_router-IsSettled 0 2 p_dv;
        same_id = refl;
        quiet = refl;
      },
      tt,
    ),
  );
  links = (one_two, tt);
  queue = tt;
}
  where
    one_two : ◌≢◌ {A = ℕ} 1 2
    one_two e = omega arith

abbrev or_network : Option Simulator → Simulator
or_network none = network
or_network (some s) = s

-- The network after `init_routing_protocol`.
unfoldable started : Simulator
unfolding init_routing_protocol handled init
started = or_network (init_routing_protocol p_dv network.nodes network)

started_ok : init_routing_protocol p_dv network.nodes network ≡ some started
unfolding started
started_ok = refl

abbrev first_ping : Timed
first_ping = record {
  time = 0;
  event = xmit_on_link 2 0 0 (1 ∷ 0 ∷ 0 ∷ 12 ∷ 0 ∷ 1 ∷ 0 ∷ 0 ∷ 0 ∷ 0 ∷ 0 ∷ 0 ∷ []);
}

abbrev others : List Timed
others =
    record { time = 10000; event = alarm 1 pp_alarm }
    ∷ record { time = 30000; event = alarm 1 update_alarm }
    ∷ record { time = 1000; event = alarm 1 exp_alarm }
    ∷ record {
      time = 0;
      event = xmit_on_link 1 0 0 (1 ∷ 0 ∷ 0 ∷ 12 ∷ 0 ∷ 2 ∷ 0 ∷ 0 ∷ 0 ∷ 0 ∷ 0 ∷ 0 ∷ []);
    }
    ∷ record { time = 10000; event = alarm 2 pp_alarm }
    ∷ record { time = 30000; event = alarm 2 update_alarm }
    ∷ record { time = 1000; event = alarm 2 exp_alarm }
    ∷ []

-- The PING, on its way to the second node.
abbrev arriving : Timed
arriving = record {
  time = 10;
  event = recv_pkt 2 0 (1 ∷ 0 ∷ 0 ∷ 12 ∷ 0 ∷ 1 ∷ 0 ∷ 0 ∷ 0 ∷ 0 ∷ 0 ∷ 0 ∷ []);
}

unfoldable sent : Simulator
unfolding started
sent = record started { event_q = others ++ arriving ∷ [] }

started-sent : Step started sent
unfolding started sent run_event all_from store16 store32 htons htonl
started-sent = takes 0 3 [] others first_ping refl refl (all_from-All 0 others refl) refl

-- A draw below the loss of the link.
lost : run_event 0 2 first_ping others started ≡ some (record started { event_q = others })
unfolding started run_event all_from
lost = refl

Runs-Sound_example : Sound sent
Runs-Sound_example =
    Runs-Sound p_dv network started sent network-Sound started_ok (next here started-sent)

-- A file with whole seconds.
abbrev two_nodes : List (List ℕ)
two_nodes =
    []
    ∷ codes "[nodes]"
    ∷ (codes " 1 2 " ++ 13 ∷ [])
    ∷ codes "[links]"
    ∷ []
    ∷ codes "(1, 2) delay 1 prob 0"
    ∷ codes "[events]"
    ∷ codes "7 xmit (2,1)"
    ∷ codes "8 linkdying (2,1)"
    ∷ codes "9 changedelay (1,2) 3"
    ∷ codes "20 end"
    ∷ []

abbrev whole : Decimals
whole = record { millis = λ s. atoi s * 1000; tenths = λ s. atoi s * 10 }

-- What the file is read as.
abbrev two_nodes_network : Simulator
two_nodes_network = record {
  global_time = 0;
  stop_time = 20000;
  nodes = new_node 1 (0 ∷ []) ∷ new_node 2 (0 ∷ []) ∷ [];
  links =
      record { node1 = 1; node2 = 2; delay = 1000; loss_tenths = 0; cost = 1; is_alive = true }
      ∷ [];
  event_q =
      record { time = 7000; event = xmit_end_to_end 2 (0 ∷ 9 ∷ 0 ∷ 8 ∷ 0 ∷ 2 ∷ 0 ∷ 1 ∷ []) }
      ∷ record { time = 8000; event = link_die 0 }
      ∷ record { time = 9000; event = change_delay 0 3000 }
      ∷ [];
  is_over = false;
}

two_nodes_read : read_network whole 9 0 two_nodes ≡ some two_nodes_network
unfolding read_network read_file read_nodes read_links read_events new_node
two_nodes_read = refl

-- Two blanks between the ids of the nodes are read as a node 0 between them.
two_blanks : map (λ (n : Node). n.id) (add_nodes (split_blank (codes "1  2")) []) ≡ 1 ∷ 0 ∷ 2 ∷ []
unfolding add_nodes split_blank
two_blanks = refl

one_two : ◌≢◌ {A = ℕ} 1 2
one_two e = omega arith

two_nodes-ArePlaced :
    ArePlaced
      (λ id. vector_of id two_nodes_network.nodes)
      (λ l. ends_of l two_nodes_network.links)
      two_nodes_network.event_q
unfolding vector_of ends_of new_node
two_nodes-ArePlaced = ((0 ∷ [], refl), ((1, 2, refl), ((1, 2, refl), tt)))

two_nodes-IsConnected : IsConnected two_nodes_network
two_nodes-IsConnected =
    read_network-IsConnected whole 9 0 two_nodes two_nodes_network two_nodes_read

two_nodes-IsStart : IsStart two_nodes_network
two_nodes-IsStart = record {
  connected = two_nodes-IsConnected;
  apart = (one_two, tt);
  placed = two_nodes-ArePlaced;
}

read_network-IsConnected_example : IsConnected two_nodes_network
read_network-IsConnected_example =
    read_network-IsConnected whole 9 0 two_nodes two_nodes_network two_nodes_read

init_routing_protocol-ends_example :
    (s : Simulator) × (init_routing_protocol p_dv two_nodes_network.nodes two_nodes_network
      ≡ some s)
    × All (IsInitialized p_dv 0 s) two_nodes_network.nodes
init_routing_protocol-ends_example =
    init_routing_protocol-ends p_dv two_nodes_network two_nodes-IsStart

unfoldable two_started : Simulator
unfolding init_routing_protocol handled init new_node
two_started = or_network (init_routing_protocol p_dv two_nodes_network.nodes two_nodes_network)

two_started_ok :
    init_routing_protocol p_dv two_nodes_network.nodes two_nodes_network ≡ some two_started
unfolding two_started
two_started_ok = refl

-- The queue around the PING of the first node.
unfoldable before_ping : List Timed
unfolding two_started
before_ping = take 3 two_started.event_q

unfoldable after_ping : List Timed
unfolding two_started
after_ping = drop 4 two_started.event_q

two_started_queue : two_started.event_q ≡ before_ping ++ first_ping ∷ after_ping
unfolding two_started before_ping after_ping store16 store32 htons htonl
two_started_queue = refl

from_now : All (λ e. 0 ≤ e.time) (before_ping ++ after_ping)
unfolding two_started before_ping after_ping all_from
from_now = all_from-All 0 (before_ping ++ after_ping) refl

soon : IsSoon (record two_started { global_time = 0 })
unfolding two_started new_node
soon = (omega arith, (omega arith, tt))

Runs-goes_on_example :
    ((u : Simulator) × (run_event 0 3 first_ping (before_ping ++ after_ping) two_started ≡ some u)
      × Ordered u
      × (u.global_time ≡ 0))
    ⊎ Overruns 0 (record two_started { global_time = 0 }) first_ping.event
Runs-goes_on_example =
    Runs-goes_on p_dv two_nodes_network two_started two_started two_nodes-IsStart two_started_ok
      here 0 3 before_ping after_ping first_ping two_started_queue from_now soon
