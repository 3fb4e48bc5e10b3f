-- ===== src/Routing/Tests.antt =====
-- Concrete runs of project3's router.
use comp429_computer_network.Base.{
  ℕ, ◌≡◌, refl, List, [], ◌∷◌, ◌++◌, some, arith, true, false, load16, load32, store16, store32,
  htonl, htons, ◌>>=◌,
}
use comp429_computer_network.Routing.State.{Router, p_dv, exp_alarm, send, DvPair}
use comp429_computer_network.Routing.Map.{find, find_or, put, remove, erase}
use comp429_computer_network.Routing.Sweep.{Tables, sweep, apply}
use comp429_computer_network.Routing.Protocol.{init, fresh_router, set_up_ports, recv, handle_alarm}
use comp429_computer_network.Routing.PingPong.{
  handle_ping_pong, handle_pong, generate_ping_pong, ping_ports, ping_packet, pong_verdict,
  confirm_verdict, add_neighbor, heard_port, unplug_others,
}
use comp429_computer_network.Routing.Vector.{
  recv_dv, send_if_any, send_dv_update, send_ports, dv_packet, fill_pairs, dv_table_size, all_pairs,
  read_pairs, read_word, rounds, meet_source, reported_cost, dv_entries, dv_entry, known_dest,
  new_dest, reroute, follow_hop, lose_route,
}
use comp429_computer_network.Routing.Vector.RoundTrip.{IsUpdate, dv_packet-IsUpdate}
use comp429_computer_network.Routing.Refresh.{
  refresh_dv, check_ports, is_silent, routes_over, drop_routes, drop_route, age_verdict,
}
use comp429_computer_network.Routing.Consistency.Handlers.Effects.{IsSettled}
use comp429_computer_network.Routing.Consistency.Handlers.Vectors.{dv_entry-relaxes, IsWithin}
use comp429_computer_network.Routing.Consistency.Handlers.Neighbors.{
  recv_data-IsForwarded, IsForwarded,
}
use comp429_computer_network.Routing.Consistency.Handlers.Refreshed.{
  IsRefreshed, refresh_dv-IsRefreshed,
}
use comp429_computer_network.Routing.Consistency.Handlers.Reach.{
  IsReceivable, Reaches, started, received, Reaches-IsSettled,
}

-- Router 5 with two ports, and a PONG of router 7.
abbrev new_router : Router
new_router = init 2 5 p_dv 0

abbrev pong_of_7 : List ℕ
pong_of_7 = 2 ∷ 0 ∷ 0 ∷ 12 ∷ 0 ∷ 7 ∷ 0 ∷ 5 ∷ 0 ∷ 0 ∷ 0 ∷ 10 ∷ []

-- Router 7 announces that it reaches router 9 at 30 and router 5 at 20.
abbrev update_of_7 : List ℕ
update_of_7 = 3 ∷ 0 ∷ 0 ∷ 16 ∷ 0 ∷ 7 ∷ 0 ∷ 5 ∷ 0 ∷ 9 ∷ 0 ∷ 30 ∷ 0 ∷ 5 ∷ 0 ∷ 20 ∷ []

-- The router after the PONG.
abbrev met : Router
met = record {
  protocol_type = p_dv;
  num_ports = 2;
  router_id = 5;
  ports =
      (0, record { number = 0; to = 7; cost = 20; updated = 30; connected = true })
      ∷ (1, record { number = 0; to = 0; cost = 0; updated = 0; connected = false })
      ∷ [];
  direct_neighbors = (7, record { cost = 20; port = 0 }) ∷ [];
  forwarding_table = (7, 7) ∷ [];
  dv_map = (7, record { next_hop = 7; cost = 20; updated = 30 }) ∷ [];
  effects =
      new_router.effects ++ send 0 (3 ∷ 0 ∷ 0 ∷ 12 ∷ 0 ∷ 5 ∷ 0 ∷ 7 ∷ 0 ∷ 7 ∷ 0 ∷ 20 ∷ []) ∷ [];
}

-- The router after both.
abbrev learned : Router
learned = record {
  protocol_type = p_dv;
  num_ports = 2;
  router_id = 5;
  ports =
      (0, record { number = 0; to = 7; cost = 20; updated = 30; connected = true })
      ∷ (1, record { number = 0; to = 0; cost = 0; updated = 0; connected = false })
      ∷ [];
  direct_neighbors = (7, record { cost = 20; port = 0 }) ∷ [];
  forwarding_table = (7, 7) ∷ (9, 7) ∷ [];
  dv_map =
      (7, record { next_hop = 7; cost = 20; updated = 30 })
      ∷ (9, record { next_hop = 7; cost = 50; updated = 40 })
      ∷ [];
  effects = met.effects ++ send 0 (3 ∷ 0 ∷ 0 ∷ 12 ∷ 0 ∷ 5 ∷ 0 ∷ 7 ∷ 0 ∷ 9 ∷ 0 ∷ 50 ∷ []) ∷ [];
}

pong_received : recv 0 30 0 pong_of_7 new_router ≡ some met
unfolding recv handle_ping_pong handle_pong recv_dv init fresh_router generate_ping_pong ping_ports
    ping_packet set_up_ports find find_or put remove erase store16 store32 load16 load32 htons htonl
    sweep apply pong_verdict confirm_verdict add_neighbor heard_port unplug_others send_if_any
    send_dv_update send_ports dv_packet fill_pairs dv_table_size all_pairs read_pairs read_word
    rounds meet_source reported_cost dv_entries dv_entry known_dest new_dest reroute follow_hop
    lose_route
pong_received = refl

update_received : recv 0 40 0 update_of_7 met ≡ some learned
unfolding recv handle_ping_pong handle_pong recv_dv init fresh_router generate_ping_pong ping_ports
    ping_packet set_up_ports find find_or put remove erase store16 store32 load16 load32 htons htonl
    sweep apply pong_verdict confirm_verdict add_neighbor heard_port unplug_others send_if_any
    send_dv_update send_ports dv_packet fill_pairs dv_table_size all_pairs read_pairs read_word
    rounds meet_source reported_cost dv_entries dv_entry known_dest new_dest reroute follow_hop
    lose_route
update_received = refl

-- Fifteen seconds of silence take every route away.
silence : (handle_alarm 15031 exp_alarm learned >>= λ r. some r.dv_map) ≡ some []
unfolding handle_alarm refresh_dv check_ports is_silent routes_over drop_routes drop_route
    age_verdict recv handle_ping_pong handle_pong recv_dv init fresh_router generate_ping_pong
    ping_ports ping_packet set_up_ports find find_or put remove erase store16 store32 load16 load32
    htons htonl sweep apply pong_verdict confirm_verdict add_neighbor heard_port unplug_others
    send_if_any send_dv_update send_ports dv_packet fill_pairs dv_table_size all_pairs read_pairs
    read_word rounds meet_source reported_cost dv_entries dv_entry known_dest new_dest reroute
    follow_hop lose_route
silence = refl

-- The packets come from another router.
pong_of_7-IsReceivable : IsReceivable 5 pong_of_7
unfolding load16 htons
pong_of_7-IsReceivable = (λ e. absurd (omega arith), λ e same. absurd (omega arith))

update_of_7-IsReceivable : IsReceivable 5 update_of_7
update_of_7-IsReceivable = (λ e. omega arith, λ e. absurd (omega arith))

new_router-IsReceivable : IsReceivable new_router.router_id pong_of_7
unfolding init fresh_router generate_ping_pong ping_ports ping_packet set_up_ports
new_router-IsReceivable = pong_of_7-IsReceivable

reached : Reaches learned
reached =
    received 0 40 0 update_of_7 met learned
      (received 0 30 0 pong_of_7 new_router met (started 2 5 p_dv 0) new_router-IsReceivable
        pong_received)
      update_of_7-IsReceivable update_received

learned-IsSettled : IsSettled learned
learned-IsSettled = Reaches-IsSettled learned reached

Reaches-IsSettled_example : IsSettled learned
Reaches-IsSettled_example = Reaches-IsSettled learned reached

refresh_dv-IsRefreshed_example :
    (r : Router) × (refresh_dv 15031 learned ≡ some r) × IsRefreshed 15031 learned r
refresh_dv-IsRefreshed_example = refresh_dv-IsRefreshed 15031 learned learned-IsSettled

abbrev learned_tables : Tables
learned_tables = record { vector = learned.dv_map; table = learned.forwarding_table; packet = [] }

dv_entry-relaxes_example :
    (t : Tables) × (dv_entry 5 learned.direct_neighbors 7 20 60 (9, 10) learned_tables ≡ some t)
    × IsWithin 5 learned.direct_neighbors 7 20 60 9 30 t
dv_entry-relaxes_example =
    dv_entry-relaxes 5 learned.direct_neighbors 7 20 60 9 10 learned_tables (omega arith)
      (omega arith)

-- A data packet for router 9.
abbrev data_for_9 : List ℕ
data_for_9 = 0 ∷ 0 ∷ 0 ∷ 9 ∷ 0 ∷ 5 ∷ 0 ∷ 9 ∷ 65 ∷ []

recv_data-IsForwarded_example :
    IsForwarded data_for_9 learned (find (htons (load16 data_for_9 6)) learned.dv_map)
recv_data-IsForwarded_example = recv_data-IsForwarded data_for_9 learned refl learned-IsSettled.0

abbrev two_pairs : List DvPair
two_pairs = (9, 300) ∷ (7, 0xffff) ∷ []

dv_packet-IsUpdate_example :
    (packet : List ℕ) × (dv_packet 5 7 two_pairs ≡ some packet) × IsUpdate 5 7 two_pairs packet
dv_packet-IsUpdate_example =
    dv_packet-IsUpdate 5 7 two_pairs (omega arith) (omega arith) (omega arith)
      ((omega arith, omega arith), ((omega arith, omega arith), tt))
