-- ===== src/Routing/Consistency/Handlers/Effects.antt =====
-- The functions of a router that send and change nothing else.
use comp429_computer_network.Base.{ℕ, zero, suc, ◌+◌, List, [], ◌∷◌, Bool-cases, inl, inr}
use comp429_computer_network.Routing.Map.{find_or}
use comp429_computer_network.Routing.State.{Router, DvPair, Effect, emit, default_port}
use comp429_computer_network.Routing.Vector.{
  send_ports, send_dv_update, send_if_any, update_dv_table, all_pairs,
}
use comp429_computer_network.Routing.PingPong.{ping_ports, generate_ping_pong}
use comp429_computer_network.Routing.Consistency.{Consistent}
use comp429_computer_network.Routing.Consistency.Refreshes.Ports.{IsPlugged}

-- The tables of a router agree.
abbrev pub IsConsistent : Router → Type 0
IsConsistent r = Consistent r.router_id r.direct_neighbors r.dv_map r.forwarding_table

-- The tables agree, and no two connected ports lead to the same neighbour.
abbrev pub IsSettled : Router → Type 0
IsSettled r = IsConsistent r × IsPlugged r.ports

-- A predicate that does not read the log.
abbrev pub IgnoresEffects : (Router → Type 0) → Type 0
IgnoresEffects P = (e : Effect) (r : Router) → P r → P (emit e r)

module _ (P : Router → Type 0) (ignores : IgnoresEffects P) where
  send_ports-kept :
      (pairs : List DvPair) (left i : ℕ) (r : Router) → P r → P (send_ports pairs left i r)
  unfolding send_ports
  send_ports-kept pairs zero i r h = h
  send_ports-kept pairs (suc left) i r h =
      send_ports-kept pairs left (i + 1) _
        (elim (Bool-cases (find_or i default_port r.ports).connected) [
          | inl up ↦ rw up (ignores _ r h)
          | inr down ↦ rw down h
        ])

  pub send_if_any-kept : (pairs : List DvPair) (r : Router) → P r → P (send_if_any pairs r)
  unfolding send_if_any send_dv_update
  send_if_any-kept [] r h = h
  send_if_any-kept (p ∷ ps) r h = send_ports-kept (p ∷ ps) r.num_ports 0 r h

  pub update_dv_table-kept : (r : Router) → P r → P (update_dv_table r)
  unfolding update_dv_table send_dv_update
  update_dv_table-kept r h = send_ports-kept (all_pairs r.dv_map) r.num_ports 0 r h

  ping_ports-kept : (now left i : ℕ) (r : Router) → P r → P (ping_ports now left i r)
  unfolding ping_ports
  ping_ports-kept now zero i r h = h
  ping_ports-kept now (suc left) i r h = ping_ports-kept now left (i + 1) _ (ignores _ r h)

  pub generate_ping_pong-kept : (now : ℕ) (r : Router) → P r → P (generate_ping_pong now r)
  unfolding generate_ping_pong
  generate_ping_pong-kept now r h = ping_ports-kept now r.num_ports 0 r h
