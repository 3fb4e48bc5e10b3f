-- ===== src/Routing/Refresh.antt =====
-- `refreshDV` of project3/RoutingProtocolImpl.cc: ports and routes that have not been heard of for
-- too long.
use comp429_computer_network.Base.{
  ℕ, zero, suc, ◌+◌, List, [], ◌∷◌, ◌++◌, Option, some, none, Bool, false, ◌&&◌, ltb, ◌==◌,
  if◌then◌else◌, ◌>>=◌, u16, sub32,
}
use comp429_computer_network.Routing.Map.{Map, find, find_or, put, erase, remove}
use comp429_computer_network.Routing.Sweep.{keep, to, gone, Verdict, Tables, sweep}
use comp429_computer_network.Routing.Vector.{send_if_any}
use comp429_computer_network.Routing.State.{
  Router, Port, DvCell, NnCell, infinity_cost, default_port,
}

-- The destinations that are reached over `hop`, in the order of the map.
unfoldable pub routes_over : ℕ → Map DvCell → List ℕ
routes_over hop [] = []
routes_over hop ((k, c) ∷ m) =
    let rest = routes_over hop m in if c.next_hop == hop then k ∷ rest else rest

unfoldable pub is_silent : ℕ → Port → Bool
is_silent now p = p.connected && ltb 15000 (sub32 now p.updated)

-- What the first loop changes, and the destinations that it collects.
pub record Checked : Type 0 where
  pub ports : Map Port
  pub direct : Map NnCell
  pub to_delete : List ℕ

-- The first loop from port i on, with `left` rounds to go. `ports[i]` stores no new entry, as `init`
-- stores one for each port below `num_ports`. `remove` of a missing key changes nothing,
-- as the code's test before its `erase` has it.
unfoldable pub check_ports : ℕ → Map DvCell → ℕ → ℕ → Checked → Checked
unfolding routes_over is_silent
check_ports now vector zero i s = s
check_ports now vector (suc left) i s =
    let p = find_or i default_port s.ports in
    let silent : Checked = record {
      ports = put i (record p { connected = false; cost = 0 }) s.ports;
      direct = remove p.to s.direct;
      to_delete = s.to_delete ++ routes_over p.to vector;
    } in
    check_ports now vector left (i + 1) (if is_silent now p then silent else s)

module _ (now : ℕ) (direct : Map NnCell) where
  -- A route that is lost: the direct link takes its place, or it is erased and announced as infinite.
  unfoldable pub drop_route : ℕ → Tables → Option Tables
  drop_route dest t = elim (find dest direct) [
    | some d ↦ some (record {
      vector = put dest (record { next_hop = dest; cost = d.cost; updated = now }) t.vector;
      table = put dest dest t.table;
      packet = t.packet ++ (dest, u16 d.cost) ∷ [];
    })
    | none ↦ do
      vector ← erase dest t.vector
      table ← erase dest t.table
      some (record {
        vector = vector;
        table = table;
        packet = t.packet ++ (dest, infinity_cost) ∷ [];
      })
  ]

  unfoldable pub drop_routes : List ℕ → Tables → Option Tables
  unfolding drop_route
  drop_routes [] t = some t
  drop_routes (dest ∷ dests) t = do t' ← drop_route dest t; drop_routes dests t'

  -- The third loop: a route that was not confirmed for 45 seconds.
  unfoldable pub age_verdict : ℕ → DvCell → Verdict
  age_verdict dest c =
      let expired : Verdict = elim (find dest direct) [
        | some d ↦ record {
          cell = some (record { next_hop = dest; cost = d.cost; updated = now });
          forward = to dest;
          announce = (dest, u16 d.cost) ∷ [];
        }
        | none ↦ record { cell = none; forward = gone; announce = (dest, infinity_cost) ∷ [] }
      ] in
      if ltb 45000 (sub32 now c.updated)
      then expired
      else record { cell = some c; forward = keep; announce = [] }

unfoldable pub refresh_dv : ℕ → Router → Option Router
unfolding check_ports drop_routes age_verdict sweep send_if_any
refresh_dv now r = do
  let checked =
      check_ports now r.dv_map r.num_ports 0
        (record { ports = r.ports; direct = r.direct_neighbors; to_delete = [] })
  t ←
      drop_routes now checked.direct checked.to_delete
        (record { vector = r.dv_map; table = r.forwarding_table; packet = [] })
  t' ← sweep (age_verdict now checked.direct) t.vector t.table t.packet
  some (
      send_if_any t'.packet (record r {
        ports = checked.ports;
        direct_neighbors = checked.direct;
        dv_map = t'.vector;
        forwarding_table = t'.table;
      }))
