-- ===== src/Routing/PingPong.antt =====
-- project3/PingPongImpl.cc: the probes of the neighbours. `now` is `sys->time()`.
use comp429_computer_network.Base.{
  ℕ, zero, suc, ◌+◌, List, [], ◌∷◌, ◌++◌, Option, some, none, take, byte_at, Bool, true, false, not,
  ◌&&◌, ◌||◌, leb, ◌==◌, if◌then◌else◌, ◌>>=◌, u16, sub32, replicate, set, store16, store32, load16,
  load32, htons, htonl,
}
use comp429_computer_network.Routing.Map.{Map, find, find_or, put, contains}
use comp429_computer_network.Routing.Sweep.{keep, to, Verdict, Tables, sweep}
use comp429_computer_network.Routing.Vector.{send_if_any, all_pairs}
use comp429_computer_network.Routing.State.{
  Router, Port, DvCell, NnCell, send, type_ping, type_pong, default_port, emit,
}

unfoldable pub ping_packet : ℕ → ℕ → List ℕ
ping_packet router_id now =
    let typed = set (replicate 12 0) 0 type_ping in
    let sized = store16 typed 2 (htons 12) in
    let from = store16 sized 4 (htons router_id) in store32 from 8 (htonl now)

-- The loop from port i on, with `left` rounds to go.
unfoldable pub ping_ports : ℕ → ℕ → ℕ → Router → Router
unfolding ping_packet
ping_ports now zero i r = r
ping_ports now (suc left) i r =
    ping_ports now left (i + 1) (emit (send i (ping_packet r.router_id now)) r)

unfoldable pub generate_ping_pong : ℕ → Router → Router
unfolding ping_ports
generate_ping_pong now r = ping_ports now r.num_ports 0 r

-- The answer, written over the probe.
unfoldable pub pong_packet : ℕ → List ℕ → List ℕ
pong_packet router_id packet =
    let typed = set packet 0 type_pong in
    let addressed = store16 typed 6 (htons (htons (load16 typed 4))) in
    take 12 (store16 addressed 4 (htons router_id))

-- No other port is taken for a link to `src`.
unfoldable pub unplug_others : ℕ → ℕ → Map Port → Map Port
unplug_others port src [] = []
unplug_others port src ((i, p) ∷ m) =
    (i, if not (i == port) && p.to == src then record p { connected = false } else p)
    ∷ unplug_others port src m

-- One entry of `dv_map` when the round trip time to `src` has changed by `diff`.
unfoldable pub pong_verdict : Map NnCell → ℕ → ℕ → ℕ → Bool → Bool → ℕ → ℕ → DvCell → Verdict
pong_verdict direct src rrt diff disconnected known now dest c =
    let maychange_cost = u16 (c.cost + diff) in
    let over_src : Verdict = elim (find dest direct) [
      | some d ↦
          if leb d.cost maychange_cost
          then record {
            cell = some (record { next_hop = dest; cost = d.cost; updated = now });
            forward = to dest;
            announce = (dest, u16 d.cost) ∷ [];
          }
          else record {
            cell = some (record c { updated = now });
            forward = keep;
            announce = (dest, u16 c.cost) ∷ [];
          }
      | none ↦ record {
        cell = some (record c { cost = maychange_cost; updated = now });
        forward = keep;
        announce = (dest, u16 maychange_cost) ∷ [];
      }
    ] in
    if c.next_hop == src
    then over_src
    else if dest == src && leb rrt c.cost
    then record {
      cell = some (record { next_hop = src; cost = rrt; updated = now });
      forward = to src;
      announce = (dest, u16 rrt) ∷ [];
    }
    else if disconnected && known
    then record { cell = some c; forward = keep; announce = (dest, u16 c.cost) ∷ [] }
    else record { cell = some c; forward = keep; announce = [] }

-- With the time unchanged the routes over `src`, and that to it, are only confirmed.
unfoldable pub confirm_verdict : ℕ → ℕ → ℕ → DvCell → Verdict
confirm_verdict src now dest c =
    let confirmed = (c.next_hop == src) || (dest == src) in
    record {
      cell = some (if confirmed then record c { updated = now } else c);
      forward = keep;
      announce = [];
    }

-- A neighbour that the vector does not hold yet: its route, and the whole vector announced.
unfoldable pub add_neighbor : ℕ → ℕ → ℕ → Tables → Tables
add_neighbor src rrt now t =
    let vector = put src (record { next_hop = src; cost = rrt; updated = now }) t.vector in
    if not (contains src t.vector)
    then record {
      vector = vector;
      table = put src src t.table;
      packet = t.packet ++ all_pairs vector;
    }
    else t

-- The port that a PONG came in on.
unfoldable pub heard_port : ℕ → ℕ → Port → Port
heard_port src now p = record p { to = src; connected = true; updated = now }

-- Both branches over `direct_neighbors` store the same cell.
unfoldable pub handle_pong : ℕ → ℕ → List ℕ → Router → Option Router
unfolding pong_verdict confirm_verdict add_neighbor heard_port unplug_others sweep send_if_any
handle_pong now port packet r = do
  let rrt = sub32 now (htonl (load32 packet 8))
  let src = htons (load16 packet 4)
  let old = find_or port default_port r.ports
  let direct = put src (record { cost = rrt; port = port }) r.direct_neighbors
  let heard = heard_port src now old
  let ports = unplug_others port src (put port heard r.ports)
  let diff = sub32 rrt old.cost
  let changed = pong_verdict direct src rrt diff (not old.connected) (contains src r.dv_map) now
  let verdict = if not (diff == 0) then changed else confirm_verdict src now
  t ← sweep verdict r.dv_map r.forwarding_table []
  let t' = add_neighbor src rrt now t
  some (
      send_if_any t'.packet (record r {
        ports = put port (record heard { cost = rrt }) ports;
        direct_neighbors = direct;
        dv_map = t'.vector;
        forwarding_table = t'.table;
      }))

unfoldable pub handle_ping_pong : ℕ → ℕ → List ℕ → Router → Option Router
unfolding handle_pong pong_packet
handle_ping_pong now port packet r =
    let type = byte_at packet 0 in
    if type == type_ping
    then some (emit (send port (pong_packet r.router_id packet)) r)
    else if type == type_pong
    then handle_pong now port packet r
    else some r
