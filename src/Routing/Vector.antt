-- ===== src/Routing/Vector.antt =====
-- project3/DVImpl.cc: DV updates, received and sent. A packet's `size` is the length of its bytes.
pub mod RoundTrip
use comp429_computer_network.Base.{
  ℕ, zero, suc, ◌+◌, ◌-◌, ◌*◌, ◌/◌, List, [], ◌∷◌, ◌++◌, Option, some, none, length, Bool, true,
  false, not, ◌&&◌, ltb, ◌==◌, if◌then◌else◌, ◌>>=◌, u16, u32, replicate, set, store16, load16,
  htons,
}
use comp429_computer_network.Routing.Map.{Map, find, find_or, put, erase}
use comp429_computer_network.Routing.Sweep.{Tables}
use comp429_computer_network.Routing.State.{
  Router, Port, DvCell, NnCell, DvPair, Effect, send, overruns, infinity_cost, type_dv,
  default_port, emit,
}

-- A store into a buffer of `malloc`; `none` is one past its end, which C leaves undefined.
unfoldable pub store_word : List ℕ → ℕ → ℕ → Option (List ℕ)
store_word buf off v = if ltb (off + 1) (length buf) then some (store16 buf off v) else none

unfoldable pub store_byte : List ℕ → ℕ → ℕ → Option (List ℕ)
store_byte buf off v = if ltb off (length buf) then some (set buf off v) else none

-- The loop over `new_packet`; `count` is in 16-bit units.
unfoldable pub fill_pairs : List DvPair → ℕ → List ℕ → Option (List ℕ)
unfolding store_word
fill_pairs [] count buf = some buf
fill_pairs ((dest, cost) ∷ pairs) count buf = do
  first ← store_word buf (2 * count) (htons dest)
  second ← store_word first (2 * (count + 1)) (htons cost)
  fill_pairs pairs (count + 2) second

unfoldable pub dv_table_size : List DvPair → ℕ
dv_table_size pairs = u16 (length pairs * 4 + 8)

-- The packet for one port. The byte that `malloc` leaves indeterminate and nothing reads is 0.
unfoldable pub dv_packet : ℕ → ℕ → List DvPair → Option (List ℕ)
unfolding fill_pairs dv_table_size store_byte
dv_packet router_id to pairs = do
  typed ← store_byte (replicate (dv_table_size pairs) 0) 0 type_dv
  sized ← store_word typed 2 (htons (dv_table_size pairs))
  from ← store_word sized 4 (htons router_id)
  addressed ← store_word from 6 (htons to)
  fill_pairs pairs 4 addressed

-- What is logged for an update of so many pairs.
unfoldable pub update_sent : ℕ → ℕ → Option (List ℕ) → Effect
update_sent port count none = overruns count
update_sent port count (some packet) = send port packet

-- The loop of `sendDVUpdate` from port i on, with `left` rounds to go.
unfoldable pub send_ports : List DvPair → ℕ → ℕ → Router → Router
unfolding update_sent dv_packet
send_ports pairs zero i r = r
send_ports pairs (suc left) i r =
    let p = find_or i default_port r.ports in
    let sent = update_sent i (length pairs) (dv_packet r.router_id p.to pairs) in
    send_ports pairs left (i + 1) (if p.connected then emit sent r else r)

unfoldable pub send_dv_update : List DvPair → Router → Router
unfolding send_ports
send_dv_update pairs r = send_ports pairs r.num_ports 0 r

-- `if (new_packet.size()) sendDVUpdate(new_packet)`
unfoldable pub send_if_any : List DvPair → Router → Router
send_if_any [] r = r
send_if_any (p ∷ ps) r = send_dv_update (p ∷ ps) r

unfoldable pub all_pairs : Map DvCell → List DvPair
all_pairs [] = []
all_pairs ((k, c) ∷ m) = (k, u16 c.cost) ∷ all_pairs m

unfoldable pub update_dv_table : Router → Router
unfolding all_pairs
update_dv_table r = send_dv_update (all_pairs r.dv_map) r

-- `ntohs` of a 16-bit word of a packet, `none` outside it.
unfoldable pub read_word : List ℕ → ℕ → Option ℕ
read_word packet off =
    if ltb (off + 1) (length packet) then some (htons (load16 packet off)) else none

-- The pairs that the loops of `recvDV` read, from word i on. Both loops read in this order, and the
-- second reads all.
unfoldable pub read_pairs : List ℕ → ℕ → ℕ → Option (List DvPair)
unfolding read_word
read_pairs packet zero i = some []
read_pairs packet (suc left) i = do
  dest ← read_word packet (8 + 2 * i)
  cost ← read_word packet (8 + 2 * (i + 1))
  rest ← read_pairs packet left (i + 2)
  some ((dest, cost) ∷ rest)

-- `for (i = 0; i < size/2 - 4; i += 2)`
unfoldable pub rounds : ℕ → ℕ
rounds size = (size / 2 - 4 + 1) / 2

-- The cost that a new neighbour reports for this router; `n_cell.cost` is indeterminate without one.
unfoldable pub reported_cost : ℕ → ℕ → List DvPair → ℕ
reported_cost router_id indeterminate [] = indeterminate
reported_cost router_id indeterminate ((dest, cost) ∷ pairs) =
    if dest == router_id then cost else reported_cost router_id indeterminate pairs

-- One entry of a received update, for a router with the given neighbours.
module _ (router_id : ℕ) (direct : Map NnCell) (source link now : ℕ) where
  -- The route to `dest` becomes the one over `hop` at `cost`, and is announced.
  unfoldable pub reroute : ℕ → ℕ → ℕ → Tables → Tables
  reroute dest hop cost t = record {
    vector = put dest (record { next_hop = hop; cost = cost; updated = now }) t.vector;
    table = put dest hop t.table;
    packet = t.packet ++ (dest, u16 cost) ∷ [];
  }

  -- The next hop reports a finite cost that is no improvement.
  unfoldable pub follow_hop : ℕ → ℕ → Tables → Tables
  unfolding reroute
  follow_hop dest via t = elim (find dest direct) [
    | none ↦ reroute dest source via t
    | some d ↦ if ltb via d.cost then reroute dest source via t else reroute dest dest d.cost t
  ]

  -- The next hop no longer reaches `dest`.
  unfoldable pub lose_route : ℕ → Tables → Option Tables
  unfolding reroute
  lose_route dest t = elim (find dest direct) [
    | some d ↦ some (reroute dest dest d.cost t)
    | none ↦ do
      vector ← erase dest t.vector
      table ← erase dest t.table
      some (record {
        vector = vector;
        table = table;
        packet = t.packet ++ (dest, infinity_cost) ∷ [];
      })
  ]

  -- `dest` is known, by the cell `c`.
  unfoldable pub known_dest : ℕ → ℕ → DvCell → Tables → Option Tables
  unfolding reroute follow_hop lose_route
  known_dest dest cost c t =
      let via = u32 (cost + link) in
      if not (cost == infinity_cost)
      then (if ltb via c.cost
          then some (reroute dest source via t)
          else if source == c.next_hop
          then some (follow_hop dest via t)
          else some t)
      else if source == c.next_hop
      then lose_route dest t
      else some
          (record t { packet = (t.packet ++ (dest, u16 c.cost) ∷ []) ++ (dest, u16 c.cost) ∷ [] })

  unfoldable pub new_dest : ℕ → ℕ → Tables → Tables
  unfolding reroute
  new_dest dest cost t =
      if not (cost == infinity_cost) && not (dest == router_id)
      then reroute dest source (u32 (cost + link)) t
      else t

  unfoldable pub dv_entry : DvPair → Tables → Option Tables
  unfolding known_dest new_dest
  dv_entry (dest, cost) t = elim (find dest t.vector) [
    | some c ↦ known_dest dest cost c t
    | none ↦ some (new_dest dest cost t)
  ]

  unfoldable pub dv_entries : List DvPair → Tables → Option Tables
  unfolding dv_entry
  dv_entries [] t = some t
  dv_entries (p ∷ ps) t = do t' ← dv_entry p t; dv_entries ps t'

-- The neighbours with the sender among them, and what reaching it costs.
unfoldable pub meet_source : ℕ → ℕ → ℕ → List DvPair → Router → Map NnCell × ℕ
unfolding reported_cost
meet_source indeterminate port source pairs r =
    let cost = reported_cost r.router_id indeterminate pairs in
    elim (find source r.direct_neighbors) [
      | some n ↦ (r.direct_neighbors, n.cost)
      | none ↦ (put source (record { cost = cost; port = port }) r.direct_neighbors, cost)
    ]

-- `indeterminate` is what an uninitialised `uint32_t` holds.
unfoldable pub recv_dv : ℕ → ℕ → ℕ → List ℕ → Router → Option Router
unfolding rounds read_pairs meet_source dv_entries send_if_any send_dv_update
recv_dv indeterminate now port packet r = do
  let source = htons (load16 packet 4)
  pairs ← read_pairs packet (rounds (length packet)) 0
  let (direct, link) = meet_source indeterminate port source pairs r
  t ←
      dv_entries r.router_id direct source link now pairs
        (record { vector = r.dv_map; table = r.forwarding_table; packet = [] })
  some (
      send_if_any t.packet
        (record r { direct_neighbors = direct; dv_map = t.vector; forwarding_table = t.table }))
