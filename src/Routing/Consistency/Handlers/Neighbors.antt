-- ===== src/Routing/Consistency/Handlers/Neighbors.antt =====
-- `handlePingPong` of project3/PingPongImpl.cc and the loop that forwards data.
use comp429_computer_network.Base.{
  ℕ, ◌≡◌, ◌≢◌, refl, sym, ◌∙◌, ap, List, [], ◌∷◌, Option, some, none, inl, inr, Bool, true, false,
  not, ◌&&◌, arith, ◌==◌, if◌then◌else◌, Bool-cases, ==_iff, Option-cases, dec_eq, sub32, load16,
  load32, htons, htonl, byte_at, some-inj,
}
use comp429_computer_network.Routing.Map.{Map, find, find_or, put, contains, find-put}
use comp429_computer_network.Routing.State.{
  Router, Port, DvCell, NnCell, emit, send, default_port, type_data, type_ping, type_pong,
}
use comp429_computer_network.Routing.Sweep.{Tables, sweep}
use comp429_computer_network.Routing.Sweep.Laws.{hop_of}
use comp429_computer_network.Routing.Vector.{send_if_any}
use comp429_computer_network.Routing.PingPong.{
  handle_pong, handle_ping_pong, pong_verdict, confirm_verdict, add_neighbor, heard_port,
  unplug_others, pong_packet,
}
use comp429_computer_network.Routing.Protocol.{recv_data, forward_over}
use comp429_computer_network.Routing.Consistency.{
  Consistent, AreConsistent, put-Consistent, agree_found,
}
use comp429_computer_network.Routing.Consistency.Updates.{Keeps}
use comp429_computer_network.Routing.Consistency.Pongs.{
  sweep-Keeps, pong_verdict-IsSound, pong_verdict-StaysDirect, confirm_verdict-IsSound,
  confirm_verdict-StaysDirect,
}
use comp429_computer_network.Routing.Consistency.Refreshes.Ports.{IsPlugged}
use comp429_computer_network.Routing.Consistency.Handlers.Effects.{
  IsConsistent, IsSettled, send_if_any-kept,
}
use comp429_computer_network.Routing.Consistency.Handlers.Vectors.{put-direct, contains-put_self}

-- The sender of a packet.
abbrev pub source_of : List ℕ → ℕ
source_of packet = htons (load16 packet 4)

add_neighbor-Consistent :
    (self : ℕ) (direct : Map NnCell) (src rrt now : ℕ) (t : Tables)
    → src ≢ self
    → contains src direct ≡ true
    → AreConsistent self direct t
    → AreConsistent self direct (add_neighbor src rrt now t)
unfolding add_neighbor
add_neighbor-Consistent self direct src rrt now t other met h =
    elim (Bool-cases (not (contains src t.vector))) [
      | inl new ↦
          rw new
            (put-Consistent src (record { next_hop = src; cost = rrt; updated = now }) other met h)
      | inr old ↦ rw old h
    ]

-- Either loop over the vector.
pong_sweep-Keeps :
    (self : ℕ) (direct : Map NnCell) (src rrt diff now : ℕ) (disconnected known unchanged : Bool)
    (vector : Map DvCell) (table : Map ℕ)
    → contains src direct ≡ true
    → Consistent self direct vector table
    → Keeps self direct (
        sweep
          (if unchanged
            then pong_verdict direct src rrt diff disconnected known now
            else confirm_verdict src now)
          vector
          table
          [])
pong_sweep-Keeps self direct src rrt diff now disconnected known true vector table met h =
    sweep-Keeps (pong_verdict direct src rrt diff disconnected known now) self direct vector table
      [] (pong_verdict-IsSound direct src rrt diff disconnected known now met)
      (pong_verdict-StaysDirect direct src rrt diff disconnected known now met) h
pong_sweep-Keeps self direct src rrt diff now disconnected known false vector table met h =
    sweep-Keeps (confirm_verdict src now) self direct vector table []
      (confirm_verdict-IsSound direct src rrt diff disconnected known now met)
      (confirm_verdict-StaysDirect direct src rrt diff disconnected known now met) h

-- A port after `unplug_others`.
abbrev unplugged : ℕ → ℕ → ℕ → Option Port → Option Port
unplugged port src i none = none
unplugged port src i (some p) =
    some (if not (i == port) && p.to == src then record p { connected = false } else p)

-- Unplugging acts port by port.
find-unplug_others :
    (port src i : ℕ) (m : Map Port)
    → find i (unplug_others port src m) ≡ unplugged port src i (find i m)
unfolding find unplug_others
find-unplug_others port src i [] = refl
find-unplug_others port src i ((j, p) ∷ m) = elim (dec_eq j i) [
  | yes e ↦ rw ((==_iff j i).1 e, e) refl
  | no ne ↦
      let miss : (j == i) ≡ false = ground (arith, ne) in rw miss (find-unplug_others port src i m)
]

module _ (port src : ℕ) (old new : Port) (leads : new.to ≡ src) (m : Map Port) where
  -- The ports after a PONG from `src` on `port`.
  abbrev pong_ports : Map Port
  pong_ports = put port new (unplug_others port src (put port old m))

  at_port : (p : Port) → find port pong_ports ≡ some p → p.to ≡ src
  at_port p e =
      let same : new ≡ p =
        some-inj (sym (find-put port port new _ ∙ rw ((==_iff port port).1 refl) refl) ∙ e) in
      sym (ap (λ (q : Port). q.to) same) ∙ leads

  found_ne : (i : ℕ) → port ≢ i → find i pong_ports ≡ unplugged port src i (find i m)
  found_ne i ne =
      let miss : (port == i) ≡ false = ground (arith, ne) in
      find-put port i new _
      ∙ rw miss refl
      ∙ find-unplug_others port src i (put port old m)
      ∙ ap (unplugged port src i) (find-put port i old m ∙ rw miss refl)

  -- A connected other port was connected before, and does not lead to `src`.
  at_other :
      (i : ℕ) (p : Port)
      → port ≢ i
      → find i pong_ports ≡ some p
      → p.connected ≡ true
      → (p.to ≢ src) × (find i m ≡ some p)
  at_other i p ne e up = elim (Option-cases (find i m)) [
    | inl missing ↦ cc (found_ne i ne, ap (unplugged port src i) missing, e)
    | inr (q, found) ↦
        unplugged_found q found (sym (found_ne i ne ∙ ap (unplugged port src i) found) ∙ e)
  ]
    where
      not_port : (i == port) ≡ false
      not_port = ground (arith, ne)

      unplugged_found :
          (q : Port)
          → find i m ≡ some q
          → unplugged port src i (some q) ≡ some p
          → (p.to ≢ src) × (find i m ≡ some p)
      unplugged_found q found u = elim (Bool-cases (q.to == src)) [
        | inl hit ↦
            let down : record q { connected = false } ≡ p = some-inj (rw (not_port, hit) at u) in
            absurd (cc (sym (ap (λ (x : Port). x.connected) down), up))
        | inr miss ↦
            let same : q ≡ p = some-inj (rw (not_port, miss) at u) in
            ((λ t. ground (arith, ap (λ (x : Port). x.to) same)), found ∙ ap some same)
      ]

  pong_ports-IsPlugged : IsPlugged m → IsPlugged pong_ports
  pong_ports-IsPlugged plugged i j p q ne ei ej up uq same = elim (dec_eq port i) [
    | yes e ↦
        (at_other j q (λ ej'. ne (sym e ∙ ej')) ej uq).0 (sym same ∙ at_port p (rw (← e) at ei))
    | no nei ↦ elim (dec_eq port j) [
      | yes e ↦ (at_other i p nei ei up).0 (same ∙ at_port q (rw (← e) at ej))
      | no nej ↦ plugged i j p q ne (at_other i p nei ei up).1 (at_other j q nej ej uq).1 up uq same
    ]
  ]

-- A PONG that another router sent, at any time and with any old time stamp, makes no undefined erase
-- and leaves a settled router settled: its tables are consistent, and no two connected ports lead to
-- the same neighbour.
pub handle_pong-IsSettled :
    (now port : ℕ) (packet : List ℕ) (r : Router)
    → source_of packet ≢ r.router_id
    → IsSettled r
    → (r' : Router) × (handle_pong now port packet r ≡ some r') × IsSettled r'
unfolding handle_pong heard_port
handle_pong-IsSettled now port packet r other (h, plugged) =
    let rrt = sub32 now (htonl (load32 packet 8)) in
    let src = source_of packet in
    let old = find_or port default_port r.ports in
    let direct = put src (record { cost = rrt; port = port }) r.direct_neighbors in
    let met = contains-put_self src (record { cost = rrt; port = port }) r.direct_neighbors in
    let heard = heard_port src now old in
    let ports = unplug_others port src (put port heard r.ports) in
    let diff = sub32 rrt old.cost in
    let (t, e, kept) =
      pong_sweep-Keeps r.router_id direct src rrt diff now (not old.connected)
        (contains src r.dv_map) (not (diff == 0)) r.dv_map r.forwarding_table met
        (put-direct src _ h) in
    let t' = add_neighbor src rrt now t in
    let updated : Router = record r {
      ports = put port (record heard { cost = rrt }) ports;
      direct_neighbors = direct;
      dv_map = t'.vector;
      forwarding_table = t'.table;
    } in
    (
      send_if_any t'.packet updated,
      rw e refl,
      send_if_any-kept IsSettled (λ f s k. k) t'.packet updated
          (
            add_neighbor-Consistent r.router_id direct src rrt now t other met kept,
            pong_ports-IsPlugged port src heard (record heard { cost = rrt }) refl r.ports plugged,
          ),
    )

pub handle_ping_pong-IsSettled :
    (now port : ℕ) (packet : List ℕ) (r : Router)
    → (byte_at packet 0 ≡ type_pong → source_of packet ≢ r.router_id)
    → IsSettled r
    → (r' : Router) × (handle_ping_pong now port packet r ≡ some r') × IsSettled r'
unfolding handle_ping_pong
handle_ping_pong-IsSettled now port packet r other h =
    elim (Bool-cases (byte_at packet 0 == type_ping)) [
      | inl ping ↦ (emit (send port (pong_packet r.router_id packet)) r, rw ping refl, h)
      | inr not_ping ↦ elim (Bool-cases (byte_at packet 0 == type_pong)) [
        | inl pong ↦
            rw (not_ping, pong)
              (handle_pong-IsSettled now port packet r (other ((==_iff _ _).0 pong)) h)
        | inr neither ↦ (r, rw (not_ping, neither) refl, h)
      ]
    ]

contains_found : (k : ℕ) (m : Map NnCell) → contains k m ≡ true → (n : NnCell) × (find k m ≡ some n)
contains_found k m h = elim (Option-cases (find k m)) [
  | inl e ↦ absurd (ground (arith, e))
  | inr (n, e) ↦ (n, e)
]

forward_over-found :
    (hop : ℕ) (packet : List ℕ) (r : Router) (n : NnCell)
    → find hop r.direct_neighbors ≡ some n
    → forward_over hop packet r ≡ emit (send n.port packet) r
unfolding forward_over
forward_over-found hop packet r n found = rw (found, forward_over) refl

-- What becomes of a data packet, by the vector's cell for its destination.
abbrev pub IsForwarded : List ℕ → Router → Option DvCell → Type 0
IsForwarded packet r none = recv_data packet r ≡ r
IsForwarded packet r (some c) =
    (n : NnCell) × (find c.next_hop r.direct_neighbors ≡ some n)
    × (recv_data packet r ≡ emit (send n.port packet) r)

-- On consistent tables, a data packet whose destination the vector holds goes out on the port of its
-- next hop, and any other one, also one to the router itself, changes nothing; in neither case does
-- the lookup of the port store a cell of zeros.
pub recv_data-IsForwarded :
    (packet : List ℕ) (r : Router)
    → byte_at packet 0 ≡ type_data
    → IsConsistent r
    → IsForwarded packet r (find (htons (load16 packet 6)) r.dv_map)
unfolding recv_data
recv_data-IsForwarded packet r typed h = elim (Option-cases (find dest r.dv_map)) [
  | inl e ↦
      let none_there : find dest r.forwarding_table ≡ none = h.agree dest ∙ ap hop_of e in
      elim (Bool-cases (dest == r.router_id)) [
        | inl own ↦ rw (e, is_data, own) refl
        | inr not_own ↦ rw (e, is_data, not_own, none_there) refl
      ]
  | inr (c, e) ↦
      let (n, found) = contains_found c.next_hop r.direct_neighbors (h.via dest c e) in
      let not_own : (dest == r.router_id) ≡ false = ground (arith, other c e) in
      rw (e, is_data, not_own, agree_found dest c h e)
        (n, found, forward_over-found c.next_hop packet r n found)
]
  where
    dest : ℕ
    dest = htons (load16 packet 6)

    is_data : (byte_at packet 0 == type_data) ≡ true
    is_data = (==_iff (byte_at packet 0) type_data).1 typed

    other : (c : DvCell) → find dest r.dv_map ≡ some c → dest ≢ r.router_id
    other c e same = cc (h.no_self, e, same)
