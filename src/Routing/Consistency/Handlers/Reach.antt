-- ===== src/Routing/Consistency/Handlers/Reach.antt =====
-- Everything that the simulator can make a router do: `init`, then `recv` and `handle_alarm` in any
-- order, at any times.
use comp429_computer_network.Base.{
  ℕ, zero, suc, ◌+◌, ◌<◌, ◌≡◌, ◌≢◌, ◌%◌, refl, sym, ◌∙◌, ap, List, [], Option, some, none, inl, inr,
  true, false, ◌||◌, arith, ◌==◌, if◌then◌else◌, Bool-cases, ==_iff, dec_eq, some-inj, length,
  byte_at, load16, htons,
}
use comp429_computer_network.Routing.Map.{Map, find, put, find-put}
use comp429_computer_network.Routing.State.{
  Router, Port, DvCell, ProtocolType, Alarm, exp_alarm, pp_alarm, update_alarm, emit, set_alarm,
  default_port, type_data, type_ping, type_pong, type_dv,
}
use comp429_computer_network.Routing.Protocol.{
  init, fresh_router, set_up_ports, recv, recv_data, handle_alarm, runs_dv,
}
use comp429_computer_network.Routing.PingPong.{generate_ping_pong}
use comp429_computer_network.Routing.Vector.{update_dv_table}
use comp429_computer_network.Routing.Consistency.Handlers.Effects.{
  IsSettled, generate_ping_pong-kept, update_dv_table-kept,
}
use comp429_computer_network.Routing.Consistency.Handlers.Vectors.{recv_dv-IsSettled}
use comp429_computer_network.Routing.Consistency.Handlers.Neighbors.{
  source_of, handle_ping_pong-IsSettled, recv_data-IsForwarded, IsForwarded,
}
use comp429_computer_network.Routing.Consistency.Handlers.Refreshed.{refresh_dv-IsRefreshed}

-- What other routers send: DV updates of whole pairs, and PONGs of their own.
abbrev pub IsReceivable : ℕ → List ℕ → Type 0
IsReceivable self packet =
    (byte_at packet 0 ≡ type_dv → length packet % 4 < 2)
    × (byte_at packet 0 ≡ type_pong → source_of packet ≢ self)

set_up_ports-connects_none :
    (left i j : ℕ) (m : Map Port) (p : Port)
    → find j (set_up_ports left i m) ≡ some p
    → p.connected ≡ true
    → find j m ≡ some p
unfolding set_up_ports
set_up_ports-connects_none zero i j m p e up = e
set_up_ports-connects_none (suc left) i j m p e up =
    let before = set_up_ports-connects_none left (i + 1) j (put i default_port m) p e up in
    elim (dec_eq i j) [
      | yes same ↦
          let is_down : default_port ≡ p =
            some-inj (sym (find-put i j default_port m ∙ rw ((==_iff i j).1 same) refl) ∙ before) in
          absurd (cc (sym (ap (λ (x : Port). x.connected) is_down), up))
      | no ne ↦
          let miss : (i == j) ≡ false = ground (arith, ne) in
          sym (find-put i j default_port m ∙ rw miss refl) ∙ before
    ]

pub fresh_router-IsSettled :
    (num_ports router_id : ℕ) (protocol : ProtocolType)
    → IsSettled (fresh_router num_ports router_id protocol)
unfolding fresh_router find
fresh_router-IsSettled num_ports router_id protocol = (
  record { sorted = tt; agree = λ k. refl; via = λ k c e. cc e; no_self = refl },
  λ i j p q ne ei ej up uq same. cc (set_up_ports-connects_none num_ports 0 i [] p ei up),
)

-- `init` leaves a settled router, for any number of ports.
pub init-IsSettled :
    (num_ports router_id : ℕ) (protocol : ProtocolType) (now : ℕ)
    → IsSettled (init num_ports router_id protocol now)
unfolding init
init-IsSettled num_ports router_id protocol now =
    generate_ping_pong-kept IsSettled (λ f s k. k) now (fresh_router num_ports router_id protocol)
      (fresh_router-IsSettled num_ports router_id protocol)

recv_data-IsSettled : (packet : List ℕ) (r : Router) → IsSettled r → IsSettled (recv_data packet r)
recv_data-IsSettled packet r h = elim (dec_eq (byte_at packet 0) type_data) [
  | yes typed ↦
      by_cell (find (htons (load16 packet 6)) r.dv_map) (recv_data-IsForwarded packet r typed h.0)
  | no other ↦
      let miss : (byte_at packet 0 == type_data) ≡ false = ground (arith, other) in
      unfold recv_data in rw miss h
]
  where
    by_cell : (o : Option DvCell) → IsForwarded packet r o → IsSettled (recv_data packet r)
    by_cell none e = rw e h
    by_cell (some c) (n, found, e) = rw e h

-- A packet that another router sends is handled without an erase of a missing entry and without a read
-- of a pair outside the packet, whatever an uninitialised cost is, and leaves a settled router settled.
pub recv-IsSettled :
    (indeterminate now port : ℕ) (packet : List ℕ) (r : Router)
    → IsReceivable r.router_id packet
    → IsSettled r
    → (r' : Router) × (recv indeterminate now port packet r ≡ some r') × IsSettled r'
unfolding recv
recv-IsSettled indeterminate now port packet r (whole, other) h =
    let type = byte_at packet 0 in
    elim (Bool-cases (type == type_data)) [
      | inl data_packet ↦ (recv_data packet r, rw data_packet refl, recv_data-IsSettled packet r h)
      | inr no_data ↦ elim (Bool-cases (type == type_ping || type == type_pong)) [
        | inl probe ↦ rw (no_data, probe) (handle_ping_pong-IsSettled now port packet r other h)
        | inr no_probe ↦ elim (Bool-cases (type == type_dv)) [
          | inl dv ↦
              rw (no_data, no_probe, dv)
                (recv_dv-IsSettled indeterminate now port packet r
                  (whole ((==_iff type type_dv).0 dv)) h)
          | inr no_dv ↦ (r, rw (no_data, no_probe, no_dv) refl, h)
        ]
      ]
    ]

-- On a settled router every alarm is handled without an erase of a missing entry, at any time, and
-- leaves the router settled.
pub handle_alarm-IsSettled :
    (now : ℕ) (a : Alarm) (r : Router)
    → IsSettled r
    → (r' : Router) × (handle_alarm now a r ≡ some r') × IsSettled r'
unfolding handle_alarm
handle_alarm-IsSettled now exp_alarm r h = elim (Bool-cases (runs_dv r.protocol_type)) [
  | inl dv ↦
      let (r', e, refreshed) = refresh_dv-IsRefreshed now r h in
      (emit (set_alarm 1000 exp_alarm) r', rw (dv, e) refl, refreshed.0)
  | inr ls ↦ (emit (set_alarm 1000 exp_alarm) r, rw ls refl, h)
]
handle_alarm-IsSettled now pp_alarm r h = (
  emit (set_alarm 10000 pp_alarm) (generate_ping_pong now r),
  refl,
  generate_ping_pong-kept IsSettled (λ f s k. k) now r h,
)
handle_alarm-IsSettled now update_alarm r h = (
  emit (set_alarm 30000 update_alarm) (if runs_dv r.protocol_type then update_dv_table r else r),
  refl,
  elim (Bool-cases (runs_dv r.protocol_type)) [
    | inl dv ↦ rw dv (update_dv_table-kept IsSettled (λ f s k. k) r h)
    | inr ls ↦ rw ls h
  ],
)

-- The states of a router after `init` and any sequence of packets and alarms.
pub data Reaches : Router → Type 0 where
  started :
      (num_ports router_id : ℕ) (protocol : ProtocolType) (now : ℕ)
      → Reaches (init num_ports router_id protocol now)
  received :
      (indeterminate now port : ℕ) (packet : List ℕ) (r r' : Router)
      → Reaches r
      → IsReceivable r.router_id packet
      → recv indeterminate now port packet r ≡ some r'
      → Reaches r'
  alarmed :
      (now : ℕ) (a : Alarm) (r r' : Router)
      → Reaches r
      → handle_alarm now a r ≡ some r'
      → Reaches r'

-- In every state that `init`, packets of other routers and alarms lead to, in any order and at any
-- times, the router is settled: forwarding table and distance vector have the same destinations and
-- next hops, every next hop is a neighbour, there is no route to the router itself, and no two
-- connected ports lead to the same neighbour.
pub Reaches-IsSettled : (r : Router) → Reaches r → IsSettled r
Reaches-IsSettled _ (started num_ports router_id protocol now) =
    init-IsSettled num_ports router_id protocol now
Reaches-IsSettled r' (received indeterminate now port packet r _ before ok e) =
    let (r'', e', h) =
      recv-IsSettled indeterminate now port packet r ok (Reaches-IsSettled r before) in
    let same : r'' ≡ r' = some-inj (sym e' ∙ e) in rw same at h
Reaches-IsSettled r' (alarmed now a r _ before e) =
    let (r'', e', h) = handle_alarm-IsSettled now a r (Reaches-IsSettled r before) in
    let same : r'' ≡ r' = some-inj (sym e' ∙ e) in rw same at h

-- A reachable router handles every further alarm and packet, and what comes of it is reachable.
pub Reaches-advances :
    (r : Router)
    → Reaches r
    → ((now : ℕ) (a : Alarm) → (r' : Router) × (handle_alarm now a r ≡ some r') × Reaches r')
      × ((indeterminate now port : ℕ) (packet : List ℕ)
          → IsReceivable r.router_id packet
          → (r' : Router) × (recv indeterminate now port packet r ≡ some r') × Reaches r')
Reaches-advances r h = (
  λ now a.
      let (r', e, _) = handle_alarm-IsSettled now a r (Reaches-IsSettled r h) in
      (r', e, alarmed now a r r' h e),
  λ indeterminate now port packet ok.
      let (r', e, _) = recv-IsSettled indeterminate now port packet r ok (Reaches-IsSettled r h) in
      (r', e, received indeterminate now port packet r r' h ok e),
)
