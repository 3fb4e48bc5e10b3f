-- ===== src/Routing/Within.antt =====
-- The ports that the handlers of a router send on: RoutingProtocolImpl.cc, DVImpl.cc, PingPongImpl.cc.
use comp429_computer_network.Base.{
  ℕ, zero, suc, ◌+◌, ◌≤◌, ◌<◌, ◌≡◌, refl, sym, subst, inl, inr, ◌⊎◌, List, [], ◌∷◌, ◌++◌, ◌||◌,
  Option, none, some, some-inj, length, arith, All, ◌==◌, ==_iff, Bool-cases, Option-cases, ◌>>=◌,
  sub32, htonl, load32, byte_at, load16, htons,
}
use comp429_computer_network.Routing.Map.{Map, find, put, remove, find_or, find-put, find-remove}
use comp429_computer_network.Routing.State.{
  Router, Effect, send, set_alarm, overruns, Alarm, exp_alarm, pp_alarm, update_alarm, ProtocolType,
  DvPair, NnCell, DvCell, type_data, type_ping, type_pong, type_dv, emit, default_port,
}
use comp429_computer_network.Routing.Sweep.{sweep}
use comp429_computer_network.Routing.Vector.{
  dv_packet, update_sent, all_pairs, send_ports, send_dv_update, send_if_any, update_dv_table,
  recv_dv, read_pairs, rounds, meet_source, dv_entries,
}
use comp429_computer_network.Routing.Vector.RoundTrip.{dv_packet-overruns}
use comp429_computer_network.Routing.PingPong.{
  ping_ports, generate_ping_pong, handle_ping_pong, handle_pong, add_neighbor,
}
use comp429_computer_network.Routing.Refresh.{
  Checked, refresh_dv, check_ports, drop_routes, age_verdict, is_silent,
}
use comp429_computer_network.Routing.Protocol.{
  init, fresh_router, handle_alarm, runs_dv, recv_data, recv,
}
use comp429_computer_network.Routing.Consistency.Handlers.Effects.{IsSettled}
use comp429_computer_network.Routing.Consistency.Handlers.Neighbors.{
  recv_data-IsForwarded, IsForwarded,
}

module _ (ports : ℕ) where
  abbrev pub IsOn : Effect → Type 0
  IsOn (send port packet) = port < ports
  IsOn (set_alarm duration kind) = duration ≤ 30000
  IsOn (overruns count) = 16382 ≤ count

  -- Every neighbour is at a port of the router.
  abbrev pub AreNear : Map NnCell → Type 0
  AreNear direct = (k : ℕ) (c : NnCell) → find k direct ≡ some c → c.port < ports

  -- A router with so many ports, which knows of no other port and has sent on no other port.
  pub record IsWithin (r : Router) : Type 0 where
    pub count : r.num_ports ≤ ports
    pub near : AreNear r.direct_neighbors
    pub calls : All IsOn r.effects

  All-snoc : (es : List Effect) (e : Effect) → All IsOn es → IsOn e → All IsOn (es ++ e ∷ [])
  All-snoc [] e h k = (k, tt)
  All-snoc (d ∷ es) e h k = (h.0, All-snoc es e h.1 k)

  emit-IsWithin : (e : Effect) (r : Router) → IsOn e → IsWithin r → IsWithin (emit e r)
  emit-IsWithin e r k h = record {
    count = h.count;
    near = h.near;
    calls = All-snoc r.effects e h.calls k;
  }

  put-AreNear :
      (k : ℕ) (c : NnCell) (m : Map NnCell) → c.port < ports → AreNear m → AreNear (put k c m)
  put-AreNear k c m lt h j d e = elim (Bool-cases (k == j)) [
    | inl same ↦
        let at : some c ≡ some d = rw (find-put k j c m, same) at e in rw (some-inj at) at lt
    | inr other ↦ h j d (rw (find-put k j c m, other) at e)
  ]

  remove-AreNear : (k : ℕ) (m : Map NnCell) → AreNear m → AreNear (remove k m)
  remove-AreNear k m h j d e = elim (Bool-cases (k == j)) [
    | inl same ↦ let never : none ≡ some d = rw (find-remove k j m, same) at e in cc
    | inr other ↦ h j d (rw (find-remove k j m, other) at e)
  ]

  send_ports-IsWithin :
      (pairs : List DvPair) (left i : ℕ) (r : Router)
      → i + left ≤ ports
      → IsWithin r
      → IsWithin (send_ports pairs left i r)
  unfolding send_ports
  send_ports-IsWithin pairs zero i r le h = h
  send_ports-IsWithin pairs (suc left) i r le h =
      send_ports-IsWithin pairs left (i + 1) _ (omega arith)
        (elim (Bool-cases (find_or i default_port r.ports).connected) [
          | inl up ↦ rw up (emit-IsWithin _ r (sent (find_or i default_port r.ports).to) h)
          | inr down ↦ rw down h
        ])
    where
      sent : (to : ℕ) → IsOn (update_sent i (length pairs) (dv_packet r.router_id to pairs))
      sent to =
          unfold update_sent in
          elim (Option-cases (dv_packet r.router_id to pairs)) [
            | inl past ↦ rw past (dv_packet-overruns r.router_id to pairs past)
            | inr (packet, built) ↦ let on : i < ports = omega (arith, le) in rw built on
          ]

  send_dv_update-IsWithin :
      (pairs : List DvPair) (r : Router) → IsWithin r → IsWithin (send_dv_update pairs r)
  unfolding send_dv_update
  send_dv_update-IsWithin pairs r h =
      send_ports-IsWithin pairs r.num_ports 0 r (omega (arith, h.count)) h

  send_if_any-IsWithin :
      (pairs : List DvPair) (r : Router) → IsWithin r → IsWithin (send_if_any pairs r)
  unfolding send_if_any
  send_if_any-IsWithin [] r h = h
  send_if_any-IsWithin (p ∷ ps) r h = send_dv_update-IsWithin (p ∷ ps) r h

  ping_ports-IsWithin :
      (now left i : ℕ) (r : Router)
      → i + left ≤ ports
      → IsWithin r
      → IsWithin (ping_ports now left i r)
  unfolding ping_ports
  ping_ports-IsWithin now zero i r le h = h
  ping_ports-IsWithin now (suc left) i r le h =
      ping_ports-IsWithin now left (i + 1) _ (omega arith) (emit-IsWithin _ r (omega arith) h)

  generate_ping_pong-IsWithin :
      (now : ℕ) (r : Router) → IsWithin r → IsWithin (generate_ping_pong now r)
  unfolding generate_ping_pong
  generate_ping_pong-IsWithin now r h =
      ping_ports-IsWithin now r.num_ports 0 r (omega (arith, h.count)) h

  update_dv_table-IsWithin : (r : Router) → IsWithin r → IsWithin (update_dv_table r)
  unfolding update_dv_table
  update_dv_table-IsWithin r h = send_dv_update-IsWithin (all_pairs r.dv_map) r h

  -- A handler's result, where there is one.
  abbrev pub Stays : Option Router → Type 0
  Stays none = Unit
  Stays (some r) = IsWithin r

  bind-Stays :
      {A : Type 0} (o : Option A) (f : A → Option Router)
      → ((a : A) → Stays (f a))
      → Stays (o >>= f)
  bind-Stays none f h = tt
  bind-Stays (some a) f h = h a

  announced :
      (pairs : List DvPair) (r s : Router)
      → IsWithin r
      → s.num_ports ≡ r.num_ports
      → AreNear s.direct_neighbors
      → s.effects ≡ r.effects
      → IsWithin (send_if_any pairs s)
  announced pairs r s h same near calls = send_if_any-IsWithin pairs s (record {
    count = let c = h.count in omega (arith, same, c);
    near = near;
    calls = rw calls h.calls;
  })

  meet_source-AreNear :
      (indeterminate port source : ℕ) (pairs : List DvPair) (r : Router)
      → port < ports
      → AreNear r.direct_neighbors
      → AreNear (meet_source indeterminate port source pairs r).0
  unfolding meet_source
  meet_source-AreNear indeterminate port source pairs r lt h =
      elim (Option-cases (find source r.direct_neighbors)) [
        | inl unknown ↦ rw (meet_source, unknown) (put-AreNear source _ r.direct_neighbors lt h)
        | inr (c, known) ↦ rw (meet_source, known) h
      ]

  recv_dv-Stays :
      (indeterminate now port : ℕ) (packet : List ℕ) (r : Router)
      → port < ports
      → IsWithin r
      → Stays (recv_dv indeterminate now port packet r)
  unfolding recv_dv
  recv_dv-Stays indeterminate now port packet r lt h =
      bind-Stays (read_pairs packet (rounds (length packet)) 0) _ λ pairs.
        let met = meet_source indeterminate port (htons (load16 packet 4)) pairs r in
        bind-Stays
          (dv_entries r.router_id met.0 (htons (load16 packet 4)) met.1 now pairs
            (record { vector = r.dv_map; table = r.forwarding_table; packet = [] }))
          _
          λ t.
            announced t.packet r _ h refl
              (meet_source-AreNear indeterminate port (htons (load16 packet 4)) pairs r lt h.near)
              refl

  handle_pong-Stays :
      (now port : ℕ) (packet : List ℕ) (r : Router)
      → port < ports
      → IsWithin r
      → Stays (handle_pong now port packet r)
  unfolding handle_pong
  handle_pong-Stays now port packet r lt h =
      bind-Stays (sweep _ r.dv_map r.forwarding_table []) _ λ t.
        announced
          (add_neighbor (htons (load16 packet 4)) (sub32 now (htonl (load32 packet 8))) now
            t).packet
          r _ h refl (put-AreNear (htons (load16 packet 4)) _ r.direct_neighbors lt h.near) refl

  handle_ping_pong-Stays :
      (now port : ℕ) (packet : List ℕ) (r : Router)
      → port < ports
      → IsWithin r
      → Stays (handle_ping_pong now port packet r)
  unfolding handle_ping_pong
  handle_ping_pong-Stays now port packet r lt h =
      elim (Bool-cases (byte_at packet 0 == type_ping)) [
        | inl ping ↦ rw ping (emit-IsWithin _ r lt h)
        | inr other ↦ elim (Bool-cases (byte_at packet 0 == type_pong)) [
          | inl pong ↦ rw (other, pong) (handle_pong-Stays now port packet r lt h)
          | inr none_of ↦ rw (other, none_of) h
        ]
      ]

  check_ports-AreNear :
      (now : ℕ) (vector : Map DvCell) (left i : ℕ) (s : Checked)
      → AreNear s.direct
      → AreNear (check_ports now vector left i s).direct
  unfolding check_ports
  check_ports-AreNear now vector zero i s h = h
  check_ports-AreNear now vector (suc left) i s h =
      check_ports-AreNear now vector left (i + 1) _
        (elim (Bool-cases (is_silent now (find_or i default_port s.ports))) [
          | inl silent ↦ rw silent (remove-AreNear _ s.direct h)
          | inr heard ↦ rw heard h
        ])

  refresh_dv-Stays : (now : ℕ) (r : Router) → IsWithin r → Stays (refresh_dv now r)
  unfolding refresh_dv
  refresh_dv-Stays now r h =
      bind-Stays
        (drop_routes now checked.direct checked.to_delete
          (record { vector = r.dv_map; table = r.forwarding_table; packet = [] }))
        _
        λ t.
          bind-Stays (sweep (age_verdict now checked.direct) t.vector t.table t.packet)
            (λ t'. some (
              send_if_any t'.packet (record r {
                ports = checked.ports;
                direct_neighbors = checked.direct;
                dv_map = t'.vector;
                forwarding_table = t'.table;
              })))
            λ t'.
              announced t'.packet r _ h refl
                (check_ports-AreNear now r.dv_map r.num_ports 0 _ h.near) refl
    where
      checked : Checked
      checked =
          check_ports now r.dv_map r.num_ports 0
            (record { ports = r.ports; direct = r.direct_neighbors; to_delete = [] })

  recv_data-IsWithin :
      (packet : List ℕ) (r : Router)
      → byte_at packet 0 ≡ type_data
      → IsSettled r
      → IsWithin r
      → IsWithin (recv_data packet r)
  recv_data-IsWithin packet r typed settled h =
      by_cell (find (htons (load16 packet 6)) r.dv_map)
        (recv_data-IsForwarded packet r typed settled.0)
    where
      by_cell : (o : Option DvCell) → IsForwarded packet r o → IsWithin (recv_data packet r)
      by_cell none e = rw e h
      by_cell (some c) (n, found, e) = rw e (emit-IsWithin _ r (h.near c.next_hop n found) h)

  -- A packet of another router stays within the ports when it comes in on one of them; a DATA packet may
  -- come in on any port, as one from an end does.
  pub recv-Stays :
      (indeterminate now port : ℕ) (packet : List ℕ) (r : Router)
      → (port < ports) ⊎ (byte_at packet 0 ≡ type_data)
      → IsSettled r
      → IsWithin r
      → Stays (recv indeterminate now port packet r)
  unfolding recv
  recv-Stays indeterminate now port packet r from settled h =
      let type = byte_at packet 0 in
      elim (Bool-cases (type == type_data)) [
        | inl data_packet ↦
            let e : recv indeterminate now port packet r ≡ some (recv_data packet r) =
              rw data_packet refl in
            subst Stays (sym e)
              (recv_data-IsWithin packet r ((==_iff type type_data).0 data_packet) settled h)
        | inr no_data ↦
            let lt : port < ports = ground (arith, from, no_data) in
            elim (Bool-cases (type == type_ping || type == type_pong)) [
              | inl probe ↦ rw (no_data, probe) (handle_ping_pong-Stays now port packet r lt h)
              | inr no_probe ↦ elim (Bool-cases (type == type_dv)) [
                | inl dv ↦
                    rw (no_data, no_probe, dv) (recv_dv-Stays indeterminate now port packet r lt h)
                | inr no_dv ↦ rw (no_data, no_probe, no_dv) h
              ]
            ]
      ]

  pub handle_alarm-Stays :
      (now : ℕ) (kind : Alarm) (r : Router) → IsWithin r → Stays (handle_alarm now kind r)
  unfolding handle_alarm
  handle_alarm-Stays now exp_alarm r h = elim (Bool-cases (runs_dv r.protocol_type)) [
    | inl dv ↦ rw dv (rearmed (refresh_dv now r) (refresh_dv-Stays now r h))
    | inr ls ↦ rw ls (emit-IsWithin (set_alarm 1000 exp_alarm) r (omega arith) h)
  ]
    where
      rearmed :
          (o : Option Router)
          → Stays o
          → Stays (o >>= λ r'. some (emit (set_alarm 1000 exp_alarm) r'))
      rearmed none h = tt
      rearmed (some r') h = emit-IsWithin (set_alarm 1000 exp_alarm) r' (omega arith) h
  handle_alarm-Stays now pp_alarm r h =
      emit-IsWithin (set_alarm 10000 pp_alarm) _ (omega arith) (generate_ping_pong-IsWithin now r h)
  handle_alarm-Stays now update_alarm r h = elim (Bool-cases (runs_dv r.protocol_type)) [
    | inl dv ↦ rw dv (
        emit-IsWithin (set_alarm 30000 update_alarm) _ (omega arith) (update_dv_table-IsWithin r h))
    | inr ls ↦ rw ls (emit-IsWithin (set_alarm 30000 update_alarm) r (omega arith) h)
  ]

  pub init-IsWithin :
      (num_ports router_id now : ℕ) (protocol : ProtocolType)
      → num_ports ≤ ports
      → IsWithin (init num_ports router_id protocol now)
  unfolding init fresh_router find
  init-IsWithin num_ports router_id now protocol le =
      let fresh : IsWithin (fresh_router num_ports router_id protocol) = record {
        count = le;
        near = λ k c e. cc;
        calls = tt;
      } in
      let pinged =
        generate_ping_pong-IsWithin now (fresh_router num_ports router_id protocol) fresh in
      let probing = emit-IsWithin (set_alarm 10000 pp_alarm) _ (omega arith) pinged in
      let updating = emit-IsWithin (set_alarm 30000 update_alarm) _ (omega arith) probing in
      emit-IsWithin (set_alarm 1000 exp_alarm) _ (omega arith) updating
