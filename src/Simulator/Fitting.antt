-- ===== src/Simulator/Fitting.antt =====
-- The calls that the handlers of a router make, and what is in their packets.
use comp429_computer_network.Base.{
  ℕ, zero, suc, ◌+◌, ◌<◌, ◌≡◌, refl, sym, subst, ◌∙◌, inl, inr, List, [], ◌∷◌, ◌||◌, Option, none,
  some, length, arith, ◌==◌, ==_iff, Bool-cases, Option-cases, ◌>>=◌, sub32, htonl, load32, byte_at,
  load16, htons,
}
use comp429_computer_network.Routing.Map.{find, find_or}
use comp429_computer_network.Routing.State.{
  Router, set_alarm, Alarm, exp_alarm, pp_alarm, update_alarm, ProtocolType, DvPair, type_data,
  type_ping, type_pong, type_dv, emit, default_port,
}
use comp429_computer_network.Routing.Sweep.{sweep}
use comp429_computer_network.Routing.Vector.{
  dv_packet, update_sent, all_pairs, send_ports, send_dv_update, send_if_any, update_dv_table,
  recv_dv, read_pairs, rounds, meet_source, dv_entries,
}
use comp429_computer_network.Routing.PingPong.{
  ping_ports, generate_ping_pong, handle_ping_pong, handle_pong, add_neighbor,
}
use comp429_computer_network.Routing.Refresh.{
  Checked, refresh_dv, check_ports, drop_routes, age_verdict,
}
use comp429_computer_network.Routing.Protocol.{
  init, fresh_router, handle_alarm, runs_dv, forward_over, recv_data, recv,
}
use comp429_computer_network.Simulator.Wire.{
  IsWire, IsFitting, emit-IsFitting, update_sent-IsFit, ping_packet-IsWire, pong_packet-IsWire,
}

module _ (self : ℕ) (small : self < 65536) where
  send_ports-IsFitting :
      (pairs : List DvPair) (left i : ℕ) (r : Router)
      → IsFitting self r
      → IsFitting self (send_ports pairs left i r)
  unfolding send_ports
  send_ports-IsFitting pairs zero i r h = h
  send_ports-IsFitting pairs (suc left) i r h =
      send_ports-IsFitting pairs left (i + 1) _
        (elim (Bool-cases (find_or i default_port r.ports).connected) [
          | inl up ↦ rw up (sent (find_or i default_port r.ports).to)
          | inr down ↦ rw down h
        ])
    where
      sent :
          (to : ℕ)
          → IsFitting self (emit (update_sent i (length pairs) (dv_packet r.router_id to pairs)) r)
      sent to =
          emit-IsFitting self small _ r
            (rw h.same_id (update_sent-IsFit self small i (length pairs) to pairs)) h

  send_if_any-IsFitting :
      (pairs : List DvPair) (r : Router) → IsFitting self r → IsFitting self (send_if_any pairs r)
  unfolding send_if_any send_dv_update
  send_if_any-IsFitting [] r h = h
  send_if_any-IsFitting (p ∷ ps) r h = send_ports-IsFitting (p ∷ ps) r.num_ports 0 r h

  ping_ports-IsFitting :
      (now left i : ℕ) (r : Router) → IsFitting self r → IsFitting self (ping_ports now left i r)
  unfolding ping_ports
  ping_ports-IsFitting now zero i r h = h
  ping_ports-IsFitting now (suc left) i r h =
      ping_ports-IsFitting now left (i + 1) _
        (emit-IsFitting self small _ r (rw h.same_id (ping_packet-IsWire self small now)) h)

  generate_ping_pong-IsFitting :
      (now : ℕ) (r : Router) → IsFitting self r → IsFitting self (generate_ping_pong now r)
  unfolding generate_ping_pong
  generate_ping_pong-IsFitting now r h = ping_ports-IsFitting now r.num_ports 0 r h

  update_dv_table-IsFitting : (r : Router) → IsFitting self r → IsFitting self (update_dv_table r)
  unfolding update_dv_table send_dv_update
  update_dv_table-IsFitting r h = send_ports-IsFitting (all_pairs r.dv_map) r.num_ports 0 r h

  -- A handler's result, where there is one.
  abbrev pub Fits : Option Router → Type 0
  Fits none = Unit
  Fits (some r) = IsFitting self r

  bind-Fits :
      {A : Type 0} (o : Option A) (f : A → Option Router) → ((a : A) → Fits (f a)) → Fits (o >>= f)
  bind-Fits none f h = tt
  bind-Fits (some a) f h = h a

  announced :
      (pairs : List DvPair) (r s : Router)
      → IsFitting self r
      → s.router_id ≡ r.router_id
      → s.effects ≡ r.effects
      → IsFitting self (send_if_any pairs s)
  announced pairs r s h same_id same =
      send_if_any-IsFitting pairs s
        (record { same_id = same_id ∙ h.same_id; calls = rw same h.calls })

  recv_dv-Fits :
      (indeterminate now port : ℕ) (packet : List ℕ) (r : Router)
      → IsFitting self r
      → Fits (recv_dv indeterminate now port packet r)
  unfolding recv_dv
  recv_dv-Fits indeterminate now port packet r h =
      bind-Fits (read_pairs packet (rounds (length packet)) 0) _ λ pairs.
        bind-Fits
          (dv_entries r.router_id
            (meet_source indeterminate port (htons (load16 packet 4)) pairs r).0
            (htons (load16 packet 4))
            (meet_source indeterminate port (htons (load16 packet 4)) pairs r).1 now pairs
            (record { vector = r.dv_map; table = r.forwarding_table; packet = [] }))
          _ λ t. announced t.packet r _ h refl refl

  handle_pong-Fits :
      (now port : ℕ) (packet : List ℕ) (r : Router)
      → IsFitting self r
      → Fits (handle_pong now port packet r)
  unfolding handle_pong
  handle_pong-Fits now port packet r h = bind-Fits (sweep _ r.dv_map r.forwarding_table []) _ λ t.
      announced
        (add_neighbor (htons (load16 packet 4)) (sub32 now (htonl (load32 packet 8))) now t).packet
        r _ h refl refl

  handle_ping_pong-Fits :
      (now port : ℕ) (packet : List ℕ) (r : Router) (sender : ℕ)
      → IsFitting self r
      → IsWire sender packet
      → Fits (handle_ping_pong now port packet r)
  unfolding handle_ping_pong
  handle_ping_pong-Fits now port packet r sender h wire =
      elim (Bool-cases (byte_at packet 0 == type_ping)) [
        | inl ping ↦ rw ping (
            emit-IsFitting self small _ r
              (rw h.same_id
                (pong_packet-IsWire self small packet (wire.full ((==_iff _ _).0 ping))))
              h)
        | inr other ↦ elim (Bool-cases (byte_at packet 0 == type_pong)) [
          | inl pong ↦ rw (other, pong) (handle_pong-Fits now port packet r h)
          | inr none_of ↦ rw (other, none_of) h
        ]
      ]

  refresh_dv-Fits : (now : ℕ) (r : Router) → IsFitting self r → Fits (refresh_dv now r)
  unfolding refresh_dv
  refresh_dv-Fits now r h =
      bind-Fits
        (drop_routes now checked.direct checked.to_delete
          (record { vector = r.dv_map; table = r.forwarding_table; packet = [] }))
        _
        λ t.
          bind-Fits (sweep (age_verdict now checked.direct) t.vector t.table t.packet)
            (λ t'. some (
              send_if_any t'.packet (record r {
                ports = checked.ports;
                direct_neighbors = checked.direct;
                dv_map = t'.vector;
                forwarding_table = t'.table;
              })))
            λ t'.
              announced t'.packet r
                (record r {
                  ports = checked.ports;
                  direct_neighbors = checked.direct;
                  dv_map = t'.vector;
                  forwarding_table = t'.table;
                })
                h refl refl
    where
      checked : Checked
      checked =
          check_ports now r.dv_map r.num_ports 0
            (record { ports = r.ports; direct = r.direct_neighbors; to_delete = [] })

  recv_data-IsFitting :
      (packet : List ℕ) (r : Router) → IsFitting self r → IsFitting self (recv_data packet r)
  unfolding recv_data
  recv_data-IsFitting packet r h = elim (Bool-cases (byte_at packet 0 == type_data)) [
    | inl typed ↦ elim (Bool-cases (htons (load16 packet 6) == r.router_id)) [
      | inl own ↦ rw (typed, own) h
      | inr other ↦
          rw (typed, other)
            (routed (find (htons (load16 packet 6)) r.forwarding_table) ((==_iff _ _).0 typed))
    ]
    | inr other ↦ rw other h
  ]
    where
      wire : byte_at packet 0 ≡ type_data → IsWire self packet
      wire typed = record {
        whole = λ e. absurd (omega arith);
        own = λ e. absurd (e typed);
        full = λ e. absurd (omega arith);
      }

      over : (hop : ℕ) → byte_at packet 0 ≡ type_data → IsFitting self (forward_over hop packet r)
      over hop typed = elim (Option-cases (find hop r.direct_neighbors)) [
        | inl missing ↦
            unfold forward_over in
            rw (forward_over, missing)
              (emit-IsFitting self small _ _ (wire typed)
                (record { same_id = h.same_id; calls = h.calls }))
        | inr (d, found) ↦
            unfold forward_over in
            rw (forward_over, found) (emit-IsFitting self small _ r (wire typed) h)
      ]

      routed :
          (o : Option ℕ)
          → byte_at packet 0 ≡ type_data
          → IsFitting self (elim o [ none ↦ r | some hop ↦ forward_over hop packet r ])
      routed none typed = h
      routed (some hop) typed = over hop typed

  -- Every handler of a router makes fit calls only, on a packet that some router sent.
  pub recv-Fits :
      (indeterminate now port : ℕ) (packet : List ℕ) (r : Router) (sender : ℕ)
      → IsFitting self r
      → IsWire sender packet
      → Fits (recv indeterminate now port packet r)
  unfolding recv
  recv-Fits indeterminate now port packet r sender h wire =
      let type = byte_at packet 0 in
      elim (Bool-cases (type == type_data)) [
        | inl data_packet ↦
            let e : recv indeterminate now port packet r ≡ some (recv_data packet r) =
              rw data_packet refl in
            subst Fits (sym e) (recv_data-IsFitting packet r h)
        | inr no_data ↦ elim (Bool-cases (type == type_ping || type == type_pong)) [
          | inl probe ↦ rw (no_data, probe) (handle_ping_pong-Fits now port packet r sender h wire)
          | inr no_probe ↦ elim (Bool-cases (type == type_dv)) [
            | inl dv ↦ rw (no_data, no_probe, dv) (recv_dv-Fits indeterminate now port packet r h)
            | inr no_dv ↦ rw (no_data, no_probe, no_dv) h
          ]
        ]
      ]

  alarm-IsFitting :
      (duration : ℕ) (kind : Alarm) (r : Router)
      → IsFitting self r
      → IsFitting self (emit (set_alarm duration kind) r)
  alarm-IsFitting duration kind r h = emit-IsFitting self small _ r tt h

  pub handle_alarm-Fits :
      (now : ℕ) (kind : Alarm) (r : Router) → IsFitting self r → Fits (handle_alarm now kind r)
  unfolding handle_alarm
  handle_alarm-Fits now exp_alarm r h = elim (Bool-cases (runs_dv r.protocol_type)) [
    | inl dv ↦ rw dv (rearmed (refresh_dv now r) (refresh_dv-Fits now r h))
    | inr ls ↦ rw ls (alarm-IsFitting 1000 exp_alarm r h)
  ]
    where
      rearmed :
          (o : Option Router)
          → Fits o
          → Fits (o >>= λ r'. some (emit (set_alarm 1000 exp_alarm) r'))
      rearmed none h = tt
      rearmed (some r') h = alarm-IsFitting 1000 exp_alarm r' h
  handle_alarm-Fits now pp_alarm r h =
      alarm-IsFitting 10000 pp_alarm _ (generate_ping_pong-IsFitting now r h)
  handle_alarm-Fits now update_alarm r h = elim (Bool-cases (runs_dv r.protocol_type)) [
    | inl dv ↦ rw dv (alarm-IsFitting 30000 update_alarm _ (update_dv_table-IsFitting r h))
    | inr ls ↦ rw ls (alarm-IsFitting 30000 update_alarm r h)
  ]

  fresh_router-IsFitting :
      (num_ports : ℕ) (protocol : ProtocolType)
      → IsFitting self (fresh_router num_ports self protocol)
  unfolding fresh_router
  fresh_router-IsFitting num_ports protocol = record { same_id = refl; calls = tt }

  pub init-IsFitting :
      (num_ports now : ℕ) (protocol : ProtocolType)
      → IsFitting self (init num_ports self protocol now)
  unfolding init
  init-IsFitting num_ports now protocol =
      let pinged =
        generate_ping_pong-IsFitting now (fresh_router num_ports self protocol)
          (fresh_router-IsFitting num_ports protocol) in
      let probing = alarm-IsFitting 10000 pp_alarm _ pinged in
      let updating = alarm-IsFitting 30000 update_alarm _ probing in
      alarm-IsFitting 1000 exp_alarm _ updating
