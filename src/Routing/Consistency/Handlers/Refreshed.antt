-- ===== src/Routing/Consistency/Handlers/Refreshed.antt =====
-- `refreshDV` of project3/RoutingProtocolImpl.cc, all three loops.
use comp429_computer_network.Base.{
  ℕ, zero, suc, ◌+◌, ◌≤◌, ◌≡◌, ◌≢◌, refl, sym, ◌∙◌, ap, List, [], ◌++◌, Option, some, none, inl,
  inr, true, false, arith, ◌==◌, Bool-cases, ==_iff, dec_eq, sub32, some-inj,
}
use comp429_computer_network.Routing.Map.{Map, find, find_or, put, remove, contains, find-put}
use comp429_computer_network.Routing.State.{Router, Port, DvPair, DvCell, NnCell, default_port}
use comp429_computer_network.Routing.Sweep.{Tables, sweep}
use comp429_computer_network.Routing.Sweep.Laws.{IsSound, sweep-IsSwept, step_cell}
use comp429_computer_network.Routing.Vector.{send_if_any}
use comp429_computer_network.Routing.Refresh.{
  refresh_dv, check_ports, age_verdict, is_silent, Checked, routes_over,
}
use comp429_computer_network.Routing.Consistency.{Consistent, agree_found}
use comp429_computer_network.Routing.Consistency.Pongs.{StaysDirect, sweep-Keeps}
use comp429_computer_network.Routing.Consistency.Refreshes.Ports.{IsPlugged}
use comp429_computer_network.Routing.Consistency.Refreshes.Collect.{
  Lost, Collected, check_ports-Collected, Collected-start,
}
use comp429_computer_network.Routing.Consistency.Refreshes.Drops.{Pending, drop_routes-Keeps}
use comp429_computer_network.Routing.Consistency.Handlers.Effects.{IsSettled, send_if_any-kept}

module _ (now : ℕ) (direct : Map NnCell) where
  age_verdict-IsSound : IsSound (age_verdict now direct)
  unfolding age_verdict
  age_verdict-IsSound k c = ground arith

  age_verdict-StaysDirect : StaysDirect direct (age_verdict now direct)
  unfolding age_verdict
  age_verdict-StaysDirect k c d h e = ground arith

  -- What the third loop leaves is fresh.
  age_verdict-fresh :
      (k : ℕ) (o : Option DvCell) (d : DvCell)
      → step_cell (age_verdict now direct) k o ≡ some d
      → sub32 now d.updated ≤ 45000
  unfolding age_verdict
  age_verdict-fresh k none d e = ground arith
  age_verdict-fresh k (some c) d e = ground arith

  sweep-fresh :
      (self : ℕ) (vector : Map DvCell) (table : Map ℕ) (packet : List DvPair) (t : Tables)
      → Consistent self direct vector table
      → sweep (age_verdict now direct) vector table packet ≡ some t
      → (k : ℕ) (d : DvCell) → find k t.vector ≡ some d
      → sub32 now d.updated ≤ 45000
  sweep-fresh self vector table packet t h e k d found =
      let (t', e', w) =
        sweep-IsSwept (age_verdict now direct) 0 vector table packet age_verdict-IsSound h.sorted
          (λ j c. agree_found j c h) in
      let same : t' ≡ t = some-inj (sym e' ∙ e) in
      age_verdict-fresh k (find k vector) d
        (sym (w.cells k) ∙ ap (λ (x : Tables). find k x.vector) same ∙ found)

-- The first loop connects no port and moves none.
check_ports-connects_none :
    (now : ℕ) (vector : Map DvCell) (left i : ℕ) (s : Checked) (j : ℕ) (p : Port)
    → find j (check_ports now vector left i s).ports ≡ some p
    → p.connected ≡ true
    → find j s.ports ≡ some p
unfolding check_ports
check_ports-connects_none now vector zero i s j p e up = e
check_ports-connects_none now vector (suc left) i s j p e up =
    let q = find_or i default_port s.ports in
    let down : Port = record q { connected = false; cost = 0 } in
    let dropped : Checked = record {
      ports = put i down s.ports;
      direct = remove q.to s.direct;
      to_delete = s.to_delete ++ routes_over q.to vector;
    } in
    elim (Bool-cases (is_silent now q)) [
      | inl silent ↦
          let before =
            check_ports-connects_none now vector left (i + 1) dropped j p
              (rw (check_ports, silent) at e) up in
          elim (dec_eq i j) [
            | yes same ↦
                let is_down : down ≡ p =
                  some-inj
                    (sym (find-put i j down s.ports ∙ rw ((==_iff i j).1 same) refl) ∙ before) in
                absurd (cc (sym (ap (λ (x : Port). x.connected) is_down), up))
            | no ne ↦
                let miss : (i == j) ≡ false = ground (arith, ne) in
                sym (find-put i j down s.ports ∙ rw miss refl) ∙ before
          ]
      | inr quiet ↦
          check_ports-connects_none now vector left (i + 1) s j p (rw (check_ports, quiet) at e) up
    ]

-- A next hop that is a neighbour is not one that was lost.
lost-ne :
    (direct : Map NnCell) (hop hop' : ℕ)
    → contains hop direct ≡ false
    → contains hop' direct ≡ true
    → hop' ≢ hop
lost-ne direct hop hop' out known same = cc (out, known, same)

-- The routes after the first two loops.
module _ (now : ℕ) (r : Router) (settled : IsSettled r) where
  abbrev checked : Checked
  checked =
      check_ports now r.dv_map r.num_ports 0
        (record { ports = r.ports; direct = r.direct_neighbors; to_delete = [] })

  collected : Collected now r.ports r.direct_neighbors r.dv_map r.num_ports checked
  collected =
      check_ports-Collected now r.ports r.direct_neighbors r.dv_map settled.1 settled.0.sorted
        r.num_ports 0 r.num_ports _ (omega arith)
        (Collected-start now r.ports r.direct_neighbors r.dv_map)

  pending :
      Pending r.router_id checked.direct checked.to_delete
        (record { vector = r.dv_map; table = r.forwarding_table; packet = [] })
  pending = record {
    sorted = settled.0.sorted;
    agree = settled.0.agree;
    via = λ k c e. elim (collected.kept c.next_hop (settled.0.via k c e)) [
      | inl there ↦ inl there
      | inr lost ↦ inr (collected.complete k c.next_hop lost (c, e, refl))
    ];
    no_self = settled.0.no_self;
    present = λ k i. let (h, lost, (c, e, over)) = collected.over_lost k i in ground (arith, e);
    once = collected.once;
  }

  checked-IsPlugged : IsPlugged checked.ports
  checked-IsPlugged i j p q ne ei ej up uq =
      settled.1 i j p q ne (check_ports-connects_none now r.dv_map r.num_ports 0 _ i p ei up)
        (check_ports-connects_none now r.dv_map r.num_ports 0 _ j q ej uq) up uq

-- After a refresh: the router is settled, no route goes over a neighbour whose port fell silent, and
-- every route was confirmed in the last 45 seconds.
abbrev pub IsRefreshed : ℕ → Router → Router → Type 0
IsRefreshed now before r =
    IsSettled r
    × ((hop : ℕ)
        → Lost now before.ports before.num_ports hop
        → (k : ℕ) (c : DvCell) → find k r.dv_map ≡ some c
        → c.next_hop ≢ hop)
    × ((k : ℕ) (c : DvCell) → find k r.dv_map ≡ some c → sub32 now c.updated ≤ 45000)

-- On a settled router `refreshDV` erases only entries that are there, at any time; afterwards the
-- router is settled, no route goes over a neighbour that a port silent for more than 15 seconds led
-- to, and every route was confirmed in the last 45 seconds.
pub refresh_dv-IsRefreshed :
    (now : ℕ) (r : Router)
    → IsSettled r
    → (r' : Router) × (refresh_dv now r ≡ some r') × IsRefreshed now r r'
unfolding refresh_dv
refresh_dv-IsRefreshed now r settled =
    let s = checked now r settled in
    let (t, e, kept) =
      drop_routes-Keeps r.router_id now s.direct s.to_delete
        (record { vector = r.dv_map; table = r.forwarding_table; packet = [] })
        (pending now r settled) in
    let (t', e', kept') =
      sweep-Keeps (age_verdict now s.direct) r.router_id s.direct t.vector t.table t.packet
        (age_verdict-IsSound now s.direct) (age_verdict-StaysDirect now s.direct) kept in
    let updated : Router = record r {
      ports = s.ports;
      direct_neighbors = s.direct;
      dv_map = t'.vector;
      forwarding_table = t'.table;
    } in
    (
      send_if_any t'.packet updated,
      rw (e, e') refl,
      send_if_any-kept (IsRefreshed now r) (λ f q k. k) t'.packet updated
          (
            (kept', checked-IsPlugged now r settled),
            (λ hop lost k c found same.
                lost-ne s.direct hop c.next_hop ((collected now r settled).purged hop lost)
                  (kept'.via k c found) same),
            sweep-fresh now s.direct r.router_id t.vector t.table t.packet t' kept e',
          ),
    )
