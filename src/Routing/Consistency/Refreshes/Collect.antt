-- ===== src/Routing/Consistency/Refreshes/Collect.antt =====
-- The first loop of `refreshDV`, port by port.
use comp429_computer_network.Base.{
  ℕ, zero, suc, ◌+◌, ◌<◌, ◌≤◌, ◌≡◌, refl, sym, ◌∙◌, ap, [], ◌++◌, some, inl, inr, ◌⊎◌, true, false,
  arith, Bool-cases, dec_eq, In, Unrepeated, some-inj, In-append, In-append_left, In-append_right,
  append-Unrepeated,
}
use comp429_computer_network.Routing.Map.{
  Map, find, find_or, put, remove, find-put, find-remove, contains, Sorted,
}
use comp429_computer_network.Routing.State.{Port, DvCell, NnCell, default_port}
use comp429_computer_network.Routing.Refresh.{routes_over, is_silent, Checked, check_ports}
use comp429_computer_network.Routing.Consistency.Refreshes.Ports.{
  IsPlugged, GoesOver, routes_over-found, found-routes_over, routes_over-Unrepeated,
}

-- A neighbour that an earlier port, silent at first, led to.
abbrev pub Lost : ℕ → Map Port → ℕ → ℕ → Type 0
Lost now ports i hop =
    (l : ℕ) × (p : Port) × (l < i)
    × (find l ports ≡ some p)
    × (is_silent now p ≡ true)
    × (p.to ≡ hop)

-- What the first loop has done before port i.
pub record Collected (now : ℕ) (ports : Map Port) (direct : Map NnCell) (vector : Map DvCell)
    (i : ℕ) (s : Checked) : Type 0 where
  pub untouched : (j : ℕ) → i ≤ j → find j s.ports ≡ find j ports
  pub kept : (h : ℕ) → contains h direct ≡ true → (contains h s.direct ≡ true) ⊎ Lost now ports i h
  pub purged : (h : ℕ) → Lost now ports i h → contains h s.direct ≡ false
  pub over_lost : (k : ℕ) → In k s.to_delete → (h : ℕ) × Lost now ports i h × GoesOver h vector k
  pub complete : (k h : ℕ) → Lost now ports i h → GoesOver h vector k → In k s.to_delete
  pub once : Unrepeated s.to_delete

silent_connected : (now : ℕ) (p : Port) → is_silent now p ≡ true → p.connected ≡ true
unfolding is_silent
silent_connected now p h = ground arith

-- A silent port is one that the map holds: the default port is not connected.
silent_found :
    (now i : ℕ) (ports : Map Port)
    → is_silent now (find_or i default_port ports) ≡ true
    → find i ports ≡ some (find_or i default_port ports)
unfolding find_or is_silent
silent_found now i ports h = ground arith

module _ (now : ℕ) (ports : Map Port) (direct : Map NnCell) (vector : Map DvCell)
    (plugged : IsPlugged ports) (sorted : Sorted 0 vector) where
  Lost-suc : (i h : ℕ) → Lost now ports i h → Lost now ports (i + 1) h
  Lost-suc i h (l, p, lt, e, silent, t) = (l, p, omega arith, e, silent, t)

  Lost-split :
      (i h : ℕ)
      → Lost now ports (i + 1) h
      → Lost now ports i h
        ⊎ ((p : Port) × (find i ports ≡ some p) × (is_silent now p ≡ true) × (p.to ≡ h))
  Lost-split i h (l, p, lt, e, silent, t) = elim (dec_eq l i) [
    | yes same ↦ inr (p, rw same at e, silent, t)
    | no ne ↦ inl (l, p, omega arith, e, silent, t)
  ]

  module _ (i : ℕ) (s : Checked) (c : Collected now ports direct vector i s) where
    abbrev port : Port
    port = find_or i default_port s.ports

    pass_quiet : is_silent now port ≡ false → Collected now ports direct vector (i + 1) s
    pass_quiet quiet = record {
      untouched = λ j le. c.untouched j (omega arith);
      kept = λ h known. elim (c.kept h known) [
        | inl there ↦ inl there
        | inr lost ↦ inr (Lost-suc i h lost)
      ];
      purged = λ h lost. c.purged h (narrow h lost);
      over_lost = λ k i'. let (h, lost, over) = c.over_lost k i' in (h, Lost-suc i h lost, over);
      complete = λ k h lost over. c.complete k h (narrow h lost) over;
      once = c.once;
    }
      where
        narrow : (h : ℕ) → Lost now ports (i + 1) h → Lost now ports i h
        narrow h lost = elim (Lost-split i h lost) [
          | inl before ↦ before
          | inr (p, e, silent, t) ↦
              let same : port ≡ p =
                unfold find_or in rw (c.untouched i (omega arith) ∙ e, find_or) refl in
              cc (sym quiet, ap (is_silent now) same, silent)
        ]

    -- The state after a silent port.
    abbrev dropped : Checked
    dropped = record {
      ports = put i (record port { connected = false; cost = 0 }) s.ports;
      direct = remove port.to s.direct;
      to_delete = s.to_delete ++ routes_over port.to vector;
    }

    module _ (silent : is_silent now port ≡ true) where
      port_found : find i ports ≡ some port
      port_found = sym (c.untouched i (omega arith)) ∙ silent_found now i s.ports silent

      this_lost : Lost now ports (i + 1) port.to
      this_lost = (i, port, omega arith, port_found, silent, refl)

      at_port : (h : ℕ) → Lost now ports (i + 1) h → Lost now ports i h ⊎ (port.to ≡ h)
      at_port h lost = elim (Lost-split i h lost) [
        | inl before ↦ inl before
        | inr (p, e, p_silent, t) ↦
            let same : port ≡ p = some-inj (sym port_found ∙ e) in
            inr (ap (λ (q : Port). q.to) same ∙ t)
      ]

      -- A route over an earlier lost neighbour is not one over this port's.
      apart : (k : ℕ) → In k s.to_delete → In k (routes_over port.to vector) → ⊥
      apart k old new =
          let (h, (l, q, lt, q_found, q_silent, q_to), (d, d_found, d_hop)) = c.over_lost k old in
          let (le, (d', d'_found, d'_hop)) = routes_over-found port.to 0 k vector sorted new in
          let same : d ≡ d' = some-inj (sym d_found ∙ d'_found) in
          plugged l i q port (omega arith) q_found port_found (silent_connected now q q_silent)
            (silent_connected now port silent)
            (q_to ∙ sym d_hop ∙ ap (λ (x : DvCell). x.next_hop) same ∙ d'_hop)

      pass_silent : Collected now ports direct vector (i + 1) dropped
      pass_silent = record {
        untouched = λ j le.
            find-put i j (record port { connected = false; cost = 0 }) s.ports
            ∙ ground (arith, c.untouched j (omega arith));
        kept = λ h known. elim (dec_eq port.to h) [
          | yes e ↦ inr (rw (← e) this_lost)
          | no ne ↦ elim (c.kept h known) [
            | inl there ↦ inl (ground (arith, find-remove port.to h s.direct))
            | inr lost ↦ inr (Lost-suc i h lost)
          ]
        ];
        purged = λ h lost. elim (at_port h lost) [
          | inl before ↦ ground (arith, find-remove port.to h s.direct, c.purged h before)
          | inr e ↦ ground (arith, find-remove port.to h s.direct)
        ];
        over_lost = λ k i'. elim (In-append k s.to_delete (routes_over port.to vector) i') [
          | inl old ↦ let (h, lost, over) = c.over_lost k old in (h, Lost-suc i h lost, over)
          | inr new ↦ (port.to, this_lost, (routes_over-found port.to 0 k vector sorted new).1)
        ];
        complete = λ k h lost over. elim (at_port h lost) [
          | inl before ↦
              In-append_left k s.to_delete (routes_over port.to vector) (c.complete k h before over)
          | inr e ↦
              In-append_right k s.to_delete (routes_over port.to vector)
                (found-routes_over port.to k over.0 vector over.1 (over.2 ∙ sym e))
        ];
        once =
            append-Unrepeated s.to_delete (routes_over port.to vector) c.once
              (routes_over-Unrepeated port.to 0 vector sorted) apart;
      }

  -- The whole loop collects the routes over the neighbours that went silent, each once.
  pub check_ports-Collected :
      (left i stop : ℕ) (s : Checked)
      → i + left ≡ stop
      → Collected now ports direct vector i s
      → Collected now ports direct vector stop (check_ports now vector left i s)
  unfolding check_ports
  check_ports-Collected zero i stop s e c = let e' : i ≡ stop = omega arith in rw (← e') c
  check_ports-Collected (suc left) i stop s e c =
      check_ports-Collected left (i + 1) stop _ (omega arith)
        (elim (Bool-cases (is_silent now (find_or i default_port s.ports))) [
          | inl silent ↦ rw silent (pass_silent i s c silent)
          | inr quiet ↦ rw quiet (pass_quiet i s c quiet)
        ])

pub Collected-start :
    (now : ℕ) (ports : Map Port) (direct : Map NnCell) (vector : Map DvCell)
    → Collected now ports direct vector 0
        (record { ports = ports; direct = direct; to_delete = [] })
Collected-start now ports direct vector = record {
  untouched = λ j le. refl;
  kept = λ h known. inl known;
  purged = λ h lost. absurd (omega (arith, lost.2));
  over_lost = λ k i. absurd i;
  complete = λ k h lost over. absurd (omega (arith, lost.2));
  once = tt;
}
