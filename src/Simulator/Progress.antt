-- ===== src/Simulator/Progress.antt =====
-- The dispatch of one event on a network whose links lead somewhere: Event.cc.
use comp429_computer_network.Base.{
  ℕ, zero, suc, ◌+◌, ◌<◌, ◌≤◌, subst, get_elem?, ◌+◌, ◌<◌, ◌≡◌, ◌≢◌, refl, sym, ap, subst, ◌∙◌, ◌⊎◌,
  inl, inr, List, [], ◌∷◌, false, ◌&&◌, Option, some, some-inj, get_elem?, set, length, arith, All,
  ◌==◌, ==_iff, Bool-cases, leb, u32, byte_at,
}
use comp429_computer_network.Routing.State.{Router, Alarm, type_data}
use comp429_computer_network.Routing.Protocol.{recv, handle_alarm}
use comp429_computer_network.Routing.Within.{IsWithin, Stays, recv-Stays, handle_alarm-Stays}
use comp429_computer_network.Routing.Starting.{Overran}
use comp429_computer_network.Simulator.{
  Simulator, Link, Node, Event, Timed, change_delay, link_die, link_come_up, xmit_end_to_end,
  xmit_on_link, recv_pkt, alarm, find_node, set_rp, handled, recv_packet, set_link, dispatch,
  special_port,
}
use comp429_computer_network.Simulator.Sound.{IsSound, IsForeign, IsFair, Sound, find_node-OnSome}
use comp429_computer_network.Simulator.Safety.{taken, rung, data-IsForeign}
use comp429_computer_network.Simulator.Cables.{
  pair_of, find_node-vector_of, vector_of-find_node, ends_of-get_elem?, ends_of-set, Cabled,
  HasPort, IsLink, IsPlaced, ArePlaced, IsOver, handled-ArePlaced, set_rp-IsOver,
}

pub find_node-set_rp_ne :
    (id k : ℕ) (rp : Router) (nodes : List Node)
    → k ≢ id
    → find_node id (set_rp k rp nodes) ≡ find_node id nodes
unfolding find_node set_rp
find_node-set_rp_ne id k rp [] ne = refl
find_node-set_rp_ne id k rp (n ∷ nodes) ne = elim (Bool-cases (n.id == k)) [
  | inl this ↦ let other : (n.id == id) ≡ false = ground (arith, this, ne) in rw (this, other) refl
  | inr further ↦ elim (Bool-cases (n.id == id)) [
    | inl found ↦ rw (further, found) refl
    | inr not_yet ↦ rw (further, not_yet) (find_node-set_rp_ne id k rp nodes ne)
  ]
]

find_node-set_rp_eq :
    (k : ℕ) (rp : Router) (nodes : List Node) (m : Node)
    → find_node k (set_rp k rp nodes) ≡ some m
    → m.rp ≡ rp
unfolding find_node set_rp
find_node-set_rp_eq k rp [] m e = cc
find_node-set_rp_eq k rp (n ∷ nodes) m e = elim (Bool-cases (n.id == k)) [
  | inl this ↦
      let first : find_node k (record n { rp = rp } ∷ nodes) ≡ some m = rw (set_rp, this) at e in
      let same : some (record n { rp = rp }) ≡ some m = rw (find_node, this) at first in
      ap (λ (n : Node). n.rp) (sym (some-inj same))
  | inr further ↦
      let later : find_node k (n ∷ set_rp k rp nodes) ≡ some m = rw (set_rp, further) at e in
      find_node-set_rp_eq k rp nodes m (rw (find_node, further) at later)
]

-- A node whose router has its ports, and no call left.
abbrev pub IsEquipped : Node → Type 0
IsEquipped n = IsWithin (length n.link_vector) n.rp

All-get_elem? :
    {A : Type 0} (P : A → Type 0) (xs : List A) (i : ℕ) (a : A)
    → get_elem? xs i ≡ some a
    → All P xs
    → P a
All-get_elem? P [] i a e h = cc
All-get_elem? P (x ∷ xs) zero a e h = subst P (some-inj e) h.0
All-get_elem? P (x ∷ xs) (suc i) a e h = All-get_elem? P xs i a e h.1

-- No alarm and no packet that is sent now is due after the end of the clock.
abbrev pub IsSoon : Simulator → Type 0
IsSoon s =
    (s.global_time + 30000 < 4294967296)
    × All (λ link. s.global_time + link.delay < 4294967296) s.links

-- The router of a node answers the packet with an update of 16382 pairs or more.
abbrev pub Overtaken : ℕ → Simulator → ℕ → ℕ → List ℕ → Type 0
Overtaken indeterminate s id port packet =
    (n : Node) × (r : Router) × (find_node id s.nodes ≡ some n)
    × (recv indeterminate s.global_time port packet n.rp ≡ some r)
    × Overran r.effects

-- The event makes a router build an update of 16382 pairs or more, which is written past its buffer.
abbrev pub Overruns : ℕ → Simulator → Event → Type 0
Overruns indeterminate s (recv_pkt dest dport packet) = Overtaken indeterminate s dest dport packet
Overruns indeterminate s (xmit_end_to_end src packet) =
    Overtaken indeterminate s src special_port packet
Overruns indeterminate s (alarm id kind) =
    (n : Node) × (r : Router) × (find_node id s.nodes ≡ some n)
    × (handle_alarm s.global_time kind n.rp ≡ some r)
    × Overran r.effects
Overruns indeterminate s (xmit_on_link dest dport l packet) = ⊥
Overruns indeterminate s (change_delay l d) = ⊥
Overruns indeterminate s (link_die l) = ⊥
Overruns indeterminate s (link_come_up l) = ⊥

module _ (vectors : ℕ → Option (List ℕ)) (ends : ℕ → Option (ℕ × ℕ)) where
  -- A simulator that runs on the network.
  pub record IsRunning (s : Simulator) : Type 0 where
    pub sound : Sound s
    pub over : IsOver vectors ends s
    pub equipped : (id : ℕ) (n : Node) → find_node id s.nodes ≡ some n → IsEquipped n
    pub placed : ArePlaced vectors ends s.event_q

  -- What dispatch gives, but for the queue.
  pub record IsReached (s : Simulator) (r : Simulator × List Timed) : Type 0 where
    pub over : IsOver vectors ends r.0
    pub equipped : (id : ℕ) (n : Node) → find_node id r.0.nodes ≡ some n → IsEquipped n
    pub placed : ArePlaced vectors ends r.1
    pub later : IsSoon s → All (λ e. s.global_time ≤ e.time) r.1

  module _ (cabled : Cabled vectors ends) (s : Simulator) (over : IsOver vectors ends s) where
    -- A node is there, as the simulator has it.
    at_node :
        (id : ℕ) (v : List ℕ)
        → vectors id ≡ some v
        → All IsSound s.nodes
        → (n : Node) × (find_node id s.nodes ≡ some n)
          × (n.link_vector ≡ v)
          × (n.id ≡ id)
          × IsSound n
    at_node id v e sound =
        let (n, found, same) = vector_of-find_node id s.nodes v (over.nodes id ∙ e) in
        let (same_id, fine) : (n.id ≡ id) × IsSound n =
          rw found at (find_node-OnSome id s.nodes sound) in
        (n, found, same, same_id, fine)

    -- After a handler a node is the one with the handler's router, or as it was.
    pub handled-cases :
        (n : Node) (r : Router)
        → vectors n.id ≡ some n.link_vector
        → IsWithin (length n.link_vector) r
        → (id : ℕ) (m : Node)
        → find_node id (set_rp n.id (record r { effects = [] }) s.nodes) ≡ some m
        → ((n.id ≡ id) × IsEquipped m) ⊎ ((n.id ≢ id) × (find_node id s.nodes ≡ some m))
    handled-cases n r vector within id m found = elim (Bool-cases (n.id == id)) [
      | inl same ↦
          let same_id = (==_iff n.id id).0 same in
          let at_m : find_node n.id (set_rp n.id quiet s.nodes) ≡ some m =
            rw (sym same_id) at found in
          let vector_m : some n.link_vector ≡ some m.link_vector =
            sym vector
            ∙ sym (over'.nodes n.id)
            ∙ find_node-vector_of n.id (set_rp n.id quiet s.nodes) m at_m in
          let rp_m : m.rp ≡ quiet = find_node-set_rp_eq n.id quiet s.nodes m at_m in
          inl (
            same_id,
            rw (sym (some-inj vector_m), rp_m)
                (record { count = within.count; near = within.near; calls = tt }),
          )
      | inr other ↦
          let ne : n.id ≢ id = λ e. absurd (ground (arith, other, e)) in
          inr (ne, sym (find_node-set_rp_ne id n.id quiet s.nodes ne) ∙ found)
    ]
      where
        quiet : Router
        quiet = record r { effects = [] }

        over' : IsOver vectors ends (record s { nodes = set_rp n.id quiet s.nodes })
        over' = set_rp-IsOver vectors ends cabled s over n.id quiet

    handled-IsReached :
        (n : Node) (r : Router)
        → vectors n.id ≡ some n.link_vector
        → ((id : ℕ) (m : Node) → find_node id s.nodes ≡ some m → IsEquipped m)
        → IsWithin (length n.link_vector) r
        → ((p : Simulator × List Timed) × (handled s n r ≡ some p) × IsReached s p)
          ⊎ Overran r.effects
    handled-IsReached n r vector equipped within =
        elim (handled-ArePlaced vectors ends cabled s over n r vector within.calls) [
          | inl (es, done, placed, later) ↦ inl (
            (record s { nodes = set_rp n.id (record r { effects = [] }) s.nodes }, es),
            done,
            record {
              over = set_rp-IsOver vectors ends cabled s over n.id (record r { effects = [] });
              equipped = λ id m found. elim (handled-cases n r vector within id m found) [
                | inl new ↦ new.1
                | inr old ↦ equipped id m old.1
              ];
              placed = placed;
              later = λ soon. later soon.0;
            },
          )
          | inr past ↦ inr past
        ]

    module _ (sound : All IsSound s.nodes)
        (equipped : (id : ℕ) (n : Node) → find_node id s.nodes ≡ some n → IsEquipped n) where
      abbrev pub Reached : Type 0 → Option (Simulator × List Timed) → Type 0
      Reached Fault o = ((p : Simulator × List Timed) × (o ≡ some p) × IsReached s p) ⊎ Fault

      at_handled :
          (id : ℕ) (v : List ℕ) (n : Node) (r : Router)
          → vectors id ≡ some v
          → n.link_vector ≡ v
          → n.id ≡ id
          → IsWithin (length n.link_vector) r
          → Reached (Overran r.effects) (handled s n r)
      at_handled id v n r e same same_id within =
          handled-IsReached n r (ap vectors same_id ∙ e ∙ ap some (sym same)) equipped within

      recv_packet-runs :
          (indeterminate id port : ℕ) (packet : List ℕ) (n : Node) (r : Router)
          → find_node id s.nodes ≡ some n
          → recv indeterminate s.global_time port packet n.rp ≡ some r
          → recv_packet indeterminate s id port packet ≡ handled s n r
      unfolding recv_packet
      recv_packet-runs indeterminate id port packet n r found ran = rw (found, ran) refl

      recv_packet-IsReached :
          (indeterminate id port : ℕ) (packet v : List ℕ)
          → vectors id ≡ some v
          → (port < length v) ⊎ (byte_at packet 0 ≡ type_data)
          → IsForeign id packet
          → Reached
              (Overtaken indeterminate s id port packet)
              (recv_packet indeterminate s id port packet)
      recv_packet-IsReached indeterminate id port packet v e from foreign =
          let (n, found, same, same_id, fine) = at_node id v e sound in
          let (r, ran, _, _) =
            taken indeterminate s.global_time port packet n fine
              (subst (λ k. IsForeign k packet) (sym same_id) foreign) in
          let from' : (port < length n.link_vector) ⊎ (byte_at packet 0 ≡ type_data) =
            subst (λ v. (port < length v) ⊎ (byte_at packet 0 ≡ type_data)) (sym same) from in
          let within : Stays (length n.link_vector)
              (recv indeterminate s.global_time port packet n.rp) =
            recv-Stays (length n.link_vector) indeterminate s.global_time port packet n.rp from'
              fine.settled (equipped id n found) in
          elim (at_handled id v n r e same same_id
            (subst (Stays (length n.link_vector)) ran within)) [
              | inl (p, done, reached) ↦
                  inl
                    (p, recv_packet-runs indeterminate id port packet n r found ran ∙ done, reached)
              | inr past ↦ inr (n, r, found, ran, past)
            ]

      alarm-runs :
          (indeterminate draw id : ℕ) (kind : Alarm) (n : Node) (r : Router)
          → find_node id s.nodes ≡ some n
          → handle_alarm s.global_time kind n.rp ≡ some r
          → dispatch indeterminate draw (alarm id kind) s ≡ handled s n r
      unfolding dispatch
      alarm-runs indeterminate draw id kind n r found ran = rw (found, ran) refl

      set_link-IsReached :
          (l : ℕ) (change : Link → Link)
          → ((link : Link) → pair_of (change link) ≡ pair_of link)
          → IsLink vectors ends l
          → Reached ⊥ (set_link s l change)
      unfolding set_link
      set_link-IsReached l change kept (a, b, e) =
          let (link, there, _) = ends_of-get_elem? l s.links a b (over.links l ∙ e) in
          inl (
            (record s { links = set s.links l (change link) }, []),
            rw there refl,
            record {
              over = record {
                nodes = over.nodes;
                links = λ k.
                    ends_of-set k l s.links link (change link) there (kept link) ∙ over.links k;
              };
              equipped = equipped;
              placed = tt;
              later = λ soon. tt;
            },
          )

      arrival :
          (indeterminate draw dest dport l : ℕ) (packet : List ℕ) (link : Link)
          → get_elem? s.links l ≡ some link
          → HasPort vectors ends dest dport
          → Reached ⊥ (dispatch indeterminate draw (xmit_on_link dest dport l packet) s)
      unfolding dispatch
      arrival indeterminate draw dest dport l packet link there has =
          elim (Bool-cases (link.is_alive && leb link.loss_tenths draw)) [
            | inl carried ↦ inl (
              (
                s,
                record {
                  time = u32 (s.global_time + link.delay);
                  event = recv_pkt dest dport packet;
                }
                    ∷ [],
              ),
              rw (there, carried) refl,
              record {
                over = over;
                equipped = equipped;
                placed = (has, tt);
                later = λ soon. (
                  let short =
                        All-get_elem? (λ link. s.global_time + link.delay < 4294967296) s.links l
                          link there soon.1 in
                      omega (arith, short),
                  tt,
                );
              },
            )
            | inr lost ↦ inl (
              (s, []),
              rw (there, lost) refl,
              record { over = over; equipped = equipped; placed = tt; later = λ soon. tt },
            )
          ]

      pub dispatch-IsReached :
          (indeterminate draw : ℕ) (e : Event)
          → IsFair e
          → IsPlaced vectors ends e
          → Reached (Overruns indeterminate s e) (dispatch indeterminate draw e s)
      unfolding dispatch
      dispatch-IsReached indeterminate draw (change_delay l d) fair placed =
          set_link-IsReached l _ (λ link. refl) placed
      dispatch-IsReached indeterminate draw (link_die l) fair placed =
          set_link-IsReached l _ (λ link. refl) placed
      dispatch-IsReached indeterminate draw (link_come_up l) fair placed =
          set_link-IsReached l _ (λ link. refl) placed
      dispatch-IsReached indeterminate draw (xmit_end_to_end src packet) fair (v, e) =
          recv_packet-IsReached indeterminate src special_port packet v e (inr fair)
            (data-IsForeign src packet fair)
      dispatch-IsReached indeterminate draw (xmit_on_link dest dport l packet) fair
            (has, (a, b, e)) =
          let (link, there, _) = ends_of-get_elem? l s.links a b (over.links l ∙ e) in
          arrival indeterminate draw dest dport l packet link there has
      dispatch-IsReached indeterminate draw (recv_pkt dest dport packet) fair (v, e, lt) =
          recv_packet-IsReached indeterminate dest dport packet v e (inl lt) fair
      dispatch-IsReached indeterminate draw (alarm id kind) fair (v, e) =
          let (n, found, same, same_id, fine) = at_node id v e sound in
          let (r, ran, _, _) = rung s.global_time kind n fine in
          let within : Stays (length n.link_vector) (handle_alarm s.global_time kind n.rp) =
            handle_alarm-Stays (length n.link_vector) s.global_time kind n.rp
              (equipped id n found) in
          elim (at_handled id v n r e same same_id
            (subst (Stays (length n.link_vector)) ran within)) [
              | inl (p, done, reached) ↦
                  inl (p, alarm-runs indeterminate draw id kind n r found ran ∙ done, reached)
              | inr past ↦ inr (n, r, found, ran, past)
            ]
