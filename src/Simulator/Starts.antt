-- ===== src/Simulator/Starts.antt =====
-- The set-up of the routers on a network: Simulator.cc, `init_routing_protocol`.
use comp429_computer_network.Base.{
  ℕ, ◌+◌, true, false, u16, u32, none, ap, ◌≡◌, refl, sym, subst, ◌∙◌, ◌⊎◌, inl, inr, List, [], ◌∷◌,
  ◌++◌, Option, some, some-inj, length, All, ◌==◌, ==_iff, Bool-cases, Option-cases, In, Unrepeated,
  arith,
}
use comp429_computer_network.Routing.State.{
  ProtocolType, Router, Effect, send, set_alarm, overruns, Alarm, exp_alarm, pp_alarm, update_alarm,
}
use comp429_computer_network.Routing.Protocol.{init}
use comp429_computer_network.Routing.Starting.{Sets, init-Overran, init-Sets}
use comp429_computer_network.Routing.Within.{IsWithin, init-IsWithin}
use comp429_computer_network.Simulator.{
  Simulator, Node, Timed, find_node, set_rp, init_routing_protocol, perform, node_send,
  sim_set_alarm, handled, alarm,
}
use comp429_computer_network.Simulator.Order.{All-++}
use comp429_computer_network.Simulator.Sound.{Sound, IsSound, AreFair, IsApart}
use comp429_computer_network.Simulator.Safety.{init_routing_protocol-Sound}
use comp429_computer_network.Simulator.Cables.{
  ids, vector_of, ends_of, Cabled, IsPlaced, ArePlaced, IsOver, handled-ArePlaced, set_rp-IsOver,
}
use comp429_computer_network.Simulator.Wiring.{unique-listed}
use comp429_computer_network.Simulator.Progress.{
  IsEquipped, IsRunning, handled-cases, find_node-set_rp_ne,
}

find_node-In :
    (id : ℕ) (nodes : List Node) (n : Node) → find_node id nodes ≡ some n → In id (ids nodes)
unfolding find_node
find_node-In id [] n e = cc
find_node-In id (m ∷ nodes) n e = elim (Bool-cases (m.id == id)) [
  | inl this ↦ inl (sym ((==_iff m.id id).0 this))
  | inr further ↦ inr (find_node-In id nodes n (rw (find_node, further) at e))
]

-- The event is in the queue.
abbrev pub Queued : Timed → List Timed → Type 0
Queued e [] = ⊥
Queued e (x ∷ xs) = (e ≡ x) ⊎ Queued e xs

Queued-right : (e : Timed) (xs ys : List Timed) → Queued e ys → Queued e (xs ++ ys)
Queued-right e [] ys h = h
Queued-right e (x ∷ xs) ys h = inr (Queued-right e xs ys h)

Queued-left : (e : Timed) (xs ys : List Timed) → Queued e xs → Queued e (xs ++ ys)
Queued-left e [] ys h = absurd h
Queued-left e (x ∷ xs) ys (inl same) = inl same
Queued-left e (x ∷ xs) ys (inr h) = inr (Queued-left e xs ys h)

-- What `init` leaves of a node: its router, with its id and its ports.
abbrev pub initial : ProtocolType → ℕ → Node → Router
initial type now n = init (u16 (length n.link_vector)) n.id type now

abbrev pub equipped_node : ProtocolType → ℕ → Node → Node
equipped_node type now n = record n { rp = record (initial type now n) { effects = [] } }

perform-Sets :
    (s : Simulator) (n : Node) (effects : List Effect) (es : List Timed) (duration : ℕ)
    (kind : Alarm)
    → perform s n effects ≡ some es
    → Sets duration kind effects
    → Queued (sim_set_alarm s n.id duration kind) es
unfolding perform
perform-Sets s n [] es duration kind e h = absurd h
perform-Sets s n (overruns count ∷ effects) es duration kind e h = cc
perform-Sets s n (send port packet ∷ effects) es duration kind e h =
    elim (Option-cases (node_send s n port packet)) [
      | inl lost ↦ let never : none ≡ some es = rw (perform, lost) at e in cc
      | inr (sent, gone) ↦ elim (Option-cases (perform s n effects)) [
        | inl lost ↦ let never : none ≡ some es = rw (perform, gone, lost) at e in cc
        | inr (rest, done) ↦
            let same : some (sent ∷ rest) ≡ some es = rw (perform, gone, done) at e in
            let later : Sets duration kind effects = elim h [
              | inl other ↦ absurd (is_send other)
              | inr k ↦ k
            ] in
            subst (Queued (sim_set_alarm s n.id duration kind)) (some-inj same)
              (inr (perform-Sets s n effects rest duration kind done later))
      ]
    ]
  where
    is_send : set_alarm duration kind ≡ send port packet → ⊥
    is_send other = cc
perform-Sets s n (set_alarm d k ∷ effects) es duration kind e h =
    elim (Option-cases (perform s n effects)) [
      | inl lost ↦ let never : none ≡ some es = rw (perform, lost) at e in cc
      | inr (rest, done) ↦
          let same : some (sim_set_alarm s n.id d k ∷ rest) ≡ some es = rw (perform, done) at e in
          subst (Queued (sim_set_alarm s n.id duration kind)) (some-inj same) (elim h [
            | inl first ↦ inl (ap alarm_of first)
            | inr later ↦ inr (perform-Sets s n effects rest duration kind done later)
          ])
    ]
  where
    alarm_of : Effect → Timed
    alarm_of (send port packet) = sim_set_alarm s n.id d k
    alarm_of (overruns count) = sim_set_alarm s n.id d k
    alarm_of (set_alarm d' k') = sim_set_alarm s n.id d' k'

-- The node has the router that `init` made for it, and the three alarms of the router are queued.
pub record IsInitialized (type : ProtocolType) (now : ℕ) (s : Simulator) (n : Node) : Type 0 where
  pub router : find_node n.id s.nodes ≡ some (equipped_node type now n)
  pub probes : Queued (record { time = u32 (now + 10000); event = alarm n.id pp_alarm }) s.event_q
  pub updates :
      Queued (record { time = u32 (now + 30000); event = alarm n.id update_alarm }) s.event_q
  pub checks : Queued (record { time = u32 (now + 1000); event = alarm n.id exp_alarm }) s.event_q

find_node-set_rp :
    (id : ℕ) (rp : Router) (nodes : List Node) (n : Node)
    → find_node id nodes ≡ some n
    → find_node id (set_rp id rp nodes) ≡ some (record n { rp = rp })
unfolding find_node set_rp
find_node-set_rp id rp [] n e = cc
find_node-set_rp id rp (m ∷ nodes) n e = elim (Bool-cases (m.id == id)) [
  | inl this ↦
      let same : some m ≡ some n = rw (find_node, this) at e in
      rw (this, this) (ap (λ (n : Node). some (record n { rp = rp })) (some-inj same))
  | inr further ↦
      rw (further, further) (find_node-set_rp id rp nodes n (rw (find_node, further) at e))
]

-- What the handlers of one node leave.
handled-parts :
    (s : Simulator) (n : Node) (r : Router) (p : Simulator × List Timed)
    → handled s n r ≡ some p
    → (es : List Timed) × (perform s n r.effects ≡ some es)
      × (p ≡ (record s { nodes = set_rp n.id (record r { effects = [] }) s.nodes }, es))
unfolding handled
handled-parts s n r p e = elim (Option-cases (perform s n r.effects)) [
  | inl lost ↦ let never : none ≡ some p = rw (handled, lost) at e in cc
  | inr (es, done) ↦ (es, done, sym (some-inj (rw (handled, done) at e)))
]

-- The set-up of the other nodes: the routers of those that are not among them, the queued events and the
-- clock stay.
record IsKept (nodes : List Node) (s t : Simulator) : Type 0 where
  pub others : (id : ℕ) → (In id (ids nodes) → ⊥) → find_node id t.nodes ≡ find_node id s.nodes
  pub queued : (e : Timed) → Queued e s.event_q → Queued e t.event_q

init_routing_protocol-step :
    (type : ProtocolType) (n : Node) (nodes : List Node) (s t : Simulator)
    → init_routing_protocol type (n ∷ nodes) s ≡ some t
    → (es : List Timed) × (perform s n (initial type s.global_time n).effects ≡ some es)
      × (init_routing_protocol type nodes (record s {
        nodes = set_rp n.id (record (initial type s.global_time n) { effects = [] }) s.nodes;
        event_q = s.event_q ++ es;
      })
          ≡ some t)
unfolding init_routing_protocol
init_routing_protocol-step type n nodes s t e =
    elim (Option-cases (handled s n (initial type s.global_time n))) [
      | inl lost ↦ let never : none ≡ some t = rw (init_routing_protocol, lost) at e in cc
      | inr (p, done) ↦
          let (es, performed, same) = handled-parts s n (initial type s.global_time n) p done in
          (es, performed, rw (init_routing_protocol, done, same) at e)
    ]

init_routing_protocol-IsKept :
    (type : ProtocolType) (nodes : List Node) (s t : Simulator)
    → init_routing_protocol type nodes s ≡ some t
    → IsKept nodes s t
unfolding init_routing_protocol
init_routing_protocol-IsKept type [] s t e =
    let same = some-inj e in
    record {
      others = λ id apart. ap (λ (s : Simulator). find_node id s.nodes) (sym same);
      queued = λ x q. subst (λ (s : Simulator). Queued x s.event_q) same q;
    }
init_routing_protocol-IsKept type (n ∷ nodes) s t e =
    let (es, performed, rest) = init_routing_protocol-step type n nodes s t e in
    let later = init_routing_protocol-IsKept type nodes _ t rest in
    record {
      others = λ id apart.
          later.others id (λ k. apart (inr k))
          ∙ find_node-set_rp_ne id n.id (record (initial type s.global_time n) { effects = [] })
              s.nodes (λ same. apart (inl (sym same)));
      queued = λ x q. later.queued x (Queued-left x s.event_q es q);
    }

init_routing_protocol-All :
    (type : ProtocolType) (nodes : List Node) (s t : Simulator)
    → init_routing_protocol type nodes s ≡ some t
    → Unrepeated (ids nodes)
    → All (λ n. find_node n.id s.nodes ≡ some n) nodes
    → All (IsInitialized type s.global_time t) nodes
unfolding sim_set_alarm
init_routing_protocol-All type [] s t e once found = tt
init_routing_protocol-All type (n ∷ nodes) s t e once found =
    let (es, performed, rest) = init_routing_protocol-step type n nodes s t e in
    let kept = init_routing_protocol-IsKept type nodes (after es) t rest in
    let (probes, updates, checks) =
      init-Sets (u16 (length n.link_vector)) n.id s.global_time type in
    let queued = λ (d : ℕ) (k : Alarm) (sets : Sets d k (initial type s.global_time n).effects).
      kept.queued (sim_set_alarm s n.id d k) (
        Queued-right (sim_set_alarm s n.id d k) s.event_q es
          (perform-Sets s n (initial type s.global_time n).effects es d k performed sets)) in
    (
      record {
        router = kept.others n.id once.0 ∙ find_node-set_rp n.id quiet s.nodes n found.0;
        probes = queued 10000 pp_alarm probes;
        updates = queued 30000 update_alarm updates;
        checks = queued 1000 exp_alarm checks;
      },
      init_routing_protocol-All type nodes (after es) t rest once.1
          (elsewhere es nodes once.0 found.1),
    )
  where
    quiet : Router
    quiet = record (initial type s.global_time n) { effects = [] }

    after : List Timed → Simulator
    after es = record s { nodes = set_rp n.id quiet s.nodes; event_q = s.event_q ++ es }

    elsewhere :
        (es : List Timed) (ms : List Node)
        → (In n.id (ids ms) → ⊥)
        → All (λ m. find_node m.id s.nodes ≡ some m) ms
        → All (λ m. find_node m.id (after es).nodes ≡ some m) ms
    elsewhere es [] apart k = tt
    elsewhere es (m ∷ ms) apart k = (
      find_node-set_rp_ne m.id n.id quiet s.nodes (λ same. apart (inl same)) ∙ k.0,
      elsewhere es ms (λ i. apart (inr i)) k.1,
    )

-- Without a second node of the same id, every node is the one that its id finds.
unique-found :
    (nodes : List Node) → Unrepeated (ids nodes) → All (λ n. find_node n.id nodes ≡ some n) nodes
unfolding find_node
unique-found [] h = tt
unique-found (n ∷ nodes) h =
    let self : (n.id == n.id) ≡ true = (==_iff n.id n.id).1 refl in
    (rw self refl, behind nodes h.0 (unique-found nodes h.1))
  where
    behind :
        (ms : List Node)
        → (In n.id (ids ms) → ⊥)
        → All (λ m. find_node m.id nodes ≡ some m) ms
        → All (λ m. find_node m.id (n ∷ nodes) ≡ some m) ms
    behind [] apart k = tt
    behind (m ∷ ms) apart k =
        let other : (n.id == m.id) ≡ false = elim (Bool-cases (n.id == m.id)) [
          | inl same ↦ absurd (apart (inl ((==_iff n.id m.id).0 same)))
          | inr ne ↦ ne
        ] in
        (rw other k.0, behind ms (λ i. apart (inr i)) k.1)

module _ (vectors : ℕ → Option (List ℕ)) (ends : ℕ → Option (ℕ × ℕ))
    (cabled : Cabled vectors ends) where
  -- All but the soundness of the nodes.
  pub record IsUp (s : Simulator) : Type 0 where
    pub over : IsOver vectors ends s
    pub equipped : (id : ℕ) (n : Node) → find_node id s.nodes ≡ some n → IsEquipped n
    pub placed : ArePlaced vectors ends s.event_q

  -- While the routers of the other nodes are being set up.
  record IsStarting (nodes : List Node) (s : Simulator) : Type 0 where
    pub over : IsOver vectors ends s
    pub pending :
        (id : ℕ) (n : Node) → find_node id s.nodes ≡ some n → In id (ids nodes) ⊎ IsEquipped n
    pub placed : ArePlaced vectors ends s.event_q

  init_routing_protocol-IsUp :
      (type : ProtocolType) (nodes : List Node) (s : Simulator)
      → All (λ n. vectors n.id ≡ some n.link_vector) nodes
      → IsStarting nodes s
      → (t : Simulator) × (init_routing_protocol type nodes s ≡ some t) × IsUp t
  unfolding init_routing_protocol
  init_routing_protocol-IsUp type [] s listed h = (
    s,
    refl,
    record {
      over = h.over;
      equipped =
          λ id n found. elim (h.pending id n found) [ inl never ↦ absurd never | inr done ↦ done ];
      placed = h.placed;
    },
  )
  init_routing_protocol-IsUp type (n ∷ nodes) s listed h =
      elim (handled-ArePlaced vectors ends cabled s h.over n r listed.0 within.calls) [
        | inl (es, done, placed, later) ↦
            let over =
              set_rp-IsOver vectors ends cabled s h.over n.id (record r { effects = [] }) in
            let (t, rest, set) =
              init_routing_protocol-IsUp type nodes
                (record s {
                  nodes = set_rp n.id (record r { effects = [] }) s.nodes;
                  event_q = s.event_q ++ es;
                })
                listed.1
                (record {
                  over = record { nodes = over.nodes; links = over.links };
                  pending = pending;
                  placed = All-++ (λ e. IsPlaced vectors ends e.event) s.event_q es h.placed placed;
                }) in
            (t, rw done rest, set)
        | inr past ↦ absurd (init-Overran (u16 (length n.link_vector)) n.id s.global_time type past)
      ]
    where
      r : Router
      r = init (u16 (length n.link_vector)) n.id type s.global_time

      within : IsWithin (length n.link_vector) r
      within =
          init-IsWithin (length n.link_vector) (u16 (length n.link_vector)) n.id s.global_time type
            (omega arith)

      pending :
          (id : ℕ) (m : Node)
          → find_node id (set_rp n.id (record r { effects = [] }) s.nodes) ≡ some m
          → In id (ids nodes) ⊎ IsEquipped m
      pending id m found =
          elim (handled-cases vectors ends cabled s h.over n r listed.0 within id m found) [
            | inl new ↦ inr new.1
            | inr old ↦ elim (h.pending id m old.1) [
              | inl (inl first) ↦ absurd (old.0 (sym first))
              | inl (inr later) ↦ inl later
              | inr equipped ↦ inr equipped
            ]
          ]

-- A network: no two nodes have the same id, both ends of a link hold it at one of their ports, and what
-- is at a port is a link. The nodes' own ids are right, and their routers' state is consistent; the
-- packets of the queued events are fair.
pub record IsConnected (s : Simulator) : Type 0 where
  pub sound : All IsSound s.nodes
  pub unique : Unrepeated (ids s.nodes)
  pub cabled : Cabled (λ id. vector_of id s.nodes) (λ l. ends_of l s.links)
  pub fair : AreFair s.event_q

-- A network on which a run can start: moreover no link leads from a node to itself, and what the events
-- name is there.
pub record IsStart (s : Simulator) : Type 0 where
  pub connected : IsConnected s
  pub apart : All IsApart s.links
  pub placed : ArePlaced (λ id. vector_of id s.nodes) (λ l. ends_of l s.links) s.event_q

pub started :
    (type : ProtocolType) (start : Simulator)
    → IsStart start
    → (s : Simulator) × (init_routing_protocol type start.nodes start ≡ some s)
      × IsRunning (λ id. vector_of id start.nodes) (λ l. ends_of l start.links) s
started type start h =
    let c : IsConnected start = h.connected in
    let sound : Sound start = record { nodes = c.sound; links = h.apart; queue = c.fair } in
    let (s, done, set) =
      init_routing_protocol-IsUp (λ id. vector_of id start.nodes) (λ l. ends_of l start.links)
        c.cabled type start.nodes start (unique-listed start.nodes c.unique)
        (record {
          over = record { nodes = λ id. refl; links = λ l. refl };
          pending = λ id n found. inl (find_node-In id start.nodes n found);
          placed = h.placed;
        }) in
    (
      s,
      done,
      record {
        sound = rw done at (init_routing_protocol-Sound type start.nodes start c.sound sound);
        over = set.over;
        equipped = set.equipped;
        placed = set.placed;
      },
    )

-- On a network on which a run can start (nodes with different ids, links between different nodes that both
-- ends hold at one of their ports, sound nodes, fair events that name what is there),
-- `init_routing_protocol` succeeds, no call that a router makes on the way leads nowhere, and it gives
-- every node the router that `init` makes for its id and its number of ports, cut to 16 bits; the three alarms of each of
-- these routers are queued, 10, 30 and 1 seconds from now.
pub init_routing_protocol-ends :
    (type : ProtocolType) (start : Simulator)
    → IsStart start
    → (s : Simulator) × (init_routing_protocol type start.nodes start ≡ some s)
      × All (IsInitialized type start.global_time s) start.nodes
init_routing_protocol-ends type start h =
    let (s, done, run) = started type start h in
    let once = h.connected.unique in
    (
      s,
      done,
      init_routing_protocol-All type start.nodes start s done once (unique-found start.nodes once),
    )
