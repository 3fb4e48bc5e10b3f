-- ===== src/Simulator/Safety.antt =====
-- What the routers' handlers do with packets and alarms during a run: Simulator.cc, Event.cc, Node.cc.
use comp429_computer_network.Base.{
  ℕ, u16, suc, ◌≡◌, refl, sym, ◌∙◌, List, [], ◌∷◌, ◌++◌, ◌&&◌, some, length, get_elem?, arith, All,
  leb, Bool-cases, Option-cases, inl, inr, byte_at,
}
use comp429_computer_network.Routing.State.{Router, Alarm, ProtocolType, type_data}
use comp429_computer_network.Routing.Protocol.{init, recv, handle_alarm}
use comp429_computer_network.Routing.Consistency.Handlers.Effects.{IsSettled}
use comp429_computer_network.Routing.Consistency.Handlers.Reach.{
  IsReceivable, recv-IsSettled, handle_alarm-IsSettled, init-IsSettled,
}
use comp429_computer_network.Simulator.{
  Simulator, Node, Link, Timed, Event, change_delay, link_die, link_come_up, xmit_end_to_end,
  xmit_on_link, recv_pkt, alarm, special_port, run_event, dispatch, all_from, set_link, recv_packet,
  handled, perform, find_node, init_routing_protocol,
}
use comp429_computer_network.Simulator.Wire.{IsFitting}
use comp429_computer_network.Simulator.Fitting.{recv-Fits, handle_alarm-Fits, init-IsFitting}
use comp429_computer_network.Simulator.Order.{Step, takes, Runs, here, next, All-++, All-at}
use comp429_computer_network.Simulator.Sound.{
  IsSound, IsForeign, IsFair, AreFair, IsApart, Sound, OnSome, any, bind-OnSome, get_elem?-OnSome,
  set-All, find_node-OnSome, IsGood, handled-IsGood,
}

-- A router takes what another one sent.
IsForeign-IsReceivable :
    (dest : ℕ) (packet : List ℕ) → IsForeign dest packet → IsReceivable dest packet
IsForeign-IsReceivable dest packet (sender, other, wire) = (
  λ dv. let even = wire.whole dv in omega arith,
  λ pong same. other (sym (wire.own (λ typed. absurd (omega (arith, pong, typed)))) ∙ same),
)

-- A DATA packet can be taken from any router.
pub data-IsForeign :
    (dest : ℕ) (packet : List ℕ) → byte_at packet 0 ≡ type_data → IsForeign dest packet
data-IsForeign dest packet typed = (
  suc dest,
  (λ e. absurd (omega (arith, e))),
  record {
    whole = λ e. absurd (omega arith);
    own = λ e. absurd (e typed);
    full = λ e. absurd (omega arith);
  },
)

-- The router of a sound node takes a packet of another router, and makes fit calls only.
pub taken :
    (indeterminate now port : ℕ) (packet : List ℕ) (n : Node)
    → IsSound n
    → IsForeign n.id packet
    → (r : Router) × (recv indeterminate now port packet n.rp ≡ some r)
      × IsSettled r
      × IsFitting n.id r
taken indeterminate now port packet n sound foreign =
    let (r, e, settled) =
      recv-IsSettled indeterminate now port packet n.rp
        (rw sound.same_id (IsForeign-IsReceivable n.id packet foreign)) sound.settled in
    let fits =
      recv-Fits n.id sound.small indeterminate now port packet n.rp foreign.0
        (record { same_id = sound.same_id; calls = rw sound.quiet tt }) foreign.2 in
    (r, e, settled, rw e at fits)

pub rung :
    (now : ℕ) (kind : Alarm) (n : Node)
    → IsSound n
    → (r : Router) × (handle_alarm now kind n.rp ≡ some r) × IsSettled r × IsFitting n.id r
rung now kind n sound =
    let (r, e, settled) = handle_alarm-IsSettled now kind n.rp sound.settled in
    let fits =
      handle_alarm-Fits n.id sound.small now kind n.rp
        (record { same_id = sound.same_id; calls = rw sound.quiet tt }) in
    (r, e, settled, rw e at fits)

module _ (s : Simulator) (nodes : All IsSound s.nodes) (links : All IsApart s.links) where
  recv_packet-IsGood :
      (indeterminate id port : ℕ) (packet : List ℕ)
      → IsForeign id packet
      → OnSome IsGood (recv_packet indeterminate s id port packet)
  unfolding recv_packet
  recv_packet-IsGood indeterminate id port packet foreign =
      bind-OnSome (λ n. (n.id ≡ id) × IsSound n) IsGood (find_node id s.nodes) _
        (find_node-OnSome id s.nodes nodes)
        λ n found.
          let (r, e, settled, fits) =
            taken indeterminate s.global_time port packet n found.1 (rw found.0 foreign) in
          rw e (handled-IsGood s nodes links n r settled fits)

  set_link-IsGood :
      (l : ℕ) (change : Link → Link)
      → ((link : Link) → IsApart link → IsApart (change link))
      → OnSome IsGood (set_link s l change)
  unfolding set_link
  set_link-IsGood l change kept =
      bind-OnSome IsApart IsGood (get_elem? s.links l) _ (get_elem?-OnSome IsApart s.links l links)
        λ link apart. (nodes, set-All IsApart s.links l (change link) links (kept link apart), tt)

  dispatch-IsGood :
      (indeterminate draw : ℕ) (e : Event)
      → IsFair e
      → OnSome IsGood (dispatch indeterminate draw e s)
  unfolding dispatch
  dispatch-IsGood indeterminate draw (change_delay l d) fair =
      set_link-IsGood l _ (λ link apart. apart)
  dispatch-IsGood indeterminate draw (link_die l) fair = set_link-IsGood l _ (λ link apart. apart)
  dispatch-IsGood indeterminate draw (link_come_up l) fair =
      set_link-IsGood l _ (λ link apart. apart)
  dispatch-IsGood indeterminate draw (xmit_end_to_end src packet) fair =
      recv_packet-IsGood indeterminate src special_port packet (data-IsForeign src packet fair)
  dispatch-IsGood indeterminate draw (xmit_on_link dest dport l packet) fair =
      bind-OnSome IsApart IsGood (get_elem? s.links l) _ (get_elem?-OnSome IsApart s.links l links)
        λ link apart. elim (Bool-cases (link.is_alive && leb link.loss_tenths draw)) [
          | inl carried ↦ rw carried (nodes, links, (fair, tt))
          | inr lost ↦ rw lost (nodes, links, tt)
        ]
  dispatch-IsGood indeterminate draw (recv_pkt dest dport packet) fair =
      recv_packet-IsGood indeterminate dest dport packet fair
  dispatch-IsGood indeterminate draw (alarm id kind) fair =
      bind-OnSome (λ n. (n.id ≡ id) × IsSound n) IsGood (find_node id s.nodes) _
        (find_node-OnSome id s.nodes nodes)
        λ n found.
          let (r, e, settled, fits) = rung s.global_time kind n found.1 in
          rw e (handled-IsGood s nodes links n r settled fits)

run_event-Sound :
    (indeterminate draw : ℕ) (e : Timed) (rest : List Timed) (s : Simulator)
    → All IsSound s.nodes
    → All IsApart s.links
    → AreFair rest
    → IsFair e.event
    → OnSome Sound (run_event indeterminate draw e rest s)
unfolding run_event
run_event-Sound indeterminate draw e rest s nodes links fairs fair =
    bind-OnSome IsGood Sound
      (dispatch indeterminate draw e.event (record s { global_time = e.time })) _
      (dispatch-IsGood (record s { global_time = e.time }) nodes links indeterminate draw e.event
        fair)
      λ r good. elim (Bool-cases (all_from e.time r.1)) [
        | inl from ↦ rw from (record {
          nodes = good.0;
          links = good.1;
          queue = All-++ (λ e. IsFair e.event) rest r.1 fairs good.2;
        })
        | inr past ↦ rw past tt
      ]

pub All-rest :
    (P : Timed → Type 0) (before after : List Timed) (e : Timed)
    → All P (before ++ e ∷ after)
    → All P (before ++ after)
All-rest P [] after e h = h.1
All-rest P (x ∷ before) after e h = (h.0, All-rest P before after e h.1)

pub Step-Sound : (s t : Simulator) → Step s t → Sound s → Sound t
Step-Sound s t (takes indeterminate draw before after e going q least ran) sound =
    let queue = rw q at sound.queue in
    let all =
      run_event-Sound indeterminate draw e (before ++ after) s sound.nodes sound.links
        (All-rest (λ e. IsFair e.event) before after e queue)
        (All-at (λ e. IsFair e.event) before after e queue) in
    rw ran at all

handled-queue :
    (s : Simulator) (n : Node) (r : Router) → OnSome (λ p. p.0.event_q ≡ s.event_q) (handled s n r)
unfolding handled
handled-queue s n r =
    bind-OnSome (λ es. Unit {0}) (λ p. p.0.event_q ≡ s.event_q) (perform s n r.effects) _ (any _)
      λ es _. refl

pub init_routing_protocol-Sound :
    (type : ProtocolType) (nodes : List Node) (s : Simulator)
    → All IsSound nodes
    → Sound s
    → OnSome Sound (init_routing_protocol type nodes s)
unfolding init_routing_protocol
init_routing_protocol-Sound type [] s h sound = sound
init_routing_protocol-Sound type (n ∷ nodes) s h sound =
    let r = init (u16 (length n.link_vector)) n.id type s.global_time in
    elim (Option-cases (handled s n r)) [
      | inl fault ↦ rw fault tt
      | inr (p, e) ↦
          let same : p.0.event_q ≡ s.event_q = rw e at (handled-queue s n r) in
          let good : IsGood p = rw e at (
            handled-IsGood s sound.nodes sound.links n r
              (init-IsSettled (u16 (length n.link_vector)) n.id type s.global_time)
              (init-IsFitting n.id h.0.small (u16 (length n.link_vector)) s.global_time type)) in
          rw e (
            init_routing_protocol-Sound type nodes _ h.1 (record {
              nodes = good.0;
              links = good.1;
              queue = All-++ (λ e. IsFair e.event) p.0.event_q p.1 (rw same sound.queue) good.2;
            }))
    ]

-- From sound nodes, while `init_routing_protocol` and then `run` do not leave the model, whatever
-- the order of events of one time, the losses and the indeterminate costs: every node's router stays
-- settled and its id the node's, no link leads from a node to itself, a packet of the queue that an end
-- sends is of type DATA, and each other packet of the queue that is not of type DATA carries as its
-- source the id of another router than the one it goes to.
pub Runs-Sound :
    (type : ProtocolType) (start s t : Simulator)
    → Sound start
    → init_routing_protocol type start.nodes start ≡ some s
    → Runs s t
    → Sound t
Runs-Sound type start s _ sound e here =
    rw e at (init_routing_protocol-Sound type start.nodes start sound.nodes sound)
Runs-Sound type start s t sound e (next {t = m} runs step) =
    Step-Sound m t step (Runs-Sound type start s m sound e runs)

-- In a run from sound nodes, a packet that is due at a node is handled by its router without a fault,
-- at any time and on any port, and leaves the router settled; so is every alarm.
pub Runs-handles :
    (type : ProtocolType) (start s t : Simulator)
    → Sound start
    → init_routing_protocol type start.nodes start ≡ some s
    → Runs s t
    → (n : Node) (indeterminate port : ℕ) (packet : List ℕ) (before after : List Timed) (e : Timed)
    → find_node n.id t.nodes ≡ some n
    → t.event_q ≡ before ++ e ∷ after
    → e.event ≡ recv_pkt n.id port packet
    → ((r : Router) × (recv indeterminate e.time port packet n.rp ≡ some r) × IsSettled r)
      × ((kind : Alarm) → (r : Router) × (handle_alarm e.time kind n.rp ≡ some r) × IsSettled r)
Runs-handles type start s t sound started runs n indeterminate port packet before after e found q
      due =
    let at_end : Sound t = Runs-Sound type start s t sound started runs in
    let node : (n.id ≡ n.id) × IsSound n =
      rw found at (find_node-OnSome n.id t.nodes at_end.nodes) in
    let fair : IsFair (recv_pkt n.id port packet) =
      rw due at (All-at (λ e. IsFair e.event) before after e (rw q at at_end.queue)) in
    let (r, ran, settled, _) = taken indeterminate e.time port packet n node.1 fair in
    (
      (r, ran, settled),
      λ kind. let (r', ran', settled', _) = rung e.time kind n node.1 in (r', ran', settled'),
    )
