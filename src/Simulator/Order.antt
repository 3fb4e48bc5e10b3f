-- ===== src/Simulator/Order.antt =====
-- The run loop of the simulator as a step relation, and the clock in one round.
use comp429_computer_network.Base.{
  ℕ, ◌≤◌, ◌≡◌, refl, subst, get_elem?, List, [], ◌∷◌, ◌++◌, true, false, ◌&&◌, not, Option, none,
  some, some-inj, arith, All, leb, ltb, ◌==◌, Bool-cases, inl, inr, ◌>>=◌, Option-cases,
}
use comp429_computer_network.Routing.State.{Router}
use comp429_computer_network.Routing.Protocol.{recv, handle_alarm}
use comp429_computer_network.Simulator.{
  Simulator, Node, Timed, Event, change_delay, link_die, link_come_up, xmit_end_to_end,
  xmit_on_link, recv_pkt, alarm, special_port, run_event, dispatch, all_from, set_link, recv_packet,
  handled, perform, find_node,
}

-- One round of the loop takes an event of least time, whichever of these is on top of the queue.
pub data Step (s : Simulator) (t : Simulator) : Type 0 where
  takes :
      (indeterminate draw : ℕ) (before after : List Timed) (e : Timed)
      → s.is_over ≡ false
      → s.event_q ≡ before ++ e ∷ after
      → All (λ x. e.time ≤ x.time) (before ++ after)
      → run_event indeterminate draw e (before ++ after) s ≡ some t
      → Step s t

pub data Runs (s : Simulator) : Simulator → Type 0 where
  here : Runs s s
  next : {t u : Simulator} → Runs s t → Step t u → Runs s u

-- No event of the queue is in the past.
abbrev pub Ordered : Simulator → Type 0
Ordered s = All (λ x. s.global_time ≤ x.time) s.event_q

pub All-++ : (P : Timed → Type 0) (xs ys : List Timed) → All P xs → All P ys → All P (xs ++ ys)
All-++ P [] ys hx hy = hy
All-++ P (x ∷ xs) ys hx hy = (hx.0, All-++ P xs ys hx.1 hy)

pub All-at :
    (P : Timed → Type 0) (before after : List Timed) (e : Timed) → All P (before ++ e ∷ after) → P e
All-at P [] after e h = h.0
All-at P (x ∷ before) after e h = All-at P before after e h.1

pub all_from-All : (now : ℕ) (es : List Timed) → all_from now es ≡ true → All (λ x. now ≤ x.time) es
unfolding all_from
all_from-All now [] e = tt
all_from-All now (x ∷ es) e = elim (Bool-cases (leb now x.time)) [
  | inl from ↦ (ground (arith, from), all_from-All now es (rw (all_from, from) at e))
  | inr past ↦ let never : false ≡ true = rw (all_from, past) at e in cc
]

-- A result, where there is one, at this time.
abbrev IsAt : ℕ → Option (Simulator × List Timed) → Type 0
IsAt now none = Unit
IsAt now (some r) = r.0.global_time ≡ now

module _ {A : Type 0} (now : ℕ) where
  bind-IsAt :
      (o : Option A) (f : A → Option (Simulator × List Timed))
      → ((a : A) → IsAt now (f a))
      → IsAt now (o >>= f)
  bind-IsAt none f h = tt
  bind-IsAt (some a) f h = h a

handled-IsAt : (sim : Simulator) (n : Node) (r : Router) → IsAt sim.global_time (handled sim n r)
unfolding handled
handled-IsAt sim n r = bind-IsAt sim.global_time (perform sim n r.effects) _ (λ es. refl)

recv_packet-IsAt :
    (indeterminate : ℕ) (sim : Simulator) (id port : ℕ) (packet : List ℕ)
    → IsAt sim.global_time (recv_packet indeterminate sim id port packet)
unfolding recv_packet
recv_packet-IsAt indeterminate sim id port packet =
    bind-IsAt sim.global_time (find_node id sim.nodes) _ λ n.
      bind-IsAt sim.global_time (recv indeterminate sim.global_time port packet n.rp) _
        λ r. handled-IsAt sim n r

dispatch-IsAt :
    (indeterminate draw : ℕ) (e : Event) (sim : Simulator)
    → IsAt sim.global_time (dispatch indeterminate draw e sim)
unfolding dispatch set_link
dispatch-IsAt indeterminate draw (change_delay l d) sim =
    bind-IsAt sim.global_time (get_elem? sim.links l) _ (λ link. refl)
dispatch-IsAt indeterminate draw (link_die l) sim =
    bind-IsAt sim.global_time (get_elem? sim.links l) _ (λ link. refl)
dispatch-IsAt indeterminate draw (link_come_up l) sim =
    bind-IsAt sim.global_time (get_elem? sim.links l) _ (λ link. refl)
dispatch-IsAt indeterminate draw (xmit_end_to_end src packet) sim =
    recv_packet-IsAt indeterminate sim src special_port packet
dispatch-IsAt indeterminate draw (xmit_on_link dest dport l packet) sim =
    bind-IsAt sim.global_time (get_elem? sim.links l) _ (λ link. refl)
dispatch-IsAt indeterminate draw (recv_pkt dest dport packet) sim =
    recv_packet-IsAt indeterminate sim dest dport packet
dispatch-IsAt indeterminate draw (alarm id kind) sim =
    bind-IsAt sim.global_time (find_node id sim.nodes) _ λ n.
      bind-IsAt sim.global_time (handle_alarm sim.global_time kind n.rp) _ λ r. handled-IsAt sim n r

pub run_event-Ordered :
    (indeterminate draw : ℕ) (e : Timed) (rest : List Timed) (s t : Simulator)
    → All (λ x. e.time ≤ x.time) rest
    → run_event indeterminate draw e rest s ≡ some t
    → Ordered t × (t.global_time ≡ e.time)
unfolding run_event
run_event-Ordered indeterminate draw e rest s t later ran = elim (Option-cases result) [
  | inl fault ↦ let never : none ≡ some t = rw (run_event, fault) at ran in cc
  | inr (r, done) ↦ elim (Bool-cases (all_from e.time r.1)) [
    | inl from ↦
        let same : after r ≡ t = some-inj (rw (run_event, done, from) at ran) in
        let at : r.0.global_time ≡ e.time =
          rw done at
            (dispatch-IsAt indeterminate draw e.event (record s { global_time = e.time })) in
        let from' : All (λ x. e.time ≤ x.time) (rest ++ r.1) =
          All-++ (λ x. e.time ≤ x.time) rest r.1 later (all_from-All e.time r.1 from) in
        subst (λ u. Ordered u × (u.global_time ≡ e.time)) same (rw at from', at)
    | inr past ↦ let never : none ≡ some t = rw (run_event, done, past) at ran in cc
  ]
]
  where
    result : Option (Simulator × List Timed)
    result = dispatch indeterminate draw e.event (record s { global_time = e.time })

    after : Simulator × List Timed → Simulator
    after r = record r.0 {
      event_q = rest ++ r.1;
      is_over = not (r.0.stop_time == 0) && ltb r.0.stop_time e.time;
    }
