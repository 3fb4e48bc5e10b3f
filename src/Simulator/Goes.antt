-- ===== src/Simulator/Goes.antt =====
-- The run on a network: Simulator.cc, `run`.
use comp429_computer_network.Base.{
  ℕ, ◌≤◌, true, none, ◌&&◌, not, ltb, leb, arith, Option-cases, ◌≡◌, refl, sym, subst, ◌∙◌, ◌⊎◌,
  inl, inr, List, [], ◌∷◌, ◌++◌, Option, some, some-inj, All, ◌==◌, Bool-cases,
}
use comp429_computer_network.Routing.State.{ProtocolType, Router, Effect, send, set_alarm, overruns}
use comp429_computer_network.Routing.Starting.{Overran}
use comp429_computer_network.Simulator.{
  handled, perform, node_send, recv_packet, Event, recv_pkt, xmit_end_to_end, xmit_on_link,
  change_delay, link_die, link_come_up, alarm, Simulator, Node, Timed, dispatch, run_event,
  all_from, init_routing_protocol,
}
use comp429_computer_network.Simulator.Order.{
  Ordered, run_event-Ordered, Step, takes, Runs, here, next, All-++, All-at,
}
use comp429_computer_network.Simulator.Sound.{IsFair, OnSome}
use comp429_computer_network.Simulator.Safety.{All-rest}
use comp429_computer_network.Simulator.Cables.{
  vector_of, ends_of, Cabled, IsPlaced, ArePlaced, IsOver,
}
use comp429_computer_network.Simulator.Safety.{Step-Sound}
use comp429_computer_network.Simulator.Progress.{
  IsSoon, Overruns, IsRunning, IsReached, dispatch-IsReached,
}
use comp429_computer_network.Simulator.Starts.{IsUp, IsStart, started}

All-all_from : (now : ℕ) (es : List Timed) → All (λ x. now ≤ x.time) es → all_from now es ≡ true
unfolding all_from
All-all_from now [] h = refl
All-all_from now (e ∷ es) h =
    let first : leb now e.time ≡ true = ground (arith, h.0) in
    rw (first, All-all_from now es h.1) refl

perform-Overran :
    (s : Simulator) (n : Node) (effects : List Effect)
    → Overran effects
    → perform s n effects ≡ none
unfolding perform
perform-Overran s n [] past = absurd past
perform-Overran s n (send port packet ∷ effects) (inl never) = absurd never
perform-Overran s n (send port packet ∷ effects) (inr past) =
    elim (Option-cases (node_send s n port packet)) [
      | inl lost ↦ rw lost refl
      | inr (e, gone) ↦ rw (gone, perform-Overran s n effects past) refl
    ]
perform-Overran s n (set_alarm duration kind ∷ effects) (inl never) = absurd never
perform-Overran s n (set_alarm duration kind ∷ effects) (inr past) =
    rw (perform-Overran s n effects past) refl
perform-Overran s n (overruns count ∷ effects) past = refl

handled-Overran : (s : Simulator) (n : Node) (r : Router) → Overran r.effects → handled s n r ≡ none
unfolding handled
handled-Overran s n r past = rw (perform-Overran s n r.effects past) refl

dispatch-Overruns :
    (indeterminate draw : ℕ) (e : Event) (s : Simulator)
    → Overruns indeterminate s e
    → dispatch indeterminate draw e s ≡ none
unfolding dispatch recv_packet
dispatch-Overruns indeterminate draw (recv_pkt dest dport packet) s (n, r, found, ran, past) =
    rw (found, ran, handled-Overran s n r past) refl
dispatch-Overruns indeterminate draw (xmit_end_to_end src packet) s (n, r, found, ran, past) =
    rw (found, ran, handled-Overran s n r past) refl
dispatch-Overruns indeterminate draw (alarm id kind) s (n, r, found, ran, past) =
    rw (found, ran, handled-Overran s n r past) refl
dispatch-Overruns indeterminate draw (xmit_on_link dest dport l packet) s past = absurd past
dispatch-Overruns indeterminate draw (change_delay l d) s past = absurd past
dispatch-Overruns indeterminate draw (link_die l) s past = absurd past
dispatch-Overruns indeterminate draw (link_come_up l) s past = absurd past

-- A round with such an event faults.
overrun-faults :
    (indeterminate draw : ℕ) (rest : List Timed) (e : Timed) (s t : Simulator)
    → Overruns indeterminate (record s { global_time = e.time }) e.event
    → run_event indeterminate draw e rest s ≡ some t
    → ⊥
unfolding run_event
overrun-faults indeterminate draw rest e s t past ran =
    let fault =
      dispatch-Overruns indeterminate draw e.event (record s { global_time = e.time }) past in
    let never : none ≡ some t = rw (run_event, fault) at ran in cc

module _ (vectors : ℕ → Option (List ℕ)) (ends : ℕ → Option (ℕ × ℕ))
    (cabled : Cabled vectors ends) where
  dispatch-runs :
      (indeterminate draw : ℕ) (before after : List Timed) (e : Timed) (s : Simulator)
      → IsRunning vectors ends s
      → s.event_q ≡ before ++ e ∷ after
      → ((p : Simulator × List Timed) × (dispatch indeterminate draw e.event
              (record s { global_time = e.time })
            ≡ some p)
          × IsReached vectors ends (record s { global_time = e.time }) p)
        ⊎ Overruns indeterminate (record s { global_time = e.time }) e.event
  dispatch-runs indeterminate draw before after e s run q =
      let fair : IsFair e.event =
        All-at (λ e. IsFair e.event) before after e (rw q at run.sound.queue) in
      let placed : IsPlaced vectors ends e.event =
        All-at (λ e. IsPlaced vectors ends e.event) before after e (rw q at run.placed) in
      let now = record s { global_time = e.time } in
      let over : IsOver vectors ends now = record {
        nodes = run.over.nodes;
        links = run.over.links;
      } in
      dispatch-IsReached vectors ends cabled now over run.sound.nodes run.equipped indeterminate
        draw e.event fair placed

  run_event-IsUp :
      (indeterminate draw : ℕ) (rest : List Timed) (e : Timed) (s : Simulator)
      (p : Simulator × List Timed)
      → dispatch indeterminate draw e.event (record s { global_time = e.time }) ≡ some p
      → IsReached vectors ends (record s { global_time = e.time }) p
      → ArePlaced vectors ends rest
      → OnSome (IsUp vectors ends cabled) (run_event indeterminate draw e rest s)
  unfolding run_event
  run_event-IsUp indeterminate draw rest e s p done reached placed =
      elim (Bool-cases (all_from e.time p.1)) [
        | inl from ↦
            rw (done, from)
              (record {
                over = record { nodes = reached.over.nodes; links = reached.over.links };
                equipped = reached.equipped;
                placed = All-++ (λ e. IsPlaced vectors ends e.event) rest p.1 placed reached.placed;
              })
        | inr past ↦ rw (done, past) tt
      ]

  -- Where the clock is not near its end, the round goes on.
  run_event-goes :
      (indeterminate draw : ℕ) (rest : List Timed) (e : Timed) (s : Simulator)
      (p : Simulator × List Timed)
      → dispatch indeterminate draw e.event (record s { global_time = e.time }) ≡ some p
      → IsReached vectors ends (record s { global_time = e.time }) p
      → IsSoon (record s { global_time = e.time })
      → (u : Simulator) × (run_event indeterminate draw e rest s ≡ some u)
  unfolding run_event
  run_event-goes indeterminate draw rest e s p done reached soon =
      let from : all_from e.time p.1 ≡ true = All-all_from e.time p.1 (reached.later soon) in
      (
        record p.0 {
          event_q = rest ++ p.1;
          is_over = not (p.0.stop_time == 0) && ltb p.0.stop_time e.time;
        },
        rw (done, from) refl,
      )

  Step-IsRunning :
      (s t : Simulator) → Step s t → IsRunning vectors ends s → IsRunning vectors ends t
  Step-IsRunning s t (takes indeterminate draw before after e going q least ran) run =
      let sound =
        Step-Sound s t (takes indeterminate draw before after e going q least ran) run.sound in
      elim (dispatch-runs indeterminate draw before after e s run q) [
        | inl (p, done, reached) ↦
            let rest : ArePlaced vectors ends (before ++ after) =
              All-rest (λ e. IsPlaced vectors ends e.event) before after e (rw q at run.placed) in
            let set : IsUp vectors ends cabled t =
              rw ran at
                (run_event-IsUp indeterminate draw (before ++ after) e s p done reached rest) in
            record { sound = sound; over = set.over; equipped = set.equipped; placed = set.placed }
        | inr past ↦ absurd (overrun-faults indeterminate draw (before ++ after) e s t past ran)
      ]

  Runs-IsRunning :
      (s t : Simulator) → IsRunning vectors ends s → Runs s t → IsRunning vectors ends t
  Runs-IsRunning s _ run here = run
  Runs-IsRunning s t run (next {t = m} runs step) =
      Step-IsRunning m t step (Runs-IsRunning s m run runs)

-- A run can start on a network of sound nodes with different ids, links between different nodes that both
-- ends hold at one of their ports, and fair events that name what is there. After any rounds of `run` from
-- there, while the clock is more than 30 seconds and any link's delay from 2 ^ 32, the round for an event
-- of least time goes on, whatever is drawn and whatever an uninitialised cost holds: no handler follows a
-- missing entry, every packet is sent on a port that the node has, the other end of its link is a node,
-- and `get_link_port` finds the link there and does not exit. The clock is then at the event's time, and
-- no queued event is in the past. The only other case is that a router builds a DV update of 16382 pairs
-- or more in this round, and writes past the update's buffer.
pub Runs-goes_on :
    (type : ProtocolType) (start s t : Simulator)
    → IsStart start
    → init_routing_protocol type start.nodes start ≡ some s
    → Runs s t
    → (indeterminate draw : ℕ) (before after : List Timed) (e : Timed)
    → t.event_q ≡ before ++ e ∷ after
    → All (λ x. e.time ≤ x.time) (before ++ after)
    → IsSoon (record t { global_time = e.time })
    → ((u : Simulator) × (run_event indeterminate draw e (before ++ after) t ≡ some u)
        × Ordered u
        × (u.global_time ≡ e.time))
      ⊎ Overruns indeterminate (record t { global_time = e.time }) e.event
Runs-goes_on type start s t h done runs indeterminate draw before after e q least soon =
    let (s', done', run) = started type start h in
    let same : s' ≡ s = some-inj (sym done' ∙ done) in
    let vectors = λ (id : ℕ). vector_of id start.nodes in
    let ends = λ (l : ℕ). ends_of l start.links in
    let run' : IsRunning vectors ends t =
      Runs-IsRunning vectors ends h.connected.cabled s t (subst (IsRunning vectors ends) same run)
        runs in
    elim (dispatch-runs vectors ends h.connected.cabled indeterminate draw before after e t run'
      q) [
        | inl (p, dispatched, reached) ↦
            let (u, ran) =
              run_event-goes vectors ends h.connected.cabled indeterminate draw (before ++ after) e
                t p dispatched reached soon in
            let (ordered, at) =
              run_event-Ordered indeterminate draw e (before ++ after) t u least ran in
            inl (u, ran, ordered, at)
        | inr past ↦ inr past
      ]
