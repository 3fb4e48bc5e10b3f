-- ===== src/Routing/Starting.antt =====
-- The calls of a router's handlers, and those that `init` makes: RoutingProtocolImpl.cc.
use comp429_computer_network.Base.{
  ℕ, zero, suc, ◌+◌, ◌≤◌, ◌≡◌, refl, ◌⊎◌, inl, inr, List, [], ◌∷◌, ◌++◌,
}
use comp429_computer_network.Routing.State.{
  Router, ProtocolType, Effect, send, set_alarm, overruns, Alarm, exp_alarm, pp_alarm, update_alarm,
}
use comp429_computer_network.Routing.Protocol.{init, fresh_router}
use comp429_computer_network.Routing.PingPong.{generate_ping_pong, ping_ports, ping_packet}

-- An update of 16382 pairs or more was written past its buffer.
abbrev pub Overran : List Effect → Type 0
Overran [] = ⊥
Overran (send port packet ∷ effects) = ⊥ ⊎ Overran effects
Overran (set_alarm duration kind ∷ effects) = ⊥ ⊎ Overran effects
Overran (overruns count ∷ effects) = (16382 ≤ count) ⊎ Overran effects

Overran-emit :
    (es : List Effect) (port : ℕ) (packet : List ℕ)
    → Overran (es ++ send port packet ∷ [])
    → Overran es
Overran-emit [] port packet (inl never) = never
Overran-emit [] port packet (inr never) = never
Overran-emit (send p b ∷ es) port packet (inl never) = absurd never
Overran-emit (send p b ∷ es) port packet (inr h) = inr (Overran-emit es port packet h)
Overran-emit (set_alarm d k ∷ es) port packet (inl never) = absurd never
Overran-emit (set_alarm d k ∷ es) port packet (inr h) = inr (Overran-emit es port packet h)
Overran-emit (overruns c ∷ es) port packet (inl many) = inl many
Overran-emit (overruns c ∷ es) port packet (inr h) = inr (Overran-emit es port packet h)

Overran-alarm :
    (es : List Effect) (duration : ℕ) (kind : Alarm)
    → Overran (es ++ set_alarm duration kind ∷ [])
    → Overran es
Overran-alarm [] duration kind (inl never) = never
Overran-alarm [] duration kind (inr never) = never
Overran-alarm (send p b ∷ es) duration kind (inl never) = absurd never
Overran-alarm (send p b ∷ es) duration kind (inr h) = inr (Overran-alarm es duration kind h)
Overran-alarm (set_alarm d k ∷ es) duration kind (inl never) = absurd never
Overran-alarm (set_alarm d k ∷ es) duration kind (inr h) = inr (Overran-alarm es duration kind h)
Overran-alarm (overruns c ∷ es) duration kind (inl many) = inl many
Overran-alarm (overruns c ∷ es) duration kind (inr h) = inr (Overran-alarm es duration kind h)

ping_ports-Overran :
    (now left i : ℕ) (r : Router) → Overran (ping_ports now left i r).effects → Overran r.effects
unfolding ping_ports
ping_ports-Overran now zero i r h = h
ping_ports-Overran now (suc left) i r h =
    Overran-emit r.effects i (ping_packet r.router_id now) (ping_ports-Overran now left (i + 1) _ h)

-- `init` of a router only sends PINGs.
pub init-Overran :
    (num_ports router_id now : ℕ) (type : ProtocolType)
    → Overran (init num_ports router_id type now).effects
    → ⊥
unfolding init generate_ping_pong fresh_router
init-Overran num_ports router_id now type h =
    ping_ports-Overran now num_ports 0 (fresh_router num_ports router_id type) (
      Overran-alarm _ 10000 pp_alarm
        (Overran-alarm _ 30000 update_alarm (Overran-alarm _ 1000 exp_alarm h)))

-- An alarm that a handler set.
abbrev pub Sets : ℕ → Alarm → List Effect → Type 0
Sets duration kind [] = ⊥
Sets duration kind (e ∷ es) = (set_alarm duration kind ≡ e) ⊎ Sets duration kind es

Sets-last :
    (duration : ℕ) (kind : Alarm) (es : List Effect)
    → Sets duration kind (es ++ set_alarm duration kind ∷ [])
Sets-last duration kind [] = inl refl
Sets-last duration kind (e ∷ es) = inr (Sets-last duration kind es)

Sets-before :
    (duration : ℕ) (kind : Alarm) (es : List Effect) (e : Effect)
    → Sets duration kind es
    → Sets duration kind (es ++ e ∷ [])
Sets-before duration kind [] e h = absurd h
Sets-before duration kind (x ∷ es) e (inl same) = inl same
Sets-before duration kind (x ∷ es) e (inr h) = inr (Sets-before duration kind es e h)

-- `init` sets the three alarms.
pub init-Sets :
    (num_ports router_id now : ℕ) (type : ProtocolType)
    → Sets 10000 pp_alarm (init num_ports router_id type now).effects
      × Sets 30000 update_alarm (init num_ports router_id type now).effects
      × Sets 1000 exp_alarm (init num_ports router_id type now).effects
unfolding init
init-Sets num_ports router_id now type = (
  Sets-before 10000 pp_alarm _ _ (Sets-before 10000 pp_alarm _ _ (Sets-last 10000 pp_alarm _)),
  Sets-before 30000 update_alarm _ _ (Sets-last 30000 update_alarm _),
  Sets-last 1000 exp_alarm _,
)
