-- ===== src/Routing/Protocol.antt =====
-- project3/RoutingProtocolImpl.cc and FwdDataImpl.cc: the entry points that the simulator calls.
use comp429_computer_network.Base.{
  ℕ, zero, suc, ◌+◌, List, [], Option, some, none, byte_at, Bool, true, false, ◌||◌, ◌==◌,
  if◌then◌else◌, ◌>>=◌, load16, htons,
}
use comp429_computer_network.Routing.Map.{Map, find, put}
use comp429_computer_network.Routing.Vector.{recv_dv, update_dv_table}
use comp429_computer_network.Routing.PingPong.{generate_ping_pong, handle_ping_pong}
use comp429_computer_network.Routing.Refresh.{refresh_dv}
use comp429_computer_network.Routing.State.{
  Router, Port, ProtocolType, p_dv, p_ls, Alarm, exp_alarm, pp_alarm, update_alarm, send, set_alarm,
  type_data, type_ping, type_pong, type_dv, default_port, emit,
}

-- `for (i = 0; i < num_ports; i++) ports[i] = p;`
unfoldable pub set_up_ports : ℕ → ℕ → Map Port → Map Port
set_up_ports zero i ports = ports
set_up_ports (suc left) i ports = set_up_ports left (i + 1) (put i default_port ports)

-- The members that `init` sets, and the maps that the constructor leaves empty.
unfoldable pub fresh_router : ℕ → ℕ → ProtocolType → Router
unfolding set_up_ports
fresh_router num_ports router_id protocol_type = record {
  protocol_type = protocol_type;
  num_ports = num_ports;
  router_id = router_id;
  ports = set_up_ports num_ports 0 [];
  direct_neighbors = [];
  forwarding_table = [];
  dv_map = [];
  effects = [];
}

unfoldable pub init : ℕ → ℕ → ProtocolType → ℕ → Router
unfolding fresh_router generate_ping_pong
init num_ports router_id protocol_type now = emit (set_alarm 1000 exp_alarm) (
    emit (set_alarm 30000 update_alarm) (
      emit (set_alarm 10000 pp_alarm)
        (generate_ping_pong now (fresh_router num_ports router_id protocol_type))))

abbrev pub runs_dv : ProtocolType → Bool
runs_dv p_dv = true
runs_dv p_ls = false

-- An alarm carries one of the three pointers that the constructor made, so no fourth kind comes in.
unfoldable pub handle_alarm : ℕ → Alarm → Router → Option Router
unfolding refresh_dv generate_ping_pong update_dv_table
handle_alarm now exp_alarm r = do
  r' ← if runs_dv r.protocol_type then refresh_dv now r else some r
  some (emit (set_alarm 1000 exp_alarm) r')
handle_alarm now pp_alarm r = some (emit (set_alarm 10000 pp_alarm) (generate_ping_pong now r))
handle_alarm now update_alarm r =
    some (
      emit (set_alarm 30000 update_alarm)
        (if runs_dv r.protocol_type then update_dv_table r else r))

-- `direct_neighbors[hop].port` stores a cell of zeros where there is none.
unfoldable pub forward_over : ℕ → List ℕ → Router → Router
forward_over hop packet r = elim (find hop r.direct_neighbors) [
  | some d ↦ emit (send d.port packet) r
  | none ↦
      emit (send 0 packet)
        (record r { direct_neighbors = put hop (record { cost = 0; port = 0 }) r.direct_neighbors })
]

unfoldable pub recv_data : List ℕ → Router → Router
unfolding forward_over
recv_data packet r =
    let dest = htons (load16 packet 6) in
    let routed : Router = elim (find dest r.forwarding_table) [
      | none ↦ r
      | some hop ↦ forward_over hop packet r
    ] in
    if byte_at packet 0 == type_data then (if dest == r.router_id then r else routed) else r

unfoldable pub recv : ℕ → ℕ → ℕ → List ℕ → Router → Option Router
unfolding recv_data handle_ping_pong recv_dv
recv indeterminate now port packet r =
    let type = byte_at packet 0 in
    if type == type_data
    then some (recv_data packet r)
    else if type == type_ping || type == type_pong
    then handle_ping_pong now port packet r
    else if type == type_dv
    then recv_dv indeterminate now port packet r
    else some r
