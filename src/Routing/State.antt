-- ===== src/Routing/State.antt =====
-- The router's state: project3/Port.h, the private fields of project3/RoutingProtocolImpl.h, and the
-- constants of project3/global.h. What the router hands to `Node::send` and `Node::set_alarm` is
-- logged in the order of the calls.
use comp429_computer_network.Base.{ℕ, List, [], ◌∷◌, ◌++◌, Bool, false}
use comp429_computer_network.Routing.Map.{Map}

-- `Port`, a link of the router.
pub record Port : Type 0 where
  pub number : ℕ
  pub to : ℕ
  pub cost : ℕ
  pub updated : ℕ
  pub connected : Bool

pub record DvCell : Type 0 where
  pub next_hop : ℕ
  pub cost : ℕ
  pub updated : ℕ

pub record NnCell : Type 0 where
  pub cost : ℕ
  pub port : ℕ

pub data ProtocolType : Type 0 where
  p_dv p_ls : ProtocolType

pub data Alarm : Type 0 where
  exp_alarm pp_alarm update_alarm : Alarm

pub data Effect : Type 0 where
  send : ℕ → List ℕ → Effect
  set_alarm : ℕ → Alarm → Effect
  overruns : ℕ → Effect

pub record Router : Type 0 where
  pub protocol_type : ProtocolType
  pub num_ports : ℕ
  pub router_id : ℕ
  pub ports : Map Port
  pub direct_neighbors : Map NnCell
  pub forwarding_table : Map ℕ
  pub dv_map : Map DvCell
  pub effects : List Effect

abbrev pub infinity_cost : ℕ
infinity_cost = 0xffff

-- The packet types, in the order of `ePacketType`.
abbrev pub type_data : ℕ
type_data = 0

abbrev pub type_ping : ℕ
type_ping = 1

abbrev pub type_pong : ℕ
type_pong = 2

abbrev pub type_dv : ℕ
type_dv = 3

abbrev pub default_port : Port
default_port = record { number = 0; to = 0; cost = 0; updated = 0; connected = false }

-- One more entry of the log.
abbrev pub emit : Effect → Router → Router
emit e r = record r { effects = r.effects ++ e ∷ [] }

-- A destination with a cost, as a DV update carries it; `DVPair` holds two `uint16_t`.
abbrev pub DvPair : Type 0
DvPair = ℕ × ℕ
