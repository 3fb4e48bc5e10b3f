-- ===== src/Simulator/Setup.antt =====
-- The rest of the configuration file's reader: Simulator.cc, the section of the events in
-- `Simulator::init`, the whole of it, and `main` up to `run`.
use comp429_computer_network.Base.{
  ℕ, ◌+◌, List, [], ◌∷◌, ◌++◌, false, Option, none, some, take, drop, length, ◌==◌, if◌then◌else◌,
  ◌>>=◌, u16, store16, htons, ◌-◌, ◌⊎◌, inl, inr, ltb, ◌&&◌, ◌||◌,
}
use comp429_computer_network.Routing.State.{ProtocolType, p_dv, p_ls, type_data}
use comp429_computer_network.Web.Text.{codes, contains, same_text}
use comp429_computer_network.Simulator.{
  Simulator, Link, Timed, link_die, link_come_up, xmit_end_to_end, change_delay, find_node,
  init_routing_protocol,
}
use comp429_computer_network.Simulator.Text.{find_text, before, trim, atoi}
use comp429_computer_network.Simulator.Config.{Decimals, Net, read_nodes, read_links, has_bracket}

-- The last link between two nodes that the file names, in either order; `none` is the NULL that a missing
-- key gives.
unfoldable pub find_link : ℕ → ℕ → ℕ → List Link → Option ℕ
find_link a b i [] = none
find_link a b i (link ∷ links) = elim (find_link a b (i + 1) links) [
  | some l ↦ some l
  | none ↦
      if ((link.node1 == a) && (link.node2 == b)) || ((link.node1 == b) && (link.node2 == a))
      then some i
      else none
]

-- The two numbers of an event.
unfoldable pub read_pair : List ℕ → Option (ℕ × ℕ)
unfolding trim atoi find_text
read_pair temp = do
  left ← find_text (40 ∷ []) temp
  comma ← find_text (44 ∷ []) temp
  close ← find_text (41 ∷ []) temp
  let first = drop (left + 1) temp
  let second = drop (comma + 1) temp
  some (
    atoi (trim (if comma == 0 then first else take (comma - 1) first)),
    atoi (trim (if ltb comma close then take (close - comma - 1) second else second)),
  )

-- The DATA packet of an event; the reserved byte is what `malloc` gives.
unfoldable pub data_request : ℕ → ℕ → ℕ → List ℕ
unfolding store16 htons
data_request reserved src dst =
    store16
      (store16 (store16 (type_data ∷ reserved ∷ 0 ∷ 0 ∷ 0 ∷ 0 ∷ 0 ∷ 0 ∷ []) 2 (htons 8)) 4
        (htons src))
      6 (htons dst)

-- The keywords of an event, in the order in which they are looked for.
pub data Keyword : Type 0 where
  dying comingup xmit changedelay ending : Keyword

unfoldable pub keyword_of : List ℕ → Option (Keyword × ℕ)
unfolding find_text
keyword_of line = elim (find_text (codes "linkdying") line) [
  | some pos ↦ some (dying, pos + 9)
  | none ↦ elim (find_text (codes "linkcomingup") line) [
    | some pos ↦ some (comingup, pos + 12)
    | none ↦ elim (find_text (codes "xmit") line) [
      | some pos ↦ some (xmit, pos + 4)
      | none ↦ elim (find_text (codes "changedelay") line) [
        | some pos ↦ some (changedelay, pos + 4)
        | none ↦ find_text (codes "end") line >>= λ pos. some (ending, pos)
      ]
    ]
  ]
]

-- The place of a link in `links`, and past their end for a NULL.
unfoldable pub link_of : Net → ℕ × ℕ → ℕ
unfolding find_link
link_of net (a, b) = elim (find_link a b 0 net.links) [ some l ↦ l | none ↦ length net.links ]

-- What an event's keyword, its time and the text behind the keyword stand for; `inl` is the stop time.
unfoldable pub make_event : Decimals → ℕ → Net → Keyword → ℕ → List ℕ → Option (ℕ ⊎ Timed)
unfolding find_text read_pair link_of data_request find_node
make_event decimals reserved net dying time temp = do
  pair ← read_pair temp
  some (inr (record { time = time; event = link_die (link_of net pair) }))
make_event decimals reserved net comingup time temp = do
  pair ← read_pair temp
  some (inr (record { time = time; event = link_come_up (link_of net pair) }))
make_event decimals reserved net xmit time temp = do
  (a, b) ← read_pair temp
  src ← find_node (u16 a) net.nodes
  dst ← find_node (u16 b) net.nodes
  some (
      inr (record {
        time = time;
        event = xmit_end_to_end src.id (data_request reserved (u16 a) (u16 b));
      }))
make_event decimals reserved net changedelay time temp = do
  (a, b) ← read_pair temp
  close ← find_text (41 ∷ []) temp
  some (
      inr (record {
        time = time;
        event = change_delay (link_of net (u16 a, u16 b)) (decimals.millis (drop (close + 1) temp));
      }))
make_event decimals reserved net ending time temp = some (inl time)

-- A line of the section `[events]`, trimmed.
unfoldable pub read_event : Decimals → ℕ → Net → List ℕ → Option (ℕ ⊎ Timed)
unfolding trim find_text before keyword_of make_event
read_event decimals reserved net line = do
  (keyword, behind) ← keyword_of line
  make_event decimals reserved net keyword
      (decimals.millis (before (find_text (32 ∷ []) line) line)) (trim (drop behind line))

-- The lines of the section `[events]`: the stop time and the events, in their order.
unfoldable pub read_events :
    Decimals → ℕ → Net → List (List ℕ) → ℕ → List Timed → Option (ℕ × List Timed)
unfolding trim has_bracket read_event
read_events decimals reserved net [] stop events = some (stop, events)
read_events decimals reserved net (l ∷ ls) stop events =
    let skipped = read_events decimals reserved net ls stop events in
    let next = read_event decimals reserved net (trim l) >>= λ e. elim e [
      | inl time ↦ read_events decimals reserved net ls time events
      | inr timed ↦ read_events decimals reserved net ls stop (events ++ timed ∷ [])
    ] in
    elim (trim l) [
      | [] ↦ skipped
      | c ∷ t ↦ if has_bracket (c ∷ t) then some (stop, events) else next
    ]

-- The first line that is not blank, and those behind it.
unfoldable pub first_line : List (List ℕ) → List ℕ × List (List ℕ)
unfolding trim
first_line [] = ([], [])
first_line (l ∷ ls) = let rest = first_line ls in elim (trim l) [ [] ↦ rest | c ∷ t ↦ (l, ls) ]

-- The sections of the file, each of which may be missing.
unfoldable pub read_file : Decimals → ℕ → List (List ℕ) → Option (Net × ℕ × List Timed)
unfolding first_line read_nodes read_links read_events contains
read_file decimals reserved file = do
  let (title, lines) = first_line file
  nodes ←
      if contains (codes "nodes") title
      then read_nodes lines []
      else some (record { value = []; line = title; lines = lines })
  let net : Net = record { nodes = nodes.value; links = [] }
  links ←
      if contains (codes "links") nodes.line
      then read_links decimals nodes.lines net
      else some (record { value = net; line = nodes.line; lines = nodes.lines })
  (stop, events) ←
      if contains (codes "events") links.line
      then read_events decimals reserved links.value links.lines 0 []
      else some (0, [])
  some (links.value, stop, events)

-- `Simulator::init`, for a file with these lines; `clock` is what the new object's `global_time` holds.
unfoldable pub read_network : Decimals → ℕ → ℕ → List (List ℕ) → Option Simulator
unfolding read_file has_bracket first_line
read_network decimals reserved clock file = do
  (net, stop, events) ←
      if has_bracket (first_line file).0
      then read_file decimals reserved file
      else some (record { nodes = []; links = [] }, 0, [])
  some (record {
    global_time = clock;
    stop_time = stop;
    nodes = net.nodes;
    links = net.links;
    event_q = events;
    is_over = false;
  })

-- The protocol that the second argument names.
unfoldable pub protocol_of : List ℕ → ProtocolType
protocol_of name = if same_text name (codes "DV") then p_dv else p_ls

-- `main` up to `run`.
unfoldable pub start : Decimals → ℕ → ℕ → List ℕ → List (List ℕ) → Option Simulator
unfolding read_network protocol_of
start decimals reserved clock name file = do
  sim ← read_network decimals reserved clock file
  init_routing_protocol (protocol_of name) sim.nodes sim
