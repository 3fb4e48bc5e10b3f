-- ===== src/Simulator/Config.antt =====
-- The configuration file's reader: Simulator.cc, `Simulator::init`, the sections of the nodes and of the
-- links. `none` is an `exit(-1)`, a loop that never ends, or a NULL of a table, which
-- `init_routing_protocol` follows if nothing did before. What the reader makes of a text with `atof` is
-- an argument, `Decimals`.
use comp429_computer_network.Base.{
  ℕ, ◌+◌, List, [], ◌∷◌, ◌++◌, Bool, true, Option, none, some, take, drop, length, ◌==◌,
  if◌then◌else◌, ◌>>=◌, u16, ◌-◌,
}
use comp429_computer_network.Web.Text.{codes, starts_with, contains}
use comp429_computer_network.Simulator.{Node, Link, add_node, new_node, find_node}
use comp429_computer_network.Simulator.Text.{find_text, before, from, trim, atoi}

-- The pieces of a line that the loop over `find(" ")` cuts off.
unfoldable pub split_blank : List ℕ → List (List ℕ)
split_blank [] = []
split_blank (c ∷ s) =
    let rest = split_blank s in
    if c == 32 then [] ∷ rest else elim rest [ [] ↦ (c ∷ []) ∷ [] | w ∷ ws ↦ (c ∷ w) ∷ ws ]

unfoldable pub add_nodes : List (List ℕ) → List Node → List Node
unfolding trim atoi add_node new_node
add_nodes [] nodes = nodes
add_nodes (w ∷ ws) nodes =
    add_nodes ws (add_node (new_node (u16 (atoi (elim ws [ [] ↦ trim w | v ∷ vs ↦ w ]))) []) nodes)

-- A section's result, with the line that ended it and the lines behind that one.
pub record Read (A : Type 0) : Type 0 where
  pub value : A
  pub line : List ℕ
  pub lines : List (List ℕ)

unfoldable pub has_bracket : List ℕ → Bool
unfolding contains
has_bracket line = contains (91 ∷ []) line

-- The lines of the section `[nodes]`. Without a further title the loop does not end.
unfoldable pub read_nodes : List (List ℕ) → List Node → Option (Read (List Node))
unfolding trim has_bracket split_blank add_nodes
read_nodes [] nodes = none
read_nodes (l ∷ ls) nodes =
    let rest = read_nodes ls (add_nodes (split_blank (trim l)) nodes) in
    if has_bracket (trim l)
    then some (record { value = nodes; line = trim l; lines = ls })
    else rest

-- What the reader makes of a text with `atof`: milliseconds, and the tenths of a loss, rounded up; and
-- both of DEFAULT_DELAY and DEFAULT_PROB.
pub record Decimals : Type 0 where
  pub millis : List ℕ → ℕ
  pub tenths : List ℕ → ℕ

abbrev pub default_delay : ℕ
default_delay = 100

abbrev pub default_tenths : ℕ
default_tenths = 8

abbrev pub default_cost : ℕ
default_cost = 1

-- A number after a keyword of so many bytes, which are cut off the start of the line wherever the
-- keyword stands, and what is left of the line.
unfoldable pub setting : {A : Type 0} → List ℕ → ℕ → (List ℕ → A) → A → List ℕ → A × List ℕ
unfolding trim find_text before from contains
setting keyword size number default line =
    let cut = trim (drop size line) in
    let blank = find_text (32 ∷ []) cut in
    if contains keyword line
    then (number (trim (before blank cut)), trim (from blank cut))
    else (default, line)

-- `link_vector.push_back` for the node with this id.
unfoldable pub add_link : ℕ → ℕ → List Node → List Node
add_link id l [] = []
add_link id l (n ∷ nodes) =
    let later = add_link id l nodes in
    if n.id == id then record n { link_vector = n.link_vector ++ l ∷ [] } ∷ nodes else n ∷ later

pub record Net : Type 0 where
  pub nodes : List Node
  pub links : List Link

-- The new link between two nodes, which both exist.
unfoldable pub connect : Link → Net → Option Net
unfolding find_node add_link
connect link net = do
  a ← find_node link.node1 net.nodes
  b ← find_node link.node2 net.nodes
  let l = length net.links
  some (record {
    nodes = add_link link.node2 l (add_link link.node1 l net.nodes);
    links = net.links ++ link ∷ [];
  })

-- A line of the section `[links]`, trimmed.
unfoldable pub read_link : Decimals → List ℕ → Option Link
unfolding trim atoi find_text setting starts_with
read_link decimals line = do
  parenthesis ← if starts_with (40 ∷ []) line then some line else none
  close ← find_text (41 ∷ []) line
  let pair = trim (take (close - 1) (drop 1 line))
  comma ← find_text (44 ∷ []) pair
  let delay = setting (codes "delay") 5 decimals.millis default_delay (trim (drop (close + 1) line))
  let cost = setting (codes "cost") 4 atoi default_cost delay.1
  let loss =
      if contains (codes "prob") cost.1
      then decimals.tenths (trim (trim (drop 4 cost.1)))
      else default_tenths
  some (record {
    node1 = atoi (trim (take comma pair));
    node2 = atoi (trim (drop (comma + 1) pair));
    delay = delay.0;
    loss_tenths = loss;
    cost = cost.0;
    is_alive = true;
  })

-- The lines of the section `[links]`.
unfoldable pub read_links : Decimals → List (List ℕ) → Net → Option (Read Net)
unfolding trim has_bracket read_link connect
read_links decimals [] net = some (record { value = net; line = []; lines = [] })
read_links decimals (l ∷ ls) net =
    let skipped = read_links decimals ls net in
    let next = (read_link decimals (trim l) >>= λ link. connect link net) >>= λ net'.
    read_links decimals ls net' in
    elim (trim l) [
      | [] ↦ skipped
      | c ∷ t ↦
          if has_bracket (c ∷ t)
          then some (record { value = net; line = c ∷ t; lines = ls })
          else next
    ]
