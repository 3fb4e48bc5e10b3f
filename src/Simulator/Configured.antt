-- ===== src/Simulator/Configured.antt =====
-- What the reader of the configuration file, `Simulator::init`, hands to the run.
use comp429_computer_network.Base.{
  ℕ, ◌≡◌, ◌∙◌, List, [], ◌∷◌, ◌++◌, Option, some, arith, Bool-cases, inl, inr, ◌⊎◌, ◌>>=◌, u16,
  byte_at, store16, htons, byte_at-store16_ne, if◌then◌else◌,
}
use comp429_computer_network.Routing.State.{type_data}
use comp429_computer_network.Web.Text.{codes, contains}
use comp429_computer_network.Simulator.{Simulator, Node, Timed, find_node}
use comp429_computer_network.Simulator.Text.{trim, find_text}
use comp429_computer_network.Simulator.Config.{
  Decimals, Net, Read, read_nodes, read_links, has_bracket,
}
use comp429_computer_network.Simulator.Setup.{
  Keyword, dying, comingup, xmit, changedelay, ending, keyword_of, read_event, read_events,
  read_file, read_network, first_line, data_request, read_pair, make_event,
}
use comp429_computer_network.Simulator.Sound.{IsFair, AreFair, OnSome, any, bind-OnSome}
use comp429_computer_network.Simulator.Joined.{
  IsNet, IsFresh, All-snoc, read_nodes-IsFresh, read_links-IsNet,
}
use comp429_computer_network.Simulator.Wiring.{IsBare-IsWired, IsWired-Cabled}
use comp429_computer_network.Simulator.Starts.{IsConnected}

data_request-typed : (reserved src dst : ℕ) → byte_at (data_request reserved src dst) 0 ≡ type_data
unfolding data_request
data_request-typed reserved src dst =
    byte_at-store16_ne sourced 6 (htons dst) 0 (omega arith) (omega arith)
    ∙ byte_at-store16_ne sized 4 (htons src) 0 (omega arith) (omega arith)
    ∙ byte_at-store16_ne blank 2 (htons 8) 0 (omega arith) (omega arith)
  where
    blank : List ℕ
    blank = type_data ∷ reserved ∷ 0 ∷ 0 ∷ 0 ∷ 0 ∷ 0 ∷ 0 ∷ []

    sized : List ℕ
    sized = store16 blank 2 (htons 8)

    sourced : List ℕ
    sourced = store16 sized 4 (htons src)

-- What a line of the section of the events may stand for.
abbrev IsReadable : ℕ ⊎ Timed → Type 0
IsReadable (inl stop) = Unit {0}
IsReadable (inr e) = IsFair e.event

module _ (decimals : Decimals) (reserved : ℕ) (net : Net) where
  make_event-IsReadable :
      (keyword : Keyword) (time : ℕ) (temp : List ℕ)
      → OnSome IsReadable (make_event decimals reserved net keyword time temp)
  unfolding make_event
  make_event-IsReadable dying time temp =
      bind-OnSome (λ pair. Unit {0}) IsReadable (read_pair temp) _ (any _) λ pair _. tt
  make_event-IsReadable comingup time temp =
      bind-OnSome (λ pair. Unit {0}) IsReadable (read_pair temp) _ (any _) λ pair _. tt
  make_event-IsReadable xmit time temp =
      bind-OnSome (λ pair. Unit {0}) IsReadable (read_pair temp) _ (any _)
        λ pair _.
          bind-OnSome (λ n. Unit {0}) IsReadable (find_node (u16 pair.0) net.nodes) _ (any _)
            λ src _.
              bind-OnSome (λ n. Unit {0}) IsReadable (find_node (u16 pair.1) net.nodes) _ (any _)
                λ dst _. data_request-typed reserved (u16 pair.0) (u16 pair.1)
  make_event-IsReadable changedelay time temp =
      bind-OnSome (λ pair. Unit {0}) IsReadable (read_pair temp) _ (any _)
        λ pair _.
          bind-OnSome (λ close. Unit {0}) IsReadable (find_text (41 ∷ []) temp) _ (any _)
            λ close _. tt
  make_event-IsReadable ending time temp = tt

  read_event-IsReadable :
      (line : List ℕ) → OnSome IsReadable (read_event decimals reserved net line)
  unfolding read_event
  read_event-IsReadable line =
      bind-OnSome (λ k. Unit {0}) IsReadable (keyword_of line) _ (any _)
        λ k _. make_event-IsReadable k.0 _ _

  read_events-AreFair :
      (ls : List (List ℕ)) (stop : ℕ) (events : List Timed)
      → AreFair events
      → OnSome (λ r. AreFair r.1) (read_events decimals reserved net ls stop events)
  unfolding read_events
  read_events-AreFair [] stop events h = h
  read_events-AreFair (l ∷ ls) stop events h =
      by_line (λ s es k. read_events-AreFair ls s es k) (trim l)
    where
      Later : Type 0
      Later =
          (s : ℕ) (es : List Timed)
          → AreFair es
          → OnSome (λ r. AreFair r.1) (read_events decimals reserved net ls s es)

      after : ℕ ⊎ Timed → Option (ℕ × List Timed)
      after (inl time) = read_events decimals reserved net ls time events
      after (inr timed) = read_events decimals reserved net ls stop (events ++ timed ∷ [])

      after-AreFair : Later → (e : ℕ ⊎ Timed) → IsReadable e → OnSome (λ r. AreFair r.1) (after e)
      after-AreFair later (inl time) fair = later time events h
      after-AreFair later (inr timed) fair =
          later stop (events ++ timed ∷ []) (All-snoc (λ e. IsFair e.event) events timed h fair)

      by_line :
          Later
          → (line : List ℕ)
          → OnSome
              (λ r. AreFair r.1)
              (elim line [
                | [] ↦ read_events decimals reserved net ls stop events
                | c ∷ t ↦
                    if has_bracket (c ∷ t)
                    then some (stop, events)
                    else read_event decimals reserved net (trim l) >>= after
              ])
      by_line later [] = later stop events h
      by_line later (c ∷ t) = elim (Bool-cases (has_bracket (c ∷ t))) [
        | inl title ↦ rw title h
        | inr more ↦ rw more (
            bind-OnSome IsReadable (λ r. AreFair r.1) (read_event decimals reserved net (trim l))
              after (read_event-IsReadable (trim l)) (after-AreFair later))
      ]

-- What the whole file gives.
abbrev IsFile : Net × ℕ × List Timed → Type 0
IsFile r = IsNet r.0 × AreFair r.2

module _ (decimals : Decimals) (reserved : ℕ) where
  read_file-IsFile : (file : List (List ℕ)) → OnSome IsFile (read_file decimals reserved file)
  unfolding read_file
  read_file-IsFile file =
      bind-OnSome (λ r. IsFresh r.value) IsFile nodes _ nodes-IsFresh
        λ r h.
          bind-OnSome (λ r. IsNet r.value) IsFile _ _ (links-IsNet r h)
            λ r' h'.
              bind-OnSome (λ (r : ℕ × List Timed). AreFair r.1) IsFile _ _ (events-AreFair r')
                λ r'' h''. (h', h'')
    where
      nodes : Option (Read (List Node))
      nodes =
          if contains (codes "nodes") (first_line file).0
          then read_nodes (first_line file).1 []
          else some (record { value = []; line = (first_line file).0; lines = (first_line file).1 })

      no_nodes : IsFresh []
      no_nodes = record { sound = tt; bare = record { once = tt; empty = tt } }

      nodes-IsFresh : OnSome (λ r. IsFresh r.value) nodes
      nodes-IsFresh = elim (Bool-cases (contains (codes "nodes") (first_line file).0)) [
        | inl given ↦ rw given (read_nodes-IsFresh (first_line file).1 [] no_nodes)
        | inr none_of ↦ rw none_of no_nodes
      ]

      net : Read (List Node) → Net
      net r = record { nodes = r.value; links = [] }

      links-IsNet :
          (r : Read (List Node))
          → IsFresh r.value
          → OnSome
              (λ r. IsNet r.value)
              (if contains (codes "links") r.line
                then read_links decimals r.lines (net r)
                else some (record { value = net r; line = r.line; lines = r.lines }))
      links-IsNet r h =
          let bare : IsNet (net r) = record {
            sound = h.sound;
            wired = IsBare-IsWired r.value h.bare;
          } in
          elim (Bool-cases (contains (codes "links") r.line)) [
            | inl given ↦ rw given (read_links-IsNet decimals r.lines (net r) bare)
            | inr none_of ↦ rw none_of bare
          ]

      events-AreFair :
          (r : Read Net)
          → OnSome
              (λ r. AreFair r.1)
              (if contains (codes "events") r.line
                then read_events decimals reserved r.value r.lines 0 []
                else some (0, []))
      events-AreFair r = elim (Bool-cases (contains (codes "events") r.line)) [
        | inl given ↦ rw given (read_events-AreFair decimals reserved r.value r.lines 0 [] tt)
        | inr none_of ↦ rw none_of tt
      ]

  -- The network in a simulator.
  abbrev net_of : Simulator → Net
  net_of s = record { nodes = s.nodes; links = s.links }

  read_network-IsNet :
      (clock : ℕ) (file : List (List ℕ))
      → OnSome
          (λ s. IsNet (net_of s) × AreFair s.event_q)
          (read_network decimals reserved clock file)
  unfolding read_network
  read_network-IsNet clock file = elim (Bool-cases (has_bracket (first_line file).0)) [
    | inl titled ↦ rw titled (
        bind-OnSome IsFile Good (read_file decimals reserved file) _ (read_file-IsFile file)
          λ r h. (record { sound = h.0.sound; wired = h.0.wired }, h.1))
    | inr untitled ↦
        rw untitled
          (record { sound = tt; wired = IsBare-IsWired [] (record { once = tt; empty = tt }) }, tt)
  ]
    where
      Good : Simulator → Type 0
      Good s = IsNet (net_of s) × AreFair s.event_q

  -- Whatever the lines of the configuration file are, when it is read, the network that
  -- `Simulator::init` sets up is connected as a run needs it: no two nodes have the same id, both ends of
  -- every link hold it at one of their ports, what is at a port is a link, every node is sound, and each
  -- packet of an event is of type DATA.
  pub read_network-IsConnected :
      (clock : ℕ) (file : List (List ℕ)) (s : Simulator)
      → read_network decimals reserved clock file ≡ some s
      → IsConnected s
  read_network-IsConnected clock file s e =
      let (net, queue) : IsNet (net_of s) × AreFair s.event_q =
        rw e at (read_network-IsNet clock file) in
      record {
        sound = net.sound;
        unique = net.wired.unique;
        cabled = IsWired-Cabled (net_of s) net.wired;
        fair = queue;
      }
