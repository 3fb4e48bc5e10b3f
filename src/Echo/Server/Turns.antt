-- ===== src/Echo/Server/Turns.antt =====
-- A pass of the server in which a client goes away.
use comp429_computer_network.Base.{
  ℕ, ◌≡◌, refl, sym, subst, ◌⊎◌, inl, inr, List, [], ◌∷◌, ◌++◌, Bool, true, false, ◌&&◌, Option,
  none, some, ltb, ◌==◌, if◌then◌else◌, Bool-cases, ◌>>=◌, take, drop, Option-cases, In, ==_iff, ap,
  ◌∙◌, length, ◌+◌, some-inj,
}
use comp429_computer_network.Web.{Files}
use comp429_computer_network.Echo.Sockets.{Sent, failed, took, Received, lost, got}
use comp429_computer_network.Echo.Node.{
  Node, dump, server_sending, server_receiving, after_send, after_receive,
}
use comp429_computer_network.Echo.Node.Lists.{sockets}
use comp429_computer_network.Echo.Node.Pieces.{len_with}
use comp429_computer_network.Echo.Server.{
  Watch, watch, is_ready, selected, TurnInput, breaks, visit_write, visit_read, visit, visit_all,
  node_at, walk_turn, turn,
}
use comp429_computer_network.Echo.Server.Sets.{watch_nodes-listens}

-- A result with this socket, where there is one.
abbrev HasSocket {ℓ} : {A : Type ℓ} → (A → Node) → ℕ → Option A → Type 0
HasSocket node fd none = Unit
HasSocket node fd (some r) = (node r).socket ≡ fd

pub after_send-socket : (count : ℕ) (n : Node) → (after_send count n).socket ≡ n.socket
unfolding after_send
after_send-socket count n = elim (Bool-cases (count == n.len_buffer)) [
  | inl all ↦ rw all refl
  | inr part ↦ rw part refl
]

pub and_false : (b : Bool) → (b && false) ≡ false
and_false true = refl
and_false false = refl

-- The functions of `util.c` leave the socket alone.
sending-socket : (sent : Sent) (n : Node) → HasSocket (λ r. r.1) n.socket (server_sending sent n)
unfolding server_sending
sending-socket sent n = elim (Bool-cases (ltb n.len_buffer n.added_pos)) [
  | inl past ↦ rw (server_sending, past) tt
  | inr ordered ↦ rw (server_sending, ordered) (calls sent)
]
  where
    calls :
        (sent : Sent)
        → HasSocket
            (λ (r : Bool × Node × List ℕ). r.1)
            n.socket
            (elim sent [
              | failed ↦ some (false, n, [])
              | took count ↦
                  if count == 0
                  then some (false, n, [])
                  else some (true, after_send count n, take count (drop n.added_pos n.buffer))
            ])
    calls failed = refl
    calls (took count) = elim (Bool-cases (count == 0)) [
      | inl nothing ↦ rw nothing refl
      | inr something ↦ rw something (after_send-socket count n)
    ]

node_at-socket : (fd : ℕ) (nodes : List Node) → HasSocket (λ n. n) fd (node_at fd nodes)
unfolding node_at
node_at-socket fd [] = tt
node_at-socket fd (n ∷ nodes) = elim (Bool-cases (n.socket == fd)) [
  | inl this ↦ rw this ((==_iff n.socket fd).0 this)
  | inr further ↦ rw further (node_at-socket fd nodes)
]

visit_write-socket :
    (ready : Bool) (sent : Sent) (nodes : List Node) (n : Node)
    → HasSocket (λ r. r.0) n.socket (visit_write ready sent nodes n)
unfolding visit_write
visit_write-socket false sent nodes n = refl
visit_write-socket true sent nodes n = go (server_sending sent n) (sending-socket sent n)
  where
    go :
        (o : Option (Bool × Node × List ℕ))
        → HasSocket (λ (r : Bool × Node × List ℕ). r.1) n.socket o
        → HasSocket
            (λ (r : Node × List (ℕ × List ℕ)). r.0)
            n.socket
            (o >>= λ r.
              if r.0
              then some (r.1, (n.socket, r.2) ∷ [])
              else (node_at n.socket (dump n.socket nodes) >>= λ current. some (current, [])))
    go none h = tt
    go (some (true, m, out)) h = h
    go (some (false, m, out)) h =
        left (node_at n.socket (dump n.socket nodes))
          (node_at-socket n.socket (dump n.socket nodes))
      where
        left :
            (o : Option Node)
            → HasSocket (λ n. n) n.socket o
            → HasSocket
                (λ (r : Node × List (ℕ × List ℕ)). r.0)
                n.socket
                (o >>= λ current. some (current, []))
        left none h = tt
        left (some m) h = h

pub after_receive-socket : (bytes : List ℕ) (n : Node) → (after_receive bytes n).socket ≡ n.socket
unfolding after_receive
after_receive-socket bytes n =
    elim (Bool-cases ((n.added_pos + length bytes) == len_with bytes n)) [
      | inl whole ↦ rw whole refl
      | inr part ↦ rw part refl
    ]

visit_read-socket :
    (ready : Bool) (received : Received) (nodes : List Node) (n : Node)
    → HasSocket (λ n. n) n.socket (visit_read ready received nodes n)
unfolding visit_read server_receiving
visit_read-socket false received nodes n = refl
visit_read-socket true lost nodes n = node_at-socket n.socket (dump n.socket nodes)
visit_read-socket true (got []) nodes n = node_at-socket n.socket (dump n.socket nodes)
visit_read-socket true (got (b ∷ bytes)) nodes n = after_receive-socket (b ∷ bytes) n

-- A visit stays with its connection.
visit-socket :
    (w : Watch) (can_read can_write : ℕ → Bool) (input : TurnInput) (nodes : List Node) (n : Node)
    (r : Node × List (ℕ × List ℕ))
    → visit w can_read can_write input nodes n ≡ some r
    → r.0.socket ≡ n.socket
unfolding visit
visit-socket w can_read can_write input nodes n r e = elim (Option-cases written) [
  | inl no_result ↦ let never : none ≡ some r = rw (visit, no_result) at e in cc
  | inr (p, sent) ↦
      let here : p.0.socket ≡ n.socket = rw sent at (
        visit_write-socket (is_ready can_write n.socket w.write_set) (input.sent n.socket) nodes
          n) in
      elim (Option-cases (taken p.0)) [
        | inl no_result ↦ let never : none ≡ some r = rw (visit, sent, no_result) at e in cc
        | inr (m, read) ↦
            let there : m.socket ≡ p.0.socket = rw read at (
              visit_read-socket (is_ready can_read p.0.socket w.read_set)
                (input.received p.0.socket) nodes p.0) in
            let same : some (m, p.1) ≡ some r = rw (visit, sent, read) at e in
            ap (λ (r : Node × List (ℕ × List ℕ)). r.0.socket) (sym (some-inj same)) ∙ there ∙ here
      ]
]
  where
    written : Option (Node × List (ℕ × List ℕ))
    written = visit_write (is_ready can_write n.socket w.write_set) (input.sent n.socket) nodes n

    taken : Node → Option Node
    taken m = visit_read (is_ready can_read m.socket w.read_set) (input.received m.socket) nodes m

node_at-absent :
    (fd : ℕ) (nodes : List Node) → (In fd (sockets nodes) → ⊥) → node_at fd nodes ≡ none
unfolding node_at
node_at-absent fd [] apart = refl
node_at-absent fd (n ∷ nodes) apart = elim (Bool-cases (n.socket == fd)) [
  | inl this ↦ absurd (apart (inl (sym ((==_iff n.socket fd).0 this))))
  | inr further ↦ rw further (node_at-absent fd nodes (λ i. apart (inr i)))
]

-- `dump` frees the node of the socket.
node_at-dump :
    (before after : List Node) (n : Node)
    → (In n.socket (sockets before) → ⊥)
    → (In n.socket (sockets after) → ⊥)
    → node_at n.socket (dump n.socket (before ++ n ∷ after)) ≡ none
unfolding dump node_at
node_at-dump [] after n front back =
    let this : (n.socket == n.socket) ≡ true = (==_iff n.socket n.socket).1 refl in
    rw this (node_at-absent n.socket after back)
node_at-dump (m ∷ before) after n front back = elim (Bool-cases (m.socket == n.socket)) [
  | inl this ↦ absurd (front (inl (sym ((==_iff m.socket n.socket).0 this))))
  | inr further ↦ rw (further, further) (node_at-dump before after n (λ i. front (inr i)) back)
]

In-snoc :
    (fd : ℕ) (nodes : List Node) (m : Node)
    → In fd (sockets (nodes ++ m ∷ []))
    → In fd (sockets nodes) ⊎ (fd ≡ m.socket)
In-snoc fd [] m (inl e) = inr e
In-snoc fd [] m (inr never) = absurd never
In-snoc fd (n ∷ nodes) m (inl e) = inl (inl e)
In-snoc fd (n ∷ nodes) m (inr i) = elim (In-snoc fd nodes m i) [
  | inl old ↦ inl (inr old)
  | inr e ↦ inr e
]

-- A client that has closed, or whose connection fails.
abbrev pub IsGone : Received → Type 0
IsGone received = (received ≡ lost) ⊎ (received ≡ got [])

visit_read-gone :
    (received : Received) (nodes : List Node) (n : Node)
    → IsGone received
    → node_at n.socket (dump n.socket nodes) ≡ none
    → visit_read true received nodes n ≡ none
unfolding visit_read server_receiving
visit_read-gone received nodes n (inl e) freed = rw e freed
visit_read-gone received nodes n (inr e) freed = rw e freed

visit-gone :
    (w : Watch) (can_read can_write : ℕ → Bool) (input : TurnInput) (nodes : List Node) (n : Node)
    → is_ready can_read n.socket w.read_set ≡ true
    → IsGone (input.received n.socket)
    → node_at n.socket (dump n.socket nodes) ≡ none
    → visit w can_read can_write input nodes n ≡ none
unfolding visit
visit-gone w can_read can_write input nodes n ready gone freed = elim (Option-cases written) [
  | inl none_left ↦ rw (visit, none_left) refl
  | inr (r, e) ↦
      let same : r.0.socket ≡ n.socket = rw e at (
        visit_write-socket (is_ready can_write n.socket w.write_set) (input.sent n.socket) nodes
          n) in
      let freed' : node_at r.0.socket (dump r.0.socket nodes) ≡ none =
        subst (λ (fd : ℕ). node_at fd (dump fd nodes) ≡ none) (sym same) freed in
      let here : visit_read (is_ready can_read n.socket w.read_set) (input.received n.socket) nodes
            r.0
          ≡ none =
        rw ready (visit_read-gone (input.received n.socket) nodes r.0 gone freed') in
      let dropped =
        subst
          (λ (fd : ℕ).
            visit_read (is_ready can_read fd w.read_set) (input.received fd) nodes r.0 ≡ none)
          (sym same) here in
      rw (visit, e, dropped) refl
]
  where
    written : Option (Node × List (ℕ × List ℕ))
    written = visit_write (is_ready can_write n.socket w.write_set) (input.sent n.socket) nodes n

visit_all-gone :
    (w : Watch) (can_read can_write : ℕ → Bool) (input : TurnInput)
    (visited before after : List Node) (n : Node)
    → is_ready can_read n.socket w.read_set ≡ true
    → IsGone (input.received n.socket)
    → (In n.socket (sockets visited) → ⊥)
    → (In n.socket (sockets before) → ⊥)
    → (In n.socket (sockets after) → ⊥)
    → visit_all w can_read can_write input visited (before ++ n ∷ after) ≡ none
unfolding visit_all
visit_all-gone w can_read can_write input visited [] after n ready gone past front back =
    let broken =
      visit-gone w can_read can_write input (visited ++ n ∷ after) n ready gone
        (node_at-dump visited after n past back) in
    rw (visit_all, broken) refl
visit_all-gone w can_read can_write input visited (m ∷ before) after n ready gone past front back =
    elim (Option-cases here) [
      | inl no_result ↦ rw (visit_all, no_result) refl
      | inr (r, kept) ↦
          let same : r.0.socket ≡ m.socket =
            visit-socket w can_read can_write input (visited ++ m ∷ (before ++ n ∷ after)) m r
              kept in
          let past' : In n.socket (sockets (visited ++ r.0 ∷ [])) → ⊥ = λ i.
            elim (In-snoc n.socket visited r.0 i) [
              | inl old ↦ past old
              | inr e ↦ front (inl (e ∙ same))
            ] in
          let rest =
            visit_all-gone w can_read can_write input (visited ++ r.0 ∷ []) before after n ready
              gone past' (λ i. front (inr i)) back in
          rw (visit_all, kept, rest) refl
    ]
  where
    here : Option (Node × List (ℕ × List ℕ))
    here = visit w can_read can_write input (visited ++ m ∷ (before ++ n ∷ after)) m

-- A pass in which a client has closed its connection, or the connection fails, reads memory that was
-- freed, if there is no new caller and no other connection has the same socket: `dump` frees the node,
-- and the walk goes on from it.
pub turn-gone :
    (files : Files) (sock : ℕ) (input : TurnInput) (can_read can_write : ℕ → Bool)
    (before after : List Node) (n : Node)
    → input.select ≡ selected can_read can_write
    → can_read sock ≡ false
    → can_read n.socket ≡ true
    → IsGone (input.received n.socket)
    → (In n.socket (sockets before) → ⊥)
    → (In n.socket (sockets after) → ⊥)
    → turn false files sock input (before ++ n ∷ after) ≡ breaks
unfolding turn walk_turn watch
turn-gone files sock input can_read can_write before after n chosen quiet ready gone front back =
    let heard : is_ready can_read n.socket (watch sock (before ++ n ∷ after)).read_set ≡ true =
      rw (watch_nodes-listens before after n _) ready in
    let broken =
      visit_all-gone (watch sock (before ++ n ∷ after)) can_read can_write input [] before after n
        heard gone (λ never. never) front back in
    rw (turn, chosen, no_caller, walk_turn, broken) refl
  where
    no_caller : is_ready can_read sock (watch sock (before ++ n ∷ after)).read_set ≡ false
    no_caller = unfold watch in rw quiet (and_false _)
