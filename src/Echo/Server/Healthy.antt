-- ===== src/Echo/Server/Healthy.antt =====
-- A pass of the server in which every call on a connection succeeds.
use comp429_computer_network.Base.{
  ℕ, ◌≤◌, ◌≡◌, refl, ◌∙◌, inl, inr, List, [], ◌∷◌, ◌++◌, Bool, true, false, some, length, All,
  arith, ltb, ◌==◌, Bool-cases, take, drop,
}
use comp429_computer_network.Web.{Files}
use comp429_computer_network.Echo.Sockets.{took, got}
use comp429_computer_network.Echo.Node.{
  Node, server_sending, server_receiving, after_send, after_receive,
}
use comp429_computer_network.Echo.Node.Lists.{sockets}
use comp429_computer_network.Echo.Server.{
  Watch, watch, is_ready, selected, TurnInput, goes_on, visit_write, visit_read, visit, visit_all,
  walk_turn, turn,
}
use comp429_computer_network.Echo.Server.Turns.{after_send-socket, after_receive-socket, and_false}

-- The calls on a connection in this pass each give at least a byte.
pub record IsHealthy (w : Watch) (can_read can_write : ℕ → Bool) (input : TurnInput) (n : Node)
    : Type 0 where
  pub ordered : n.added_pos ≤ n.len_buffer
  pub sends :
      is_ready can_write n.socket w.write_set ≡ true
      → (count : ℕ) × (input.sent n.socket ≡ took count) × (1 ≤ count)
  pub receives :
      is_ready can_read n.socket w.read_set ≡ true
      → (bytes : List ℕ) × (input.received n.socket ≡ got bytes) × (1 ≤ length bytes)

module _ (w : Watch) (can_read can_write : ℕ → Bool) (input : TurnInput) where
  written-healthy :
      (nodes : List Node) (n : Node)
      → IsHealthy w can_read can_write input n
      → (m : Node) × (out : List (ℕ × List ℕ)) × (visit_write
            (is_ready can_write n.socket w.write_set)
            (input.sent n.socket)
            nodes
            n
          ≡ some (m, out))
        × (m.socket ≡ n.socket)
  unfolding visit_write server_sending
  written-healthy nodes n h = elim (Bool-cases (is_ready can_write n.socket w.write_set)) [
    | inl ready ↦
        let (count, e, some_byte) = h.sends ready in
        let ordered : ltb n.len_buffer n.added_pos ≡ false = ground (arith, h.ordered) in
        let sent : (count == 0) ≡ false = ground arith in
        (
          after_send count n,
          (n.socket, take count (drop n.added_pos n.buffer)) ∷ [],
          rw (ready, e, server_sending, ordered, sent) refl,
          after_send-socket count n,
        )
    | inr waiting ↦ (n, [], rw waiting refl, refl)
  ]

  read-healthy :
      (nodes : List Node) (n m : Node)
      → IsHealthy w can_read can_write input n
      → m.socket ≡ n.socket
      → (m' : Node) × (visit_read
            (is_ready can_read n.socket w.read_set)
            (input.received n.socket)
            nodes
            m
          ≡ some m')
        × (m'.socket ≡ n.socket)
  unfolding visit_read
  read-healthy nodes n m h same = elim (Bool-cases (is_ready can_read n.socket w.read_set)) [
    | inl ready ↦ taken (h.receives ready) ready
    | inr waiting ↦ (m, rw waiting refl, same)
  ]
    where
      taken :
          (bytes : List ℕ) × (input.received n.socket ≡ got bytes) × (1 ≤ length bytes)
          → is_ready can_read n.socket w.read_set ≡ true
          → (m' : Node) × (visit_read
                (is_ready can_read n.socket w.read_set)
                (input.received n.socket)
                nodes
                m
              ≡ some m')
            × (m'.socket ≡ n.socket)
      taken ([], e, some_byte) ready = absurd (omega arith)
      taken (b ∷ bytes, e, some_byte) ready = (
        after_receive (b ∷ bytes) m,
        unfold visit_read server_receiving in rw (ready, e) refl,
        after_receive-socket (b ∷ bytes) m ∙ same,
      )

  visit-healthy :
      (nodes : List Node) (n : Node)
      → IsHealthy w can_read can_write input n
      → (m : Node) × (out : List (ℕ × List ℕ)) × (visit w can_read can_write input nodes n
          ≡ some (m, out))
        × (m.socket ≡ n.socket)
  unfolding visit
  visit-healthy nodes n h =
      let (m, out, e, same) = written-healthy nodes n h in
      let (m', e', same') = read-healthy nodes n m h same in
      (m', out, rw (visit, e, same, e') refl, same')

  visit_all-healthy :
      (visited nodes : List Node)
      → All (IsHealthy w can_read can_write input) nodes
      → (ms : List Node) × (outs : List (ℕ × List ℕ)) × (visit_all w can_read can_write input
            visited nodes
          ≡ some (ms, outs))
        × (sockets ms ≡ sockets nodes)
  unfolding visit_all
  visit_all-healthy visited [] h = ([], [], refl, refl)
  visit_all-healthy visited (n ∷ nodes) h =
      let (m, out, e, same) = visit-healthy (visited ++ n ∷ nodes) n h.0 in
      let (ms, outs, es, sames) = visit_all-healthy (visited ++ m ∷ []) nodes h.1 in
      (m ∷ ms, out ++ outs, rw (visit_all, e, es) refl, rw (same, sames) refl)

-- A pass without a new caller, in which every call on a connection gives at least a byte, goes on with
-- the same connections in the same order, and nothing is freed, if every connection's position is at most
-- the length of its message.
pub turn-keeps :
    (files : Files) (sock : ℕ) (input : TurnInput) (can_read can_write : ℕ → Bool)
    (nodes : List Node)
    → input.select ≡ selected can_read can_write
    → can_read sock ≡ false
    → All (IsHealthy (watch sock nodes) can_read can_write input) nodes
    → (ms : List Node) × (outs : List (ℕ × List ℕ)) × (turn false files sock input nodes
        ≡ goes_on ms outs)
      × (sockets ms ≡ sockets nodes)
unfolding turn walk_turn
turn-keeps files sock input can_read can_write nodes chosen quiet healthy =
    let (ms, outs, e, same) =
      visit_all-healthy (watch sock nodes) can_read can_write input [] nodes healthy in
    (ms, outs, rw (turn, chosen, no_caller, walk_turn, e) refl, same)
  where
    no_caller : is_ready can_read sock (watch sock nodes).read_set ≡ false
    no_caller = rw quiet (and_false _)
