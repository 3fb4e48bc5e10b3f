-- ===== src/Echo/Server.antt =====
-- The main loop of `server.c`: one call of `turn` is one pass, from the file descriptor sets to the end
-- of the walk over the connections.
pub mod Sets
pub mod Turns
pub mod Healthy
use comp429_computer_network.Base.{
  ℕ, List, [], ◌∷◌, ◌++◌, Bool, true, false, not, ◌&&◌, ◌||◌, Option, none, some, length, ltb, ◌==◌,
  if◌then◌else◌, ◌>>=◌, ◌-◌, map,
}
use comp429_computer_network.Web.{Files, Answer, answered, exited, undefined, process}
use comp429_computer_network.Echo.Sockets.{Sent, Received}
use comp429_computer_network.Echo.Node.{
  Node, add, dump, server_sending, server_receiving, msg_size_max,
}

-- The sets for `select`, and the greatest descriptor in them.
pub record Watch : Type 0 where
  pub read_set : List ℕ
  pub write_set : List ℕ
  pub max : ℕ

-- The loop over the connections that fills the sets.
unfoldable pub watch_nodes : List Node → Watch → Watch
watch_nodes [] w = w
watch_nodes (n ∷ nodes) w = watch_nodes nodes (record {
  read_set = n.socket ∷ w.read_set;
  write_set = if n.pending_data == 0 then w.write_set else n.socket ∷ w.write_set;
  max = if ltb w.max n.socket then n.socket else w.max;
})

unfoldable pub watch : ℕ → List Node → Watch
unfolding watch_nodes
watch sock nodes = watch_nodes nodes (record { read_set = sock ∷ []; write_set = []; max = sock })

-- What `select` returns, and the descriptors that it leaves in the sets.
pub data Selected : Type 0 where
  select_failed : Selected
  timed_out : Selected
  selected : (ℕ → Bool) → (ℕ → Bool) → Selected

-- What `accept` returns: -1, or a socket and its address.
pub data Accepted : Type 0 where
  accept_failed : Accepted
  accepted : ℕ → ℕ → Accepted

-- What a pass meets. `memory` is what `malloc` gives, `request` what `recv` stores in web mode, and the
-- calls on a connection are given by its socket.
pub record TurnInput : Type 0 where
  pub select : Selected
  pub accept : Accepted
  pub set_nonblock : Bool
  pub memory : List ℕ
  pub request : List ℕ
  pub sent : ℕ → Sent
  pub received : ℕ → Received

-- How a pass ends: with these connections and the bytes put out on each socket, with `abort`, with the
-- `exit` of web mode, or by the use of memory that was freed or never its own.
pub data Turn : Type 0 where
  goes_on : List Node → List (ℕ × List ℕ) → Turn
  aborts : Turn
  exits : Turn
  breaks : Turn

unfoldable pub is_member : ℕ → List ℕ → Bool
is_member fd [] = false
is_member fd (x ∷ xs) = (fd == x) || is_member fd xs

-- `FD_ISSET` after `select`
abbrev pub is_ready : (ℕ → Bool) → ℕ → List ℕ → Bool
is_ready chosen fd set = is_member fd set && chosen fd

-- The node that the walk's pointer `current` leads to, by its socket, which no two connections share:
-- `none` once it is freed.
unfoldable pub node_at : ℕ → List Node → Option Node
node_at fd [] = none
node_at fd (n ∷ nodes) = let later = node_at fd nodes in if n.socket == fd then some n else later

-- The write of a visit, with the list that the walk is in. Where `send` fails, the connection is dumped,
-- and `current->socket` is read next.
unfoldable pub visit_write : Bool → Sent → List Node → Node → Option (Node × List (ℕ × List ℕ))
unfolding node_at dump
visit_write false sent nodes n = some (n, [])
visit_write true sent nodes n = do
  (is_alive, m, out) ← server_sending sent n
  let dumped : Option (Node × List (ℕ × List ℕ)) = do
    current ← node_at n.socket (dump n.socket nodes)
    some (current, [])
  if is_alive then some (m, (n.socket, out) ∷ []) else dumped

-- The read of a visit. Where `recv` fails or the client has closed, the connection is dumped, and
-- `current->next` is read next.
unfoldable pub visit_read : Bool → Received → List Node → Node → Option Node
unfolding node_at dump
visit_read false received nodes n = some n
visit_read true received nodes n =
    let (is_alive, m) = server_receiving received n in
    if is_alive then some m else node_at n.socket (dump n.socket nodes)

-- One connection of the walk.
unfoldable pub visit :
    Watch
    → (ℕ → Bool)
    → (ℕ → Bool)
    → TurnInput
    → List Node
    → Node
    → Option (Node × List (ℕ × List ℕ))
unfolding visit_write visit_read
visit w can_read can_write input nodes n = do
  (m, out) ← visit_write (is_ready can_write n.socket w.write_set) (input.sent n.socket) nodes n
  m' ← visit_read (is_ready can_read m.socket w.read_set) (input.received m.socket) nodes m
  some (m', out)

-- The walk over the connections that are left, after those in `visited`.
unfoldable pub visit_all :
    Watch
    → (ℕ → Bool)
    → (ℕ → Bool)
    → TurnInput
    → List Node
    → List Node
    → Option (List Node × List (ℕ × List ℕ))
unfolding visit
visit_all w can_read can_write input visited [] = some ([], [])
visit_all w can_read can_write input visited (n ∷ nodes) = do
  (m, out) ← visit w can_read can_write input (visited ++ n ∷ nodes) n
  (ms, outs) ← visit_all w can_read can_write input (visited ++ m ∷ []) nodes
  some (m ∷ ms, out ++ outs)

-- The bytes of `recvbuffer` before its first NUL; it holds `Msg_size_max` bytes, all 0 before the `recv`.
unfoldable pub text_of : ℕ → List ℕ → Option (List ℕ)
text_of size [] = if ltb 0 size then some [] else none
text_of size (b ∷ bytes) =
    let later = text_of (size - 1) bytes in if b == 0 then some [] else do s ← later; some (b ∷ s)

-- A request in web mode; the sends of one answer go out on its socket.
unfoldable pub web_turn : Files → ℕ → List ℕ → List Node → Turn
unfolding text_of
web_turn files new_sock request nodes = elim (text_of msg_size_max request) [
  | none ↦ breaks
  | some text ↦ elim (process files text) [
    | answered messages ↦ goes_on nodes (map (λ m. (new_sock, m)) messages)
    | exited messages ↦ exits
    | undefined ↦ breaks
  ]
]

unfoldable pub walk_turn : Watch → (ℕ → Bool) → (ℕ → Bool) → TurnInput → List Node → Turn
unfolding visit_all
walk_turn w can_read can_write input nodes = elim (visit_all w can_read can_write input [] nodes) [
  | none ↦ breaks
  | some r ↦ goes_on r.0 r.1
]

-- The new connection, if there is one, and then the walk.
unfoldable pub accept_turn :
    Bool → Files → Watch → (ℕ → Bool) → (ℕ → Bool) → TurnInput → List Node → Turn
unfolding web_turn walk_turn
accept_turn mode_flag files w can_read can_write input nodes = elim input.accept [
  | accept_failed ↦ aborts
  | accepted new_sock addr ↦
      if mode_flag
      then web_turn files new_sock input.request nodes
      else if input.set_nonblock
      then walk_turn w can_read can_write input (add input.memory new_sock addr nodes)
      else aborts
]

-- One pass of the loop; `sock` is the listening socket.
unfoldable pub turn : Bool → Files → ℕ → TurnInput → List Node → Turn
unfolding accept_turn watch
turn mode_flag files sock input nodes =
    let w = watch sock nodes in
    elim input.select [
      | select_failed ↦ aborts
      | timed_out ↦ goes_on nodes []
      | selected can_read can_write ↦
          if is_ready can_read sock w.read_set
          then accept_turn mode_flag files w can_read can_write input nodes
          else walk_turn w can_read can_write input nodes
    ]
