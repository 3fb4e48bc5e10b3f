-- ===== src/Echo/Node.antt =====
-- The connections of `server.c`: `struct node` and the functions of `util.c` on it. `count > 0` of the
-- caller is the Boolean that `server_sending` and `server_receiving` give.
pub mod Lists
pub mod Pieces
pub mod Echoes
use comp429_computer_network.Base.{
  ℕ, ◌+◌, ◌-◌, List, [], ◌∷◌, Bool, true, false, Option, none, some, length, take, drop, ltb, ◌==◌,
  if◌then◌else◌, load16, htons,
}
use comp429_computer_network.Echo.Sockets.{Sent, failed, took, Received, lost, got, write_at}

abbrev pub msg_size_max : ℕ
msg_size_max = 65535

pub record Node : Type 0 where
  pub socket : ℕ
  pub client_addr : ℕ
  pub pending_data : ℕ
  pub buffer : List ℕ
  pub added_pos : ℕ
  pub len_buffer : ℕ

-- The list from `head.next` on. `memory` is what `malloc` gives for the buffer, its contents as they are.
unfoldable pub add : List ℕ → ℕ → ℕ → List Node → List Node
add memory socket addr nodes =
    record {
      socket = socket;
      client_addr = addr;
      pending_data = 0;
      buffer = memory;
      added_pos = 0;
      len_buffer = 0;
    }
    ∷ nodes

unfoldable pub dump : ℕ → List Node → List Node
dump socket [] = []
dump socket (n ∷ nodes) =
    let rest = dump socket nodes in if n.socket == socket then nodes else n ∷ rest

-- What `serverSending` does when `send` took some bytes.
unfoldable pub after_send : ℕ → Node → Node
after_send count n =
    if count == n.len_buffer
    then record n { added_pos = 0; pending_data = 0; len_buffer = 0 }
    else record n { added_pos = count }

-- `serverSending`, with the bytes that go out. A position past the length makes the size negative.
unfoldable pub server_sending : Sent → Node → Option (Bool × Node × List ℕ)
unfolding after_send
server_sending sent n = if ltb n.len_buffer n.added_pos then none else elim sent [
  | failed ↦ some (false, n, [])
  | took count ↦
      if count == 0
      then some (false, n, [])
      else some (true, after_send count n, take count (drop n.added_pos n.buffer))
]

-- What `serverRecieving` does when `recv` stored these bytes.
unfoldable pub after_receive : List ℕ → Node → Node
after_receive bytes n =
    let buffer = write_at n.buffer n.added_pos bytes in
    let len = if n.len_buffer == 0 then htons (load16 buffer 0) else n.len_buffer in
    let added = n.added_pos + length bytes in
    if added == len
    then record n { buffer = buffer; len_buffer = len; added_pos = 0; pending_data = 1 }
    else record n { buffer = buffer; len_buffer = len; added_pos = added }

-- `serverRecieving`
unfoldable pub server_receiving : Received → Node → Bool × Node
unfolding after_receive
server_receiving lost n = (false, n)
server_receiving (got []) n = (false, n)
server_receiving (got (b ∷ bytes)) n = (true, after_receive (b ∷ bytes) n)
