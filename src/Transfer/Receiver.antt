-- ===== src/Transfer/Receiver.antt =====
-- project2/recvfile.c from the start of its data loop: one call of `receive` is one pass. `none` is a
-- read or write outside an array, or a NULL that is followed. A fresh node's memory, which `malloc`
-- leaves indeterminate, holds nothing until it is written.
pub mod Window
pub mod Files
pub mod Writes
pub mod Invariant
pub mod Accept
pub mod Safety
pub mod Reach
use comp429_computer_network.Base.{
  ℕ, zero, suc, ◌+◌, ◌-◌, ◌%◌, List, [], ◌∷◌, ◌++◌, Bool, true, false, not, ◌&&◌, ◌||◌, Option,
  none, some, length, get_elem?, ◌>>=◌, get_or, set, take, drop, replicate, overwrite, ltb, leb,
  ◌==◌, if◌then◌else◌, u32, u16,
}
use comp429_computer_network.Base.Int.{ℤ, pos, negsuc, sub_ℕ}
use comp429_computer_network.Transfer.Util.{
  window_len, seq_len, buf_len, between, map_to_window, mod_int,
}
use comp429_computer_network.Transfer.Queue.{Node, enqueue, dequeue, get_k}
use comp429_computer_network.Transfer.Packet.{
  ack_packet, crc_matches, seq_field, type_field, id_field,
}

-- The variables of `main` that live across passes. `written` is what `fwrite` has put out.
pub record Receiver : Type 0 where
  pub la_seq : ℕ
  pub received : List ℕ
  pub last_id : ℕ
  pub ready_exit : ℕ
  pub last_window : ℤ
  pub root : List Node
  pub written : List ℕ
  pub buf : List ℕ

abbrev pub fresh_node : Node
fresh_node = record { contents = []; size = 0 }

-- `for (i = 0; i < WINDOW_LEN; i++) Enqueue(&root, node_id)`
unfoldable pub empty_window : ℕ → List Node
unfolding enqueue
empty_window zero = []
empty_window (suc n) = enqueue (empty_window n) fresh_node

unfoldable pub init : Receiver
unfolding empty_window
init = record {
  la_seq = 0;
  received = replicate seq_len 0;
  last_id = 0;
  ready_exit = 0;
  last_window = negsuc 0;
  root = empty_window window_len;
  written = [];
  buf = [];
}

abbrev pub flag : List ℕ → ℕ → ℕ
flag received i = get_or received (i % seq_len) 0

-- The loop that counts the received packets from `la_seq` on, with `left` rounds to go.
unfoldable pub count_run : List ℕ → ℕ → ℕ → ℕ
count_run received i zero = 0
count_run received i (suc left) =
    let rest = count_run received (i + 1) left in if flag received i == 0 then 0 else suc rest

-- `memcpy` into the node found, or into a new one at the end of the queue.
unfoldable pub store_data : List Node → ℕ → List ℕ → List Node
store_data root ind block = elim (get_k root ind) [
  | none ↦ enqueue root (record { contents = block; size = length block })
  | some n ↦ set root ind (record { contents = overwrite block n.contents; size = length block })
]

-- `while (count > 0)`: `la` is `la_seq`, which the loop leaves alone.
unfoldable pub write_out : ℕ → ℕ → ℕ → Receiver → Option Receiver
write_out la reverse_count zero r = some r
write_out la reverse_count (suc count) r = do
  n ← get_k r.root 0
  write_out la (reverse_count + 1) count (record r {
    last_id = u32 (r.last_id + 1);
    written = r.written ++ take n.size n.contents;
    root = enqueue (dequeue r.root) fresh_node;
    received = set r.received ((la + reverse_count) % seq_len) 0;
  })

unfoldable pub eq_ℤ : ℤ → ℤ → Bool
eq_ℤ (pos a) (pos b) = a == b
eq_ℤ (negsuc a) (negsuc b) = a == b
eq_ℤ (pos a) (negsuc b) = false
eq_ℤ (negsuc a) (pos b) = false

-- After the writes: the test for the last packet, and the new start of the window.
unfoldable pub advance : ℕ → Receiver → Receiver
unfolding eq_ℤ
advance count r = record r {
  ready_exit =
      if not (r.ready_exit == 0) && eq_ℤ r.last_window (sub_ℕ (r.la_seq + count) 1)
      then 2
      else r.ready_exit;
  la_seq = (r.la_seq + count) % seq_len;
}

-- A packet inside the window that is not yet there; `recvlen` below 12 makes the size of the
-- `memcpy` negative.
unfoldable pub accept : ℕ → ℕ → Receiver → Option Receiver
accept recvlen seq_num r =
    let received = set r.received seq_num 1 in
    let count = if seq_num == r.la_seq then count_run received r.la_seq window_len else 0 in
    let block = take (recvlen - 12) (drop 12 r.buf) in
    let root = store_data r.root (map_to_window r.la_seq seq_num) block in
    let put = record r { received = received; root = root } in
    if ltb recvlen 12 then none else do r' ← write_out r.la_seq 0 count put; some (advance count r')

-- A packet of type 2 or 4 with a new id. `received[seq_num]` is read only inside the window.
unfoldable pub take_data : ℕ → Receiver → Option Receiver
take_data recvlen r =
    let seq_num = seq_field r.buf in
    let marked =
      if type_field r.buf == 4 then record r { ready_exit = 1; last_window = pos seq_num } else r in
    if between r.la_seq ((r.la_seq + window_len - 1) % seq_len) seq_num
    then (get_elem? r.received seq_num >>= λ f.
        if f == 0 then accept recvlen seq_num marked else some marked)
    else some marked

-- One datagram through the loop, less the acknowledgement. A `recvlen` of 1 makes the CRC run over
-- 65535 bytes, past the buffer; one of 0 is skipped.
unfoldable pub receive : List ℕ → Receiver → Option Receiver
receive datagram r =
    let recvlen = length datagram in
    let got = record r { buf = overwrite datagram r.buf } in
    let type = type_field got.buf in
    if recvlen == 0
    then some r
    else if recvlen == 1
    then none
    else if not (crc_matches got.buf recvlen)
    then some got
    else if (type == 2 || type == 4) && ltb r.last_id (id_field got.buf)
    then take_data recvlen got
    else some got

-- The acknowledgement that every pass sends, stamped with the time.
unfoldable pub acknowledge : Receiver → ℕ → ℕ → List ℕ
acknowledge r sec usec = ack_packet (mod_int (sub_ℕ r.la_seq 1) seq_len) sec usec

-- What one pass of the loop meets: a datagram (empty where `recvfrom` returns nothing), and the time.
pub record Input : Type 0 where
  pub datagram : List ℕ
  pub sec : ℕ
  pub usec : ℕ

-- The loop up to its `break`: the receiver at the end, and the acknowledgements sent.
unfoldable pub run : List Input → Receiver → Option (Receiver × List (List ℕ))
run [] r = some (r, [])
run (i ∷ is) r = do
  r' ← receive i.datagram r
  let ack = acknowledge r' i.sec i.usec
  elim (r'.ready_exit == 2) [
    | true ↦ some (r', ack ∷ [])
    | false ↦ do (s, acks) ← run is r'; some (s, ack ∷ acks)
  ]
