-- ===== src/Transfer/Sender.antt =====
-- project2/sendfile.c from the start of its data loop: one call of `send_pass` is one pass. `none` is
-- a NULL that is followed, a CRC over more than the buffer, or an access past the end of `alarm_list`.
pub mod Chunks
pub mod Window
pub mod Slots
pub mod Sent
pub mod Sends
pub mod Acks
pub mod Timeouts
pub mod Moves
pub mod Heard
pub mod Passes
use comp429_computer_network.Base.{
  ℕ, zero, suc, ◌+◌, ◌-◌, ◌*◌, ◌^◌, ◌/◌, ◌%◌, List, [], ◌∷◌, ◌++◌, Bool, true, false, not, ◌&&◌,
  ◌||◌, Option, none, some, length, ◌>>=◌, get_elem?, set, take, drop, replicate, overwrite, ltb,
  leb, ◌==◌, if◌then◌else◌, u32,
}
use comp429_computer_network.Base.Int.{ℤ, pos, negsuc, sub_ℕ}
use comp429_computer_network.Transfer.Util.{window_len, seq_len, buf_len, between, mod_int}
use comp429_computer_network.Transfer.Queue.{Node, enqueue, dequeue, get_k}
use comp429_computer_network.Transfer.Packet.{
  data_packet, crc_matches, ack_field, id_field, usec_field,
}

-- `struct timeval`
pub record Time : Type 0 where
  pub sec : ℕ
  pub usec : ℕ

-- `struct alarm_time`; `is_set` is 0 for a free number, 1 for a packet on its way, 2 for one that
-- timed out.
pub record AlarmTime : Type 0 where
  pub is_set : ℕ
  pub reload : ℕ
  pub size : ℕ
  pub tv_sec : ℕ
  pub tv_usec : ℕ

-- The globals and the variables of `main` that live across passes; `unread` is what `fread` has left.
pub record Sender : Type 0 where
  pub alarm_list : List AlarmTime
  pub la_seq : ℕ
  pub packet_id : ℕ
  pub root : List Node
  pub last_window : ℤ
  pub last_ack_time : ℕ
  pub timeout : ℤ
  pub buf : List ℕ
  pub unread : List ℕ

abbrev pub free_alarm : AlarmTime
free_alarm = record { is_set = 0; reload = 1; size = 0; tv_sec = 0; tv_usec = 0 }

-- The state before the first pass; the handshake leaves the time of its acknowledgement.
unfoldable pub start_sender : ℕ → List ℕ → Sender
start_sender last_ack_time file = record {
  alarm_list = replicate seq_len free_alarm;
  la_seq = 0;
  packet_id = 0;
  root = [];
  last_window = negsuc 0;
  last_ack_time = last_ack_time;
  timeout = pos 5000;
  buf = [];
  unread = file;
}

-- `alarm_list[k]`
abbrev pub alarm_at : List AlarmTime → ℕ → Option AlarmTime
alarm_at alarms k = get_elem? alarms k

unfoldable pub lt_ℤ : ℤ → ℤ → Bool
lt_ℤ (pos a) (pos b) = ltb a b
lt_ℤ (pos a) (negsuc b) = false
lt_ℤ (negsuc a) (pos b) = true
lt_ℤ (negsuc a) (negsuc b) = ltb b a

-- What an `int` keeps of a number.
unfoldable pub int_of : ℤ → ℤ
int_of (pos n) = let m = n % 2 ^ 32 in if ltb m (2 ^ 31) then pos m else negsuc (2 ^ 32 - 1 - m)
int_of (negsuc n) = let m = n % 2 ^ 32 in if ltb m (2 ^ 31) then negsuc m else pos (2 ^ 32 - 1 - m)

-- Microseconds from the alarm's time to `now`, in an `int`.
unfoldable pub elapsed : Time → AlarmTime → ℤ
unfolding int_of
elapsed now a = int_of (sub_ℕ (now.sec * 1000000 + now.usec) (a.tv_sec * 1000000 + a.tv_usec))

-- `check_timeout` from round i on, with `left` rounds to go; round i reads the clock as `clock i`.
unfoldable pub check_timeout : (ℕ → Time) → ℤ → ℕ → ℕ → List AlarmTime → Option (List AlarmTime)
unfolding elapsed lt_ℤ
check_timeout clock timeout zero i alarms = some alarms
check_timeout clock timeout (suc left) i alarms = do
  let k = i % seq_len
  a ← alarm_at alarms k
  let late = set alarms k (record a { is_set = 2 })
  check_timeout clock timeout left (i + 1)
      (if not (a.is_set == 0) && lt_ℤ timeout (elapsed (clock i) a) then late else alarms)

unfoldable pub set_alarm : Time → ℕ → List AlarmTime → Option (List AlarmTime)
set_alarm now id alarms = do
  a ← alarm_at alarms id
  some (set alarms id (record a { is_set = 1; tv_sec = now.sec; tv_usec = now.usec }))

-- The loop over the window that frees the acknowledged numbers.
unfoldable pub clear_acked : ℕ → ℕ → ℕ → ℕ → Sender → Option Sender
unfolding between mod_int dequeue
clear_acked la ack_num zero i s = some s
clear_acked la ack_num (suc left) i s =
    let k = i % seq_len in
    let clear : Option Sender = do
      a ← alarm_at s.alarm_list k
      some (record s {
        alarm_list = set s.alarm_list k (record a { is_set = 0 });
        root = dequeue s.root;
      })
    in (if between la ack_num (mod_int (pos i) seq_len) then clear else some s) >>= λ t.
    clear_acked la ack_num left (i + 1) t

-- `newRtt * 1.1` as an `int`: the product in `double`, cut towards 0. Below the least `int`, where C
-- leaves the conversion open, it is the least `int`, as on x86.
unfoldable pub scaled : ℤ → ℤ
scaled (pos n) = pos (n * 11 / 10)
scaled (negsuc n) =
    if ltb (2 ^ 31) (suc n * 11 / 10) then negsuc (2 ^ 31 - 1) else sub_ℕ 0 (suc n * 11 / 10)

unfoldable pub new_timeout : ℤ → ℤ
unfolding scaled lt_ℤ
new_timeout rtt = if lt_ℤ (scaled rtt) (pos 5000) then scaled rtt else pos 5000

-- How the pass goes on: to the end of the loop, to the next pass, or to the sending.
pub data Outcome : Type 0 where
  finished : Outcome
  continue : Sender → Outcome
  proceed : Sender → Outcome

-- `ack_num == last_window`
unfoldable pub is_last_ack : ℤ → ℕ → Bool
is_last_ack (pos w) ack_num = ack_num == w
is_last_ack (negsuc w) ack_num = false

-- The window moves past the acknowledged number.
unfoldable pub move_window : ℕ → Sender → Option Sender
move_window ack_num s = do
  t ← clear_acked s.la_seq ack_num window_len s.la_seq s
  some (record t { la_seq = (ack_num + 1) % seq_len })

unfoldable pub set_timeout : Time → ℕ → Sender → Option Sender
set_timeout now ack_num s = do
  a ← alarm_at s.alarm_list ack_num
  some (record s { timeout = new_timeout (elapsed now a) })

-- An acknowledgement in order of its time, with its number.
unfoldable pub take_ack : Time → ℕ → Sender → Option Outcome
take_ack now ack_num s =
    let moved : Option Outcome = do
      t ← move_window ack_num s
      u ← set_timeout now ack_num t
      some (proceed u)
    in let kept : Option Outcome = do u ← set_timeout now ack_num s; some (proceed u)
      in if leb seq_len ack_num
        then some (continue s)
        else if between s.la_seq ((s.la_seq + window_len - 1) % seq_len) ack_num
        then (if is_last_ack s.last_window ack_num then some finished else moved)
        else kept

-- A datagram of the receiver (empty where `recvfrom` returns nothing).
unfoldable pub receive_ack : Time → List ℕ → Sender → Option Outcome
receive_ack now datagram s =
    let recvlen = length datagram in
    let got = record s { buf = overwrite datagram s.buf } in
    let tmp_time = u32 (usec_field got.buf + 1000000 * id_field got.buf) in
    if recvlen == 0
    then some (proceed s)
    else if recvlen == 1
    then none
    else if not (crc_matches got.buf recvlen)
    then some (proceed got)
    else if ltb got.last_ack_time tmp_time
    then take_ack now (ack_field got.buf) (record got { last_ack_time = tmp_time })
    else some (proceed got)

-- The next chunk of the file, made a packet in the node of the window, or in a new node.
unfoldable pub load_packet : ℕ → ℕ → Sender → Option (Sender × Node)
unfolding get_k enqueue
load_packet k win_id s = do
  a ← alarm_at s.alarm_list k
  let block = take buf_len s.unread
  let packet_id = u32 (s.packet_id + 1)
  let is_last = ltb (length block) buf_len
  let bytes = data_packet k (if is_last then 4 else 2) packet_id block
  let read : Sender = record s {
    alarm_list = set s.alarm_list k (record a { size = length block });
    packet_id = packet_id;
    last_window = if is_last then pos k else s.last_window;
    unread = drop buf_len s.unread;
  }
  elim (get_k s.root win_id) [
    | none ↦
        let node : Node = record { contents = bytes; size = 0 } in
        some (record read { root = enqueue s.root node }, node)
    | some n ↦
        let node : Node = record n { contents = overwrite bytes n.contents } in
        some (record read { root = set s.root win_id node }, node)
  ]

-- `set_alarm`, which leaves the size, and `sendto`.
unfoldable pub send_node : Time → ℕ → Node → Sender → Option (Sender × List ℕ)
unfolding set_alarm
send_node now k node s = do
  a ← alarm_at s.alarm_list k
  alarms ← set_alarm now k s.alarm_list
  some (record s { alarm_list = alarms }, take (a.size + 12) node.contents)

-- The body of the loop for the number i, less its `break`.
unfoldable pub send_slot : Time → ℕ → ℕ → Sender → Option (Sender × List (List ℕ))
send_slot now la i s =
    let k = i % seq_len in
    let first : Option (Sender × List (List ℕ)) = do
      (read, node) ← load_packet k (i - la) s
      (sent, bytes) ← send_node now k node read
      some (sent, bytes ∷ [])
    in let again : Option (Sender × List (List ℕ)) = do
      node ← get_k s.root (i - la)
      (sent, bytes) ← send_node now k node s
      some (sent, bytes ∷ [])
      in alarm_at s.alarm_list k >>= λ a.
      if a.is_set == 0 then first else if a.is_set == 2 then again else some (s, [])

-- `last_window != -1 && i > last_window`
unfoldable pub is_past_last : ℤ → ℕ → Bool
is_past_last (pos w) i = ltb w i
is_past_last (negsuc w) i = not (w == 0)

-- The sending loop from number i on, with `left` rounds to go, and the datagrams it sends.
unfoldable pub send_window : (ℕ → Time) → ℕ → ℕ → ℕ → Sender → Option (Sender × List (List ℕ))
unfolding send_slot is_past_last
send_window clock la zero i s = some (s, [])
send_window clock la (suc left) i s = elim (is_past_last s.last_window i) [
  | true ↦ some (s, [])
  | false ↦ do
    (s', sent) ← send_slot (clock i) la i s
    (s'', rest) ← send_window clock la left (i + 1) s'
    some (s'', sent ++ rest)
]

-- What a pass meets: the clock in `check_timeout`, a datagram and its time, the clock while sending.
pub record PassInput : Type 0 where
  pub checked : ℕ → Time
  pub datagram : List ℕ
  pub now : Time
  pub sending : ℕ → Time

-- One pass: how it ends, and the datagrams sent.
unfoldable pub send_pass : PassInput → Sender → Option (Outcome × List (List ℕ))
send_pass input s = do
  alarms ← check_timeout input.checked s.timeout window_len s.la_seq s.alarm_list
  outcome ← receive_ack input.now input.datagram (record s { alarm_list = alarms })
  elim outcome [
    | finished ↦ some (finished, [])
    | continue t ↦ some (continue t, [])
    | proceed t ↦ do
      (t', sent) ← send_window input.sending t.la_seq window_len t.la_seq t
      some (proceed t', sent)
  ]
