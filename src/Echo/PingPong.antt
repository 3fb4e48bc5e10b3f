-- ===== src/Echo/PingPong.antt =====
-- One test of `client.c` with `server.c`: the message out, the server's echo, and the reply in.
use comp429_computer_network.Base.{
  ℕ, ◌≤◌, ◌≡◌, refl, sym, subst, length-append, ◌∙◌, ap, inl, List, [], ◌∷◌, true, some, length,
  overwrite, joined, arith, htons, take-length, load16-store32_ne, length-store32, length-store16,
  load16-store16_self, htons-htons, htons-lt,
}
use comp429_computer_network.Base.Int.{◌+ℤ◌}
use comp429_computer_network.Echo.Sockets.{ends, Sent, took, got, send_loop, receive_loop}
use comp429_computer_network.Echo.Sockets.Sending.{Accepts, send_loop-ends}
use comp429_computer_network.Echo.Sockets.Receiving.{receive_loop-whole}
use comp429_computer_network.Echo.Client.{
  Client, Time, set_time_stamp, set_length, cur_latency, run_test,
}
use comp429_computer_network.Echo.Node.{Node, server_sending}
use comp429_computer_network.Echo.Node.Pieces.{Ready}
use comp429_computer_network.Echo.Node.Echoes.{
  Idle, IsMessage, IsCut, receive_all, receive_all-message, receive_all-room, server_sending-whole,
}

-- The client's buffer states its own length, before the first test and in all of them.
pub set_length-IsMessage :
    (size : ℕ) (memory : List ℕ)
    → length memory ≡ size
    → 2 ≤ size
    → size ≤ 65535
    → IsMessage (set_length size memory)
unfolding set_length
set_length-IsMessage size memory len long short = record {
  short = omega (arith, length-store16 memory 0 (htons size));
  stated =
      ap htons (load16-store16_self memory 0 (htons size) (omega arith) (htons-lt size))
      ∙ htons-htons size (omega arith)
      ∙ sym (length-store16 memory 0 (htons size) ∙ len);
}

length-set_time_stamp : (tv : Time) (buf : List ℕ) → length (set_time_stamp tv buf) ≡ length buf
unfolding set_time_stamp
length-set_time_stamp tv buf = length-store32 _ 6 _ ∙ length-store32 buf 2 _

set_time_stamp-IsMessage :
    (tv : Time) (buf : List ℕ) → IsMessage buf → IsMessage (set_time_stamp tv buf)
unfolding set_time_stamp
set_time_stamp-IsMessage tv buf m = record {
  short = omega (arith, m.short, length-set_time_stamp tv buf);
  stated =
      ap htons (
        load16-store32_ne _ 6 _ 0 (inl (omega arith))
        ∙ load16-store32_ne buf 2 _ 0 (inl (omega arith)))
      ∙ m.stated
      ∙ sym (length-set_time_stamp tv buf);
}

-- One test: the server is given the client's message in any pieces, the first of at least two bytes,
-- and takes it back whole with one `send`, and the client stores that with one `recv`. Then the client
-- has put out the message once, the server answers with the same bytes and is idle again, and the
-- client ends its test with these bytes in its buffer and a message that the next test can send.
pub ping_pong :
    (size : ℕ) (c : Client) (start end : Time) (sends : List Sent) (n : Node) (p : List ℕ)
    (ps : List (List ℕ))
    → length c.sendbuffer ≡ size
    → IsMessage c.sendbuffer
    → Idle n
    → size ≤ length sends
    → Accepts size 0 sends
    → 2 ≤ length p
    → IsCut ps
    → joined (p ∷ ps) ≡ set_time_stamp start c.sendbuffer
    → (message : List ℕ) × (s : Node) × (server_sending (took size) (receive_all (p ∷ ps) n)
        ≡ some (true, s, message))
      × Idle s
      × (run_test size
            (record { start = start; sends = sends; replies = got message ∷ []; end = end })
            c
          ≡ ends (
            record {
              sendbuffer = message;
              buffer = overwrite message c.buffer;
              total_latency = c.total_latency +ℤ cur_latency start end;
            },
            message,
          ))
      × IsMessage message
unfolding run_test
ping_pong size c start end sends n p ps len message idle enough accepts long cut pieces = (
  m,
  record (receive_all (p ∷ ps) n) { added_pos = 0; pending_data = 0; len_buffer = 0 },
  rw (← same_len)
      (server_sending-whole m (receive_all (p ∷ ps) n) ready (omega (arith, some_bytes))),
  record {
    room = omega (arith, idle.room, receive_all-room (p ∷ ps) n);
    pending = refl;
    from_start = refl;
    unknown = refl;
  },
  rw (run_test, sent, replied) refl,
  set_time_stamp-IsMessage start c.sendbuffer message,
)
  where
    m : List ℕ
    m = set_time_stamp start c.sendbuffer

    same_len : length m ≡ size
    same_len = length-set_time_stamp start c.sendbuffer ∙ len

    ready : Ready m (receive_all (p ∷ ps) n)
    ready =
        subst (λ (x : List ℕ). Ready x (receive_all (p ∷ ps) n)) pieces
          (receive_all-message p ps n idle long cut
            (subst IsMessage (sym pieces) (set_time_stamp-IsMessage start c.sendbuffer message)))

    some_bytes : 2 ≤ length m
    some_bytes = omega (arith, length-append p (joined ps), ap (λ (xs : List ℕ). length xs) pieces)

    sent : send_loop sends size m 0 [] ≡ ends m
    sent = send_loop-ends sends size m enough accepts ∙ ap ends (rw (← same_len) (take-length m))

    replied : receive_loop (got m ∷ []) size c.buffer 0 ≡ ends (overwrite m c.buffer)
    replied = receive_loop-whole [] size c.buffer m same_len (omega (arith, same_len, some_bytes))
