-- ===== src/Echo/Client.antt =====
-- `client.c` and the client's functions of `util.c`.
use comp429_computer_network.Base.{
  ℕ, ◌+◌, ◌*◌, List, [], ◌∷◌, true, ◌||◌, not, ltb, ◌==◌, if◌then◌else◌, u16, store16, store32,
  htons,
}
use comp429_computer_network.Base.Int.{ℤ, pos, negsuc, sub_ℕ, ◌+ℤ◌}
use comp429_computer_network.Echo.Sockets.{
  Loop, ends, waits, fault, Sent, Received, send_loop, receive_loop,
}

-- `validateUserInput`. The port and the size are cut to 16 bits before the call, so that a size is never
-- above `Msg_size_max`.
unfoldable pub validate_user_input : ℕ → ℕ → ℕ → ℤ → ℕ
validate_user_input argc server_port size_msg count =
    if not (argc == 5)
      || (ltb server_port 18000 || ltb 18200 server_port)
      || (ltb size_msg 10 || ltb 65535 size_msg)
      || elim count [ pos n ↦ ltb n 1 || ltb 10000 n | negsuc n ↦ true ]
    then 0
    else 1

-- `struct timeval`
pub record Time : Type 0 where
  pub sec : ℕ
  pub usec : ℕ

-- `setTimeStamp`: `htons` takes the low 16 bits of either number.
unfoldable pub set_time_stamp : Time → List ℕ → List ℕ
set_time_stamp tv buf = store32 (store32 buf 2 (htons (u16 tv.sec))) 6 (htons (u16 tv.usec))

-- The message before the first test, in the memory of `malloc`.
unfoldable pub set_length : ℕ → List ℕ → List ℕ
set_length size_msg buf = store16 buf 0 (htons size_msg)

-- The client between two tests; `total_latency` in microseconds.
pub record Client : Type 0 where
  pub sendbuffer : List ℕ
  pub buffer : List ℕ
  pub total_latency : ℤ

-- What one test meets: the clock before and after, and the calls of `send` and `recv`.
pub record Test : Type 0 where
  pub start : Time
  pub sends : List Sent
  pub replies : List Received
  pub end : Time

unfoldable pub cur_latency : Time → Time → ℤ
cur_latency start end = sub_ℕ (end.sec * 1000000 + end.usec) (start.sec * 1000000 + start.usec)

-- One round of the loop over the tests, with what went out.
unfoldable pub run_test : ℕ → Test → Client → Loop (Client × List ℕ)
run_test size t c =
    let message = set_time_stamp t.start c.sendbuffer in
    elim (send_loop t.sends size message 0 []) [
      | ends out ↦ elim (receive_loop t.replies size c.buffer 0) [
        | ends buffer ↦ ends (
          record {
            sendbuffer = message;
            buffer = buffer;
            total_latency = c.total_latency +ℤ cur_latency t.start t.end;
          },
          out,
        )
        | waits ↦ waits
        | fault ↦ fault
      ]
      | waits ↦ waits
      | fault ↦ fault
    ]

-- `while (num_tests < count)`: one test after the other.
unfoldable pub run_tests : ℕ → List Test → Client → Loop Client
unfolding run_test
run_tests size [] c = ends c
run_tests size (t ∷ ts) c = elim (run_test size t c) [
  | ends r ↦ run_tests size ts r.0
  | waits ↦ waits
  | fault ↦ fault
]
