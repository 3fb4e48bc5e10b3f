-- ===== src/Echo/Tests.antt =====
-- Concrete runs of project1's ping-pong programs.
use comp429_computer_network.Base.{
  inl, ℕ, ◌-◌, ◌≡◌, refl, inr, List, [], ◌∷◌, Bool, true, false, some, none, take, drop, overwrite,
  replicate, arith, store16, store32, load16, htons, length-replicate, ◌==◌,
}
use comp429_computer_network.Base.Int.{pos, negsuc, ◌+ℤ◌}
use comp429_computer_network.Web.{Files}
use comp429_computer_network.Echo.Sockets.{
  ends, waits, Sent, failed, took, Received, got, send_loop, receive_loop,
}
use comp429_computer_network.Echo.Sockets.Sending.{send_loop-ends}
use comp429_computer_network.Echo.Sockets.Receiving.{receive_loop-waits}
use comp429_computer_network.Echo.Client.{
  validate_user_input, set_time_stamp, set_length, Client, Time, run_test, cur_latency,
}
use comp429_computer_network.Echo.Node.{
  Node, server_sending, server_receiving, after_send, after_receive,
}
use comp429_computer_network.Echo.Node.Lists.{sockets}
use comp429_computer_network.Echo.Node.Pieces.{Ready}
use comp429_computer_network.Echo.Node.Echoes.{Idle, IsMessage, receive_all, server_sending-parts}
use comp429_computer_network.Echo.PingPong.{ping_pong}
use comp429_computer_network.Echo.Server.{
  watch, watch_nodes, is_member, selected, accept_failed, TurnInput, goes_on, breaks, visit_all,
  visit, visit_write, visit_read, turn, walk_turn,
}
use comp429_computer_network.Echo.Server.Turns.{turn-gone}
use comp429_computer_network.Echo.Server.Healthy.{turn-keeps}

-- `validateUserInput` at its bounds. A size of 65546 reaches it as 10.
validated :
    (validate_user_input 5 18000 10 (pos 1) ≡ 1)
    × (validate_user_input 5 18200 65535 (pos 10000) ≡ 1)
    × (validate_user_input 5 18201 10 (pos 1) ≡ 0)
    × (validate_user_input 4 18000 10 (pos 1) ≡ 0)
    × (validate_user_input 5 18000 9 (pos 1) ≡ 0)
    × (validate_user_input 5 18000 10 (negsuc 0) ≡ 0)
    × (validate_user_input 5 18000 10 (pos 10001) ≡ 0)
unfolding validate_user_input
validated = (refl, refl, refl, refl, refl, refl, refl)

abbrev five : List ℕ
five = 1 ∷ 2 ∷ 3 ∷ 4 ∷ 5 ∷ []

send_loop-ends_example :
    send_loop (took 2 ∷ took 3 ∷ took 9 ∷ took 9 ∷ took 9 ∷ []) 5 five 0 [] ≡ ends (take 5 five)
send_loop-ends_example =
    send_loop-ends (took 2 ∷ took 3 ∷ took 9 ∷ took 9 ∷ took 9 ∷ []) 5 five (omega arith) (λ lt.
      (omega arith, omega arith, λ lt. (omega arith, omega arith, λ lt. absurd (omega arith))))

-- The byte 2 goes out twice.
repeated : send_loop (took 2 ∷ failed ∷ took 4 ∷ []) 5 five 0 [] ≡ ends (1 ∷ 2 ∷ 2 ∷ 3 ∷ 4 ∷ 5 ∷ [])
unfolding send_loop
repeated = refl

receive_loop-waits_example :
    receive_loop (got (1 ∷ 2 ∷ []) ∷ got (3 ∷ 4 ∷ 5 ∷ []) ∷ []) 5 (replicate 5 0) 0 ≡ waits
receive_loop-waits_example =
    receive_loop-waits (got (3 ∷ 4 ∷ 5 ∷ []) ∷ []) 5 (replicate 5 0) (1 ∷ 2 ∷ []) (omega arith)
      (omega arith) (omega arith, omega arith, tt)

-- A connection that was just accepted, and one that has a message to send.
abbrev memory : List ℕ
memory = replicate 65535 0

abbrev idle_node : Node
idle_node = record {
  socket = 7;
  client_addr = 9;
  pending_data = 0;
  buffer = memory;
  added_pos = 0;
  len_buffer = 0;
}

idle_node-Idle : Idle idle_node
idle_node-Idle = record {
  room = omega (arith, length-replicate {A = ℕ} 65535 0);
  pending = refl;
  from_start = refl;
  unknown = refl;
}

-- A client with messages of ten bytes, and its first test.
abbrev small_client : Client
small_client = record {
  sendbuffer = set_length 10 (replicate 10 0);
  buffer = replicate 10 0;
  total_latency = pos 0;
}

small_client-IsMessage : IsMessage small_client.sendbuffer
unfolding set_length store16 load16 htons
small_client-IsMessage = record { short = omega arith; stated = refl }

abbrev noon : Time
noon = record { sec = 3; usec = 4 }

abbrev stamped : List ℕ
stamped = 0 ∷ 10 ∷ 0 ∷ 3 ∷ 0 ∷ 0 ∷ 0 ∷ 4 ∷ 0 ∷ 0 ∷ []

stamped_eq : stamped ≡ set_time_stamp noon small_client.sendbuffer
unfolding set_length set_time_stamp store32 store16 htons
stamped_eq = refl

ping_pong_example :
    (message : List ℕ) × (s : Node) × (server_sending
        (took 10)
        (receive_all ((0 ∷ 10 ∷ 0 ∷ []) ∷ (3 ∷ 0 ∷ 0 ∷ 0 ∷ 4 ∷ 0 ∷ 0 ∷ []) ∷ []) idle_node)
      ≡ some (true, s, message))
    × Idle s
    × (run_test 10
          (record {
            start = noon;
            sends = took 10 ∷ replicate 9 failed;
            replies = got message ∷ [];
            end = noon;
          })
          small_client
        ≡ ends (
          record {
            sendbuffer = message;
            buffer = overwrite message small_client.buffer;
            total_latency = small_client.total_latency +ℤ cur_latency noon noon;
          },
          message,
        ))
    × IsMessage message
ping_pong_example =
    ping_pong 10 small_client noon noon (took 10 ∷ replicate 9 failed) idle_node (0 ∷ 10 ∷ 0 ∷ [])
      ((3 ∷ 0 ∷ 0 ∷ 0 ∷ 4 ∷ 0 ∷ 0 ∷ []) ∷ []) (unfold set_length store16 in refl)
      small_client-IsMessage idle_node-Idle (omega arith)
      (λ lt. (omega arith, omega arith, λ more. omega arith)) (omega arith) (omega arith, tt)
      stamped_eq

-- A connection that has the message above.
abbrev ready_node : Node
ready_node = record {
  socket = 7;
  client_addr = 9;
  pending_data = 1;
  buffer = stamped;
  added_pos = 0;
  len_buffer = 10;
}

ready_node-Ready : Ready stamped ready_node
ready_node-Ready = record {
  pending = refl;
  from_start = refl;
  known = refl;
  held = refl;
  room = omega arith;
}

server_sending-parts_example :
    (m : Node) × (s : Node) × (server_sending (took 4) ready_node ≡ some (true, m, take 4 stamped))
    × (server_sending (took (10 - 4)) m ≡ some (true, s, take (10 - 4) (drop 4 stamped)))
    × (s.pending_data ≡ 1)
    × (s.added_pos ≡ 10 - 4)
    × (s.len_buffer ≡ 10)
server_sending-parts_example =
    server_sending-parts stamped ready_node ready_node-Ready 4 (omega arith) (omega arith)

abbrev no_files : Files
no_files = record {
  stat = λ p. false;
  opens = λ p. false;
  readable = λ p. false;
  contents = λ p. none;
}

-- A pass in which connection 7 is ready both ways.
abbrev only : ℕ → ℕ → Bool
only a b = a == b

abbrev pass_with : Sent → Received → TurnInput
pass_with sent received = record {
  select = selected (only 7) (only 7);
  accept = accept_failed;
  set_nonblock = true;
  memory = [];
  request = [];
  sent = λ fd. sent;
  received = λ fd. received;
}

abbrev other_node : Node
other_node = record ready_node { socket = 8 }

turn-gone_example :
    turn false no_files 3 (pass_with (took 10) (got [])) (other_node ∷ ready_node ∷ []) ≡ breaks
turn-gone_example =
    turn-gone no_files 3 (pass_with (took 10) (got [])) (only 7) (only 7) (other_node ∷ []) []
      ready_node refl refl refl (inr refl)
      (λ i. elim i [ inl e ↦ absurd (omega (arith, e)) | inr never ↦ never ]) (λ never. never)

turn-keeps_example :
    (ms : List Node) × (outs : List (ℕ × List ℕ)) × (turn false no_files 3
        (pass_with (took 10) (got (1 ∷ [])))
        (ready_node ∷ [])
      ≡ goes_on ms outs)
    × (sockets ms ≡ 7 ∷ [])
turn-keeps_example =
    turn-keeps no_files 3 (pass_with (took 10) (got (1 ∷ []))) (only 7) (only 7) (ready_node ∷ [])
      refl refl
      (
        record {
          ordered = omega arith;
          sends = λ ready. (10, refl, omega arith);
          receives = λ ready. (1 ∷ [], refl, omega arith);
        },
        tt,
      )

-- The connection of the pass above sends its message and takes the byte.
turn_runs :
    turn false no_files 3 (pass_with (took 10) (got (9 ∷ []))) (ready_node ∷ [])
    ≡ goes_on
        (record ready_node {
          pending_data = 0;
          buffer = 9 ∷ 10 ∷ 0 ∷ 3 ∷ 0 ∷ 0 ∷ 0 ∷ 4 ∷ 0 ∷ 0 ∷ [];
          added_pos = 1;
          len_buffer = 2314;
        }
          ∷ [])
        ((7, stamped) ∷ [])
unfolding turn watch watch_nodes is_member walk_turn visit_all visit visit_write visit_read
    server_sending server_receiving after_send after_receive load16 htons
turn_runs = refl
