-- ===== src/Transfer/Tests/Wrap.antt =====
-- A last window of sendfile.c that lies across the wrap of the sequence numbers.
use comp429_computer_network.Base.{
  ℕ, zero, suc, ◌+◌, ◌%◌, ◌-◌, ◌≤◌, ◌<◌, ◌≡◌, refl, sym, ap, take-length, get_or-replicate, ◌∙◌,
  inl, inr, ◌⊎◌, List, [], ◌∷◌, ◌++◌, some, length, arith, replicate, get_or, take, joined,
  get_or-append_left, length-replicate,
}
use comp429_computer_network.Base.Int.{pos}
use comp429_computer_network.Transfer.Packet.{chunk_packet}
use comp429_computer_network.Transfer.Receiver.Files.{IsFile, length-chunk_packet}
use comp429_computer_network.Transfer.Sender.{Sender, Time, AlarmTime, free_alarm, send_window}
use comp429_computer_network.Transfer.Sender.Chunks.{take_all}
use comp429_computer_network.Transfer.Sender.Window.{Sending, alarm_of}
use comp429_computer_network.Transfer.Receiver.{Receiver, receive, fresh_node}
use comp429_computer_network.Transfer.Receiver.Invariant.{Inv}
use comp429_computer_network.Transfer.Receiver.Safety.{packet}
use comp429_computer_network.Transfer.Receiver.Reach.{receive_past_wrap}
use comp429_computer_network.Transfer.Link.{send_window-past_wrap}

get_or-replicate_in {ℓ} : {A : Type ℓ} (n i : ℕ) (a d : A) → i < n → get_or (replicate n a) i d ≡ a
get_or-replicate_in zero i a d h = absurd (omega arith)
get_or-replicate_in (suc n) zero a d h = refl
get_or-replicate_in (suc n) (suc i) a d h = get_or-replicate_in n i a d (omega arith)

-- A file of 18 chunks.
abbrev full_chunk : List ℕ
full_chunk = replicate 32768 7

abbrev long_file : List (List ℕ)
long_file = replicate 17 full_chunk ++ (1 ∷ []) ∷ []

chunk_full : (j : ℕ) → j < 17 → get_or long_file j [] ≡ full_chunk
chunk_full j h =
    get_or-append_left (replicate 17 full_chunk) ((1 ∷ []) ∷ []) j [] (omega arith)
    ∙ get_or-replicate_in 17 j full_chunk [] h

size_full : (j : ℕ) → j < 17 → length (get_or long_file j []) ≡ 32768
size_full j h = ap length (chunk_full j h) ∙ length-replicate {A = ℕ} 32768 7

long_file-IsFile : IsFile long_file
long_file-IsFile = record {
  countable = omega arith;
  full = λ j h. size_full j (omega arith);
  short = λ j h. let e : j ≡ 17 = omega arith in rw e (omega arith);
}

-- Fifteen chunks are acknowledged, and the last three were sent and timed out.
abbrev late_alarm : ℕ → AlarmTime
late_alarm size = record { is_set = 2; reload = 1; size = size; tv_sec = 5; tv_usec = 6 }

abbrev late_sender : Sender
late_sender = record {
  alarm_list = late_alarm 32768 ∷ late_alarm 1 ∷ replicate 13 free_alarm ++ late_alarm 32768 ∷ [];
  la_seq = 15;
  packet_id = 18;
  root =
      record { contents = chunk_packet long_file 15; size = 0 }
      ∷ record { contents = chunk_packet long_file 16; size = 0 }
      ∷ record { contents = chunk_packet long_file 17; size = 0 }
      ∷ [];
  last_window = pos 1;
  last_ack_time = 0;
  timeout = pos 5000;
  buf = [];
  unread = [];
}

whole_packet :
    (j size : ℕ)
    → length (get_or long_file j []) ≡ size
    → take (size + 12) (chunk_packet long_file j) ≡ chunk_packet long_file j
whole_packet j size e =
    take_all (size + 12) (chunk_packet long_file j)
      (omega (arith, length-chunk_packet long_file long_file-IsFile j))

-- The three chunks on their way.
three : (j : ℕ) → 15 ≤ j → j < 18 → (j ≡ 15) ⊎ ((j ≡ 16) ⊎ (j ≡ 17))
three j lo hi = omega arith

late_sender-Sending : Sending long_file 15 late_sender
late_sender-Sending = record {
  unfinished = omega arith;
  start = refl;
  count = refl;
  within = omega arith;
  few = omega arith;
  rest = refl;
  alarms_len = refl;
  last = inr (refl, refl);
  loaded = λ j lo hi. elim (three j lo hi) [
    | inl e ↦ rw e (whole_packet 15 32768 (size_full 15 (omega arith)))
    | inr (inl e) ↦ rw e (whole_packet 16 32768 (size_full 16 (omega arith)))
    | inr (inr e) ↦ rw e (whole_packet 17 1 refl)
  ];
  busy = λ j lo hi. elim (three j lo hi) [
    | inl e ↦ rw e (λ z. absurd (omega arith))
    | inr (inl e) ↦ rw e (λ z. absurd (omega arith))
    | inr (inr e) ↦ rw e (λ z. absurd (omega arith))
  ];
  free = λ j lo hi. idle j lo hi;
}
  where
    idle : (j : ℕ) → 18 ≤ j → j < 31 → (alarm_of late_sender j).is_set ≡ 0
    idle j lo hi =
        let e : j % 16 ≡ suc (suc (j - 18)) = omega arith in
        rw e (
          ap (λ (a : AlarmTime). a.is_set)
            (get_or-append_left (replicate 13 free_alarm) (late_alarm 32768 ∷ []) (j - 18)
                free_alarm (omega arith)
              ∙ get_or-replicate_in 13 (j - 18) free_alarm free_alarm (omega arith)))

abbrev at_nine : Time
at_nine = record { sec = 9; usec = 0 }

send_window-past_wrap_example :
    send_window (λ i. at_nine) 15 8 15 late_sender ≡ some (late_sender, [])
send_window-past_wrap_example =
    send_window-past_wrap long_file 15 (λ i. at_nine) late_sender late_sender-Sending refl
      (omega arith)

-- A receiver that wrote the last run of that file, chunks 15 to 17, at once, and still waits.
abbrev stuck_receiver : Receiver
stuck_receiver = record {
  la_seq = 2;
  received = replicate 16 0;
  last_id = 18;
  ready_exit = 1;
  last_window = pos 1;
  root = replicate 8 fresh_node;
  written = joined long_file;
  buf = [];
}

stuck_receiver-Inv : Inv long_file stuck_receiver
stuck_receiver-Inv = record {
  holds = record {
    window = record {
      flags_len = refl;
      nodes_len = refl;
      held = λ j p q raised. absurd (raised (get_or-replicate 16 (j % 16) 0));
    };
    counted = refl;
    put_out = ap joined (sym (take-length long_file));
    within = omega arith;
  };
  start = refl;
  gap = refl;
  exit = inr (refl, omega arith, omega arith, inl refl);
}

receive_past_wrap_example :
    (s : Receiver) × (receive (chunk_packet long_file 17) stuck_receiver ≡ some s)
    × (s.ready_exit ≡ 1)
    × (s.last_id ≡ 18)
    × (s.written ≡ joined long_file)
receive_past_wrap_example =
    receive_past_wrap long_file stuck_receiver (chunk_packet long_file 17) long_file-IsFile
      stuck_receiver-Inv refl refl (packet 17 (omega arith) (omega arith) refl)
