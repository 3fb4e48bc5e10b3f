-- ===== src/Transfer/Sender/Timeouts.antt =====
-- The start of `sendfile.c`'s data loop, and `check_timeout`.
use comp429_computer_network.Base.{
  ℕ, zero, suc, ◌+◌, ◌%◌, ◌≤◌, ◌<◌, ◌≡◌, refl, ap, inl, inr, List, length, set, joined, arith,
  dec_lt, Bool, false, not, ◌&&◌, ◌==◌, if◌then◌else◌, Bool-cases, some, ◌∙◌,
}
use comp429_computer_network.Base.Int.{ℤ}
use comp429_computer_network.Transfer.Sender.{Sender, AlarmTime, Time}
use comp429_computer_network.Transfer.Sender.Window.{
  Sending, Sending-alarm, alarm_of, alarm_at-slot_of,
}
use comp429_computer_network.Base.{get_or-replicate}
use comp429_computer_network.Transfer.Sender.{check_timeout, elapsed, lt_ℤ, start_sender}

-- `start_sender` on a file: nothing is acknowledged or read.
pub start_sender-Sending :
    (chunks : List (List ℕ)) (last_ack_time : ℕ)
    → 1 ≤ length chunks
    → Sending chunks 0 (start_sender last_ack_time (joined chunks))
unfolding start_sender
start_sender-Sending chunks last_ack_time some_chunk = record {
  unfinished = some_chunk;
  start = refl;
  count = refl;
  within = omega arith;
  few = omega arith;
  rest = refl;
  alarms_len = refl;
  last = inl (refl, some_chunk);
  loaded = λ j lj hj. absurd (omega arith);
  busy = λ j lj hj. absurd (omega arith);
  free = λ j lj hj. ap (λ (a : AlarmTime). a.is_set) (get_or-replicate 16 (j % 16) _);
}

-- One alarm that may have run out.
late-Sending :
    (chunks : List (List ℕ)) (acked j : ℕ) (s : Sender) (late : Bool)
    → acked ≤ j
    → j < acked + 16
    → Sending chunks acked s
    → Sending chunks acked (record s {
      alarm_list =
          if not ((alarm_of s j).is_set == 0) && late
          then set s.alarm_list (j % 16) (record (alarm_of s j) { is_set = 2 })
          else s.alarm_list;
    })
late-Sending chunks acked j s late lj hj h = elim (Bool-cases ((alarm_of s j).is_set == 0)) [
  | inl clear ↦ rw clear h
  | inr busy ↦ elim (Bool-cases late) [
    | inl run_out ↦
        rw (busy, run_out)
          (Sending-alarm chunks acked j s (record (alarm_of s j) { is_set = 2 }) lj (was_read busy)
            (λ e. omega arith) refl h)
    | inr in_time ↦ rw (busy, in_time) h
  ]
]
  where
    was_read : ((alarm_of s j).is_set == 0) ≡ false → j < s.packet_id
    was_read busy = elim (dec_lt j s.packet_id) [
      | yes lt ↦ lt
      | no ge ↦ absurd (ground (arith, h.free j (omega arith) hj))
    ]

-- One round of `check_timeout` is inside the alarm list.
check_timeout-round :
    (clock : ℕ → Time) (timeout : ℤ) (acked left d : ℕ) (s : Sender)
    → length s.alarm_list ≡ 16
    → check_timeout clock timeout (suc left) (acked % 16 + d) s.alarm_list
      ≡ check_timeout clock timeout left (acked % 16 + (d + 1)) (
          if not ((alarm_of s (acked + d)).is_set == 0)
            && lt_ℤ timeout (elapsed (clock (acked % 16 + d)) (alarm_of s (acked + d)))
          then set s.alarm_list ((acked + d) % 16) (record (alarm_of s (acked + d)) { is_set = 2 })
          else s.alarm_list)
unfolding check_timeout
check_timeout-round clock timeout acked left d s len =
    let next : acked % 16 + d + 1 ≡ acked % 16 + (d + 1) = omega arith in
    let number : (acked % 16 + d) % 16 ≡ (acked + d) % 16 = omega arith in
    rw (check_timeout, next, number, alarm_at-slot_of s.alarm_list (acked + d) len) refl

-- Time-outs stay inside the alarm list, and keep the invariant.
pub check_timeout-Sending :
    (chunks : List (List ℕ)) (acked : ℕ) (clock : ℕ → Time) (timeout : ℤ) (left d : ℕ) (s : Sender)
    → d + left ≡ 8
    → Sending chunks acked s
    → (alarms : List AlarmTime) × (check_timeout clock timeout left (acked % 16 + d) s.alarm_list
        ≡ some alarms)
      × Sending chunks acked (record s { alarm_list = alarms })
unfolding check_timeout
check_timeout-Sending chunks acked clock timeout zero d s all h = (s.alarm_list, refl, h)
check_timeout-Sending chunks acked clock timeout (suc left) d s all h =
    let (alarms, done, sending) =
      check_timeout-Sending chunks acked clock timeout left (d + 1) _ (omega arith) (
        late-Sending chunks acked (acked + d) s
          (lt_ℤ timeout (elapsed (clock (acked % 16 + d)) (alarm_of s (acked + d)))) (omega arith)
          (omega arith) h) in
    (alarms, check_timeout-round clock timeout acked left d s h.alarms_len ∙ done, sending)
