-- ===== src/Transfer/Sender/Sends.antt =====
-- The sending loop of `sendfile.c`: what goes out for each number of the window.
use comp429_computer_network.Base.{
  ℕ, zero, suc, ◌+◌, ◌-◌, ◌%◌, ◌≤◌, ◌<◌, ◌≡◌, refl, subst, ◌∙◌, ap, inl, inr, List, [], ◌∷◌, ◌++◌,
  some, length, get_or, take, arith, dec_eq, true, false, ◌==◌, ==_iff, Bool-cases,
}
use comp429_computer_network.Transfer.Queue.{Node, get_k, get_k-get_elem?}
use comp429_computer_network.Transfer.Packet.{chunk_packet}
use comp429_computer_network.Transfer.Receiver.{fresh_node}
use comp429_computer_network.Transfer.Receiver.Files.{IsFile, length-chunk_packet}
use comp429_computer_network.Base.{length-set}
use comp429_computer_network.Transfer.Sender.{
  Sender, AlarmTime, Time, set_alarm, send_node, send_slot, is_past_last, send_window,
}
use comp429_computer_network.Transfer.Sender.Chunks.{take_all}
use comp429_computer_network.Transfer.Sender.Window.{
  Sending, Sending-alarm, alarm_of, node_of, alarm_at-set_self, alarm_at-slot_of, armed,
  get_elem?-some,
}
use comp429_computer_network.Transfer.Sender.Slots.{
  more_left, load_packet-eq, sent_state, sent_state-Sending, loaded_state,
}
use comp429_computer_network.Transfer.Sender.Sent.{Sends, All-append, IsSent-weaken}

get_k-found : (q : List Node) (k : ℕ) → k < length q → get_k q k ≡ some (get_or q k fresh_node)
get_k-found q k h = get_k-get_elem? q k ∙ get_elem?-some q k fresh_node h

module _ (chunks : List (List ℕ)) (file : IsFile chunks) (acked : ℕ) where
  -- The number's chunk is the next to read.
  read_and_send :
      (now : Time) (d : ℕ) (s : Sender)
      → Sending chunks acked s
      → d < 8
      → acked + d ≡ s.packet_id
      → is_past_last s.last_window (s.la_seq + d) ≡ false
      → (alarm_of s s.packet_id).is_set ≡ 0
      → Sends chunks acked s.la_seq (acked + d + 1) s (send_slot now s.la_seq (s.la_seq + d) s)
  unfolding send_slot send_node set_alarm
  read_and_send now d s h near at not_past clear = (
    sent_state chunks file acked now s h,
    chunk_packet chunks s.packet_id ∷ [],
    rw
        (
          number,
          load_packet-eq chunks file acked now s h (s.la_seq + d - s.la_seq) more place,
          alarm_at-slot_of s.alarm_list s.packet_id h.alarms_len,
          is_clear,
          alarm_at-slot_of (loaded_state chunks file acked now s h).alarm_list s.packet_id
              loaded_len,
          bytes,
        )
        refl,
    sent_state-Sending chunks file acked now s h more (omega (arith, h.count)),
    refl,
    omega arith,
    (omega arith, refl),
    ((s.packet_id, omega arith, omega arith, omega arith, refl), tt),
  )
    where
      number : (s.la_seq + d) % 16 ≡ s.packet_id % 16
      number = omega (arith, h.start)

      loaded_len : length (loaded_state chunks file acked now s h).alarm_list ≡ 16
      loaded_len = length-set s.alarm_list _ _ ∙ h.alarms_len

      place : s.la_seq + d - s.la_seq ≡ length s.root
      place = omega (arith, h.count)

      more : s.packet_id < length chunks
      more =
          let shift : s.la_seq + d ≡ acked % 16 + (s.packet_id - acked) = omega (arith, h.start) in
          more_left chunks acked s h (omega arith) (rw shift at not_past)

      bytes :
          take
            ((alarm_of (loaded_state chunks file acked now s h) s.packet_id).size + 12)
            (chunk_packet chunks s.packet_id)
          ≡ chunk_packet chunks s.packet_id
      bytes =
          ap (λ (a : AlarmTime). take (a.size + 12) (chunk_packet chunks s.packet_id))
            (alarm_at-set_self s.alarm_list s.packet_id _ h.alarms_len)
          ∙ take_all (length (get_or chunks s.packet_id []) + 12) (chunk_packet chunks s.packet_id)
              (omega (arith, length-chunk_packet chunks file s.packet_id))

      is_clear : ((alarm_of s s.packet_id).is_set == 0) ≡ true
      is_clear = (==_iff _ _).1 clear

  -- The number's packet timed out.
  send_again :
      (now : Time) (d : ℕ) (s : Sender)
      → Sending chunks acked s
      → d < 8
      → acked + d < s.packet_id
      → (alarm_of s (acked + d)).is_set ≡ 2
      → Sends chunks acked s.la_seq (acked + d + 1) s (send_slot now s.la_seq (s.la_seq + d) s)
  unfolding send_slot send_node set_alarm
  send_again now d s h near read late = (
    record s { alarm_list = armed now ((acked + d) % 16) s.alarm_list },
    chunk_packet chunks (acked + d) ∷ [],
    rw
        (
          number,
          alarm_at-slot_of s.alarm_list (acked + d) h.alarms_len,
          not_clear,
          is_late,
          found,
          h.loaded (acked + d) (omega arith) read,
        )
        refl,
    sending,
    refl,
    omega arith,
    (omega arith, refl),
    ((acked + d, omega arith, omega arith, read, refl), tt),
  )
    where
      number : (s.la_seq + d) % 16 ≡ (acked + d) % 16
      number = omega (arith, h.start)

      found : get_k s.root (s.la_seq + d - s.la_seq) ≡ some (node_of acked s.root (acked + d))
      found =
          let place : s.la_seq + d - s.la_seq ≡ acked + d - acked = omega arith in
          rw place (get_k-found s.root (acked + d - acked) (omega (arith, h.count)))

      not_clear : ((alarm_of s (acked + d)).is_set == 0) ≡ false
      not_clear = ground (arith, late)

      is_late : ((alarm_of s (acked + d)).is_set == 2) ≡ true
      is_late = (==_iff _ _).1 late

      sending :
          Sending chunks acked (record s { alarm_list = armed now ((acked + d) % 16) s.alarm_list })
      sending =
          Sending-alarm chunks acked (acked + d) s
            (record (alarm_of s (acked + d)) { is_set = 1; tv_sec = now.sec; tv_usec = now.usec })
            (omega arith) read (λ e. omega arith) refl h

  -- One number of the window.
  send_slot-Sends :
      (now : Time) (d : ℕ) (s : Sender)
      → Sending chunks acked s
      → d < 8
      → acked + d ≤ s.packet_id
      → is_past_last s.last_window (s.la_seq + d) ≡ false
      → Sends chunks acked s.la_seq (acked + d + 1) s (send_slot now s.la_seq (s.la_seq + d) s)
  send_slot-Sends now d s h near le not_past = elim (dec_eq (acked + d) s.packet_id) [
    | yes at ↦
        read_and_send now d s h near at not_past
          (h.free s.packet_id (omega arith) (omega (arith, h.count, h.few)))
    | no ne ↦ elim (dec_eq (alarm_of s (acked + d)).is_set 2) [
      | yes late ↦ send_again now d s h near (omega arith) late
      | no waiting ↦ (
        s,
        [],
        idle (ground (arith, h.busy (acked + d) (omega arith) (omega arith))) (ground arith),
        h,
        refl,
        omega arith,
        (omega arith, refl),
        tt,
      )
    ]
  ]
    where
      idle :
          ((alarm_of s (acked + d)).is_set == 0) ≡ false
          → ((alarm_of s (acked + d)).is_set == 2) ≡ false
          → send_slot now s.la_seq (s.la_seq + d) s ≡ some (s, [])
      idle busy on_way =
          let number : (s.la_seq + d) % 16 ≡ (acked + d) % 16 = omega (arith, h.start) in
          unfold send_slot in
          rw (number, alarm_at-slot_of s.alarm_list (acked + d) h.alarms_len, busy, on_way) refl

  -- The same, with the window's start named.
  send_slot-at :
      (now : Time) (la d : ℕ) (s : Sender)
      → Sending chunks acked s
      → s.la_seq ≡ la
      → d < 8
      → acked + d ≤ s.packet_id
      → is_past_last s.last_window (la + d) ≡ false
      → Sends chunks acked la (acked + d + 1) s (send_slot now la (la + d) s)
  send_slot-at now la d s h e near le =
      subst
        (λ l.
          is_past_last s.last_window (l + d) ≡ false
          → Sends chunks acked l (acked + d + 1) s (send_slot now l (l + d) s))
        e (send_slot-Sends now d s h near le)

  -- The loop over the window sends packets of chunks that are due, and keeps the invariant.
  pub send_window-Sends :
      (clock : ℕ → Time) (la left d : ℕ) (s : Sender)
      → Sending chunks acked s
      → s.la_seq ≡ la
      → d + left ≡ 8
      → acked + d ≤ s.packet_id
      → Sends chunks acked la 0 s (send_window clock la left (la + d) s)
  unfolding send_window
  send_window-Sends clock la zero d s h e all le =
      (s, [], refl, h, e, omega arith, (omega arith, refl), tt)
  send_window-Sends clock la (suc left) d s h e all le =
      elim (Bool-cases (is_past_last s.last_window (la + d))) [
        | inl past ↦
            (s, [], rw (send_window, past) refl, h, e, omega arith, (omega arith, refl), tt)
        | inr going ↦
            let (s', sent, first, h', e', le', on, due) =
              send_slot-at (clock (la + d)) la d s h e (omega arith) le going in
            let (s'', more, later, h'', e'', le'', on', due') =
              send_window-Sends clock la left (d + 1) s' h' e' (omega arith) (omega arith) in
            let next : la + d + 1 ≡ la + (d + 1) = omega arith in
            (
              s'',
              sent ++ more,
              rw (send_window, going, first, next, later) refl,
              h'',
              e'',
              omega arith,
              (omega (arith, on.0, on'.0), on'.1 ∙ on.1),
              All-append _ sent more
                  (IsSent-weaken chunks acked s'.packet_id s''.packet_id sent on'.0 due) due',
            )
      ]
