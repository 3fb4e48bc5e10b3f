-- ===== src/Transfer/Sender/Slots.antt =====
-- The sending loop of `sendfile.c`: the next chunk is read into its packet.
use comp429_computer_network.Base.{
  ℕ, zero, suc, ◌+◌, ◌-◌, ◌%◌, ◌≤◌, ◌<◌, ◌≡◌, ◌≢◌, refl, sym, ◌∙◌, ap, inl, inr, List, [], ◌∷◌,
  ◌++◌, none, length, get_or, set, take, drop, joined, arith, length-set, dec_eq, dec_lt, true,
  false, ltb, if◌then◌else◌, length-append, get_or-append_left, u32, get_elem?,
}
use comp429_computer_network.Base.Int.{pos}
use comp429_computer_network.Transfer.Util.{buf_len}
use comp429_computer_network.Transfer.Queue.{Node, get_k, enqueue-append, get_k-get_elem?}
use comp429_computer_network.Transfer.Packet.{chunk_packet}
use comp429_computer_network.Transfer.Receiver.{fresh_node}
use comp429_computer_network.Transfer.Receiver.Files.{IsFile, length-chunk_packet}
use comp429_computer_network.Base.{some}
use comp429_computer_network.Transfer.Sender.{
  Sender, AlarmTime, Time, alarm_at, load_packet, is_past_last,
}
use comp429_computer_network.Transfer.Sender.Chunks.{take-chunk, drop-chunk, take_all}
use comp429_computer_network.Transfer.Sender.Window.{
  Sending, alarm_of, node_of, bytes_of, armed, alarm_at-slot_of, alarm_at-set_self, alarm_at-set_ne,
}

get_elem?_past : (q : List Node) (k : ℕ) → length q ≤ k → get_elem? q k ≡ none
get_elem?_past [] k h = refl
get_elem?_past (n ∷ q) zero h = absurd (omega arith)
get_elem?_past (n ∷ q) (suc k) h = get_elem?_past q k (omega arith)

get_or-append_last : (q : List Node) (n d : Node) → get_or (q ++ n ∷ []) (length q) d ≡ n
get_or-append_last [] n d = refl
get_or-append_last (m ∷ q) n d = get_or-append_last q n d

-- The loop has not stopped, so a chunk is left to read.
pub more_left :
    (chunks : List (List ℕ)) (acked : ℕ) (s : Sender)
    → Sending chunks acked s
    → acked ≤ s.packet_id
    → is_past_last s.last_window (acked % 16 + (s.packet_id - acked)) ≡ false
    → s.packet_id < length chunks
unfolding is_past_last
more_left chunks acked s h le not_past = elim h.last [
  | inl (unknown, more) ↦ more
  | inr (known, all) ↦ past known all
]
  where
    past :
        s.last_window ≡ pos ((length chunks - 1) % 16)
        → s.packet_id ≡ length chunks
        → s.packet_id < length chunks
    past known all =
        let within : ltb ((length chunks - 1) % 16) (acked % 16 + (s.packet_id - acked)) ≡ false =
          rw (is_past_last, known) at not_past in
        absurd (ground (arith, within, h.unfinished))

module _ (chunks : List (List ℕ)) (file : IsFile chunks) (acked : ℕ) (now : Time) (s : Sender)
    (h : Sending chunks acked s) where
  -- The state after the next chunk is read and sent.
  abbrev pub chunk : List ℕ
  chunk = get_or chunks s.packet_id []

  abbrev pub new_node : Node
  new_node = record { contents = chunk_packet chunks s.packet_id; size = 0 }

  abbrev pub loaded_state : Sender
  loaded_state = record s {
    alarm_list =
        set s.alarm_list (s.packet_id % 16)
          (record (alarm_of s s.packet_id) { size = length chunk });
    packet_id = s.packet_id + 1;
    last_window = if ltb (length chunk) buf_len then pos (s.packet_id % 16) else s.last_window;
    unread = joined (drop (s.packet_id + 1) chunks);
    root = s.root ++ new_node ∷ [];
  }

  pub load_packet-eq :
      (win_id : ℕ)
      → s.packet_id < length chunks
      → win_id ≡ length s.root
      → load_packet (s.packet_id % 16) win_id s ≡ some (loaded_state, new_node)
  unfolding load_packet chunk_packet
  load_packet-eq win_id more at =
      rw (there, get_none, load_packet, block_eq, rest_eq, id_eq, enqueue-append s.root) refl
    where
      there : alarm_at s.alarm_list (s.packet_id % 16) ≡ some (alarm_of s s.packet_id)
      there = alarm_at-slot_of s.alarm_list s.packet_id h.alarms_len

      get_none : get_k s.root win_id ≡ none
      get_none = get_k-get_elem? s.root win_id ∙ get_elem?_past s.root win_id (omega arith)

      block_eq : take 32768 s.unread ≡ chunk
      block_eq = ap (take 32768) h.rest ∙ take-chunk chunks file s.packet_id more

      rest_eq : drop 32768 s.unread ≡ joined (drop (s.packet_id + 1) chunks)
      rest_eq = ap (drop 32768) h.rest ∙ drop-chunk chunks file s.packet_id more

      id_eq : u32 (s.packet_id + 1) ≡ s.packet_id + 1
      id_eq = omega (arith, file.countable)

  -- The new alarm, whose size is that of the chunk.
  abbrev pub new_alarm : AlarmTime
  new_alarm = record (alarm_of s s.packet_id) {
    is_set = 1;
    size = length chunk;
    tv_sec = now.sec;
    tv_usec = now.usec;
  }

  abbrev pub sent_state : Sender
  sent_state = record loaded_state {
    alarm_list = armed now (s.packet_id % 16) loaded_state.alarm_list;
  }

  pub alarm_self : alarm_of sent_state s.packet_id ≡ new_alarm
  alarm_self =
      alarm_at-set_self loaded_state.alarm_list s.packet_id _
        (length-set s.alarm_list _ _ ∙ h.alarms_len)
      ∙ ap (λ (a : AlarmTime). record a { is_set = 1; tv_sec = now.sec; tv_usec = now.usec })
          (alarm_at-set_self s.alarm_list s.packet_id _ h.alarms_len)

  alarm_ne :
      (j : ℕ) → acked ≤ j → j < acked + 16 → s.packet_id ≢ j → alarm_of sent_state j ≡ alarm_of s j
  alarm_ne j lj hj ne =
      alarm_at-set_ne loaded_state.alarm_list acked s.packet_id j _ low high lj hj ne
      ∙ alarm_at-set_ne s.alarm_list acked s.packet_id j _ low high lj hj ne
    where
      low : acked ≤ s.packet_id
      low = omega (arith, h.count)

      high : s.packet_id < acked + 16
      high = omega (arith, h.count, h.few)

  node_new : node_of acked (s.root ++ new_node ∷ []) s.packet_id ≡ new_node
  node_new =
      let at : s.packet_id - acked ≡ length s.root = omega (arith, h.count) in
      rw at (get_or-append_last s.root new_node fresh_node)

  pub new_loaded : bytes_of acked sent_state s.packet_id ≡ chunk_packet chunks s.packet_id
  new_loaded =
      ap
        (λ (a : AlarmTime).
          take (a.size + 12) (node_of acked (s.root ++ new_node ∷ []) s.packet_id).contents)
        alarm_self
      ∙ ap (λ (n : Node). take (length chunk + 12) n.contents) node_new
      ∙ take_all (length chunk + 12) (chunk_packet chunks s.packet_id)
          (omega (arith, length-chunk_packet chunks file s.packet_id))

  pub sent_state-Sending :
      s.packet_id < length chunks → length s.root < 8 → Sending chunks acked sent_state
  sent_state-Sending more room = record {
    unfinished = h.unfinished;
    start = h.start;
    count = omega (arith, h.count, length-append s.root (new_node ∷ []));
    within = omega arith;
    few = omega (arith, length-append s.root (new_node ∷ []));
    rest = refl;
    alarms_len =
        length-set loaded_state.alarm_list _ _ ∙ length-set s.alarm_list _ _ ∙ h.alarms_len;
    last = elim (dec_lt (s.packet_id + 1) (length chunks)) [
      | yes later ↦
          let long : ltb (length chunk) 32768 ≡ false =
            ground (arith, file.full s.packet_id later) in
          elim h.last [
            | inl (unknown, _) ↦ rw long (inl (unknown, later))
            | inr (known, all) ↦ absurd (omega arith)
          ]
      | no final ↦
          let e : s.packet_id + 1 ≡ length chunks = omega arith in
          let short : ltb (length chunk) 32768 ≡ true = ground (arith, file.short s.packet_id e) in
          let number : s.packet_id ≡ length chunks - 1 = omega arith in
          rw short (inr (ap (λ k. pos (k % 16)) number, e))
    ];
    loaded = λ j lj hj. elim (dec_eq s.packet_id j) [
      | yes e ↦ rw (← e) new_loaded
      | no ne ↦
          let node_same : node_of acked (s.root ++ new_node ∷ []) j ≡ node_of acked s.root j =
            get_or-append_left s.root (new_node ∷ []) (j - acked) fresh_node
              (omega (arith, h.count)) in
          ap
            (λ (a : AlarmTime).
              take (a.size + 12) (node_of acked (s.root ++ new_node ∷ []) j).contents)
            (alarm_ne j lj (omega (arith, h.count)) ne)
          ∙ ap (λ (n : Node). take ((alarm_of s j).size + 12) n.contents) node_same
          ∙ h.loaded j lj (omega arith)
    ];
    busy = λ j lj hj. elim (dec_eq s.packet_id j) [
      | yes e ↦ λ z. absurd (
          omega (
            arith,
            ap (λ (x : AlarmTime). x.is_set) (ap (alarm_of sent_state) (sym e) ∙ alarm_self),
          ))
      | no ne ↦ rw (alarm_ne j lj (omega (arith, h.count)) ne) (h.busy j lj (omega arith))
    ];
    free = λ j lj hj.
        rw (alarm_ne j (omega (arith, h.count)) hj (omega arith)) (h.free j (omega arith) hj);
  }
