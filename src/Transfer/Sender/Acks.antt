-- ===== src/Transfer/Sender/Acks.antt =====
-- Acknowledgements in `sendfile.c`: the window moves past the chunks that the receiver has.
use comp429_computer_network.Base.{
  ℕ, zero, suc, ◌+◌, ◌-◌, ◌%◌, ◌≤◌, ◌<◌, ◌≡◌, refl, ◌∙◌, ap, List, [], ◌∷◌, length, get_or, set,
  take, arith, length-set, dec_eq, dec_lt, true, false, ltb,
}
use comp429_computer_network.Base.Int.{ℤ, pos}
use comp429_computer_network.Transfer.Util.{seq_len}
use comp429_computer_network.Transfer.Queue.{Node}
use comp429_computer_network.Transfer.Receiver.{fresh_node}
use comp429_computer_network.Transfer.Sender.{Sender, AlarmTime}
use comp429_computer_network.Transfer.Sender.Window.{
  Sending, alarm_of, node_of, alarm_at-slot_of, alarm_at-set_self, alarm_at-set_ne,
}
use comp429_computer_network.Transfer.Util.{between, mod_int}
use comp429_computer_network.Transfer.Queue.{dequeue}
use comp429_computer_network.Transfer.Sender.Sent.{IsLater}
use comp429_computer_network.Base.{some}
use comp429_computer_network.Transfer.Sender.{clear_acked}

-- One number freed.
module _ (chunks : List (List ℕ)) (acked : ℕ) (s : Sender) (h : Sending chunks acked s)
    (read : acked < s.packet_id) (more : acked + 1 < length chunks) where
  abbrev freed_alarm : AlarmTime
  freed_alarm = record (alarm_of s acked) { is_set = 0 }

  abbrev freed : Sender
  freed = record s {
    la_seq = (acked + 1) % 16;
    alarm_list = set s.alarm_list (acked % 16) freed_alarm;
    root = dequeue s.root;
  }

  other : (j : ℕ) → acked + 1 ≤ j → j < acked + 16 → alarm_of freed j ≡ alarm_of s j
  other j lj hj =
      alarm_at-set_ne s.alarm_list acked acked j freed_alarm (omega arith) (omega arith)
        (omega arith) hj (omega arith)

  length-dequeue : (q : List Node) → length (dequeue q) ≡ length q - 1
  unfolding dequeue
  length-dequeue [] = refl
  length-dequeue (n ∷ q) = omega arith

  get_or-dequeue :
      (q : List Node) (k : ℕ) → get_or (dequeue q) k fresh_node ≡ get_or q (k + 1) fresh_node
  unfolding dequeue
  get_or-dequeue [] k = refl
  get_or-dequeue (n ∷ q) k = let e : k + 1 ≡ suc k = omega arith in rw e refl

  freed-Sending : Sending chunks (acked + 1) freed
  freed-Sending = record {
    unfinished = more;
    start = refl;
    count = omega (arith, h.count, length-dequeue s.root);
    within = h.within;
    few = omega (arith, h.few, length-dequeue s.root);
    rest = h.rest;
    alarms_len = length-set s.alarm_list _ _ ∙ h.alarms_len;
    last = h.last;
    loaded = λ j lj hj.
        let at : j - (acked + 1) + 1 ≡ j - acked = omega arith in
        let node_same : node_of (acked + 1) (dequeue s.root) j ≡ node_of acked s.root j =
          get_or-dequeue s.root (j - (acked + 1)) ∙ ap (λ k. get_or s.root k fresh_node) at in
        ap (λ (a : AlarmTime). take (a.size + 12) (node_of (acked + 1) (dequeue s.root) j).contents)
          (other j lj (omega (arith, h.count, h.few)))
        ∙ ap (λ (n : Node). take ((alarm_of s j).size + 12) n.contents) node_same
        ∙ h.loaded j (omega arith) hj;
    busy = λ j lj hj. rw (other j lj (omega (arith, h.count, h.few))) (h.busy j (omega arith) hj);
    free = λ j lj hj. elim (dec_lt j (acked + 16)) [
      | yes near ↦ rw (other j (omega (arith, read)) near) (h.free j lj near)
      | no far ↦
          let round : j % 16 ≡ acked % 16 = omega arith in
          rw (round, alarm_at-set_self s.alarm_list acked freed_alarm h.alarms_len) refl
    ];
  }

-- The variables of the acknowledgements do not matter to the window.
pub Sending-misc :
    (chunks : List (List ℕ)) (acked : ℕ) (s : Sender) (last_ack_time : ℕ) (timeout : ℤ)
    (buf : List ℕ)
    → Sending chunks acked s
    → Sending chunks acked
        (record s { last_ack_time = last_ack_time; timeout = timeout; buf = buf })
Sending-misc chunks acked s last_ack_time timeout buf h = record {
  unfinished = h.unfinished;
  start = h.start;
  count = h.count;
  within = h.within;
  few = h.few;
  rest = h.rest;
  alarms_len = h.alarms_len;
  last = h.last;
  loaded = h.loaded;
  busy = h.busy;
  free = h.free;
}

-- The numbers that an acknowledgement of c chunks covers, counted from the window's start.
between-run :
    (la c d : ℕ)
    → la < 16
    → 1 ≤ c
    → c ≤ 8
    → d < 8
    → between la ((la + c + 15) % 16) (mod_int (pos (la + d)) seq_len) ≡ ltb d c
unfolding between mod_int
between-run la c d hl lo hi near = ground arith

module _ (chunks : List (List ℕ)) (acked c : ℕ) (some_acked : 1 ≤ c) (few : c ≤ 8)
    (more : acked + c < length chunks) where
  abbrev la : ℕ
  la = acked % 16

  abbrev ack_num : ℕ
  ack_num = (la + c + 15) % 16

  clear_acked-past :
      (left d : ℕ) (s : Sender)
      → c ≤ d
      → d + left ≡ 8
      → clear_acked la ack_num left (la + d) s ≡ some s
  unfolding clear_acked
  clear_acked-past zero d s past all = refl
  clear_acked-past (suc left) d s past all =
      let outside : ltb d c ≡ false = ground arith in
      let next : la + d + 1 ≡ la + (d + 1) = omega arith in
      rw (clear_acked, between-run la c d (omega arith) some_acked few (omega arith), outside, next)
        (clear_acked-past left (d + 1) s (omega arith) (omega arith))

  clear_acked-round :
      (left d : ℕ) (s : Sender)
      → d < c
      → length s.alarm_list ≡ 16
      → clear_acked la ack_num (suc left) (la + d) s
        ≡ clear_acked la ack_num left (la + (d + 1)) (record s {
          alarm_list =
              set s.alarm_list ((acked + d) % 16) (record (alarm_of s (acked + d)) { is_set = 0 });
          root = dequeue s.root;
        })
  unfolding clear_acked
  clear_acked-round left d s lt len =
      let inside : ltb d c ≡ true = ground arith in
      let next : la + d + 1 ≡ la + (d + 1) = omega arith in
      let number : (la + d) % 16 ≡ (acked + d) % 16 = omega arith in
      rw
        (
          clear_acked,
          between-run la c d (omega arith) some_acked few (omega arith),
          inside,
          next,
          number,
          alarm_at-slot_of s.alarm_list (acked + d) len,
        )
        refl

  pub clear_acked-Sending :
      (left d : ℕ) (s : Sender)
      → d ≤ c
      → d + left ≡ 8
      → acked + c ≤ s.packet_id
      → Sending chunks (acked + d) (record s { la_seq = (acked + d) % 16 })
      → (t : Sender) × (clear_acked la ack_num left (la + d) s ≡ some t)
        × Sending chunks (acked + c) (record t { la_seq = (acked + c) % 16 })
        × IsLater s t
  unfolding clear_acked
  clear_acked-Sending zero d s le all read h =
      let e : d ≡ c = omega arith in (s, refl, rw e at h, (omega arith, refl))
  clear_acked-Sending (suc left) d s le all read h = elim (dec_eq d c) [
    | yes e ↦ (s, clear_acked-past (suc left) d s (omega arith) all, rw e at h, (omega arith, refl))
    | no ne ↦
        let freed_here = freed-Sending chunks (acked + d) _ h (omega arith) (omega arith) in
        let shift : acked + d + 1 ≡ acked + (d + 1) = omega arith in
        let (t, done, sending, later) =
          clear_acked-Sending left (d + 1)
            (record s {
              alarm_list =
                  set s.alarm_list ((acked + d) % 16)
                    (record (alarm_of s (acked + d)) { is_set = 0 });
              root = dequeue s.root;
            })
            (omega arith) (omega arith) read (rw shift at freed_here) in
        (t, clear_acked-round left d s (omega arith) h.alarms_len ∙ done, sending, later)
  ]
