-- ===== src/Transfer/Sender/Window.antt =====
-- The sender's window against the file: which chunks its queue and its alarms stand for.
use comp429_computer_network.Base.{
  ℕ, ◌+◌, ◌-◌, ◌%◌, ◌≤◌, ◌<◌, ◌≡◌, ◌≢◌, ◌∙◌, ap, ◌⊎◌, List, length, get_or, set, take, drop, joined,
  arith, get_or-set_self, get_or-set_ne, length-set, dec_eq,
}
use comp429_computer_network.Base.Int.{pos, negsuc}
use comp429_computer_network.Transfer.Queue.{Node}
use comp429_computer_network.Transfer.Packet.{chunk_packet}
use comp429_computer_network.Transfer.Receiver.{fresh_node}
use comp429_computer_network.Transfer.Sender.{
  Sender, AlarmTime, Time, alarm_at, free_alarm, set_alarm,
}
use comp429_computer_network.Base.{zero, suc, refl, [], ◌∷◌, get_elem?, some}

-- A slot of the alarm list that is there.
abbrev pub slot_of : List AlarmTime → ℕ → AlarmTime
slot_of alarms k = get_or alarms k free_alarm

pub get_elem?-some :
    {A : Type 0} (xs : List A) (k : ℕ) (d : A)
    → k < length xs
    → get_elem? xs k ≡ some (get_or xs k d)
get_elem?-some [] k d h = absurd (omega arith)
get_elem?-some (x ∷ xs) zero d h = refl
get_elem?-some (x ∷ xs) (suc k) d h = get_elem?-some xs k d (omega arith)

pub alarm_at-slot_of :
    (alarms : List AlarmTime) (j : ℕ)
    → length alarms ≡ 16
    → alarm_at alarms (j % 16) ≡ some (slot_of alarms (j % 16))
alarm_at-slot_of alarms j h = get_elem?-some alarms (j % 16) free_alarm (omega arith)

-- The alarm list after `set_alarm`.
abbrev pub armed : Time → ℕ → List AlarmTime → List AlarmTime
armed now k alarms =
    set alarms k (record (slot_of alarms k) { is_set = 1; tv_sec = now.sec; tv_usec = now.usec })

pub set_alarm-armed :
    (now : Time) (alarms : List AlarmTime) (j : ℕ)
    → length alarms ≡ 16
    → set_alarm now (j % 16) alarms ≡ some (armed now (j % 16) alarms)
unfolding set_alarm
set_alarm-armed now alarms j h = rw (alarm_at-slot_of alarms j h) refl

-- The alarm and the node of chunk j, with `acked` chunks acknowledged.
abbrev pub alarm_of : Sender → ℕ → AlarmTime
alarm_of s j = slot_of s.alarm_list (j % 16)

abbrev pub node_of : ℕ → List Node → ℕ → Node
node_of acked root j = get_or root (j - acked) fresh_node

-- What `sendto` takes for chunk j.
abbrev pub bytes_of : ℕ → Sender → ℕ → List ℕ
bytes_of acked s j = take ((alarm_of s j).size + 12) (node_of acked s.root j).contents

-- The first `acked` chunks are acknowledged, those up to `packet_id` are read and wait in the queue as
-- whole packets, their alarms are set and no others, and `last_window` is known once all are read.
pub record Sending (chunks : List (List ℕ)) (acked : ℕ) (s : Sender) : Type 0 where
  pub unfinished : acked < length chunks
  pub start : s.la_seq ≡ acked % 16
  pub count : s.packet_id ≡ acked + length s.root
  pub within : s.packet_id ≤ length chunks
  pub few : length s.root ≤ 8
  pub rest : s.unread ≡ joined (drop s.packet_id chunks)
  pub alarms_len : length s.alarm_list ≡ 16
  pub last :
      ((s.last_window ≡ negsuc 0) × (s.packet_id < length chunks))
      ⊎ ((s.last_window ≡ pos ((length chunks - 1) % 16)) × (s.packet_id ≡ length chunks))
  pub loaded : (j : ℕ) → acked ≤ j → j < s.packet_id → bytes_of acked s j ≡ chunk_packet chunks j
  pub busy : (j : ℕ) → acked ≤ j → j < s.packet_id → (alarm_of s j).is_set ≢ 0
  pub free : (j : ℕ) → s.packet_id ≤ j → j < acked + 16 → (alarm_of s j).is_set ≡ 0

-- Storing one alarm of the circle leaves the 15 others.
pub alarm_at-set_self :
    (alarms : List AlarmTime) (j : ℕ) (a : AlarmTime)
    → length alarms ≡ 16
    → slot_of (set alarms (j % 16) a) (j % 16) ≡ a
alarm_at-set_self alarms j a h = get_or-set_self alarms (j % 16) a _ (omega arith)

pub alarm_at-set_ne :
    (alarms : List AlarmTime) (acked i j : ℕ) (a : AlarmTime)
    → acked ≤ i
    → i < acked + 16
    → acked ≤ j
    → j < acked + 16
    → i ≢ j
    → slot_of (set alarms (i % 16) a) (j % 16) ≡ slot_of alarms (j % 16)
alarm_at-set_ne alarms acked i j a li hi lj hj ne =
    get_or-set_ne alarms (i % 16) (j % 16) a _ (omega arith)

-- An alarm of a chunk on its way may change, but for its size and to free.
pub Sending-alarm :
    (chunks : List (List ℕ)) (acked i : ℕ) (s : Sender) (a : AlarmTime)
    → acked ≤ i
    → i < s.packet_id
    → a.is_set ≢ 0
    → a.size ≡ (alarm_of s i).size
    → Sending chunks acked s
    → Sending chunks acked (record s { alarm_list = set s.alarm_list (i % 16) a })
Sending-alarm chunks acked i s a li hi set_now same_size h = record {
  unfinished = h.unfinished;
  start = h.start;
  count = h.count;
  within = h.within;
  few = h.few;
  rest = h.rest;
  alarms_len = length-set s.alarm_list (i % 16) a ∙ h.alarms_len;
  last = h.last;
  loaded = λ j lj hj.
      ap (λ n. take (n + 12) (node_of acked s.root j).contents) (size_at j lj hj)
      ∙ h.loaded j lj hj;
  busy = λ j lj hj. elim (dec_eq i j) [
    | yes e ↦ rw (← e, alarm_at-set_self s.alarm_list i a h.alarms_len) set_now
    | no ne ↦ rw (other j lj (omega (arith, h.count, h.few)) ne) (h.busy j lj hj)
  ];
  free = λ j lj hj. rw (other j (omega arith) hj (omega arith)) (h.free j lj hj);
}
  where
    other :
        (j : ℕ)
        → acked ≤ j
        → j < acked + 16
        → i ≢ j
        → slot_of (set s.alarm_list (i % 16) a) (j % 16) ≡ slot_of s.alarm_list (j % 16)
    other j lj hj ne =
        alarm_at-set_ne s.alarm_list acked i j a li (omega (arith, h.count, h.few)) lj hj ne

    size_at :
        (j : ℕ)
        → acked ≤ j
        → j < s.packet_id
        → (slot_of (set s.alarm_list (i % 16) a) (j % 16)).size ≡ (alarm_of s j).size
    size_at j lj hj = elim (dec_eq i j) [
      | yes e ↦ rw (← e, alarm_at-set_self s.alarm_list i a h.alarms_len) same_size
      | no ne ↦ ap (λ (x : AlarmTime). x.size) (other j lj (omega (arith, h.count, h.few)) ne)
    ]
