-- ===== src/Transfer/Util.antt =====
-- project2/util.h and util.c: window arithmetic modulo the sequence space, and the checksum.
use comp429_computer_network.Base.{
  ℕ, suc, ◌+◌, ◌-◌, ◌/◌, ◌%◌, ◌≤◌, ◌<◌, ◌≡◌, ◌↔◌, Bool, true, ◌&&◌, ◌||◌, not, List, [], ◌∷◌, arith,
  ltb, leb, ◌==◌, if◌then◌else◌,
}
use comp429_computer_network.Base.Int.{ℤ, pos, negsuc, rem, sub_ℕ}

abbrev pub window_len : ℕ
window_len = 8

abbrev pub seq_len : ℕ
seq_len = 16

abbrev pub buf_len : ℕ
buf_len = 32768

-- No caller passes a negative `int`.
unfoldable pub between : ℕ → ℕ → ℕ → Bool
between low high ack_num =
    if leb low high
    then leb low ack_num && leb ack_num high
    else leb low ack_num || leb ack_num high

unfoldable pub map_to_window : ℕ → ℕ → ℕ
map_to_window low ind = if ltb ind low then ind + (seq_len - low) else ind - low

-- `mod`, with a positive modulus.
unfoldable pub mod_int : ℤ → ℕ → ℕ
mod_int a b = elim (rem a b) [ pos r ↦ r | negsuc r ↦ b - suc r ]

-- How far `x` lies after `low` on the circle of sequence numbers.
abbrev pub distance : ℕ → ℕ → ℕ
distance low x = (x + 16 - low) % 16

-- For sequence numbers, `between` is membership of the arc that goes up from `low` to `high`, across
-- the wrap as well.
pub between-distance :
    (low high x : ℕ)
    → low < 16
    → high < 16
    → x < 16
    → (between low high x ≡ true) ↔ (distance low x ≤ distance low high)
unfolding between
between-distance low high x hl hh hx = ground arith

-- For sequence numbers, `map_to_window` is the distance from the window's start.
pub map_to_window-distance :
    (low ind : ℕ) → low < 16 → ind < 16 → map_to_window low ind ≡ distance low ind
unfolding map_to_window
map_to_window-distance low ind hl hi = ground arith

-- The window test of both programs: `x` is accepted exactly at a distance below the window's length.
pub between_window :
    (low x : ℕ)
    → low < 16
    → x < 16
    → (between low ((low + window_len - 1) % seq_len) x ≡ true) ↔ (distance low x < 8)
unfolding between
between_window low x hl hx = ground arith

-- The acknowledgement number that the receiver sends, `mod(la_seq - 1, SEQ_LEN)`.
pub mod_int_pred : (la : ℕ) → la < 16 → mod_int (sub_ℕ la 1) seq_len ≡ (la + 15) % 16
unfolding mod_int
mod_int_pred la h = ground arith

-- One word added with end-around carry; `& 0xFFFF0000` tests bits 16 to 31.
unfoldable pub add_word : ℕ → ℕ → ℕ
add_word sum w = let s = sum + w in if not (s / 65536 % 65536 == 0) then s % 65536 + 1 else s

unfoldable pub chksum_loop : ℕ → List ℕ → ℕ
chksum_loop sum [] = sum
chksum_loop sum (w ∷ ws) = chksum_loop (add_word sum w) ws

-- `count` is the list's length.
unfoldable pub chksum : List ℕ → ℕ
chksum buf = 65535 - chksum_loop 0 buf % 65536

-- The same function in util.c.
unfoldable pub cksum : List ℕ → ℕ
cksum buf = 65535 - chksum_loop 0 buf % 65536
