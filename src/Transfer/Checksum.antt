-- ===== src/Transfer/Checksum.antt =====
-- The checksum of project2/util.h and util.c as a sum modulo 65535.
use comp429_computer_network.Base.{
  ℕ, ◌+◌, ◌-◌, ◌%◌, ◌<◌, ◌≡◌, List, [], ◌∷◌, ◌++◌, arith, ◌==◌, if◌then◌else◌, All, ◌∙◌,
}
use comp429_computer_network.Transfer.Util.{add_word, chksum_loop, chksum}

abbrev pub IsWord : ℕ → Type 0
IsWord w = w < 65536

abbrev pub total : List ℕ → ℕ
total [] = 0
total (w ∷ ws) = w + total ws

-- The representative from 1 to 65535 of a positive sum modulo 65535, and 0 of 0.
abbrev pub ones_complement : ℕ → ℕ
ones_complement n = if n == 0 then 0 else (n - 1) % 65535 + 1

add_word-step :
    (sum w rest : ℕ)
    → IsWord sum
    → IsWord w
    → (IsWord (add_word sum w))
      × (ones_complement (add_word sum w + rest) ≡ ones_complement (sum + (w + rest)))
unfolding add_word
add_word-step sum w rest hs hw = ground arith

chksum_loop-eq :
    (sum : ℕ) (ws : List ℕ)
    → IsWord sum
    → All IsWord ws
    → chksum_loop sum ws ≡ ones_complement (sum + total ws)
unfolding chksum_loop
chksum_loop-eq sum [] hs h = ground arith
chksum_loop-eq sum (w ∷ ws) hs h =
    chksum_loop-eq (add_word sum w) ws (add_word-step sum w (total ws) hs h.0).0 h.1
    ∙ (add_word-step sum w (total ws) hs h.0).1

-- The loop with its early carries computes the complement of the one's complement sum of the words.
pub chksum-ones_complement :
    (ws : List ℕ) → All IsWord ws → chksum ws ≡ 65535 - ones_complement (total ws)
unfolding chksum
chksum-ones_complement ws h = ground (arith, chksum_loop-eq 0 ws (omega arith) h)

total-append : (xs ys : List ℕ) → total (xs ++ ys) ≡ total xs + total ys
total-append [] ys = omega arith
total-append (x ∷ xs) ys = omega (arith, total-append xs ys)

chksum-IsWord : (ws : List ℕ) → IsWord (chksum ws)
unfolding chksum
chksum-IsWord ws = omega arith

All-snoc : (ws : List ℕ) (w : ℕ) → All IsWord ws → IsWord w → All IsWord (ws ++ w ∷ [])
All-snoc [] w h hw = (hw, tt)
All-snoc (x ∷ xs) w h hw = (h.0, All-snoc xs w h.1 hw)

-- Words followed by their own checksum have the checksum 0, which is how a receiver verifies them.
pub chksum-verifies : (ws : List ℕ) → All IsWord ws → chksum (ws ++ chksum ws ∷ []) ≡ 0
chksum-verifies ws h = ground (
  arith,
  chksum-ones_complement ws h,
  chksum-ones_complement (ws ++ chksum ws ∷ []) (All-snoc ws (chksum ws) h (chksum-IsWord ws)),
  total-append ws (chksum ws ∷ []),
)
