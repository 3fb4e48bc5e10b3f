-- ===== src/Echo/Sockets/Receiving.antt =====
-- The receiving loop of `client.c`.
use comp429_computer_network.Base.{
  ℕ, ◌+◌, ◌≤◌, ◌<◌, ◌≡◌, refl, List, [], ◌∷◌, true, false, length, overwrite, ltb, arith,
}
use comp429_computer_network.Echo.Sockets.{ends, waits, Received, lost, got, write_at, receive_loop}

-- Every call stores at least a byte, and no more than it has room for.
abbrev pub Pieces : ℕ → ℕ → List Received → Type 0
Pieces size cnt [] = Unit
Pieces size cnt (lost ∷ rs) = ⊥
Pieces size cnt (got bytes ∷ rs) =
    (1 ≤ length bytes) × (cnt + length bytes ≤ size) × Pieces size (length bytes) rs

-- A reply that one call of `recv` stores whole ends the loop.
pub receive_loop-whole :
    (rs : List Received) (size : ℕ) (buf bytes : List ℕ)
    → length bytes ≡ size
    → 1 ≤ size
    → receive_loop (got bytes ∷ rs) size buf 0 ≡ ends (overwrite bytes buf)
unfolding receive_loop
receive_loop-whole rs size buf bytes all some_byte =
    let first : ltb 0 size ≡ true = ground arith in
    let past : ltb (length bytes) size ≡ false = ground arith in
    rw (receive_loop, first) (stop rs past)
  where
    stop :
        (rs : List Received)
        → ltb (length bytes) size ≡ false
        → receive_loop rs size (overwrite bytes buf) (length bytes) ≡ ends (overwrite bytes buf)
    stop [] past = unfold receive_loop in rw (receive_loop, past) refl
    stop (r ∷ rs) past = unfold receive_loop in rw (receive_loop, past) refl

receive_loop-waits_from :
    (rs : List Received) (size cnt : ℕ) (buf : List ℕ)
    → 1 ≤ cnt
    → cnt < size
    → Pieces size cnt rs
    → receive_loop rs size buf cnt ≡ waits
unfolding receive_loop
receive_loop-waits_from [] size cnt buf some_byte part ok =
    let going : ltb cnt size ≡ true = ground arith in rw (receive_loop, going) refl
receive_loop-waits_from (lost ∷ rs) size cnt buf some_byte part ok = absurd ok
receive_loop-waits_from (got bytes ∷ rs) size cnt buf some_byte part ok =
    let going : ltb cnt size ≡ true = ground arith in
    rw (receive_loop, going)
      (receive_loop-waits_from rs size (length bytes) (write_at buf cnt bytes) ok.0
        (omega (arith, ok.1)) ok.2)

-- Once a call of `recv` has stored a part of the reply and not all of it, the client's loop never
-- ends, however many pieces follow: the count is the last piece's, not the sum of all.
pub receive_loop-waits :
    (rs : List Received) (size : ℕ) (buf bytes : List ℕ)
    → 1 ≤ length bytes
    → length bytes < size
    → Pieces size (length bytes) rs
    → receive_loop (got bytes ∷ rs) size buf 0 ≡ waits
unfolding receive_loop
receive_loop-waits rs size buf bytes some_byte part ok =
    let first : ltb 0 size ≡ true = ground arith in
    rw (receive_loop, first)
      (receive_loop-waits_from rs size (length bytes) (overwrite bytes buf) some_byte part ok)
