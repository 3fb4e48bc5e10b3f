-- ===== src/Echo/Sockets/Sending.antt =====
-- The sending loop of `client.c` and `sendingMsgs` of `web.c`.
use comp429_computer_network.Base.{
  ℕ, zero, suc, ◌+◌, ◌-◌, ◌≤◌, ◌<◌, ◌≡◌, refl, subst, ap, List, [], ◌∷◌, ◌++◌, true, false, length,
  take, drop, ltb, arith, Bool-cases, inl, inr,
}
use comp429_computer_network.Echo.Sockets.{ends, Sent, failed, took, send_loop}

-- Every call that is made takes at least a byte, and no more than it is offered.
abbrev pub Accepts : ℕ → ℕ → List Sent → Type 0
Accepts size cnt [] = Unit
Accepts size cnt (failed ∷ rs) = cnt < size → ⊥
Accepts size cnt (took n ∷ rs) = cnt < size → (1 ≤ n) × (cnt + n ≤ size) × Accepts size (cnt + n) rs

take-drop_add : (a b : ℕ) (xs : List ℕ) → take a xs ++ take b (drop a xs) ≡ take (a + b) xs
take-drop_add zero b xs = let e : 0 + b ≡ b = omega arith in rw e refl
take-drop_add (suc a) b [] = let e : suc a + b ≡ suc (a + b) = omega arith in rw e (nothing b)
  where
    nothing : (b : ℕ) → take {A = ℕ} b [] ≡ []
    nothing zero = refl
    nothing (suc b) = refl
take-drop_add (suc a) b (x ∷ xs) =
    let e : suc a + b ≡ suc (a + b) = omega arith in rw e (ap (◌∷◌ x) (take-drop_add a b xs))

send_loop-ends_from :
    (rs : List Sent) (size cnt : ℕ) (buf : List ℕ)
    → cnt ≤ size
    → size ≤ cnt + length rs
    → Accepts size cnt rs
    → send_loop rs size buf cnt (take cnt buf) ≡ ends (take size buf)
unfolding send_loop
send_loop-ends_from [] size cnt buf within enough ok =
    let whole : cnt ≡ size = omega arith in
    let past : ltb cnt size ≡ false = ground arith in
    rw (send_loop, past) (ap (λ (k : ℕ). ends (take k buf)) whole)
send_loop-ends_from (failed ∷ rs) size cnt buf within enough ok = elim (Bool-cases (ltb cnt size)) [
  | inl going ↦ absurd (ok (ground (arith, going)))
  | inr past ↦
      let whole : cnt ≡ size = ground (arith, past) in
      rw (send_loop, past) (ap (λ (k : ℕ). ends (take k buf)) whole)
]
send_loop-ends_from (took n ∷ rs) size cnt buf within enough ok = elim (Bool-cases (ltb cnt size)) [
  | inl going ↦
      let (some_byte, fits, rest) = ok (ground (arith, going)) in
      rw (send_loop, going, take-drop_add cnt n buf)
        (send_loop-ends_from rs size (cnt + n) buf fits (omega arith) rest)
  | inr past ↦
      let whole : cnt ≡ size = ground (arith, past) in
      rw (send_loop, past) (ap (λ (k : ℕ). ends (take k buf)) whole)
]

-- The sending loop ends within `size` calls when each takes at least a byte of what it is offered, and
-- what has gone out is then the message, every byte once and in order.
pub send_loop-ends :
    (rs : List Sent) (size : ℕ) (buf : List ℕ)
    → size ≤ length rs
    → Accepts size 0 rs
    → send_loop rs size buf 0 [] ≡ ends (take size buf)
send_loop-ends rs size buf enough ok =
    send_loop-ends_from rs size 0 buf (omega arith) (omega arith) ok

-- A failure after some bytes went out sends the last of them once more.
pub send_loop-repeats :
    (size n : ℕ) (buf : List ℕ)
    → n + 1 < size
    → send_loop (took (n + 1) ∷ failed ∷ took (size - n) ∷ []) size buf 0 []
      ≡ ends (take (n + 1) buf ++ take (size - n) (drop n buf))
unfolding send_loop
send_loop-repeats size n buf near =
    let first : ltb 0 size ≡ true = ground arith in
    let at : suc n ≡ 0 + (n + 1) = omega arith in
    rw (send_loop, first)
      (subst
        (λ (c : ℕ).
          send_loop (failed ∷ took (size - n) ∷ []) size buf c (take (n + 1) buf)
          ≡ ends (take (n + 1) buf ++ take (size - n) (drop n buf)))
        at (resent (take (n + 1) buf)))
  where
    resent :
        (out : List ℕ)
        → send_loop (failed ∷ took (size - n) ∷ []) size buf (suc n) out
          ≡ ends (out ++ take (size - n) (drop n buf))
    resent out =
        let second : ltb (suc n) size ≡ true = ground arith in
        let third : ltb n size ≡ true = ground arith in
        let last : ltb (n + (size - n)) size ≡ false = ground arith in
        unfold send_loop in rw (send_loop, second, third, last) refl
