-- ===== src/Echo/Node/Pieces.antt =====
-- One piece of a message through `serverRecieving`.
use comp429_computer_network.Base.{
  ℕ, zero, suc, ◌+◌, ◌≤◌, ◌<◌, ◌≡◌, refl, sym, ap, ◌∙◌, List, [], ◌∷◌, ◌++◌, true, false, length,
  take, drop, overwrite, ◌==◌, if◌then◌else◌, arith, load16, htons, length-append,
  take-drop-overwrite, ==_iff,
}
use comp429_computer_network.Echo.Sockets.{write_at}
use comp429_computer_network.Echo.Node.{Node, after_receive}

-- A node that has taken the first bytes of a message whose length it knows.
pub record Holding (before : List ℕ) (size : ℕ) (n : Node) : Type 0 where
  pub room : size ≤ length n.buffer
  pub at : n.added_pos ≡ length before
  pub known : n.len_buffer ≡ size
  pub idle : n.pending_data ≡ 0
  pub held : take (length before) n.buffer ≡ before

-- A node that has the whole message and has not sent any of it.
pub record Ready (message : List ℕ) (n : Node) : Type 0 where
  pub pending : n.pending_data ≡ 1
  pub from_start : n.added_pos ≡ 0
  pub known : n.len_buffer ≡ length message
  pub held : take (length message) n.buffer ≡ message
  pub room : length message ≤ length n.buffer

module _ {ℓ} {A : Type ℓ} where
  take-append_more : (xs ys : List A) (n : ℕ) → take (length xs + n) (xs ++ ys) ≡ xs ++ take n ys
  take-append_more [] ys n = let e : 0 + n ≡ n = omega arith in rw e refl
  take-append_more (x ∷ xs) ys n =
      let e : suc (length xs) + n ≡ suc (length xs + n) = omega arith in
      rw e (ap (◌∷◌ x) (take-append_more xs ys n))

length-take_le : (n : ℕ) (xs : List ℕ) → n ≤ length xs → length (take n xs) ≡ n
length-take_le zero xs h = refl
length-take_le (suc n) [] h = absurd (omega arith)
length-take_le (suc n) (x ∷ xs) h = ap suc (length-take_le n xs (omega arith))

take-write_at :
    (buf p : List ℕ) (off : ℕ)
    → off ≤ length buf
    → take (off + length p) (write_at buf off p) ≡ take off buf ++ p
take-write_at buf p off h =
    let len = length-take_le off buf h in
    ap (λ (k : ℕ). take (k + length p) (write_at buf off p)) (sym len)
    ∙ take-append_more (take off buf) (overwrite p (drop off buf)) (length p)
    ∙ ap (λ t. take off buf ++ t) (take-drop-overwrite 0 (length p) p (drop off buf) (omega arith))

length-overwrite_le : (xs ys : List ℕ) → length ys ≤ length (overwrite xs ys)
length-overwrite_le [] ys = omega arith
length-overwrite_le (x ∷ xs) [] = omega arith
length-overwrite_le (x ∷ xs) (y ∷ ys) = omega (arith, length-overwrite_le xs ys)

pub length-write_at : (buf p : List ℕ) (off : ℕ) → length buf ≤ length (write_at buf off p)
length-write_at buf p off = omega (
  arith,
  length-append (take off buf) (overwrite p (drop off buf)),
  length-overwrite_le p (drop off buf),
  split off buf,
)
  where
    split : (n : ℕ) (xs : List ℕ) → length xs ≡ length (take n xs) + length (drop n xs)
    split zero xs = omega arith
    split (suc n) [] = omega arith
    split (suc n) (x ∷ xs) = omega (arith, split n xs)

-- The length that the node goes by once a piece is there.
abbrev pub len_with : List ℕ → Node → ℕ
len_with p n =
    if n.len_buffer == 0 then htons (load16 (write_at n.buffer n.added_pos p) 0) else n.len_buffer

-- One piece, at a node that has the bytes before it.
module _ (before p : List ℕ) (size : ℕ) (n : Node) (room : size ≤ length n.buffer)
    (at : n.added_pos ≡ length before) (idle : n.pending_data ≡ 0)
    (held : take (length before) n.buffer ≡ before) (len_eq : len_with p n ≡ size)
    (fits : length before + length p ≤ size) where
  held_now :
      (k : ℕ)
      → k ≡ length before + length p
      → take k (write_at n.buffer n.added_pos p) ≡ before ++ p
  held_now k e =
      rw (e, at) (take-write_at n.buffer p (length before) (omega arith) ∙ ap (λ t. t ++ p) held)

  pub piece-Holding :
      length before + length p < size → Holding (before ++ p) size (after_receive p n)
  unfolding after_receive
  piece-Holding part =
      let more : ((n.added_pos + length p) == size) ≡ false = ground (arith, at) in
      rw (len_eq, more)
        (record {
          room = omega (arith, length-write_at n.buffer p n.added_pos);
          at = omega (arith, at, length-append before p);
          known = refl;
          idle = idle;
          held = held_now (length (before ++ p)) (length-append before p);
        })

  pub piece-Ready : length before + length p ≡ size → Ready (before ++ p) (after_receive p n)
  unfolding after_receive
  piece-Ready all =
      let done : ((n.added_pos + length p) == size) ≡ true =
        (==_iff (n.added_pos + length p) size).1 (omega (arith, at)) in
      rw (len_eq, done)
        (record {
          pending = refl;
          from_start = refl;
          known = omega (arith, length-append before p);
          held = held_now (length (before ++ p)) (length-append before p);
          room = omega (arith, length-append before p, length-write_at n.buffer p n.added_pos);
        })

pub len_with-known :
    (p : List ℕ) (size : ℕ) (n : Node) → n.len_buffer ≡ size → 1 ≤ size → len_with p n ≡ size
len_with-known p size n known some_byte =
    let not_new : (n.len_buffer == 0) ≡ false = ground arith in rw not_new known
