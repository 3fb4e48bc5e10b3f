-- ===== src/Echo/Node/Lists.antt =====
-- The list of connections under `add` and `dump`.
use comp429_computer_network.Base.{
  ℕ, ◌≡◌, ◌≢◌, refl, ◌↔◌, inl, inr, List, [], ◌∷◌, In, Unrepeated, arith, ◌==◌, true, Bool-cases,
  ==_iff, ◌∙◌, sym,
}
use comp429_computer_network.Echo.Node.{Node, add, dump}

abbrev pub sockets : List Node → List ℕ
sockets [] = []
sockets (n ∷ nodes) = n.socket ∷ sockets nodes

-- A connection that was just added is taken out again, and no other.
pub dump-add :
    (memory : List ℕ) (socket addr : ℕ) (nodes : List Node)
    → dump socket (add memory socket addr nodes) ≡ nodes
unfolding dump add
dump-add memory socket addr nodes =
    let same : (socket == socket) ≡ true = (==_iff socket socket).1 refl in rw same refl

dump-In_fwd :
    (socket k : ℕ) (nodes : List Node)
    → Unrepeated (sockets nodes)
    → In k (sockets (dump socket nodes))
    → In k (sockets nodes) × (k ≢ socket)
unfolding dump
dump-In_fwd socket k [] once i = absurd i
dump-In_fwd socket k (n ∷ nodes) once i = elim (Bool-cases (n.socket == socket)) [
  | inl found ↦
      let kept : In k (sockets nodes) = rw (dump, found) at i in
      (inr kept, λ e. once.0 (rw ((==_iff n.socket socket).0 found ∙ sym e) kept))
  | inr other ↦
      let i' : In k (n.socket ∷ sockets (dump socket nodes)) = rw (dump, other) at i in
      elim i' [
        | inl e ↦ (inl e, ground (arith, other))
        | inr j ↦ let (kept, ne) = dump-In_fwd socket k nodes once.1 j in (inr kept, ne)
      ]
]

dump-In_bwd :
    (socket k : ℕ) (nodes : List Node)
    → k ≢ socket
    → In k (sockets nodes)
    → In k (sockets (dump socket nodes))
unfolding dump
dump-In_bwd socket k [] ne i = absurd i
dump-In_bwd socket k (n ∷ nodes) ne i = elim (Bool-cases (n.socket == socket)) [
  | inl found ↦
      rw (dump, found)
        (elim i [ inl e ↦ absurd (ne (e ∙ (==_iff n.socket socket).0 found)) | inr j ↦ j ])
  | inr other ↦
      rw (dump, other) (elim i [ inl e ↦ inl e | inr j ↦ inr (dump-In_bwd socket k nodes ne j) ])
]

-- With one node for each socket, `dump` takes out the node of the socket, and no other.
pub dump-In :
    (socket k : ℕ) (nodes : List Node)
    → Unrepeated (sockets nodes)
    → In k (sockets (dump socket nodes)) ↔ (In k (sockets nodes) × (k ≢ socket))
dump-In socket k nodes once =
    (dump-In_fwd socket k nodes once, λ h. dump-In_bwd socket k nodes h.1 h.0)
