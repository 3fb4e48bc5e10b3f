-- ===== src/Transfer/Receiver/Files.antt =====
-- Files as `sendfile.c` reads them, and the packets of their chunks as `recvfile.c` reads these.
use comp429_computer_network.Base.{
  ℕ, ◌+◌, ◌%◌, ◌≤◌, ◌<◌, ◌≡◌, List, [], length, get_or, overwrite, arith, dec_lt, ◌==◌, true, ltb,
  if◌then◌else◌, ◌||◌,
}
use comp429_computer_network.Transfer.Packet.{chunk_packet}
use comp429_computer_network.Transfer.Packet.Data.{Reads, data_packet-Reads, length-data_packet}

-- A file as `fread` cuts it: every chunk but the last fills a packet, the last does not, and their
-- number fits the id.
pub record IsFile (chunks : List (List ℕ)) : Type 0 where
  pub countable : length chunks < 4294967295
  pub full : (j : ℕ) → j + 1 < length chunks → length (get_or chunks j []) ≡ 32768
  pub short : (j : ℕ) → j + 1 ≡ length chunks → length (get_or chunks j []) < 32768

sized-chunk :
    (chunks : List (List ℕ)) (j : ℕ)
    → IsFile chunks
    → j < length chunks
    → length (get_or chunks j []) ≤ 32768
sized-chunk chunks j file within = elim (dec_lt (j + 1) (length chunks)) [
  | yes more ↦ omega (arith, file.full j more)
  | no last ↦ omega (arith, file.short j (omega arith))
]

module _ (chunks : List (List ℕ)) (file : IsFile chunks) where
  pub chunk_type : ℕ → ℕ
  chunk_type j = if ltb (length (get_or chunks j [])) 32768 then 4 else 2

  pub chunk_packet-Reads :
      (j : ℕ) (buf : List ℕ)
      → j < length chunks
      → Reads
          (overwrite (chunk_packet chunks j) buf)
          (j % 16)
          (chunk_type j)
          (j + 1)
          (get_or chunks j [])
  unfolding chunk_packet chunk_type
  chunk_packet-Reads j buf within =
      data_packet-Reads (j % 16) _ (j + 1) (get_or chunks j []) buf (omega arith) (ground arith)
        (omega (arith, file.countable)) (sized-chunk chunks j file within)

  pub length-chunk_packet :
      (j : ℕ) → length (chunk_packet chunks j) ≡ length (get_or chunks j []) + 12
  unfolding chunk_packet
  length-chunk_packet j = length-data_packet (j % 16) _ (j + 1) (get_or chunks j [])

  pub type_passes : (j : ℕ) → (chunk_type j == 2 || chunk_type j == 4) ≡ true
  unfolding chunk_type
  type_passes j = ground arith

  pub type_four : (j : ℕ) → j < length chunks → (chunk_type j == 4) ≡ true → j + 1 ≡ length chunks
  unfolding chunk_type
  type_four j within four = elim (dec_lt (j + 1) (length chunks)) [
    | yes more ↦ absurd (ground (arith, file.full j more))
    | no last ↦ omega arith
  ]
