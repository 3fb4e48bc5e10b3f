-- ===== src/Transfer/Packet.antt =====
-- The packets of project2: 2 bytes of CRC, then sequence number, acknowledgement number and type of
-- 2 bytes each, then the packet's id (data) or a time of two words (acknowledgement), then the data.
pub mod Data
pub mod Ack
use comp429_computer_network.Base.{
  ℕ, zero, suc, ◌+◌, ◌-◌, ◌*◌, ◌/◌, ◌%◌, ◌≤◌, ◌<◌, ◌≡◌, refl, List, [], Bool, true, false, sym, ◌∷◌,
  ◌++◌, arith, Option, none, some, length, get_elem?, get_or, if◌then◌else◌, ltb, drop, ap,
  length-append, u16, u32, store16, store32, load16, load32, htons, htonl, take, replicate,
  overwrite, ◌==◌, htons-htons, htonl-htonl, ◌∙◌, load16-overwrite, load32-overwrite, ==_iff,
  take-drop-overwrite, length-store16, length-store32, load16-store16_self, load16-store16_ne,
  load16-store32_ne, load32-store16_ne, load32-store32_self, take-length, htons-lt, htonl-lt,
}
use comp429_computer_network.Transfer.Crc.{calc_crc16, calc_crc16-lt}
use comp429_computer_network.Transfer.Util.{seq_len, buf_len}
use comp429_computer_network.Base.Int.{sub_ℕ}

-- `calc_crc16(buf + off, n)`; its second parameter is an `unsigned short`.
unfoldable pub crc_at : List ℕ → ℕ → ℕ → ℕ
crc_at buf off n = calc_crc16 (take (u16 n) (drop off buf))

-- The header that `sendfile.c` writes before the data of `node_id->data`, 12 bytes in. The last
-- packet has type 4, the others type 2.
unfoldable pub data_packet : ℕ → ℕ → ℕ → List ℕ → List ℕ
data_packet seq type packet_id payload =
    let with_seq = store16 (replicate 12 0 ++ payload) 2 (htons seq) in
    let with_ack = store16 with_seq 4 (htons 0) in
    let with_type = store16 with_ack 6 (htons type) in
    let with_id = store32 with_type 8 (htonl packet_id) in
    store16 with_id 0 (htons (crc_at with_id 2 (length payload + 10)))

-- The packet of chunk number j of the file, as the sender numbers them: the sequence number goes round
-- modulo 16, the id counts from 1, and a chunk that `fread` could not fill is the last.
unfoldable pub chunk_packet : List (List ℕ) → ℕ → List ℕ
chunk_packet chunks j =
    let payload = get_or chunks j [] in
    data_packet (j % seq_len) (if ltb (length payload) buf_len then 4 else 2) (j + 1) payload

-- The acknowledgement that `recvfile.c` sends, 16 bytes.
unfoldable pub ack_packet : ℕ → ℕ → ℕ → List ℕ
ack_packet ack_num sec usec =
    let with_seq = store16 (replicate 16 0) 2 (htons 0) in
    let with_ack = store16 with_seq 4 (htons ack_num) in
    let with_type = store16 with_ack 6 (htons 1) in
    let with_sec = store32 with_type 8 (htonl sec) in
    let with_usec = store32 with_sec 12 (htonl usec) in
    store16 with_usec 0 (htons (crc_at with_usec 2 14))

-- What both programs test of a received packet of `n` bytes in `buf`.
unfoldable pub crc_matches : List ℕ → ℕ → Bool
crc_matches buf n = htons (load16 buf 0) == crc_at buf 2 (n - 2)

unfoldable pub seq_field : List ℕ → ℕ
seq_field buf = htons (load16 buf 2)

unfoldable pub ack_field : List ℕ → ℕ
ack_field buf = htons (load16 buf 4)

unfoldable pub type_field : List ℕ → ℕ
type_field buf = htons (load16 buf 6)

unfoldable pub id_field : List ℕ → ℕ
id_field buf = htonl (load32 buf 8)

unfoldable pub usec_field : List ℕ → ℕ
usec_field buf = htonl (load32 buf 12)
