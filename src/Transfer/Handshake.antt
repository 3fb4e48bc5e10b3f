-- ===== src/Transfer/Handshake.antt =====
-- The handshakes of project2: sendfile.c sends the file's name until recvfile.c acknowledges it. `none`
-- is a write outside a buffer, or a CRC over more than the buffer.
use comp429_computer_network.Base.{
  ℕ, ◌+◌, ◌-◌, ◌*◌, ◌≤◌, ◌<◌, ◌≡◌, refl, List, [], ◌∷◌, ◌++◌, true, false, not, ◌&&◌, Option, some,
  none, length, take, drop, replicate, overwrite, ltb, ◌==◌, if◌then◌else◌, u32, store16, store32,
  htons, htonl, arith, length-append, length-store16, length-store32, length-replicate, ◌∙◌, ◌>>=◌,
}
use comp429_computer_network.Transfer.Util.{seq_len}
use comp429_computer_network.Transfer.Packet.{
  crc_at, data_packet, ack_packet, crc_matches, ack_field, type_field, id_field, usec_field,
}
use comp429_computer_network.Transfer.Packet.Data.{data_packet-Reads, length-data_packet}
use comp429_computer_network.Transfer.Packet.Ack.{ack_packet-AckReads, length-ack_packet}

-- `memcpy` to a place in a buffer.
unfoldable pub copy_to : List ℕ → ℕ → List ℕ → Option (List ℕ)
copy_to buf at bytes =
    if ltb (length buf) (at + length bytes)
    then none
    else some (take at buf ++ overwrite bytes (drop at buf))

-- The packet with the name and its closing 0, in a buffer of `strlen(file_name) + 10` bytes, of which
-- the first two take the CRC.
unfoldable pub name_packet : List ℕ → Option (List ℕ)
unfolding copy_to
name_packet name =
    let with_seq = store16 (replicate (length name + 10) 0) 2 (htons (seq_len - 1)) in
    let with_ack = store16 with_seq 4 (htons 0) in
    let with_type = store16 with_ack 6 (htons 2) in
    let with_id = store32 with_type 8 (htonl 0) in
    do
      packet ← copy_to with_id 12 (name ++ 0 ∷ [])
      some (store16 packet 0 (htons (crc_at packet 2 (length name + 11))))

-- What the receiver does with a datagram before it has a name.
pub data Greeting : Type 0 where
  still_waiting : Greeting
  named : List ℕ → Greeting

-- `file_name` has 1024 bytes.
unfoldable pub receive_name : List ℕ → List ℕ → Option Greeting
receive_name datagram buf =
    let recvlen = length datagram in
    let got = overwrite datagram buf in
    if recvlen == 0
    then some still_waiting
    else if recvlen == 1
    then none
    else if not (crc_matches got recvlen)
    then some still_waiting
    else if ltb recvlen 12
    then none
    else if ltb 1024 (recvlen - 12)
    then none
    else some (named (take (recvlen - 12) (drop 12 got)))

-- The answer to it.
unfoldable pub name_reply : ℕ → ℕ → List ℕ
name_reply sec usec = ack_packet (seq_len - 1) sec usec

-- What the sender does with a datagram before its name is acknowledged: the time of the
-- acknowledgement, once it came.
pub data Reply : Type 0 where
  no_reply : Reply
  acknowledged : ℕ → Reply

unfoldable pub receive_reply : ℕ → List ℕ → List ℕ → Option Reply
receive_reply last_ack_time datagram buf =
    let recvlen = length datagram in
    let got = overwrite datagram buf in
    let tmp_time = u32 (usec_field got + 1000000 * id_field got) in
    if recvlen == 0
    then some no_reply
    else if recvlen == 1
    then none
    else if not (crc_matches got recvlen)
    then some no_reply
    else if ltb last_ack_time tmp_time && type_field got == 1 && ack_field got == seq_len - 1
    then some (acknowledged tmp_time)
    else some no_reply

-- Every name is written past the end of its buffer.
name_packet-overruns : (name : List ℕ) → name_packet name ≡ none
unfolding name_packet copy_to
name_packet-overruns name =
    let size : length (name ++ 0 ∷ []) ≡ length name + 1 = length-append name (0 ∷ []) in
    let room : length (with_id name) ≡ length name + 10 =
      length-store32 _ 8 (htonl 0)
      ∙ length-store16 _ 6 (htons 2)
      ∙ length-store16 _ 4 (htons 0)
      ∙ length-store16 _ 2 (htons (seq_len - 1))
      ∙ length-replicate (length name + 10) 0 in
    let past : ltb (length (with_id name)) (12 + length (name ++ 0 ∷ [])) ≡ true =
      ground (arith, size, room) in
    rw past refl
  where
    with_id : List ℕ → List ℕ
    with_id name =
        store32
          (store16
            (store16 (store16 (replicate (length name + 10) 0) 2 (htons (seq_len - 1))) 4 (htons 0))
            6 (htons 2))
          8 (htonl 0)

-- A name of at most 1023 bytes in a packet of the right form, taken into a buffer that held anything
-- before, is what the receiver gets, with its closing 0.
receive_name-data_packet :
    (name buf : List ℕ)
    → length name ≤ 1023
    → receive_name (data_packet 15 2 0 (name ++ 0 ∷ [])) buf ≡ some (named (name ++ 0 ∷ []))
unfolding receive_name
receive_name-data_packet name buf short =
    let size : length (name ++ 0 ∷ []) ≡ length name + 1 = length-append name (0 ∷ []) in
    let reads =
      data_packet-Reads 15 2 0 (name ++ 0 ∷ []) buf (omega arith) (omega arith) (omega arith)
        (omega arith) in
    let less : length (name ++ 0 ∷ []) + 12 - 12 ≡ length (name ++ 0 ∷ []) = omega arith in
    let fits : ltb 1024 (length (name ++ 0 ∷ [])) ≡ false = ground (arith, size) in
    rw (length-data_packet 15 2 0 (name ++ 0 ∷ []), reads.intact, less, fits, reads.data_read)
      (ground arith)

-- The receiver's answer, at a time after the start of the clock, ends the sender's wait and gives it
-- that time.
pub receive_reply-name_reply :
    (sec usec last_ack_time : ℕ) (buf : List ℕ)
    → sec < 4294967296
    → usec < 4294967296
    → last_ack_time < u32 (usec + 1000000 * sec)
    → receive_reply last_ack_time (name_reply sec usec) buf
      ≡ some (acknowledged (u32 (usec + 1000000 * sec)))
unfolding receive_reply name_reply
receive_reply-name_reply sec usec last_ack_time buf sec_fits usec_fits later =
    let reads = ack_packet-AckReads 15 sec usec buf (omega arith) sec_fits usec_fits in
    let is_later : ltb last_ack_time (u32 (usec + 1000000 * sec)) ≡ true = ground arith in
    rw
      (
        length-ack_packet 15 sec usec,
        reads.intact,
        reads.sec_read,
        reads.usec_read,
        reads.type_read,
        reads.ack_read,
        is_later,
      )
      refl
