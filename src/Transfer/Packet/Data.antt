-- ===== src/Transfer/Packet/Data.antt =====
-- Data packets: what `sendfile.c` writes, as `recvfile.c` reads it.
use comp429_computer_network.Base.{
  ℕ, ◌+◌, ◌-◌, ◌≤◌, ◌<◌, ◌≡◌, refl, List, true, sym, arith, length, drop, ap, u16, store16, store32,
  load16, load32, htons, htonl, take, overwrite, htons-htons, htonl-htonl, ◌∙◌, load16-overwrite,
  load32-overwrite, ==_iff, take-drop-overwrite, take-length, htons-lt, htonl-lt,
}
use comp429_computer_network.Transfer.Crc.{calc_crc16, calc_crc16-lt}
use comp429_computer_network.Transfer.Packet.{
  crc_at, data_packet, crc_matches, seq_field, type_field, id_field,
}

-- What a receiver reads from a data packet of the sender, in a buffer that held anything before: the
-- CRC test passes, and the fields and the data are those that the sender put in.
pub record Reads (buf : List ℕ) (seq type packet_id : ℕ) (payload : List ℕ) : Type 0 where
  pub intact : crc_matches buf (length payload + 12) ≡ true
  pub seq_read : seq_field buf ≡ seq
  pub type_read : type_field buf ≡ type
  pub id_read : id_field buf ≡ packet_id
  pub data_read : take (length payload) (drop 12 buf) ≡ payload

module _ (seq type packet_id : ℕ) (payload : List ℕ) where
  pub length-data_packet : length (data_packet seq type packet_id payload) ≡ length payload + 12
  unfolding data_packet store16 store32
  length-data_packet = omega arith

  -- The bytes that the CRC covers, which the last store leaves alone.
  covered : List ℕ
  covered = drop 2 (data_packet seq type packet_id payload)

  length-covered : length covered ≡ length payload + 10
  unfolding covered data_packet store16 store32
  length-covered = omega arith

  crc_covers : length payload ≤ 32768 → take (u16 (length payload + 10)) covered ≡ covered
  crc_covers h =
      let e : u16 (length payload + 10) ≡ length covered = omega (arith, length-covered) in
      rw e (take-length covered)

  load-crc :
      length payload ≤ 32768
      → load16 (data_packet seq type packet_id payload) 0 ≡ htons (calc_crc16 covered)
  load-crc h = stored ∙ ap (λ w. htons (calc_crc16 w)) (crc_covers h)
    where
      stored :
          load16 (data_packet seq type packet_id payload) 0
          ≡ htons (calc_crc16 (take (u16 (length payload + 10)) covered))
      stored = unfold covered data_packet store16 store32 load16 crc_at in omega (arith, htons-lt _)

  load-seq : load16 (data_packet seq type packet_id payload) 2 ≡ htons seq
  unfolding data_packet store16 store32 load16
  load-seq = omega (arith, htons-lt seq)

  load-type : load16 (data_packet seq type packet_id payload) 6 ≡ htons type
  unfolding data_packet store16 store32 load16
  load-type = omega (arith, htons-lt type)

  load-id : load32 (data_packet seq type packet_id payload) 8 ≡ htonl packet_id
  unfolding data_packet store16 store32 load16 load32
  load-id = omega (arith, htonl-lt packet_id)

  crc_of_buffer :
      (buf : List ℕ)
      → length payload ≤ 32768
      → crc_at (overwrite (data_packet seq type packet_id payload) buf) 2 (length payload + 12 - 2)
        ≡ calc_crc16 covered
  unfolding crc_at covered
  crc_of_buffer buf h = ap calc_crc16 (
      take-drop-overwrite 2 (u16 (length payload + 12 - 2)) (data_packet seq type packet_id payload)
        buf (omega (arith, length-data_packet)))

  crc_of_header :
      (buf : List ℕ)
      → length payload ≤ 32768
      → htons (load16 (overwrite (data_packet seq type packet_id payload) buf) 0)
        ≡ calc_crc16 covered
  crc_of_header buf h =
      ap htons (
        load16-overwrite (data_packet seq type packet_id payload) buf 0
          (omega (arith, length-data_packet))
        ∙ load-crc h)
      ∙ htons-htons (calc_crc16 covered) (calc_crc16-lt covered)

  -- A data packet of the sender, received into a buffer that held anything before, passes the CRC
  -- test, and its fields and data are read back as the sender put them in.
  pub data_packet-Reads :
      (buf : List ℕ)
      → seq < 65536
      → type < 65536
      → packet_id < 4294967296
      → length payload ≤ 32768
      → Reads (overwrite (data_packet seq type packet_id payload) buf) seq type packet_id payload
  unfolding crc_matches seq_field type_field id_field
  data_packet-Reads buf hs ht hi hp = record {
    intact = (==_iff _ _).1 (crc_of_header buf hp ∙ sym (crc_of_buffer buf hp));
    seq_read =
        ap htons (load16-overwrite P buf 2 (omega (arith, length-data_packet)) ∙ load-seq)
        ∙ htons-htons seq hs;
    type_read =
        ap htons (load16-overwrite P buf 6 (omega (arith, length-data_packet)) ∙ load-type)
        ∙ htons-htons type ht;
    id_read =
        ap htonl (load32-overwrite P buf 8 (omega (arith, length-data_packet)) ∙ load-id)
        ∙ htonl-htonl packet_id hi;
    data_read =
        take-drop-overwrite 12 (length payload) P buf (omega (arith, length-data_packet)) ∙ rest;
  }
    where
      P : List ℕ
      P = data_packet seq type packet_id payload

      rest : drop 12 P ≡ payload
      rest = unfold data_packet store16 store32 in refl
