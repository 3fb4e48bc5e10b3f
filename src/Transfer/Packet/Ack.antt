-- ===== src/Transfer/Packet/Ack.antt =====
-- Acknowledgements: what `recvfile.c` writes, as `sendfile.c` reads it.
use comp429_computer_network.Base.{
  ℕ, ◌<◌, ◌≡◌, refl, List, true, sym, arith, length, drop, ap, store16, store32, load16, load32,
  htons, htonl, overwrite, htons-htons, htonl-htonl, ◌∙◌, load16-overwrite, load32-overwrite,
  ==_iff, take-drop-overwrite, htons-lt, htonl-lt,
}
use comp429_computer_network.Transfer.Crc.{calc_crc16, calc_crc16-lt}
use comp429_computer_network.Transfer.Packet.{
  crc_at, ack_packet, crc_matches, ack_field, type_field, id_field, usec_field,
}

-- What the sender reads from an acknowledgement.
pub record AckReads (buf : List ℕ) (ack_num sec usec : ℕ) : Type 0 where
  pub intact : crc_matches buf 16 ≡ true
  pub ack_read : ack_field buf ≡ ack_num
  pub type_read : type_field buf ≡ 1
  pub sec_read : id_field buf ≡ sec
  pub usec_read : usec_field buf ≡ usec

module _ (ack_num sec usec : ℕ) where
  -- The bytes that the CRC covers.
  covered : List ℕ
  covered = drop 2 (ack_packet ack_num sec usec)

  pub length-ack_packet : length (ack_packet ack_num sec usec) ≡ 16
  unfolding ack_packet store16 store32
  length-ack_packet = refl

  load-crc : load16 (ack_packet ack_num sec usec) 0 ≡ htons (calc_crc16 covered)
  unfolding covered ack_packet store16 store32 load16 crc_at
  load-crc = omega (arith, htons-lt _)

  load-ack : load16 (ack_packet ack_num sec usec) 4 ≡ htons ack_num
  unfolding ack_packet store16 store32 load16
  load-ack = omega (arith, htons-lt ack_num)

  load-type : load16 (ack_packet ack_num sec usec) 6 ≡ htons 1
  unfolding ack_packet store16 store32 load16 htons
  load-type = refl

  load-sec : load32 (ack_packet ack_num sec usec) 8 ≡ htonl sec
  unfolding ack_packet store16 store32 load16 load32
  load-sec = omega (arith, htonl-lt sec)

  load-usec : load32 (ack_packet ack_num sec usec) 12 ≡ htonl usec
  unfolding ack_packet store16 store32 load16 load32
  load-usec = omega (arith, htonl-lt usec)

  crc_of_buffer :
      (buf : List ℕ)
      → crc_at (overwrite (ack_packet ack_num sec usec) buf) 2 14 ≡ calc_crc16 covered
  unfolding crc_at covered
  crc_of_buffer buf = ap calc_crc16 (
      take-drop-overwrite 2 14 (ack_packet ack_num sec usec) buf (omega (arith, length-ack_packet)))

  crc_of_header :
      (buf : List ℕ)
      → htons (load16 (overwrite (ack_packet ack_num sec usec) buf) 0) ≡ calc_crc16 covered
  crc_of_header buf =
      ap htons (
        load16-overwrite (ack_packet ack_num sec usec) buf 0 (omega (arith, length-ack_packet))
        ∙ load-crc)
      ∙ htons-htons (calc_crc16 covered) (calc_crc16-lt covered)

  -- An acknowledgement of the receiver, received into a buffer that held anything before, passes the
  -- CRC test, and its number, type and time are read back as the receiver put them in.
  pub ack_packet-AckReads :
      (buf : List ℕ)
      → ack_num < 65536
      → sec < 4294967296
      → usec < 4294967296
      → AckReads (overwrite (ack_packet ack_num sec usec) buf) ack_num sec usec
  unfolding crc_matches ack_field type_field id_field usec_field
  ack_packet-AckReads buf ha hs hu = record {
    intact = (==_iff _ _).1 (crc_of_header buf ∙ sym (crc_of_buffer buf));
    ack_read =
        ap htons (load16-overwrite P buf 4 (omega (arith, length-ack_packet)) ∙ load-ack)
        ∙ htons-htons ack_num ha;
    type_read =
        ap htons (load16-overwrite P buf 6 (omega (arith, length-ack_packet)) ∙ load-type)
        ∙ htons-htons 1 (omega arith);
    sec_read =
        ap htonl (load32-overwrite P buf 8 (omega (arith, length-ack_packet)) ∙ load-sec)
        ∙ htonl-htonl sec hs;
    usec_read =
        ap htonl (load32-overwrite P buf 12 (omega (arith, length-ack_packet)) ∙ load-usec)
        ∙ htonl-htonl usec hu;
  }
    where
      P : List ℕ
      P = ack_packet ack_num sec usec
