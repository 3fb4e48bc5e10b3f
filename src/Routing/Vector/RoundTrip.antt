-- ===== src/Routing/Vector/RoundTrip.antt =====
-- What `sendDVUpdate` writes, as `recvDV` reads it.
use comp429_computer_network.Base.{
  ℕ, dec_lt, subst, ◌+◌, ◌*◌, ◌<◌, ◌≤◌, ◌≡◌, refl, sym, ◌∙◌, ap, List, [], ◌∷◌, some, none,
  some-inj, Option-cases, true, Bool-cases, ltb, length, inl, inr, arith, All, replicate, set,
  store16, load16, htons, byte_at, length-store16, length-set, length-replicate,
  load16-store16_self, load16-store16_ne, byte_at-store16_ne, htons-htons, htons-lt,
  get_or-set_self,
}
use comp429_computer_network.Routing.State.{DvPair, type_dv}
use comp429_computer_network.Routing.Vector.{
  fill_pairs, dv_table_size, dv_packet, read_word, read_pairs, rounds, store_word, store_byte,
}

-- Both halves are 16-bit words.
abbrev pub FitsPair : DvPair → Type 0
FitsPair p = (p.0 < 65536) × (p.1 < 65536)

-- The bytes that `fill_pairs` leaves where all of its stores are within the buffer.
unfoldable pub filled : List DvPair → ℕ → List ℕ → List ℕ
filled [] count buf = buf
filled ((dest, cost) ∷ pairs) count buf =
    filled pairs (count + 2)
      (store16 (store16 buf (2 * count) (htons dest)) (2 * (count + 1)) (htons cost))

unfoldable pub update_bytes : ℕ → ℕ → List DvPair → List ℕ
unfolding filled
update_bytes router_id to pairs =
    let typed = set (replicate (dv_table_size pairs) 0) 0 type_dv in
    let sized = store16 typed 2 (htons (dv_table_size pairs)) in
    let from = store16 sized 4 (htons router_id) in
    let addressed = store16 from 6 (htons to) in filled pairs 4 addressed

store_word-some :
    (buf : List ℕ) (off v : ℕ)
    → off + 1 < length buf
    → store_word buf off v ≡ some (store16 buf off v)
unfolding store_word
store_word-some buf off v lt =
    let within : ltb (off + 1) (length buf) ≡ true = ground (arith, lt) in rw within refl

store_word-within :
    (buf : List ℕ) (off v : ℕ) (out : List ℕ)
    → store_word buf off v ≡ some out
    → (off + 1 < length buf) × (out ≡ store16 buf off v)
unfolding store_word
store_word-within buf off v out e = elim (Bool-cases (ltb (off + 1) (length buf))) [
  | inl within ↦
      let same : some (store16 buf off v) ≡ some out = rw (store_word, within) at e in
      (ground (arith, within), sym (some-inj same))
  | inr past ↦ let never : none ≡ some out = rw (store_word, past) at e in cc
]

fill_pairs-filled :
    (pairs : List DvPair) (count : ℕ) (buf : List ℕ)
    → 2 * count + 4 * length pairs ≤ length buf
    → fill_pairs pairs count buf ≡ some (filled pairs count buf)
unfolding fill_pairs filled
fill_pairs-filled [] count buf le = refl
fill_pairs-filled ((dest, cost) ∷ pairs) count buf le =
    let first = store16 buf (2 * count) (htons dest) in
    let second = store16 first (2 * (count + 1)) (htons cost) in
    let size = length-store16 buf (2 * count) (htons dest) in
    let size' = length-store16 first (2 * (count + 1)) (htons cost) in
    rw
      (
        store_word-some buf (2 * count) (htons dest) (omega arith),
        store_word-some first (2 * (count + 1)) (htons cost) (omega (arith, size)),
      )
      (fill_pairs-filled pairs (count + 2) second (omega (arith, size, size')))

-- Where the loop does not fault, all pairs are within the buffer.
fill_pairs-within :
    (pairs : List DvPair) (count : ℕ) (buf out : List ℕ)
    → 2 * count ≤ length buf
    → fill_pairs pairs count buf ≡ some out
    → 2 * count + 4 * length pairs ≤ length buf
unfolding fill_pairs
fill_pairs-within [] count buf out le e = omega arith
fill_pairs-within ((dest, cost) ∷ pairs) count buf out le e =
    elim (Option-cases (store_word buf (2 * count) (htons dest))) [
      | inl past ↦ let never : none ≡ some out = rw (fill_pairs, past) at e in cc
      | inr (first, at) ↦
          let (lt, is_first) = store_word-within buf (2 * count) (htons dest) first at in
          elim (Option-cases (store_word first (2 * (count + 1)) (htons cost))) [
            | inl past ↦ let never : none ≡ some out = rw (fill_pairs, at, past) at e in cc
            | inr (second, at') ↦
                let (lt', is_second) =
                  store_word-within first (2 * (count + 1)) (htons cost) second at' in
                let size : length first ≡ length buf =
                  ap length is_first ∙ length-store16 buf (2 * count) (htons dest) in
                let size' : length second ≡ length first =
                  ap length is_second ∙ length-store16 first (2 * (count + 1)) (htons cost) in
                let rest : fill_pairs pairs (count + 2) second ≡ some out =
                  rw (fill_pairs, at, at') at e in
                let later =
                  fill_pairs-within pairs (count + 2) second out (omega (arith, size, size', lt'))
                    rest in
                omega (arith, later, size, size')
          ]
    ]

pub length-filled :
    (pairs : List DvPair) (count : ℕ) (buf : List ℕ) → length (filled pairs count buf) ≡ length buf
unfolding filled
length-filled [] count buf = refl
length-filled ((dest, cost) ∷ pairs) count buf =
    let first = store16 buf (2 * count) (htons dest) in
    length-filled pairs (count + 2) (store16 first (2 * (count + 1)) (htons cost))
    ∙ length-store16 first (2 * (count + 1)) (htons cost)
    ∙ length-store16 buf (2 * count) (htons dest)

-- Nothing below the pairs is written.
load16-filled :
    (pairs : List DvPair) (count : ℕ) (buf : List ℕ) (off : ℕ)
    → off + 1 < 2 * count
    → load16 (filled pairs count buf) off ≡ load16 buf off
unfolding filled
load16-filled [] count buf off lt = refl
load16-filled ((dest, cost) ∷ pairs) count buf off lt =
    let first = store16 buf (2 * count) (htons dest) in
    load16-filled pairs (count + 2) (store16 first (2 * (count + 1)) (htons cost)) off (omega arith)
    ∙ load16-store16_ne first (2 * (count + 1)) (htons cost) off (inl (omega arith))
    ∙ load16-store16_ne buf (2 * count) (htons dest) off (inl (omega arith))

pub byte_at-filled :
    (pairs : List DvPair) (count : ℕ) (buf : List ℕ) (i : ℕ)
    → i < 2 * count
    → byte_at (filled pairs count buf) i ≡ byte_at buf i
unfolding filled
byte_at-filled [] count buf i lt = refl
byte_at-filled ((dest, cost) ∷ pairs) count buf i lt =
    let first = store16 buf (2 * count) (htons dest) in
    byte_at-filled pairs (count + 2) (store16 first (2 * (count + 1)) (htons cost)) i (omega arith)
    ∙ byte_at-store16_ne first (2 * (count + 1)) (htons cost) i (omega arith) (omega arith)
    ∙ byte_at-store16_ne buf (2 * count) (htons dest) i (omega arith) (omega arith)

read_word-htons :
    (packet : List ℕ) (off v : ℕ)
    → off + 1 < length packet
    → load16 packet off ≡ htons v
    → v < 65536
    → read_word packet off ≡ some v
unfolding read_word
read_word-htons packet off v lt e fits = ground (arith, htons-htons v)

-- The pairs from word i on.
read_pairs-filled :
    (pairs : List DvPair) (i : ℕ) (buf : List ℕ)
    → All FitsPair pairs
    → 8 + 2 * i + 4 * length pairs ≤ length buf
    → read_pairs (filled pairs (4 + i) buf) (length pairs) i ≡ some pairs
unfolding filled read_pairs
read_pairs-filled [] i buf fits le = refl
read_pairs-filled ((dest, cost) ∷ pairs) i buf fits le =
    let first = store16 buf (2 * (4 + i)) (htons dest) in
    let second = store16 first (2 * (4 + i + 1)) (htons cost) in
    let size : length (filled pairs (4 + i + 2) second) ≡ length buf =
      length-filled pairs (4 + i + 2) second
      ∙ length-store16 first (2 * (4 + i + 1)) (htons cost)
      ∙ length-store16 buf (2 * (4 + i)) (htons dest) in
    let dest_read : read_word (filled pairs (4 + i + 2) second) (8 + 2 * i) ≡ some dest =
      read_word-htons _ (8 + 2 * i) dest (omega (arith, size))
        (load16-filled pairs (4 + i + 2) second (8 + 2 * i) (omega arith)
          ∙ load16-store16_ne first (2 * (4 + i + 1)) (htons cost) (8 + 2 * i) (inl (omega arith))
          ∙ ap (load16 first) place
          ∙ load16-store16_self buf (2 * (4 + i)) (htons dest) (omega arith) (htons-lt dest))
        fits.0.0 in
    let cost_read : read_word (filled pairs (4 + i + 2) second) (8 + 2 * (i + 1)) ≡ some cost =
      read_word-htons _ (8 + 2 * (i + 1)) cost (omega (arith, size))
        (load16-filled pairs (4 + i + 2) second (8 + 2 * (i + 1)) (omega arith)
          ∙ ap (load16 second) next_place
          ∙ load16-store16_self first (2 * (4 + i + 1)) (htons cost)
              (omega (arith, length-store16 buf (2 * (4 + i)) (htons dest))) (htons-lt cost))
        fits.0.1 in
    let rest : read_pairs (filled pairs (4 + i + 2) second) (length pairs) (i + 2) ≡ some pairs =
      ap (λ c. read_pairs (filled pairs c second) (length pairs) (i + 2)) next_count
      ∙ read_pairs-filled pairs (i + 2) second fits.1 (
          omega (
            arith,
            length-store16 first (2 * (4 + i + 1)) (htons cost),
            length-store16 buf (2 * (4 + i)) (htons dest),
          )) in
    rw (dest_read, cost_read, rest) refl
  where
    place : 8 + 2 * i ≡ 2 * (4 + i)
    place = omega arith

    next_place : 8 + 2 * (i + 1) ≡ 2 * (4 + i + 1)
    next_place = omega arith

    next_count : 4 + i + 2 ≡ 4 + (i + 2)
    next_count = omega arith

-- The packet of an update: its type, its sender, its receiver, its length, and its pairs, as `recvDV`
-- reads them.
pub record IsUpdate (router_id to : ℕ) (pairs : List DvPair) (packet : List ℕ) : Type 0 where
  pub size : length packet ≡ 8 + 4 * length pairs
  pub type : byte_at packet 0 ≡ type_dv
  pub size_field : htons (load16 packet 2) ≡ length packet
  pub source : htons (load16 packet 4) ≡ router_id
  pub dest : htons (load16 packet 6) ≡ to
  pub entries : read_pairs packet (rounds (length packet)) 0 ≡ some pairs

-- The header of an update whose size fits 16 bits.
pub record HasHeader (router_id : ℕ) (pairs : List DvPair) (packet : List ℕ) : Type 0 where
  pub size : length packet ≡ 8 + 4 * length pairs
  pub type : byte_at packet 0 ≡ type_dv
  pub source : htons (load16 packet 4) ≡ router_id

update_bytes-HasHeader :
    (router_id to : ℕ) (pairs : List DvPair)
    → length pairs < 16382
    → router_id < 65536
    → HasHeader router_id pairs (update_bytes router_id to pairs)
unfolding update_bytes
update_bytes-HasHeader router_id to pairs few id_fits = record {
  size = whole;
  type =
      byte_at-filled pairs 4 addressed 0 (omega arith)
      ∙ byte_at-store16_ne from 6 (htons to) 0 (omega arith) (omega arith)
      ∙ byte_at-store16_ne sized 4 (htons router_id) 0 (omega arith) (omega arith)
      ∙ byte_at-store16_ne typed 2 (htons size) 0 (omega arith) (omega arith)
      ∙ get_or-set_self (replicate size 0) 0 type_dv 0 (omega (arith, zeros, size_is));
  source =
      ap htons (
        load16-filled pairs 4 addressed 4 (omega arith)
        ∙ load16-store16_ne from 6 (htons to) 4 (inl (omega arith))
        ∙ load16-store16_self sized 4 (htons router_id) (omega (arith, sized_len, size_is))
            (htons-lt router_id))
      ∙ htons-htons router_id id_fits;
}
  where
    size : ℕ
    size = dv_table_size pairs

    typed : List ℕ
    typed = set (replicate size 0) 0 type_dv

    sized : List ℕ
    sized = store16 typed 2 (htons size)

    from : List ℕ
    from = store16 sized 4 (htons router_id)

    addressed : List ℕ
    addressed = store16 from 6 (htons to)

    size_is : size ≡ 8 + 4 * length pairs
    size_is = unfold dv_table_size in omega arith

    zeros : length {A = ℕ} (replicate size 0) ≡ size
    zeros = length-replicate size 0

    typed_len : length typed ≡ size
    typed_len = length-set (replicate size 0) 0 type_dv ∙ zeros

    sized_len : length sized ≡ size
    sized_len = length-store16 typed 2 (htons size) ∙ typed_len

    from_len : length from ≡ size
    from_len = length-store16 sized 4 (htons router_id) ∙ sized_len

    addressed_len : length addressed ≡ size
    addressed_len = length-store16 from 6 (htons to) ∙ from_len

    whole : length (filled pairs 4 addressed) ≡ 8 + 4 * length pairs
    whole = length-filled pairs 4 addressed ∙ addressed_len ∙ size_is

update_bytes-IsUpdate :
    (router_id to : ℕ) (pairs : List DvPair)
    → length pairs < 16382
    → router_id < 65536
    → to < 65536
    → All FitsPair pairs
    → IsUpdate router_id to pairs (update_bytes router_id to pairs)
unfolding update_bytes
update_bytes-IsUpdate router_id to pairs few id_fits to_fits fits = record {
  size = whole;
  type = (update_bytes-HasHeader router_id to pairs few id_fits).type;
  size_field =
      ap htons (
        load16-filled pairs 4 addressed 2 (omega arith)
        ∙ load16-store16_ne from 6 (htons to) 2 (inl (omega arith))
        ∙ load16-store16_ne sized 4 (htons router_id) 2 (inl (omega arith))
        ∙ load16-store16_self typed 2 (htons size) (omega (arith, typed_len, size_is))
            (htons-lt size))
      ∙ htons-htons size (omega (arith, size_is))
      ∙ size_is
      ∙ sym whole;
  source = (update_bytes-HasHeader router_id to pairs few id_fits).source;
  dest =
      ap htons (
        load16-filled pairs 4 addressed 6 (omega arith)
        ∙ load16-store16_self from 6 (htons to) (omega (arith, from_len, size_is)) (htons-lt to))
      ∙ htons-htons to to_fits;
  entries =
      ap (λ n. read_pairs (filled pairs 4 addressed) n 0) rounds_are
      ∙ read_pairs-filled pairs 0 addressed fits (omega (arith, addressed_len, size_is));
}
  where
    size : ℕ
    size = dv_table_size pairs

    typed : List ℕ
    typed = set (replicate size 0) 0 type_dv

    sized : List ℕ
    sized = store16 typed 2 (htons size)

    from : List ℕ
    from = store16 sized 4 (htons router_id)

    addressed : List ℕ
    addressed = store16 from 6 (htons to)

    size_is : size ≡ 8 + 4 * length pairs
    size_is = unfold dv_table_size in omega arith

    zeros : length {A = ℕ} (replicate size 0) ≡ size
    zeros = length-replicate size 0

    typed_len : length typed ≡ size
    typed_len = length-set (replicate size 0) 0 type_dv ∙ zeros

    sized_len : length sized ≡ size
    sized_len = length-store16 typed 2 (htons size) ∙ typed_len

    from_len : length from ≡ size
    from_len = length-store16 sized 4 (htons router_id) ∙ sized_len

    addressed_len : length addressed ≡ size
    addressed_len = length-store16 from 6 (htons to) ∙ from_len

    whole : length (filled pairs 4 addressed) ≡ 8 + 4 * length pairs
    whole = length-filled pairs 4 addressed ∙ addressed_len ∙ size_is

    rounds_are : rounds (length (filled pairs 4 addressed)) ≡ length pairs
    rounds_are = ap rounds whole ∙ unfold rounds in omega arith

dv_packet-few :
    (router_id to : ℕ) (pairs : List DvPair)
    → length pairs < 16382
    → dv_packet router_id to pairs ≡ some (update_bytes router_id to pairs)
unfolding dv_packet update_bytes store_byte
dv_packet-few router_id to pairs few =
    let typed_at : store_byte blank 0 type_dv ≡ some typed =
      let within : ltb 0 (length blank) ≡ true = ground (arith, blank_len, size_is) in
      unfold store_byte in rw within refl in
    rw
      (
        typed_at,
        store_word-some typed 2 (htons size) (omega (arith, typed_len, size_is)),
        store_word-some sized 4 (htons router_id) (omega (arith, sized_len, size_is)),
        store_word-some from 6 (htons to) (omega (arith, from_len, size_is)),
      )
      (fill_pairs-filled pairs 4 addressed (omega (arith, addressed_len, size_is)))
  where
    size : ℕ
    size = dv_table_size pairs

    blank : List ℕ
    blank = replicate size 0

    typed : List ℕ
    typed = set blank 0 type_dv

    sized : List ℕ
    sized = store16 typed 2 (htons size)

    from : List ℕ
    from = store16 sized 4 (htons router_id)

    addressed : List ℕ
    addressed = store16 from 6 (htons to)

    size_is : size ≡ 8 + 4 * length pairs
    size_is = unfold dv_table_size in omega arith

    blank_len : length blank ≡ size
    blank_len = length-replicate size 0

    typed_len : length typed ≡ size
    typed_len = length-set blank 0 type_dv ∙ blank_len

    sized_len : length sized ≡ size
    sized_len = length-store16 typed 2 (htons size) ∙ typed_len

    from_len : length from ≡ size
    from_len = length-store16 sized 4 (htons router_id) ∙ sized_len

    addressed_len : length addressed ≡ size
    addressed_len = length-store16 from 6 (htons to) ∙ from_len

-- An update of fewer than 16382 pairs of 16-bit words, between 16-bit addresses, is built without a store
-- past its buffer, and is read back whole by the receiver: header and pairs in their order.
pub dv_packet-IsUpdate :
    (router_id to : ℕ) (pairs : List DvPair)
    → length pairs < 16382
    → router_id < 65536
    → to < 65536
    → All FitsPair pairs
    → (packet : List ℕ) × (dv_packet router_id to pairs ≡ some packet)
      × IsUpdate router_id to pairs packet
dv_packet-IsUpdate router_id to pairs few id_fits to_fits fits = (
  update_bytes router_id to pairs,
  dv_packet-few router_id to pairs few,
  update_bytes-IsUpdate router_id to pairs few id_fits to_fits fits,
)

-- An update that is built has a size that fits 16 bits.
dv_packet-fits :
    (router_id to : ℕ) (pairs : List DvPair) (packet : List ℕ)
    → dv_packet router_id to pairs ≡ some packet
    → length pairs < 16382
unfolding dv_packet dv_table_size store_byte
dv_packet-fits router_id to pairs packet e = elim (Option-cases (store_byte blank 0 type_dv)) [
  | inl past ↦ let never : none ≡ some packet = rw (dv_packet, past) at e in cc
  | inr (typed, a1) ↦ elim (Option-cases (store_word typed 2 (htons size))) [
    | inl past ↦ let never : none ≡ some packet = rw (dv_packet, a1, past) at e in cc
    | inr (sized, a2) ↦ elim (Option-cases (store_word sized 4 (htons router_id))) [
      | inl past ↦ let never : none ≡ some packet = rw (dv_packet, a1, a2, past) at e in cc
      | inr (from, a3) ↦ elim (Option-cases (store_word from 6 (htons to))) [
        | inl past ↦ let never : none ≡ some packet = rw (dv_packet, a1, a2, a3, past) at e in cc
        | inr (addressed, a4) ↦
            let filled_up : fill_pairs pairs 4 addressed ≡ some packet =
              rw (dv_packet, a1, a2, a3, a4) at e in
            let (lt, four) = store_word-within from 6 (htons to) addressed a4 in
            let three = store_word-within sized 4 (htons router_id) from a3 in
            let two = store_word-within typed 2 (htons size) sized a2 in
            let one : length typed ≡ size = typed_length typed a1 in
            let len : length addressed ≡ length from =
              ap length four ∙ length-store16 from 6 (htons to) in
            let len' : length from ≡ length sized =
              ap length three.1 ∙ length-store16 sized 4 (htons router_id) in
            let len'' : length sized ≡ length typed =
              ap length two.1 ∙ length-store16 typed 2 (htons size) in
            let room =
              fill_pairs-within pairs 4 addressed packet (omega (arith, lt, len)) filled_up in
            fits (omega (arith, room, len, len', len'', one))
      ]
    ]
  ]
]
  where
    size : ℕ
    size = dv_table_size pairs

    blank : List ℕ
    blank = replicate size 0

    typed_length : (typed : List ℕ) → store_byte blank 0 type_dv ≡ some typed → length typed ≡ size
    typed_length typed e' = elim (Bool-cases (ltb 0 (length blank))) [
      | inl within ↦
          let same : some (set blank 0 type_dv) ≡ some typed = rw (store_byte, within) at e' in
          ap length (sym (some-inj same)) ∙ length-set blank 0 type_dv ∙ length-replicate size 0
      | inr past ↦ let never : none ≡ some typed = rw (store_byte, past) at e' in cc
    ]

    fits : 8 + 4 * length pairs ≤ size → length pairs < 16382
    fits le = omega arith

-- An update that is built, for any number of pairs.
pub dv_packet-HasHeader :
    (router_id to : ℕ) (pairs : List DvPair) (packet : List ℕ)
    → router_id < 65536
    → dv_packet router_id to pairs ≡ some packet
    → HasHeader router_id pairs packet
dv_packet-HasHeader router_id to pairs packet id_fits e =
    let few = dv_packet-fits router_id to pairs packet e in
    let same : some packet ≡ some (update_bytes router_id to pairs) =
      sym e ∙ dv_packet-few router_id to pairs few in
    subst (HasHeader router_id pairs) (sym (some-inj same))
      (update_bytes-HasHeader router_id to pairs few id_fits)

pub dv_packet-overruns :
    (router_id to : ℕ) (pairs : List DvPair)
    → dv_packet router_id to pairs ≡ none
    → 16382 ≤ length pairs
dv_packet-overruns router_id to pairs e = elim (dec_lt (length pairs) 16382) [
  | yes few ↦
      let never : none ≡ some (update_bytes router_id to pairs) =
        sym e ∙ dv_packet-few router_id to pairs few in
      cc
  | no many ↦ omega arith
]
