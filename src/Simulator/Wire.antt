-- ===== src/Simulator/Wire.antt =====
-- What the handlers of a router put on the wire.
use comp429_computer_network.Base.{
  ℕ, ◌≢◌, Option-cases, some, zero, suc, ◌%◌, ◌≤◌, ◌<◌, ◌≡◌, refl, ap, ◌∙◌, inl, inr, List, [], ◌∷◌,
  ◌++◌, length, set, take, arith, All, byte_at, store16, store32, load16, htons, length-store16,
  length-set, byte_at-store16_ne, get_or-set_self, load16-store16_self, htons-htons, htons-lt,
}
use comp429_computer_network.Routing.State.{
  Router, Effect, send, set_alarm, overruns, DvPair, type_data, type_ping, type_pong, type_dv, emit,
}
use comp429_computer_network.Routing.Vector.{dv_packet, update_sent}
use comp429_computer_network.Routing.Vector.RoundTrip.{dv_packet-HasHeader}
use comp429_computer_network.Routing.PingPong.{ping_packet, pong_packet}
use comp429_computer_network.Routing.Consistency.Handlers.Neighbors.{source_of}

-- A packet that router `self` puts on the wire: one that is not of type DATA carries its id as the
-- source, a DV update has whole pairs, and a PING has twelve bytes.
pub record IsWire (self : ℕ) (packet : List ℕ) : Type 0 where
  pub whole : byte_at packet 0 ≡ type_dv → length packet % 4 ≡ 0
  pub own : byte_at packet 0 ≢ type_data → source_of packet ≡ self
  pub full : byte_at packet 0 ≡ type_ping → 12 ≤ length packet

abbrev pub IsFit : ℕ → Effect → Type 0
IsFit self (send port packet) = IsWire self packet
IsFit self (set_alarm duration kind) = Unit {0}
IsFit self (overruns count) = Unit {0}

-- A router with this id, all of whose calls are fit.
pub record IsFitting (self : ℕ) (r : Router) : Type 0 where
  pub same_id : r.router_id ≡ self
  pub calls : All (IsFit self) r.effects

module _ (self : ℕ) (small : self < 65536) where
  All-snoc :
      (es : List Effect) (e : Effect)
      → All (IsFit self) es
      → IsFit self e
      → All (IsFit self) (es ++ e ∷ [])
  All-snoc [] e h k = (k, tt)
  All-snoc (d ∷ es) e h k = (h.0, All-snoc es e h.1 k)

  pub emit-IsFitting :
      (e : Effect) (r : Router) → IsFit self e → IsFitting self r → IsFitting self (emit e r)
  emit-IsFitting e r k h = record { same_id = h.same_id; calls = All-snoc r.effects e h.calls k }

  pub dv_packet-IsWire :
      (to : ℕ) (pairs : List DvPair) (packet : List ℕ)
      → dv_packet self to pairs ≡ some packet
      → IsWire self packet
  dv_packet-IsWire to pairs packet e =
      let header = dv_packet-HasHeader self to pairs packet small e in
      record {
        whole = λ _. let size = header.size in omega (arith, size);
        own = λ _. header.source;
        full = λ ping. absurd (omega (arith, header.type, ping));
      }

  pub update_sent-IsFit :
      (port count to : ℕ) (pairs : List DvPair)
      → IsFit self (update_sent port count (dv_packet self to pairs))
  unfolding update_sent
  update_sent-IsFit port count to pairs = elim (Option-cases (dv_packet self to pairs)) [
    | inl past ↦ rw past tt
    | inr (packet, built) ↦ rw built (dv_packet-IsWire to pairs packet built)
  ]

  pub ping_packet-IsWire : (now : ℕ) → IsWire self (ping_packet self now)
  unfolding ping_packet store16 store32
  ping_packet-IsWire now = record {
    whole = λ e. absurd (omega arith);
    own = λ e. ap htons read ∙ htons-htons self small;
    full = λ e. omega arith;
  }
    where
      read : load16 (ping_packet self now) 4 ≡ htons self
      read = unfold load16 in omega (arith, htons-lt self)

  pub pong_packet-IsWire :
      (packet : List ℕ) → 12 ≤ length packet → IsWire self (pong_packet self packet)
  unfolding pong_packet
  pong_packet-IsWire packet long = record {
    whole = λ e. absurd (omega (arith, type));
    own = λ e. from;
    full = λ e. absurd (omega (arith, type));
  }
    where
      typed : List ℕ
      typed = set packet 0 type_pong

      addressed : List ℕ
      addressed = store16 typed 6 (htons (htons (load16 typed 4)))

      sizes : length addressed ≡ length packet
      sizes = length-store16 typed 6 _ ∙ length-set packet 0 type_pong

      cut : (n i : ℕ) (xs : List ℕ) → i < n → byte_at (take n xs) i ≡ byte_at xs i
      cut zero i xs lt = absurd (omega arith)
      cut (suc n) i [] lt = refl
      cut (suc n) zero (x ∷ xs) lt = refl
      cut (suc n) (suc i) (x ∷ xs) lt = cut n i xs (omega arith)

      type : byte_at (pong_packet self packet) 0 ≡ type_pong
      type =
          unfold pong_packet in
          cut 12 0 (store16 addressed 4 (htons self)) (omega arith)
          ∙ byte_at-store16_ne addressed 4 (htons self) 0 (omega arith) (omega arith)
          ∙ byte_at-store16_ne typed 6 _ 0 (omega arith) (omega arith)
          ∙ get_or-set_self packet 0 type_pong 0 (omega arith)

      read : (xs : List ℕ) → load16 (take 12 xs) 4 ≡ load16 xs 4
      read xs = unfold load16 in omega (arith, cut 12 4 xs (omega arith), cut 12 5 xs (omega arith))

      from : source_of (pong_packet self packet) ≡ self
      from =
          unfold pong_packet in
          ap htons (
            read (store16 addressed 4 (htons self))
            ∙ load16-store16_self addressed 4 (htons self) (omega (arith, sizes)) (htons-lt self))
          ∙ htons-htons self small
