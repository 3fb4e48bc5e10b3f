-- ===== src/Routing/Consistency/Pongs.antt =====
-- `handlePingPong` and the tables: its loops over the vector.
use comp429_computer_network.Base.{
  ℕ, ◌≡◌, refl, sym, ◌∙◌, ap, List, Option, some, none, Bool, true, arith,
}
use comp429_computer_network.Routing.Map.{Map, find, contains}
use comp429_computer_network.Routing.State.{DvCell, DvPair, NnCell}
use comp429_computer_network.Routing.Sweep.{Verdict, sweep}
use comp429_computer_network.Routing.Sweep.Laws.{
  IsSound, sweep-IsSwept, step_cell, step_hop, hop_of,
}
use comp429_computer_network.Routing.PingPong.{pong_verdict, confirm_verdict}
use comp429_computer_network.Routing.Consistency.{Consistent, agree_found}
use comp429_computer_network.Routing.Consistency.Updates.{Keeps}

-- A verdict whose routes go over neighbours if the old ones do.
abbrev pub StaysDirect : Map NnCell → (ℕ → DvCell → Verdict) → Type 0
StaysDirect direct f =
    (k : ℕ) (c d : DvCell)
    → contains c.next_hop direct ≡ true
    → (f k c).cell ≡ some d
    → contains d.next_hop direct ≡ true

-- A walk with a sound verdict finds every forwarding entry that it changes, and keeps the tables
-- consistent.
pub sweep-Keeps :
    (f : ℕ → DvCell → Verdict) (self : ℕ) (direct : Map NnCell) (vector : Map DvCell)
    (table : Map ℕ) (packet : List DvPair)
    → IsSound f
    → StaysDirect direct f
    → Consistent self direct vector table
    → Keeps self direct (sweep f vector table packet)
sweep-Keeps f self direct vector table packet sound stays h =
    let (t, e, w) =
      sweep-IsSwept f 0 vector table packet sound h.sorted (λ k c. agree_found k c h) in
    (
      t,
      e,
      record {
        sorted = w.sorted;
        agree = λ k. rw (w.hops k, w.cells k) (agree_at k (find k vector) refl);
        via = λ k d at. via_at k d (find k vector) refl (sym (w.cells k) ∙ at);
        no_self = w.cells self ∙ ap (step_cell f self) h.no_self;
      },
    )
  where
    agree_at :
        (k : ℕ) (o : Option DvCell)
        → find k vector ≡ o
        → step_hop f k o (find k table) ≡ hop_of (step_cell f k o)
    agree_at k none e = h.agree k ∙ ap hop_of e
    agree_at k (some c) e = refl

    via_at :
        (k : ℕ) (d : DvCell) (o : Option DvCell)
        → find k vector ≡ o
        → step_cell f k (find k vector) ≡ some d
        → contains d.next_hop direct ≡ true
    via_at k d none e at = cc (sym (ap (step_cell f k) e), at)
    via_at k d (some c) e at = stays k c d (h.via k c e) (sym (ap (step_cell f k) e) ∙ at)

module _ (direct : Map NnCell) (src rrt diff : ℕ) (disconnected known : Bool) (now : ℕ)
    (met : contains src direct ≡ true) where
  pub pong_verdict-IsSound : IsSound (pong_verdict direct src rrt diff disconnected known now)
  unfolding pong_verdict
  pong_verdict-IsSound k c = ground arith

  pub pong_verdict-StaysDirect :
      StaysDirect direct (pong_verdict direct src rrt diff disconnected known now)
  unfolding pong_verdict
  pong_verdict-StaysDirect k c d h e = ground arith

  pub confirm_verdict-IsSound : IsSound (confirm_verdict src now)
  unfolding confirm_verdict
  confirm_verdict-IsSound k c = ground arith

  pub confirm_verdict-StaysDirect : StaysDirect direct (confirm_verdict src now)
  unfolding confirm_verdict
  confirm_verdict-StaysDirect k c d h e = ground arith
