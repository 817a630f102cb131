-- ===== src/Rawtcp/Stream.antt =====
-- rawtcp/conn_linux.go: the sequence numbers that captureFlow and WriteTo keep.
use xtaci_kcptun.Prelude.{
  ℕ, ◌+◌, ◌%◌, ◌^◌, ◌<◌, ◌≡◌, ◌≢◌, subst, sym, List, [], ◌∷◌, length, Bool, true, false, ◌==◌,
  if◌then◌else◌, arith,
}
use xtaci_kcptun.Rawtcp.{Segment, Flow, next_seq, track}

abbrev pub one_if : Bool → ℕ
one_if true = 1
one_if false = 0

-- How many sequence numbers a segment takes.
abbrev pub space : Segment → ℕ
space s = length s.payload + one_if s.syn + one_if s.fin

abbrev pub total_space : List Segment → ℕ
total_space [] = 0
total_space (s ∷ ss) = space s + total_space ss

-- The segments follow on each other, from `a` on.
pub data Consecutive : ℕ → List Segment → Type 0 where
  no_more : {a : ℕ} → Consecutive a []
  next :
      {a : ℕ} {s : Segment} {ss : List Segment}
      → s.seq ≡ a
      → Consecutive ((a + space s) % 2 ^ 32) ss
      → Consecutive a (s ∷ ss)

next_seq_lem : (s : Segment) → s.seq < 2 ^ 32 → next_seq s ≡ (s.seq + space s) % 2 ^ 32
unfolding next_seq
next_seq_lem s h = ground arith

abbrev pub track_all : ℕ → ℕ → List Segment → Flow → Flow
track_all now handle [] e = e
track_all now handle (s ∷ ss) e = track_all now handle ss (track now handle s e)

pub track_in_order :
    (now handle : ℕ) (s : Segment) (e : Flow)
    → s.seq < 2 ^ 32
    → s.seq ≡ e.ack
    → (track now handle s e).ack ≡ (e.ack + space s) % 2 ^ 32
unfolding track
track_in_order now handle s e h f = ground (arith, next_seq_lem s h)

-- A flow that tracks segments which follow on each other from what it acknowledges, whatever their
-- flags, has acknowledged them all, modulo 2^32.
pub track_all_ack :
    (now handle : ℕ) (ss : List Segment) (e : Flow)
    → e.ack < 2 ^ 32
    → Consecutive e.ack ss
    → (track_all now handle ss e).ack ≡ (e.ack + total_space ss) % 2 ^ 32
track_all_ack now handle [] e h no_more = ground arith
track_all_ack now handle (s ∷ ss) e h (next f l) =
    let step = track_in_order now handle s e (subst (λ a. a < 2 ^ 32) (sym f) h) f in
    let rest =
      track_all_ack now handle ss (track now handle s e) (ground (arith, step))
        (subst (λ a. Consecutive a ss) (sym step) l) in
    ground (arith, step, rest)

-- A segment that does not start where the flow's acknowledgement stands, which is not zero, leaves the
-- acknowledgement; one that starts there moves it behind the segment.
pub track_ack :
    (now handle : ℕ) (s : Segment) (e : Flow)
    → s.seq < 2 ^ 32
    → e.ack ≢ 0
    → (track now handle s e).ack ≡ (if s.seq == e.ack then (e.ack + space s) % 2 ^ 32 else e.ack)
unfolding track
track_ack now handle s e h nz = ground (arith, next_seq_lem s h)
