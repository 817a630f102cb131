-- ===== src/Kcptun/Tunnel/Progress.antt =====
-- client/main.go and server/main.go: how a tunnel comes to its end.
use xtaci_kcptun.Prelude.{◌≤◌, ◌≡◌, refl, ◌∙◌, ap, Bool, true, arith, Bool-cases, inl, inr}
use xtaci_kcptun.Kcptun.Tunnel.{
  End, p1, p2, Dir, up, down, set_dir, Phase, selecting, deferring, half_closed, returned, Tunnel,
  handle_client, end_copy, close, Step, ends, selects, closes_second, closes_first, Steps, later,
  IsAlone, Alone, rests, goes, target,
}
use xtaci_kcptun.Kcptun.Tunnel.Count.{count, count-rank, rank_bound, still_ended}
use xtaci_kcptun.Kcptun.Tunnel.Faithful.{IsFaithful, Steps-IsFaithful}

-- The handler has returned, both streams are closed and both copies are over.
pub record IsFinished (t : Tunnel) : Type 0 where
  pub at_end : t.phase ≡ returned
  pub closed_both : (e : End) → t.closed e ≡ true
  pub ended_both : (d : Dir) → t.ended d ≡ true

Alone-trans : {s t u : Tunnel} → Alone s t → Alone t u → Alone s u
Alone-trans r rests = r
Alone-trans r (goes q st alone) = goes (Alone-trans r q) st alone

with_alone : {s t u : Tunnel} → Steps s t → Alone t u → Steps s u
with_alone r rests = r
with_alone r (goes q st alone) = later (with_alone r q) st

-- The handler returns, and leaves the copies as they are.
pub record Returns (t : Tunnel) : Type 0 where
  pub last : Tunnel
  pub path : Alone t last
  pub at_end : last.phase ≡ returned
  pub same : last.ended ≡ t.ended

before : {t u : Tunnel} (st : Step t u) → IsAlone st → u.ended ≡ t.ended → Returns u → Returns t
before st alone same r = record {
  last = r.last;
  path = Alone-trans (goes rests st alone) r.path;
  at_end = r.at_end;
  same = r.same ∙ same;
}

closes_one : (t : Tunnel) → t.phase ≡ half_closed → Returns t
unfolding close
closes_one t at = record {
  last = close p1 returned t;
  path = goes rests (closes_first at) tt;
  at_end = refl;
  same = refl;
}

closes_two : (t : Tunnel) → t.phase ≡ deferring → Returns t
unfolding close
closes_two t at = before (closes_second at) tt refl (closes_one (close p2 half_closed t) refl)

handler-Returns : (d : Dir) (t : Tunnel) (p : Phase) → t.phase ≡ p → t.ended d ≡ true → Returns t
handler-Returns d t selecting at ended =
    before (selects d at ended) tt refl (closes_two (record t { phase = deferring }) refl)
handler-Returns d t deferring at ended = closes_two t at
handler-Returns d t half_closed at ended = closes_one t at
handler-Returns d t returned at ended = record { last = t; path = rests; at_end = at; same = refl }

-- A copy ends, if it has not, once its target is closed.
pub record Ends (d : Dir) (t : Tunnel) : Type 0 where
  pub last : Tunnel
  pub path : Alone t last
  pub phase_same : last.phase ≡ t.phase
  pub closed_same : last.closed ≡ t.closed
  pub done : last.ended d ≡ true
  pub still : (i : Dir) → t.ended i ≡ true → last.ended i ≡ true

copy-Ends : (d : Dir) (t : Tunnel) → t.closed (target d) ≡ true → Ends d t
unfolding end_copy set_dir
copy-Ends d t shut = elim (Bool-cases (t.ended d)) [
  | inl over ↦ record {
    last = t;
    path = rests;
    phase_same = refl;
    closed_same = refl;
    done = over;
    still = λ i e. e;
  }
  | inr live ↦ record {
    last = end_copy d t;
    path = goes rests (ends d live (inr (inr shut))) tt;
    phase_same = refl;
    closed_same = refl;
    done = set_self d;
    still = set_still d;
  }
]
  where
    set_self : (d : Dir) → (end_copy d t).ended d ≡ true
    set_self up = refl
    set_self down = refl

    set_still : (d i : Dir) → t.ended i ≡ true → (end_copy d t).ended i ≡ true
    set_still up up e = refl
    set_still up down e = e
    set_still down up e = e
    set_still down down e = refl

both : (t : Tunnel) → t.ended up ≡ true → t.ended down ≡ true → (d : Dir) → t.ended d ≡ true
both t u v up = u
both t u v down = v

closed_by : (t : Tunnel) → IsFaithful t → t.phase ≡ returned → (e : End) → t.closed e ≡ true
closed_by t v at p1 = ground (arith, v.first_open)
closed_by t v at p2 = ground (arith, v.second_open)

can_finish :
    (opened : Bool) (t : Tunnel) (d : Dir)
    → Steps (handle_client opened) t
    → t.ended d ≡ true
    → (u : Tunnel) × Alone t u × IsFinished u
can_finish opened t d r ended =
    let back = handler-Returns d t t.phase refl ended in
    let shut =
      closed_by back.last (Steps-IsFaithful opened back.last (with_alone r back.path))
        back.at_end in
    let one = copy-Ends up back.last (shut p2) in
    let two = copy-Ends down one.last (ap (λ f. f p1) one.closed_same ∙ shut p1) in
    (
      two.last,
      Alone-trans back.path (Alone-trans one.path two.path),
      record {
        at_end = two.phase_same ∙ (one.phase_same ∙ back.at_end);
        closed_both = λ e. ap (λ f. f e) two.closed_same ∙ (ap (λ f. f e) one.closed_same ∙ shut e);
        ended_both = both two.last (two.still up one.done) two.done;
      },
    )

-- Once a direction of a tunnel has ended, however far the handler is, the tunnel ends by what it does
-- alone, with not another byte read or written and with nothing more from the peers. It can do at most
-- five such steps, and after any of them, in any order, it can go on alone until the handler has
-- returned, both streams are closed and both copies are over.
pub tunnel_finishes :
    (opened : Bool) (t w : Tunnel) (d : Dir)
    → Steps (handle_client opened) t
    → t.ended d ≡ true
    → (a : Alone t w) → (count a ≤ 5) × ((u : Tunnel) × Alone w u × IsFinished u)
tunnel_finishes opened t w d r ended a = (
  omega (arith, count-rank a, rank_bound t),
  can_finish opened w d (with_alone r a) (still_ended d ended a),
)
