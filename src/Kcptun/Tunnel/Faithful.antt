-- ===== src/Kcptun/Tunnel/Faithful.antt =====
-- client/main.go and server/main.go: what a tunnel delivers, and which streams it leaves open.
use xtaci_kcptun.Prelude.{not}
use xtaci_kcptun.Prelude.{
  ℕ, ◌≡◌, ◌⊎◌, inl, inr, refl, sym, ◌∙◌, ap, List, [], ◌++◌, take, drop, take-append-drop,
  append_nil, append_assoc, Bool, true, false, arith,
}
use xtaci_kcptun.Kcptun.Tunnel.{
  p1, p2, Dir, up, down, set_dir, set_end, Phase, selecting, deferring, half_closed, returned,
  Tunnel, handle_client, read, write, end_copy, close, Step, reads, writes, ends, selects,
  closes_second, closes_first, source_stops, target_stops, stop_source, stop_target, Steps, here,
  later,
}

abbrev pub is_first_open : Phase → Bool
is_first_open selecting = true
is_first_open deferring = true
is_first_open half_closed = true
is_first_open returned = false

abbrev pub is_second_open : Phase → Bool
is_second_open selecting = true
is_second_open deferring = true
is_second_open half_closed = false
is_second_open returned = false

abbrev pub is_over : Phase → Bool
is_over selecting = false
is_over deferring = true
is_over half_closed = true
is_over returned = true

pub record IsFaithful (t : Tunnel) : Type 0 where
  -- what was written, followed by what is still in the buffer, is what was read
  pub in_order : (d : Dir) → t.received d ≡ t.written d ++ t.held d
  -- both streams are open until a direction has ended, and closed when the handler returns
  pub first_open : t.closed p1 ≡ not (is_first_open t.phase)
  pub second_open : t.closed p2 ≡ not (is_second_open t.phase)
  pub after_end : is_over t.phase ≡ true → (t.ended up ≡ true) ⊎ (t.ended down ≡ true)

handle_client-IsFaithful : (opened : Bool) → IsFaithful (handle_client opened)
unfolding handle_client
handle_client-IsFaithful true = record {
  in_order = λ d. refl;
  first_open = refl;
  second_open = refl;
  after_end = λ e. ground (arith, e);
}
handle_client-IsFaithful false = record {
  in_order = λ d. refl;
  first_open = refl;
  second_open = refl;
  after_end = λ e. inl refl;
}

read-IsFaithful :
    (d : Dir) (bs : List ℕ) (t : Tunnel) → t.held d ≡ [] → IsFaithful t → IsFaithful (read d bs t)
unfolding read set_dir
read-IsFaithful d bs t e v = record {
  in_order = ordered d e;
  first_open = v.first_open;
  second_open = v.second_open;
  after_end = v.after_end;
}
  where
    whole : (d : Dir) → t.held d ≡ [] → t.received d ≡ t.written d
    whole d e = v.in_order d ∙ (ap (λ h. t.written d ++ h) e ∙ append_nil (t.written d))

    ordered :
        (d : Dir)
        → t.held d ≡ []
        → (i : Dir) → (read d bs t).received i ≡ (read d bs t).written i ++ (read d bs t).held i
    ordered up e up = ap (λ r. r ++ bs) (whole up e)
    ordered up e down = v.in_order down
    ordered down e up = v.in_order up
    ordered down e down = ap (λ r. r ++ bs) (whole down e)

write-IsFaithful : (d : Dir) (n : ℕ) (t : Tunnel) → IsFaithful t → IsFaithful (write d n t)
unfolding write set_dir
write-IsFaithful d n t v = record {
  in_order = ordered d;
  first_open = v.first_open;
  second_open = v.second_open;
  after_end = v.after_end;
}
  where
    moved : (d : Dir) → t.received d ≡ t.written d ++ take n (t.held d) ++ drop n (t.held d)
    moved d =
        v.in_order d
        ∙ (ap (λ h. t.written d ++ h) (sym (take-append-drop n (t.held d)))
            ∙ sym (append_assoc (t.written d) (take n (t.held d)) (drop n (t.held d))))

    ordered :
        (d i : Dir) → (write d n t).received i ≡ (write d n t).written i ++ (write d n t).held i
    ordered up up = moved up
    ordered up down = v.in_order down
    ordered down up = v.in_order up
    ordered down down = moved down

end_copy-IsFaithful : (d : Dir) (t : Tunnel) → IsFaithful t → IsFaithful (end_copy d t)
unfolding end_copy set_dir
end_copy-IsFaithful up t v = record {
  in_order = v.in_order;
  first_open = v.first_open;
  second_open = v.second_open;
  after_end = λ e. inl refl;
}
end_copy-IsFaithful down t v = record {
  in_order = v.in_order;
  first_open = v.first_open;
  second_open = v.second_open;
  after_end = λ e. inr refl;
}

either_ended :
    (d : Dir) (t : Tunnel) → t.ended d ≡ true → (t.ended up ≡ true) ⊎ (t.ended down ≡ true)
either_ended up t e = inl e
either_ended down t e = inr e

Step-IsFaithful : {t u : Tunnel} → Step t u → IsFaithful t → IsFaithful u
unfolding close set_end stop_source stop_target
Step-IsFaithful {t} (reads d bs live empty more opened) v = read-IsFaithful d bs t empty v
Step-IsFaithful {t} (writes d n live takes opened) v = write-IsFaithful d n t v
Step-IsFaithful {t} (ends d live why) v = end_copy-IsFaithful d t v
Step-IsFaithful {t} (selects d at ended) v = record {
  in_order = v.in_order;
  first_open = ground (arith, v.first_open);
  second_open = ground (arith, v.second_open);
  after_end = λ e. either_ended d t ended;
}
Step-IsFaithful {t} (closes_second at) v = record {
  in_order = v.in_order;
  first_open = ground (arith, v.first_open);
  second_open = refl;
  after_end = λ e. ground (arith, v.after_end);
}
Step-IsFaithful {t} (closes_first at) v = record {
  in_order = v.in_order;
  first_open = refl;
  second_open = ground (arith, v.second_open);
  after_end = λ e. ground (arith, v.after_end);
}
Step-IsFaithful (source_stops e) v = record {
  in_order = v.in_order;
  first_open = v.first_open;
  second_open = v.second_open;
  after_end = v.after_end;
}
Step-IsFaithful (target_stops e) v = record {
  in_order = v.in_order;
  first_open = v.first_open;
  second_open = v.second_open;
  after_end = v.after_end;
}

-- In every state of a tunnel that the handler starts, each direction has delivered exactly what it
-- read but for the rest in its buffer, in order; both streams are open while the handler waits for an
-- end, and once it waits no more a direction has ended; when it has returned both are closed.
pub Steps-IsFaithful : (opened : Bool) (t : Tunnel) → Steps (handle_client opened) t → IsFaithful t
Steps-IsFaithful opened t r = go r
  where
    go : {t : Tunnel} → Steps (handle_client opened) t → IsFaithful t
    go here = handle_client-IsFaithful opened
    go (later r s) = Step-IsFaithful s (go r)
