-- ===== src/Kcptun/Examples/Tunnels.antt =====
-- A tunnel that carries two bytes up, of which one is written before the other direction ends,
-- whose source has no more.
use xtaci_kcptun.Prelude.{◌≡◌, ◌≤◌, refl, inl, [], ◌∷◌, true}
use xtaci_kcptun.Kcptun.Tunnel.{
  Tunnel, up, down, Steps, here, later, reads, writes, ends, fresh, handle_client, read, write,
  end_copy, set_dir, set_end, stop_source, source_stops, Step, Alone, selecting, deferring, p2,
}
use xtaci_kcptun.Kcptun.Tunnel.Faithful.{IsFaithful, Steps-IsFaithful}
use xtaci_kcptun.Kcptun.Tunnel.Progress.{IsFinished, tunnel_finishes}

abbrev one_read : Tunnel
one_read = read up (7 ∷ 8 ∷ []) fresh

abbrev one_written : Tunnel
one_written = write up 1 one_read

abbrev no_answer : Tunnel
no_answer = stop_source p2 one_written

abbrev half_over : Tunnel
half_over = end_copy down no_answer

half_over-Steps : Steps (handle_client true) half_over
unfolding handle_client read write set_dir stop_source set_end
half_over-Steps =
    let one = later here (reads up (7 ∷ 8 ∷ []) refl refl refl refl) in
    let two = later one (writes up 1 refl refl refl) in
    later (later two (source_stops p2)) (ends down refl (inl (refl, inl refl)))

Steps-IsFaithful_example : IsFaithful half_over
Steps-IsFaithful_example = Steps-IsFaithful true half_over half_over-Steps

half_over-ended : half_over.ended down ≡ true
unfolding end_copy set_dir
half_over-ended = refl

abbrev chosen : Tunnel
chosen = record half_over { phase = deferring }

half_over-selecting : half_over.phase ≡ selecting
unfolding end_copy write read stop_source
half_over-selecting = refl

tunnel_finishes_example : (1 ≤ 5) × ((u : Tunnel) × Alone chosen u × IsFinished u)
tunnel_finishes_example =
    tunnel_finishes true half_over chosen down half_over-Steps half_over-ended
      (Alone.goes Alone.rests (Step.selects down half_over-selecting half_over-ended) tt)
