-- ===== src/Kcptun/Examples/Endings.antt =====
-- compStream over a writer that keeps what it is given until a flush, and sigHandler with a live
-- connection.
use xtaci_kcptun.Prelude.{
  ℕ, ◌≡◌, refl, sym, ◌∙◌, ap, List, [], ◌∷◌, ◌++◌, append_nil, append_assoc, some, false,
}
use xtaci_kcptun.Rawtcp.{Conn, dialled}
use xtaci_kcptun.Kcptun.CompStream.{IsPrefix, Snappy}
use xtaci_kcptun.Kcptun.Signals.{
  sigusr1, sigpipe, sigterm, interrupt, Left, sig_handler, sig_handler-Left,
}

pub stored_writes :
    (w p sent plain : List ℕ) → plain ≡ sent ++ w → plain ++ p ≡ (sent ++ []) ++ (w ++ p)
stored_writes w p sent plain e =
    ap (λ (x : List ℕ). x ++ p) e
    ∙ (append_assoc sent w p ∙ ap (λ (x : List ℕ). x ++ (w ++ p)) (sym (append_nil sent)))

pub stored_in_order :
    (w sent plain got : List ℕ) → plain ≡ sent ++ w → IsPrefix got sent → IsPrefix got plain
stored_in_order w sent plain got e p = record {
  rest = p.rest ++ w;
  whole = e ∙ (ap (λ (x : List ℕ). x ++ w) p.whole ∙ append_assoc got p.rest w);
}

abbrev pub stored : Snappy
stored = record {
  Writer = List ℕ;
  new_writer = [];
  write = λ p w. (w ++ p, []);
  flush = λ w. ([], w);
  decode = λ xs. xs;
  Writes = λ w sent plain. plain ≡ sent ++ w;
  starts = refl;
  writes = stored_writes;
  flushes = λ w sent plain e. e ∙ sym (append_nil (sent ++ w));
  flushed = λ w sent plain e. sym e;
  in_order = stored_in_order;
}

abbrev pub lines : List (List ℕ)
lines = (1 ∷ 2 ∷ []) ∷ [] ∷ (3 ∷ []) ∷ []

abbrev live : List Conn
live =
    record {
      side = dialled 8;
      port = 5000;
      handles = 3 ∷ [];
      flows = [];
      died = false;
      elem_in_list = some 1;
    }
    ∷ []

sig_handler-Left_example :
    Left live 2 (sig_handler (sigusr1 ∷ sigpipe ∷ sigusr1 ∷ sigterm ∷ interrupt ∷ []) live)
sig_handler-Left_example =
    sig_handler-Left (sigusr1 ∷ sigpipe ∷ sigusr1 ∷ []) sigterm (interrupt ∷ []) live
      (tt, (tt, (tt, tt))) refl (record { elem = 1; listed = refl }, tt)
