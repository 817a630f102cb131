-- ===== src/Kcptun/Tunnel.antt =====
-- client/main.go and server/main.go: handleClient, which ties two streams together until one direction
-- ends. The two copies and the handler itself run beside each other, so they are steps on a shared
-- state; what the streams deliver, and when they fail, is up to them.
pub mod Faithful
pub mod Count
pub mod Progress
use xtaci_kcptun.Prelude.{ℕ, ◌≡◌, ◌⊎◌, List, [], ◌++◌, take, drop, Bool, true, false, if◌then◌else◌}

-- `p1` is what the handler was given, `p2` what was opened for it.
pub data End : Type 0 where
  p1 p2 : End

-- The directions: `streamCopy(p2, p1)` and `streamCopy(p1, p2)`.
pub data Dir : Type 0 where
  up down : Dir

abbrev pub source : Dir → End
source up = p1
source down = p2

abbrev pub target : Dir → End
target up = p2
target down = p1

unfoldable pub set_dir {ℓ} : {A : Type ℓ} → Dir → A → (Dir → A) → Dir → A
set_dir up a f up = a
set_dir up a f down = f down
set_dir down a f up = f up
set_dir down a f down = a

unfoldable pub set_end : End → (End → Bool) → End → Bool
set_end p1 f p1 = true
set_end p1 f p2 = f p2
set_end p2 f p1 = f p1
set_end p2 f p2 = true

-- Where the handler stands: in the `select`, past it, after `p2.Close()`, returned.
pub data Phase : Type 0 where
  selecting deferring half_closed returned : Phase

pub record Tunnel : Type 0 where
  -- what each copy has read, what of it is in its buffer, and what it has written
  pub received : Dir → List ℕ
  pub held : Dir → List ℕ
  pub written : Dir → List ℕ
  -- a stream that has no more bytes to read, and one that takes none, by the peer or the network
  pub no_more : End → Bool
  pub refuses : End → Bool
  -- `close(die)`
  pub ended : Dir → Bool
  pub closed : End → Bool
  pub phase : Phase

abbrev pub fresh : Tunnel
fresh = record {
  received = λ d. [];
  held = λ d. [];
  written = λ d. [];
  no_more = λ e. false;
  refuses = λ e. false;
  ended = λ d. false;
  closed = λ e. false;
  phase = selecting;
}

-- `OpenStream` or `net.Dial` fails: `p1` is closed and nothing is copied. There is no `p2` to close.
abbrev pub refused : Tunnel
refused = record fresh { closed = λ e. true; ended = λ d. true; phase = returned }

unfoldable pub handle_client : Bool → Tunnel
handle_client opened = if opened then fresh else refused

unfoldable pub read : Dir → List ℕ → Tunnel → Tunnel
unfolding set_dir
read d bs t = record t {
  received = set_dir d (t.received d ++ bs) t.received;
  held = set_dir d bs t.held;
}

-- A write that takes `n` bytes of the buffer.
unfoldable pub write : Dir → ℕ → Tunnel → Tunnel
unfolding set_dir
write d n t = record t {
  written = set_dir d (t.written d ++ take n (t.held d)) t.written;
  held = set_dir d (drop n (t.held d)) t.held;
}

unfoldable pub end_copy : Dir → Tunnel → Tunnel
unfolding set_dir
end_copy d t = record t { ended = set_dir d true t.ended }

unfoldable pub close : End → Phase → Tunnel → Tunnel
unfolding set_end
close e next t = record t { closed = set_end e t.closed; phase = next }

unfoldable pub stop_source : End → Tunnel → Tunnel
unfolding set_end
stop_source e t = record t { no_more = set_end e t.no_more }

unfoldable pub stop_target : End → Tunnel → Tunnel
unfolding set_end
stop_target e t = record t { refuses = set_end e t.refuses }

-- A read of the source of a direction ends the copy: at the end of the stream, or because it failed or
-- is closed.
abbrev pub ReadEnds : Dir → Tunnel → Type 0
ReadEnds d t = (t.held d ≡ []) × ((t.no_more (source d) ≡ true) ⊎ (t.closed (source d) ≡ true))

-- A write to the target fails.
abbrev pub WriteFails : Dir → Tunnel → Type 0
WriteFails d t = (t.refuses (target d) ≡ true) ⊎ (t.closed (target d) ≡ true)

-- A copy reads when its buffer is empty, and writes the buffer; it ends at the end of its source, or when
-- a read or a write fails. A closed stream neither delivers nor takes bytes.
pub data Step (t : Tunnel) : Tunnel → Type 0 where
  reads :
      (d : Dir) (bs : List ℕ)
      → t.ended d ≡ false
      → t.held d ≡ []
      → t.no_more (source d) ≡ false
      → t.closed (source d) ≡ false
      → Step t (read d bs t)
  writes :
      (d : Dir) (n : ℕ)
      → t.ended d ≡ false
      → t.refuses (target d) ≡ false
      → t.closed (target d) ≡ false
      → Step t (write d n t)
  ends : (d : Dir) → t.ended d ≡ false → ReadEnds d t ⊎ WriteFails d t → Step t (end_copy d t)
  selects :
      (d : Dir) → t.phase ≡ selecting → t.ended d ≡ true → Step t (record t { phase = deferring })
  closes_second : t.phase ≡ deferring → Step t (close p2 half_closed t)
  closes_first : t.phase ≡ half_closed → Step t (close p1 returned t)
  -- what the peers and the network do
  source_stops : (e : End) → Step t (stop_source e t)
  target_stops : (e : End) → Step t (stop_target e t)

pub data Steps (s : Tunnel) : Tunnel → Type 0 where
  here : Steps s s
  later : {t u : Tunnel} → Steps s t → Step t u → Steps s u

-- What the program does without any bytes that come or are taken, and without the peers: a copy that
-- fails, and the handler's own statements.
abbrev pub IsAlone : {t u : Tunnel} → Step t u → Type 0
IsAlone (reads d bs live empty more opened) = ⊥
IsAlone (writes d n live takes opened) = ⊥
IsAlone (ends d live why) = Unit {0}
IsAlone (selects d at ended) = Unit {0}
IsAlone (closes_second at) = Unit {0}
IsAlone (closes_first at) = Unit {0}
IsAlone (source_stops e) = ⊥
IsAlone (target_stops e) = ⊥

pub data Alone (s : Tunnel) : Tunnel → Type 0 where
  rests : Alone s s
  goes : {t u : Tunnel} → Alone s t → (step : Step t u) → IsAlone step → Alone s u
