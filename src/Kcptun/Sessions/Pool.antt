-- ===== src/Kcptun/Sessions/Pool.antt =====
-- client/main.go: what the accept loop hands out.
use xtaci_kcptun.Prelude.{◌↔◌}
use xtaci_kcptun.Kcptun.Sessions.{num_conn}
use xtaci_kcptun.Prelude.{
  ℕ, zero, suc, [], ◌∷◌, if◌then◌else◌, ◌+◌, ◌%◌, ◌^◌, ◌<◌, ◌≡◌, ◌≢◌, ◌⊎◌, refl, sym, List, length,
  get_elem?, get_elem?-set_self, get_elem?-set_ne, length-set, none, some, Bool, true, false, arith,
}
use xtaci_kcptun.Prelude.Int.{pos}
use xtaci_kcptun.Kcptun.Sessions.{Mux, Sessions, Handed, new_mux, is_spent, hand_out, accept}

-- The index that the next connection goes to.
abbrev pub turn : Sessions → ℕ
turn s = s.rr % length s.muxes

-- What a pass of the loop promises on the state `s`, whose mux in turn is `mux`.
pub record IsServed (is_closed : ℕ → Bool) (now made fresh : ℕ) (s : Sessions) (h : Handed)
    : Type 0 where
  pub mux : Mux
  pub in_turn : get_elem? s.muxes (turn s) ≡ some mux
  -- a session of the pool that is neither closed nor expired, or a fresh one for it
  pub usable :
      ((h.session ≡ mux.session)
        × (is_spent is_closed now s.auto_expire mux ≡ false)
        × (h.scavenged ≡ none))
      ⊎ ((h.session ≡ fresh)
          × (is_spent is_closed now s.auto_expire mux ≡ true)
          × (h.scavenged ≡ some mux.session))
  -- the pool holds the session, and all else that it held
  pub size : length h.sessions.muxes ≡ length s.muxes
  pub held : (m : Mux) × (get_elem? h.sessions.muxes (turn s) ≡ some m) × (m.session ≡ h.session)
  pub others : (i : ℕ) → i ≢ turn s → get_elem? h.sessions.muxes i ≡ get_elem? s.muxes i
  pub turned : h.sessions.rr ≡ (s.rr + 1) % 2 ^ 16

get_elem?_total : (ms : List Mux) (i : ℕ) → i < length ms → (m : Mux) × (get_elem? ms i ≡ some m)
get_elem?_total [] i h = absurd (omega (arith, h))
get_elem?_total (m ∷ ms) zero h = (m, refl)
get_elem?_total (m ∷ ms) (suc i) h = get_elem?_total ms i (omega (arith, h))

hand_out-IsServed :
    (is_closed : ℕ → Bool) (now made fresh : ℕ) (mux : Mux) (s : Sessions)
    → get_elem? s.muxes (turn s) ≡ some mux
    → turn s < length s.muxes
    → IsServed is_closed now made fresh s (hand_out is_closed now made fresh (turn s) mux s)
unfolding hand_out
hand_out-IsServed is_closed now made fresh mux s found h = record {
  mux = mux;
  in_turn = found;
  usable = ground arith;
  size = ground (arith, length-set s.muxes (turn s) (new_mux made s.auto_expire fresh));
  held = (
    if is_spent is_closed now s.auto_expire mux then new_mux made s.auto_expire fresh else mux,
    ground (arith, found, get_elem?-set_self s.muxes (turn s) (new_mux made s.auto_expire fresh) h),
    ground arith,
  );
  others = λ i ne. ground (
    arith,
    get_elem?-set_ne s.muxes {j = i} (new_mux made s.auto_expire fresh) (λ e. ne (sym e)),
  );
  turned = ground arith;
}

pub accept-found :
    (is_closed : ℕ → Bool) (now made fresh : ℕ) (s : Sessions) (mux : Mux)
    → 0 < length s.muxes
    → get_elem? s.muxes (turn s) ≡ some mux
    → accept is_closed now made fresh s ≡ some (hand_out is_closed now made fresh (turn s) mux s)
unfolding accept
accept-found is_closed now made fresh s mux h found = ground (arith, found)

-- A client with at least one session serves every connection: with the session in turn if that is
-- open and has not expired, otherwise with a fresh one in its place, and then the old one goes to the
-- scavenger; the other sessions stay, and the turn moves on.
pub accept-IsServed :
    (is_closed : ℕ → Bool) (now made fresh : ℕ) (s : Sessions)
    → 0 < length s.muxes
    → (h : Handed) × (accept is_closed now made fresh s ≡ some h)
      × IsServed is_closed now made fresh s h
accept-IsServed is_closed now made fresh s h =
    let below : turn s < length s.muxes = omega arith in
    let (mux, found) = get_elem?_total s.muxes (turn s) below in
    (
      hand_out is_closed now made fresh (turn s) mux s,
      accept-found is_closed now made fresh s mux h found,
      hand_out-IsServed is_closed now made fresh mux s found below,
    )

-- A client with as many sessions as `uint16` makes of its setting panics on the first connection
-- exactly if the setting is a multiple of 65536.
pub accept-num_conn :
    (is_closed : ℕ → Bool) (now made fresh conn : ℕ) (s : Sessions)
    → length s.muxes ≡ num_conn (pos conn)
    → (accept is_closed now made fresh s ≡ none) ↔ (conn % 65536 ≡ 0)
unfolding num_conn accept
accept-num_conn is_closed now made fresh conn s h =
    (λ e. refuses (length s.muxes) refl e, λ e. ground (arith, h, e))
  where
    refuses :
        (n : ℕ) → length s.muxes ≡ n → accept is_closed now made fresh s ≡ none → conn % 65536 ≡ 0
    refuses zero size e = omega (arith, h, size)
    refuses (suc n) size e =
        let (handed, served, rest) =
          accept-IsServed is_closed now made fresh s (omega (arith, size)) in
        ground (arith, e, served)
