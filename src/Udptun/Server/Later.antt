-- ===== src/Udptun/Server/Later.antt =====
-- What the critical sections of the server leave as it is: its settings, a seeded codec, and whom a
-- flow stands for.
use xtaci_kcptun.Prelude.{ℕ, ◌<◌, ◌≡◌, refl, ◌∙◌, arith, update}
use xtaci_kcptun.Udptun.Codec.{IsSeeded}
use xtaci_kcptun.Udptun.FlowKey.{Text, text_eq}
use xtaci_kcptun.Udptun.Server.{Server, touch, close_socket, dial, publish, close_flow}
use xtaci_kcptun.Udptun.Server.Steps.{
  Step, Steps, dials, publishes, touches, seals, closes, done, more,
}

module _ {Addr : Type 0} (show : Addr → Text) where
  -- From one state of the server to a later one.
  pub record Kept (s t : Server Addr) : Type 0 where
    pub cfg : t.cfg ≡ s.cfg
    pub seeded : IsSeeded s.codec → IsSeeded t.codec
    pub made : (p : ℕ) → p < s.allocated → p < t.allocated
    pub client : (p : ℕ) → p < s.allocated → (t.flows p).client ≡ (s.flows p).client
    pub id : (p : ℕ) → p < s.allocated → (t.flows p).id ≡ (s.flows p).id

  Step-Kept : {s t : Server Addr} → Step show s t → Kept s t
  unfolding dial touch close_flow publish close_socket update
  Step-Kept {s} (dials now client id e h) = record {
    cfg = refl;
    seeded = λ h. h;
    made = λ p h. omega arith;
    client = λ p h. ground arith;
    id = λ p h. ground arith;
  }
  Step-Kept {s} (publishes p e) = record {
    cfg = ground arith;
    seeded = λ h. ground arith;
    made = λ p h. ground arith;
    client = λ p h. ground arith;
    id = λ p h. ground arith;
  }
  Step-Kept {s} (touches now p) = record {
    cfg = refl;
    seeded = λ h. h;
    made = λ p h. h;
    client = λ p h. ground arith;
    id = λ p h. ground arith;
  }
  Step-Kept (seals codec keeps) = record {
    cfg = refl;
    seeded = keeps;
    made = λ p h. h;
    client = λ p h. refl;
    id = λ p h. refl;
  }
  Step-Kept {s} (closes p) = record {
    cfg = ground arith;
    seeded = λ h. ground arith;
    made = λ p h. ground arith;
    client = λ p h. ground arith;
    id = λ p h. ground arith;
  }

  pub Steps-Kept : {s t : Server Addr} → Steps show s t → Kept s t
  Steps-Kept done = record {
    cfg = refl;
    seeded = λ h. h;
    made = λ p h. h;
    client = λ p h. refl;
    id = λ p h. refl;
  }
  Steps-Kept (more st step) =
      let before = Steps-Kept st in
      let last = Step-Kept step in
      record {
        cfg = last.cfg ∙ before.cfg;
        seeded = λ h. last.seeded (before.seeded h);
        made = λ p h. last.made p (before.made p h);
        client = λ p h. last.client p (before.made p h) ∙ before.client p h;
        id = λ p h. last.id p (before.made p h) ∙ before.id p h;
      }
