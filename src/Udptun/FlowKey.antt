-- ===== src/Udptun/FlowKey.antt =====
-- udptun/server.go: `flowKey`, which scopes a flow id to its client. A text is the list of its bytes.
use xtaci_kcptun.Prelude.{
  ℕ, zero, suc, ◌+◌, ◌-◌, ◌*◌, ◌/◌, ◌%◌, ◌^◌, ◌<◌, ◌≡◌, refl, ap, sym, ◌∙◌, List, [], ◌∷◌, ◌++◌,
  Bool, true, false, ◌&&◌, arith, ltb, if◌then◌else◌, nat_eq, Eq, Bool-cases, inl, inr, ◌↔◌, ◌==◌,
}
use xtaci_kcptun.Prelude.Switch.{contains}

abbrev pub Text : Type 0
Text = List ℕ

unfoldable pub text_beq : Text → Text → Bool
text_beq [] [] = true
text_beq [] (y ∷ ys) = false
text_beq (x ∷ xs) [] = false
text_beq (x ∷ xs) (y ∷ ys) = x == y && text_beq xs ys

text_beq-eq : (s t : Text) → text_beq s t ≡ true → s ≡ t
unfolding text_beq
text_beq-eq [] [] h = refl
text_beq-eq [] (y ∷ ys) h = ground arith
text_beq-eq (x ∷ xs) [] h = ground arith
text_beq-eq (x ∷ xs) (y ∷ ys) h = ground (arith, text_beq-eq xs ys)

text_beq_self : (s : Text) → text_beq s s ≡ true
unfolding text_beq
text_beq_self [] = refl
text_beq_self (x ∷ xs) = ground (arith, text_beq_self xs)

pub text_beq_iff : (s t : Text) → (text_beq s t ≡ true) ↔ (s ≡ t)
text_beq_iff s t = (text_beq-eq s t, λ e. rw e (text_beq_self t))

instance abbrev pub text_eq : Eq Text
text_eq = record { beq = text_beq; beq_iff = text_beq_iff }

-- The digits of `n` in front of `out`; `fuel` digits at most.
unfoldable pub digits : ℕ → ℕ → Text → Text
digits zero n out = out
digits (suc fuel) n out =
    let rest = digits fuel (n / 10) ((b'0' + n % 10) ∷ out) in
    if ltb n 10 then (b'0' + n) ∷ out else rest

-- `strconv.FormatUint(uint64(id), 10)`; a uint32 has ten digits at most.
unfoldable pub format_uint : ℕ → Text
unfolding digits
format_uint n = digits 10 n []

-- `flowKey`
unfoldable pub flow_key : Text → ℕ → Text
flow_key client id = client ++ (b'|' ∷ format_uint id)

-- The number that digits spell behind `n`.
value : Text → ℕ → ℕ
value [] n = n
value (d ∷ ds) n = value ds (10 * n + (d - b'0'))

bound : ℕ → ℕ
bound zero = 1
bound (suc fuel) = 10 * bound fuel

value-digits :
    (fuel n : ℕ) (out : Text) → n < bound fuel → value (digits fuel n out) 0 ≡ value out n
unfolding digits value bound
value-digits zero n out h = ap (value out) (omega arith)
value-digits (suc fuel) n out h = elim (Bool-cases (ltb n 10)) [
  | inl last ↦ rw last (ap (value out) (omega arith))
  | inr more ↦ rw more (
      value-digits fuel (n / 10) ((b'0' + n % 10) ∷ out) (omega arith)
      ∙ ap (value out) (omega arith))
]

pub format_uint_inj : (m n : ℕ) → m < 2 ^ 32 → n < 2 ^ 32 → format_uint m ≡ format_uint n → m ≡ n
unfolding format_uint bound value
format_uint_inj m n hm hn e =
    sym (value-digits 10 m [] (omega arith))
    ∙ ap (λ ds. value ds 0) e
    ∙ value-digits 10 n [] (omega arith)

digits_no_bar :
    (fuel n : ℕ) (out : Text)
    → contains out b'|' ≡ false
    → contains (digits fuel n out) b'|' ≡ false
unfolding digits contains
digits_no_bar zero n out h = h
digits_no_bar (suc fuel) n out h = elim (Bool-cases (ltb n 10)) [
  | inl last ↦ rw last (ground arith)
  | inr more ↦ rw more (digits_no_bar fuel (n / 10) ((b'0' + n % 10) ∷ out) (ground arith))
]

contains-middle : (c : ℕ) (a d : Text) → contains (a ++ (c ∷ d)) c ≡ true
unfolding contains
contains-middle c [] d = ground arith
contains-middle c (x ∷ a) d = ground (arith, contains-middle c a d)

-- A text is cut at its last bar in one way.
last_bar :
    (c : ℕ) (a b d e : Text)
    → contains d c ≡ false
    → contains e c ≡ false
    → a ++ (c ∷ d) ≡ b ++ (c ∷ e)
    → (a ≡ b) × (d ≡ e)
last_bar c [] [] d e h k q = (refl, cc)
last_bar c [] (y ∷ b) d e h k q = absurd (ground (arith, contains-middle c b e))
last_bar c (x ∷ a) [] d e h k q = absurd (ground (arith, contains-middle c a d))
last_bar c (x ∷ a) (y ∷ b) d e h k q = let r = last_bar c a b d e h k (cc) in (cc r.0, r.1)

-- Two clients, or two flows of one, never share a key, whatever the clients' texts hold.
pub flow_key_inj :
    (client other : Text) (id j : ℕ)
    → id < 2 ^ 32
    → j < 2 ^ 32
    → flow_key client id ≡ flow_key other j
    → (client ≡ other) × (id ≡ j)
unfolding flow_key format_uint contains
flow_key_inj client other id j hi hj e =
    let r =
      last_bar b'|' client other (format_uint id) (format_uint j) (digits_no_bar 10 id [] refl)
        (digits_no_bar 10 j [] refl) e in
    (r.0, format_uint_inj id j hi hj r.1)
