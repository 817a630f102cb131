-- ===== src/Udptun/Codec/Frame.antt =====
-- The wire format as one expression, and sealing as its refinement.
use xtaci_kcptun.Prelude.{
  ok, err, ℕ, ◌+◌, ◌≤◌, ◌≡◌, ap, sym, ◌∙◌, List, ◌++◌, length, take, drop, arith, ltb, Bool-cases,
  inl, inr, length-append, length-take, ltb-eq-false, lt→ltb, ◌<◌,
}
use xtaci_kcptun.Prelude.Bytes.{
  copy_at, copy_at-skip, copy_at-front, copy_at-whole, drop-skip, le32, length-le32, split,
}
use xtaci_kcptun.Udptun.Codec.{header_size, buf_too_small, Crypto, Codec, IsSeeded, fill, seal}

module _ (k : Crypto) where
  -- What goes through the cipher for a flow id and a payload, under a nonce.
  unfoldable pub frame : List ℕ → ℕ → List ℕ → List ℕ
  frame nonce flow_id payload =
      nonce ++ (le32 (k.crc32 (le32 flow_id ++ payload)) ++ (le32 flow_id ++ payload))

  -- The checksum over everything behind it.
  abbrev checked : List ℕ → List ℕ
  checked buf = copy_at 16 (le32 (k.crc32 (drop 20 buf))) buf

  module _ (n s f p : List ℕ) (ln : length n ≡ 16) (ls : length s ≡ 4) where
    write_flow_id :
        (v : ℕ)
        → length f ≡ 4
        → copy_at 20 (le32 v) (n ++ (s ++ (f ++ p))) ≡ n ++ (s ++ (le32 v ++ p))
    write_flow_id v lf =
        copy_at-skip 20 4 n (le32 v) (s ++ (f ++ p)) (omega arith)
        ∙ ap (◌++◌ n) (
            copy_at-skip 4 0 s (le32 v) (f ++ p) (omega arith)
            ∙ ap (◌++◌ s) (copy_at-front (le32 v) f p (omega (arith, length-le32 v))))

    write_payload :
        (payload : List ℕ)
        → length f ≡ 4
        → length payload ≡ length p
        → copy_at 24 payload (n ++ (s ++ (f ++ p))) ≡ n ++ (s ++ (f ++ payload))
    write_payload payload lf lp =
        copy_at-skip 24 8 n payload (s ++ (f ++ p)) (omega arith)
        ∙ ap (◌++◌ n) (
            copy_at-skip 8 4 s payload (f ++ p) (omega arith)
            ∙ ap (◌++◌ s) (
                copy_at-skip 4 0 f payload p (omega arith)
                ∙ ap (◌++◌ f) (copy_at-whole payload p lp)))

    read_body : drop 20 (n ++ (s ++ (f ++ p))) ≡ f ++ p
    read_body =
        drop-skip 20 4 n (s ++ (f ++ p)) (omega arith) ∙ drop-skip 4 0 s (f ++ p) (omega arith)

    write_crc : (v : ℕ) → copy_at 16 (le32 v) (n ++ (s ++ (f ++ p))) ≡ n ++ (le32 v ++ (f ++ p))
    write_crc v =
        copy_at-skip 16 0 n (le32 v) (s ++ (f ++ p)) (omega arith)
        ∙ ap (◌++◌ n) (copy_at-front (le32 v) s (f ++ p) (omega (arith, length-le32 v)))

  -- The writes of `Seal`, over a packet that is cut into its four segments.
  fill_segments :
      (c : Codec) (v : ℕ) (payload n s f p : List ℕ)
      → IsSeeded c
      → length n ≡ 16
      → length s ≡ 4
      → length f ≡ 4
      → length payload ≡ length p
      → (fill k c (checked (copy_at 24 payload (copy_at 20 (le32 v) (n ++ (s ++ (f ++ p))))))).1
        ≡ frame (k.aes c.seed) v payload
  unfolding fill frame
  fill_segments c v payload n s f p seeded ln ls lf lp =
      rw
        (
          write_flow_id n s f p ln ls v lf,
          write_payload n s (le32 v) p ln ls payload (length-le32 v) lp,
          read_body n s (le32 v) payload ln ls,
          write_crc n s (le32 v) payload ln ls (k.crc32 (le32 v ++ payload)),
        )
        (copy_at-front (k.aes c.seed) n _ (omega (arith, k.length-aes c.seed seeded)))

  -- So over any packet of the right size.
  fill_packet :
      (c : Codec) (v : ℕ) (payload buf : List ℕ)
      → IsSeeded c
      → length buf ≡ header_size + length payload
      → (fill k c (checked (copy_at 24 payload (copy_at 20 (le32 v) buf)))).1
        ≡ frame (k.aes c.seed) v payload
  fill_packet c v payload buf seeded size =
      let a = split 16 (8 + length payload) buf (omega arith) in
      let b = split 4 (4 + length payload) a.back (omega (arith, a.back_length)) in
      let d = split 4 (length payload) b.back (omega (arith, b.back_length)) in
      rw (a.joined, b.joined, d.joined)
        (fill_segments c v payload a.front b.front d.front d.back seeded a.front_length
          b.front_length d.front_length (sym d.back_length))

  -- Sealing produces the encryption of the frame, whatever the destination held before.
  pub seal-frame :
      (c : Codec) (dst : List ℕ) (flow_id : ℕ) (payload : List ℕ)
      → IsSeeded c
      → header_size + length payload ≤ length dst
      → seal k c dst flow_id payload
        ≡ (record { seed = k.aes c.seed }, ok (k.encrypt (frame (k.aes c.seed) flow_id payload)))
  unfolding seal
  seal-frame c dst flow_id payload seeded room = rw (ltb-eq-false _ _ room) (
      ap (λ b. (record { seed = k.aes c.seed }, ok (k.encrypt b)))
        (fill_packet c flow_id payload (take (24 + length payload) dst) seeded
          (omega (arith, length-take (24 + length payload) dst))))

  -- Without room for the whole packet nothing is sealed and the nonce stays.
  pub seal_small :
      (c : Codec) (dst : List ℕ) (flow_id : ℕ) (payload : List ℕ)
      → length dst < header_size + length payload
      → seal k c dst flow_id payload ≡ (c, err buf_too_small)
  unfolding seal
  seal_small c dst flow_id payload h = rw (lt→ltb _ _ h)

  pub length-frame :
      (nonce : List ℕ) (flow_id : ℕ) (payload : List ℕ)
      → length (frame nonce flow_id payload) ≡ length nonce + 8 + length payload
  unfolding frame
  length-frame nonce flow_id payload = omega (
    arith,
    length-append nonce (le32 (k.crc32 (le32 flow_id ++ payload)) ++ (le32 flow_id ++ payload)),
    length-append (le32 (k.crc32 (le32 flow_id ++ payload))) (le32 flow_id ++ payload),
    length-append (le32 flow_id) payload,
    length-le32 flow_id,
    length-le32 (k.crc32 (le32 flow_id ++ payload)),
  )

  -- The nonce generator stays seeded, whether or not there was room.
  pub seal-IsSeeded :
      (c : Codec) (dst : List ℕ) (flow_id : ℕ) (payload : List ℕ)
      → IsSeeded c
      → IsSeeded (seal k c dst flow_id payload).0
  unfolding seal
  seal-IsSeeded c dst flow_id payload h =
      elim (Bool-cases (ltb (length dst) (header_size + length payload))) [
        | inl small ↦ rw small h
        | inr room ↦ rw room (k.length-aes c.seed h)
      ]
