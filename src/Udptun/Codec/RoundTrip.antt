-- ===== src/Udptun/Codec/RoundTrip.antt =====
-- Opening what was sealed, and what the datagrams that `Open` accepts look like.
use xtaci_kcptun.Prelude.{
  ok, err, ℕ, ◌+◌, ◌^◌, ◌≤◌, ◌<◌, ◌≡◌, refl, ap, sym, ◌∙◌, List, ◌++◌, length, arith, if◌then◌else◌,
  not, length-append, subst, ◌-◌, ltb-eq-false, ==_iff, ◌==◌,
}
use xtaci_kcptun.Prelude.Bytes.{
  AllBytes, AllBytes-append, drop-skip, le32, length-le32, read_le32, read_le32-le32,
  le32-read_le32, read_le32-lt, Segments, segments,
}
use xtaci_kcptun.Udptun.Codec.{
  nonce_size, header_size, checksum_mismatch, Crypto, Codec, Datagram, IsSeeded, open_packet, seal,
}
use xtaci_kcptun.Udptun.Codec.Frame.{frame, seal-frame, length-frame}

-- What a passed checksum test says.
accepted_fields :
    (crc sum v : ℕ) (p : List ℕ) {d : Datagram}
    → (if not (crc == sum) then err checksum_mismatch else ok (record { flow_id = v; payload = p }))
      ≡ ok d
    → (crc ≡ sum) × (d.flow_id ≡ v) × (d.payload ≡ p)
accepted_fields crc sum v p h = ground arith

module _ (k : Crypto) where
  open_size : (buf : List ℕ) {d : Datagram} → open_packet k buf ≡ ok d → header_size ≤ length buf
  unfolding open_packet
  open_size buf h = ground arith

  -- The tests of `Open` on a plain text that is cut into its segments.
  open_segments :
      (buf n s f p : List ℕ)
      → k.decrypt buf ≡ n ++ (s ++ (f ++ p))
      → length n ≡ nonce_size
      → length s ≡ 4
      → length f ≡ 4
      → open_packet k buf ≡ (
          if not (k.crc32 (f ++ p) == read_le32 (s ++ (f ++ p)))
          then err checksum_mismatch
          else ok (record { flow_id = read_le32 (f ++ p); payload = p }))
  unfolding open_packet
  open_segments buf n s f p e ln ls lf =
      let size : header_size ≤ length buf = omega (
        arith,
        ap length e,
        k.length-decrypt buf,
        length-append n (s ++ (f ++ p)),
        length-append s (f ++ p),
        length-append f p,
      ) in
      rw (
        ltb-eq-false _ _ size,
        e,
        drop-skip 16 0 n (s ++ (f ++ p)) (omega arith),
        drop-skip 4 0 s (f ++ p) (omega arith),
        drop-skip 4 0 f p (omega arith),
      )

  -- What `Open` reads of a plain text that is a frame.
  open-frame :
      (buf nonce : List ℕ) (v : ℕ) (payload : List ℕ)
      → k.decrypt buf ≡ frame k nonce v payload
      → length nonce ≡ nonce_size
      → v < 2 ^ 32
      → open_packet k buf ≡ ok (record { flow_id = v; payload = payload })
  unfolding frame
  open-frame buf nonce v payload e ln hv =
      let rest = le32 v ++ payload in
      let crc = k.crc32 rest in
      rw (
        open_segments buf nonce (le32 crc) (le32 v) payload e ln (length-le32 crc) (length-le32 v),
        read_le32-le32 crc rest (k.crc32-lt rest),
        (==_iff crc crc).1 refl,
        read_le32-le32 v payload hv,
      )

  -- A packet that `Seal` made for a flow opens as that flow id and payload, whatever the
  -- destination buffer held and whatever the nonce was.
  pub open_packet-seal :
      (c : Codec) (dst : List ℕ) (v : ℕ) (payload : List ℕ)
      → IsSeeded c
      → header_size + length payload ≤ length dst
      → v < 2 ^ 32
      → (c' : Codec) × (pkt : List ℕ) × (seal k c dst v payload ≡ (c', ok pkt))
        × (open_packet k pkt ≡ ok (record { flow_id = v; payload = payload }))
        × (length pkt ≡ header_size + length payload)
        × IsSeeded c'
  open_packet-seal c dst v payload seeded room hv =
      let nonce = k.aes c.seed in
      let ln : length nonce ≡ 16 = k.length-aes c.seed seeded in
      let plain = frame k nonce v payload in
      let size : length plain ≡ header_size + length payload =
        omega (arith, length-frame k nonce v payload) in
      (
        record { seed = nonce },
        k.encrypt plain,
        seal-frame k c dst v payload seeded room,
        open-frame (k.encrypt plain) nonce v payload (k.decrypt-encrypt plain (omega arith)) ln hv,
        k.length-encrypt plain ∙ size,
        ln,
      )

  decrypt_size :
      (buf : List ℕ) → header_size ≤ length buf → length (k.decrypt buf) ≡ 24 + (length buf - 24)
  decrypt_size buf h = omega (arith, k.length-decrypt buf)

  -- What an accepted packet says of the segments of its plain text.
  open_fields :
      (buf : List ℕ) {d : Datagram} (g : Segments (k.decrypt buf))
      → open_packet k buf ≡ ok d
      → (k.crc32 (g.word ++ g.rest) ≡ read_le32 (g.sum ++ (g.word ++ g.rest)))
        × (d.flow_id ≡ read_le32 (g.word ++ g.rest))
        × (d.payload ≡ g.rest)
  open_fields buf g opened = accepted_fields _ _ _ _ (
      sym (
        open_segments buf g.nonce g.sum g.word g.rest g.joined g.nonce_length g.sum_length
          g.word_length)
      ∙ opened)

  -- The bytes of a checksum that matches are the encoding of the checksum.
  frame_of_segments :
      (n s w r : List ℕ)
      → length s ≡ 4
      → length w ≡ 4
      → AllBytes (n ++ (s ++ (w ++ r)))
      → k.crc32 (w ++ r) ≡ read_le32 (s ++ (w ++ r))
      → (n ++ (s ++ (w ++ r)) ≡ frame k n (read_le32 (w ++ r)) r) × (read_le32 (w ++ r) < 2 ^ 32)
  unfolding frame
  frame_of_segments n s w r ls lw bytes sum_matches =
      let rest_bytes = (AllBytes-append n (s ++ (w ++ r)) bytes).1 in
      let sum_bytes = AllBytes-append s (w ++ r) rest_bytes in
      let word_bytes = (AllBytes-append w r sum_bytes.1).0 in
      (
        rw (
          le32-read_le32 w r lw word_bytes,
          sum_matches,
          le32-read_le32 s (w ++ r) ls sum_bytes.0,
        ),
        read_le32-lt w r lw word_bytes,
      )

  -- The other way round: of whole bytes, `Open` accepts a packet only if its plain text is the
  -- frame of the flow id and the payload that it returns.
  pub open_packet_sound :
      (buf : List ℕ) {d : Datagram}
      → AllBytes (k.decrypt buf)
      → open_packet k buf ≡ ok d
      → (nonce : List ℕ) × (length nonce ≡ nonce_size)
        × (k.decrypt buf ≡ frame k nonce d.flow_id d.payload)
        × (d.flow_id < 2 ^ 32)
  open_packet_sound buf {d} bytes opened =
      let g =
        segments (length buf - 24) (k.decrypt buf) (decrypt_size buf (open_size buf opened)) in
      let (sum_matches, id_read, rest_read) = open_fields buf g opened in
      let (is_frame, small) =
        frame_of_segments g.nonce g.sum g.word g.rest g.sum_length g.word_length
          (subst AllBytes g.joined bytes) sum_matches in
      (g.nonce, g.nonce_length, g.joined ∙ rw (id_read, rest_read) is_frame, rw id_read small)
