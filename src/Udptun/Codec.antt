-- ===== src/Udptun/Codec.antt =====
-- udptun/packet.go: the wire format `nonce[16] | crc32[4] | flowID[4] | payload`, sealed and opened
-- in place. The block cipher, AES and CRC32 are not part of the repository's own code: they are the
-- fields of `Crypto`, with the documented behaviour that the code relies on as laws.
pub mod Frame
pub mod RoundTrip
use xtaci_kcptun.Prelude.{
  ℕ, ◌+◌, ◌^◌, ◌≤◌, ◌<◌, ◌≡◌, not, List, [], ◌∷◌, length, take, drop, ltb, ◌==◌, Result, ok, err,
  if◌then◌else◌,
}
use xtaci_kcptun.Prelude.Bytes.{copy_at, le32, read_le32}

abbrev pub nonce_size : ℕ
nonce_size = 16

abbrev pub crc_size : ℕ
crc_size = 4

abbrev pub flow_id_size : ℕ
flow_id_size = 4

abbrev pub header_size : ℕ
header_size = nonce_size + crc_size + flow_id_size

abbrev pub keep_alive_flow : ℕ
keep_alive_flow = 0

pub data CodecError : Type 0 where
  short_packet checksum_mismatch buf_too_small : CodecError

-- What the codec calls: `crypt.BlockCrypt` on whole packets, AES on the nonce seed, CRC32.
pub record Crypto : Type 0 where
  pub encrypt : List ℕ → List ℕ
  pub decrypt : List ℕ → List ℕ
  pub aes : List ℕ → List ℕ
  pub crc32 : List ℕ → ℕ
  pub decrypt-encrypt : (x : List ℕ) → header_size ≤ length x → decrypt (encrypt x) ≡ x
  pub length-encrypt : (x : List ℕ) → length (encrypt x) ≡ length x
  pub length-decrypt : (x : List ℕ) → length (decrypt x) ≡ length x
  pub length-aes : (x : List ℕ) → length x ≡ nonce_size → length (aes x) ≡ nonce_size
  pub crc32-lt : (x : List ℕ) → crc32 x < 2 ^ 32

-- The nonce generator's seed is the only state that sealing changes.
pub record Codec : Type 0 where
  pub seed : List ℕ

abbrev pub IsSeeded : Codec → Type 0
IsSeeded c = length c.seed ≡ nonce_size

-- A packet as `Open` delivers it.
pub record Datagram : Type 0 where
  pub flow_id : ℕ
  pub payload : List ℕ

module _ (k : Crypto) where
  -- `n.block.Encrypt(n.seed[:], n.seed[:]); copy(dst, n.seed[:])` with `dst = buf[:nonceSize]`.
  unfoldable pub fill : Codec → List ℕ → Codec × List ℕ
  fill c buf = let seed' = k.aes c.seed in (record { seed = seed' }, copy_at 0 seed' buf)

  -- `Seal`. A slice is its backing array, so `dst` stands for all `cap(dst)` bytes.
  unfoldable pub seal : Codec → List ℕ → ℕ → List ℕ → Codec × Result CodecError (List ℕ)
  unfolding fill
  seal c dst flow_id payload =
      let total = header_size + length payload in
      if ltb (length dst) total
      then (c, err buf_too_small)
      else (let buf = take total dst in
          let buf = copy_at (nonce_size + crc_size) (le32 flow_id) buf in
          let buf = copy_at header_size payload buf in
          let buf = copy_at nonce_size (le32 (k.crc32 (drop (nonce_size + crc_size) buf))) buf in
          let (c', buf) = fill c buf in (c', ok (k.encrypt buf)))

  -- `Open`.
  unfoldable pub open_packet : List ℕ → Result CodecError Datagram
  open_packet buf =
      if ltb (length buf) header_size
      then err short_packet
      else (let body = drop nonce_size (k.decrypt buf) in
          if not (k.crc32 (drop crc_size body) == read_le32 body)
          then err checksum_mismatch
          else (let body = drop crc_size body in
              ok (record { flow_id = read_le32 body; payload = drop flow_id_size body })))
