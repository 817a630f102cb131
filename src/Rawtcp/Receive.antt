-- ===== src/Rawtcp/Receive.antt =====
-- rawtcp/conn_linux.go, captureFlow: what its buffer holds of a segment. The rest of a longer segment
-- is lost, and its payload is cut.
use xtaci_kcptun.Prelude.{
  ℕ, zero, suc, ◌+◌, ◌-◌, ◌*◌, ◌/◌, ◌≤◌, ◌≡◌, refl, ap, List, [], ◌∷◌, length, take, arith,
}
use xtaci_kcptun.Prelude.Bytes.{be32}
use xtaci_kcptun.Rawtcp.{OptionKind, nop, timestamps, other_kind, TcpOption, Segment, Flow, header}

-- `ReadFromIP` reads an IPv4 packet with its header, which has no options, and then takes that off; of an
-- IPv6 packet it reads what the header carries.
pub data IpFamily : Type 0 where
  ipv4 ipv6 : IpFamily

abbrev pub ip_header_size : IpFamily → ℕ
ip_header_size ipv4 = 20
ip_header_size ipv6 = 0

-- `make([]byte, 2048)`
abbrev pub capture_size : ℕ
capture_size = 2048

-- The bytes of an option, with its kind and its length.
abbrev pub option_size : OptionKind → List ℕ → ℕ
option_size nop bytes = 1
option_size timestamps bytes = 2 + length bytes
option_size (other_kind n) bytes = 2 + length bytes

abbrev pub options_size : List TcpOption → ℕ
options_size [] = 0
options_size (o ∷ os) = option_size o.kind o.data_bytes + options_size os

-- A TCP header is a number of words.
abbrev pub tcp_header_size : Segment → ℕ
tcp_header_size s = 20 + (options_size s.options + 3) / 4 * 4

-- `packet` of `buf[:n]`
unfoldable pub read_segment : IpFamily → Segment → Segment
read_segment ip s = record s {
  payload = take (capture_size - ip_header_size ip - tcp_header_size s) s.payload;
}

-- What is left for the payload beside the header that `WriteTo` makes, and the IP header.
abbrev pub max_payload : IpFamily → ℕ
max_payload ipv4 = 1996
max_payload ipv6 = 2016

pub take_all : (n : ℕ) (xs : List ℕ) → length xs ≤ n → take n xs ≡ xs
take_all zero [] h = refl
take_all zero (x ∷ xs) h = absurd (omega arith)
take_all (suc n) [] h = refl
take_all (suc n) (x ∷ xs) h = ap (λ (r : List ℕ). x ∷ r) (take_all n xs (omega arith))

pub read_segment-header :
    (ip : IpFamily) (now lport rport : ℕ) (p : List ℕ) (e : Flow)
    → length p ≤ max_payload ip
    → read_segment ip (header now lport rport p e) ≡ header now lport rport p e
unfolding read_segment header be32
read_segment-header ipv4 now lport rport p e h =
    ap (λ (q : List ℕ). record (header now lport rport p e) { payload = q }) (take_all 1996 p h)
read_segment-header ipv6 now lport rport p e h =
    ap (λ (q : List ℕ). record (header now lport rport p e) { payload = q }) (take_all 2016 p h)
