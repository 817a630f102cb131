-- ===== src/Rawtcp/Options.antt =====
-- rawtcp/conn_linux.go: setTTL, setMark, setDSCP and the SetDSCP of a connection. What the system
-- answers for a socket is an argument.
use xtaci_kcptun.Prelude.{
  ℕ, ◌*◌, ◌≡◌, List, [], ◌∷◌, Bool, true, false, if◌then◌else◌, arith, Bool-cases, inl, inr,
}
use xtaci_kcptun.Prelude.Int.{ℤ, pos}
use xtaci_kcptun.Udptun.Start.{shift_two}
use xtaci_kcptun.Rawtcp.Reader.{each_handle}

pub data SocketOption : Type 0 where
  ip_ttl ipv6_unicast_hops so_mark ip_tos ipv6_tclass : SocketOption

-- `SetsockoptInt`
pub record SocketSetting : Type 0 where
  pub option : SocketOption
  pub value : ℤ

-- Whether `SyscallConn` succeeds, the local address is IPv4, `Control` runs its function, and the
-- system takes the setting.
pub record Socket : Type 0 where
  pub raw : Bool
  pub is_v4 : Bool
  pub controls : Bool
  pub takes : SocketSetting → Bool

-- The settings that a call makes, and whether it returns nil; an error of `Control` is not read.
abbrev pub set_option : Socket → SocketOption → ℤ → List SocketSetting × Bool
set_option s o v =
    let setting : SocketSetting = record { option = o; value = v } in
    if s.raw
    then if s.controls then (setting ∷ [], s.takes setting) else ([], true)
    else ([], false)

unfoldable pub set_ttl_on : Socket → ℤ → List SocketSetting × Bool
set_ttl_on s ttl = set_option s (if s.is_v4 then ip_ttl else ipv6_unicast_hops) ttl

unfoldable pub set_mark_on : Socket → ℤ → List SocketSetting × Bool
set_mark_on s mark = set_option s so_mark mark

unfoldable pub set_dscp : Socket → ℤ → List SocketSetting × Bool
set_dscp s dscp =
    if s.is_v4 then set_option s ip_tos (shift_two dscp) else set_option s ipv6_tclass dscp

-- `SetDSCP`: the handles that it has come to, and whether it returns nil.
unfoldable pub set_dscp_all : (ℕ → Socket) → List ℕ → ℤ → List ℕ × Bool
unfolding each_handle
set_dscp_all sockets handles dscp = each_handle (λ h. (set_dscp (sockets h) dscp).1) handles

-- The DSCP of a socket is that of `n`, or it was set as a traffic class.
abbrev pub IsMarked : ℕ → Socket → List SocketSetting → Type 0
IsMarked n s [] = ⊥
IsMarked n s (x ∷ y ∷ more) = ⊥
IsMarked n s (x ∷ []) =
    if s.is_v4
    then (x.option ≡ ip_tos) × (x.value ≡ pos (n * 4))
    else (x.option ≡ ipv6_tclass) × (x.value ≡ pos n)

abbrev pub AllControl : (ℕ → Socket) → List ℕ → Type 0
AllControl sockets [] = Unit {0}
AllControl sockets (h ∷ hs) = ((sockets h).controls ≡ true) × AllControl sockets hs

abbrev pub AllMarked : ℕ → (ℕ → Socket) → List ℕ → Type 0
AllMarked n sockets [] = Unit {0}
AllMarked n sockets (h ∷ hs) =
    IsMarked n (sockets h) (set_dscp (sockets h) (pos n)).0 × AllMarked n sockets hs

set_dscp-IsMarked :
    (n : ℕ) (s : Socket)
    → s.controls ≡ true
    → (set_dscp s (pos n)).1 ≡ true
    → IsMarked n s (set_dscp s (pos n)).0
unfolding set_dscp
set_dscp-IsMarked n s controls worked = elim (Bool-cases s.is_v4) [
  | inl v4 ↦ ground arith
  | inr v6 ↦ ground arith
]

-- When SetDSCP returns nil, and `Control` has run its function on every handle, each handle has one
-- setting: on IPv4 the DSCP stands in the upper six bits of the TOS, on IPv6 the value is the traffic
-- class itself.
pub set_dscp_all-AllMarked :
    (n : ℕ) (sockets : ℕ → Socket) (handles : List ℕ)
    → AllControl sockets handles
    → (set_dscp_all sockets handles (pos n)).1 ≡ true
    → AllMarked n sockets handles
unfolding set_dscp_all each_handle
set_dscp_all-AllMarked n sockets [] controls worked = tt
set_dscp_all-AllMarked n sockets (h ∷ hs) (c, controls) worked = (
  set_dscp-IsMarked n (sockets h) c (ground arith),
  set_dscp_all-AllMarked n sockets hs controls (ground arith),
)
