-- ===== src/Tunnel/Framing.antt =====
-- The FEC header of a decrypted datagram: `looks_like_fec_frame` (kcp_tunnel.hpp).
use kcp_proxy_cpp.Base.{
  ℕ, ◌+◌, ◌*◌, Bool, false, ◌||◌, ltb, ◌==◌, if◌then◌else◌, List, length, get_or,
}

-- The packet types of the KCP library's codec.
pub record FecTypes : Type 0 where
  pub type_data : ℕ
  pub type_parity : ℕ
  pub type_oob : ℕ

-- Two bytes, the low one first.
abbrev pub load_le16 : List ℕ → ℕ → ℕ
load_le16 bytes i = get_or bytes i 0 + get_or bytes (i + 1) 0 * 256

unfoldable pub looks_like_fec_frame : FecTypes → List ℕ → Bool
looks_like_fec_frame types bytes =
    if ltb (length bytes) 8
    then false
    else let type = load_le16 bytes 4 in
      type == types.type_data || type == types.type_parity || type == types.type_oob
