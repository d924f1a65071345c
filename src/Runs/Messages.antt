-- ===== src/Runs/Messages.antt =====
-- The theorems on addresses, SOCKS5 messages and the tunnel at concrete inputs.
use kcp_proxy_cpp.Base.{
  ℕ, ◌/◌, ◌<◌, ◌≡◌, refl, true, false, ◌&&◌, ◌==◌, if◌then◌else◌, List, [], ◌∷◌, ◌++◌, length,
  arith, none, some, bytes_eq, get_or, take, drop, replicate,
}
use kcp_proxy_cpp.Address.{v4, v6, Asio}
use kcp_proxy_cpp.Address.RoundTrip.{HasSizes}
use kcp_proxy_cpp.Address.Restricted.{AsioClasses, is_restricted_target}
use kcp_proxy_cpp.Address.Restricted.Blocks.{
  HasV4Classes, to_uint, in_special_block, is_restricted_target-in_special_block,
}
use kcp_proxy_cpp.Address.Restricted.Embedded.{HasMapped, six_to_four, is_restricted_target-Carries}
use kcp_proxy_cpp.Tunnel.Framing.{FecTypes}
use kcp_proxy_cpp.Tunnel.Control.{kcp_control_keepalive}
use kcp_proxy_cpp.Tunnel.Read.{Kcp, Reader, try_fulfill_read}
use kcp_proxy_cpp.Tunnel.Read.Drain.{
  IsQueue, completions, drop_keepalives, behind, still_pending, try_fulfill_read-completions,
}

-- An Asio that takes four bytes as they are for the text of an IPv4 address.
abbrev pub plain_asio : Asio
plain_asio = record {
  make_address = λ host. if length host == 4 then some (v4 host) else none;
  v4_text = λ bytes. bytes;
  v6_text = λ bytes. bytes;
}

pub plain_asio-HasSizes : HasSizes plain_asio
plain_asio-HasSizes = record { sizes = λ host a e. ground arith }

abbrev from_bytes : List ℕ → ℕ
from_bytes (a ∷ b ∷ c ∷ d ∷ []) = to_uint a b c d
from_bytes bytes = 1

-- The classes of addresses as their standards give them; only what the proofs ask for matters.
abbrev pub plain_classes : AsioClasses
plain_classes = record {
  v4_is_unspecified = λ a. from_bytes a == 0;
  v4_is_loopback = λ a. get_or a 0 0 == 127;
  v4_is_multicast = λ a. get_or a 0 0 / 16 == 14;
  v6_is_v4_mapped =
      λ a. bytes_eq (take 12 a) (0 ∷ 0 ∷ 0 ∷ 0 ∷ 0 ∷ 0 ∷ 0 ∷ 0 ∷ 0 ∷ 0 ∷ 255 ∷ 255 ∷ []);
  v6_to_v4 = λ a. drop 12 a;
  v6_is_loopback =
      λ a. bytes_eq a (0 ∷ 0 ∷ 0 ∷ 0 ∷ 0 ∷ 0 ∷ 0 ∷ 0 ∷ 0 ∷ 0 ∷ 0 ∷ 0 ∷ 0 ∷ 0 ∷ 0 ∷ 1 ∷ []);
  v6_is_unspecified =
      λ a. bytes_eq a (0 ∷ 0 ∷ 0 ∷ 0 ∷ 0 ∷ 0 ∷ 0 ∷ 0 ∷ 0 ∷ 0 ∷ 0 ∷ 0 ∷ 0 ∷ 0 ∷ 0 ∷ 0 ∷ []);
  v6_is_link_local = λ a. (get_or a 0 0 == 254) && (get_or a 1 0 / 64 == 2);
  v6_is_site_local = λ a. (get_or a 0 0 == 254) && (get_or a 1 0 / 64 == 3);
  v6_is_multicast = λ a. get_or a 0 0 == 255;
}

plain_classes-HasV4Classes : HasV4Classes plain_classes
plain_classes-HasV4Classes = record {
  unspecified = λ a b c d. refl;
  loopback = λ a b c d. refl;
  multicast = λ a b c d. refl;
}

is_restricted_target-in_special_block_example :
    is_restricted_target plain_classes (v4 (172 ∷ 31 ∷ 0 ∷ 1 ∷ []))
    ≡ in_special_block (to_uint 172 31 0 1)
is_restricted_target-in_special_block_example =
    is_restricted_target-in_special_block plain_classes plain_classes-HasV4Classes 172 31 0 1
      (omega arith) (omega arith) (omega arith) (omega arith)

plain_classes-HasMapped : HasMapped plain_classes
plain_classes-HasMapped = record { is_mapped = λ address. refl; carried = λ address. refl }

-- 2002:7f00:1::, which carries 127.0.0.1.
abbrev six : List ℕ
six = 0x20 ∷ 0x02 ∷ 127 ∷ 0 ∷ 0 ∷ 1 ∷ 0 ∷ 0 ∷ 0 ∷ 0 ∷ 0 ∷ 0 ∷ 0 ∷ 0 ∷ 0 ∷ 0 ∷ []

is_restricted_target-Carries_example : is_restricted_target plain_classes (v6 six) ≡ true
is_restricted_target-Carries_example =
    is_restricted_target-Carries plain_classes six (127 ∷ 0 ∷ 0 ∷ 1 ∷ []) plain_classes-HasMapped
      (six_to_four 127 0 0 1 (replicate 10 0))
      (is_restricted_target-in_special_block plain_classes plain_classes-HasV4Classes 127 0 0 1
        (omega arith) (omega arith) (omega arith) (omega arith))

-- A message that is not empty.
abbrev Message : Type 0
Message = ℕ × List ℕ

abbrev text_of : Message → List ℕ
text_of (b, bs) = b ∷ bs

abbrev first_size : List Message → ℕ
first_size [] = 0
first_size (m ∷ rest) = length (text_of m)

abbrev popped : List Message → List Message × List ℕ
popped [] = ([], [])
popped (m ∷ rest) = (rest, text_of m)

-- A KCP library that is its queue.
abbrev queue_kcp : Kcp
queue_kcp = record { State = List Message; peek_size = first_size; receive = popped }

abbrev texts : List Message → List (List ℕ)
texts [] = []
texts (m ∷ rest) = text_of m ∷ texts rest

empty_queue : (s : List Message) → texts s ≡ [] → first_size s ≡ 0
empty_queue [] e = refl
empty_queue (m ∷ rest) e = absurd cc

first_message :
    (s : List Message) (m : List ℕ) (rest : List (List ℕ))
    → texts s ≡ m ∷ rest
    → (first_size s ≡ length m) × (0 < length m) × ((popped s).1 ≡ m) × (texts (popped s).0 ≡ rest)
first_message [] m rest e = absurd cc
first_message (n ∷ others) m rest e = ground (arith, e)

queue_kcp-IsQueue : IsQueue queue_kcp texts
queue_kcp-IsQueue = record { empty = empty_queue; first = first_message }

-- A keepalive under an empty salt, and a message behind it.
abbrev reader : Reader queue_kcp
reader = record {
  state = (b'K', drop 1 kcp_control_keepalive) ∷ (4, 5 ∷ 6 ∷ []) ∷ [];
  active = true;
  session_salt = [];
  pending_read = some 100;
  peer_fin_received = false;
  posted = [];
}

try_fulfill_read-completions_example :
    ((try_fulfill_read queue_kcp 3 reader).posted
      ≡ [] ++ completions [] 100 (drop_keepalives [] (texts reader.state)))
    × (texts (try_fulfill_read queue_kcp 3 reader).state
        ≡ behind (drop_keepalives [] (texts reader.state)))
    × ((try_fulfill_read queue_kcp 3 reader).pending_read
        ≡ still_pending 100 (drop_keepalives [] (texts reader.state)))
try_fulfill_read-completions_example =
    try_fulfill_read-completions queue_kcp texts queue_kcp-IsQueue 3 reader 100 (omega arith) refl

abbrev pub fec_types : FecTypes
fec_types = record { type_data = 0xf1; type_parity = 0xf2; type_oob = 0xf3 }
