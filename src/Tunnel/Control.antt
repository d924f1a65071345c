-- ===== src/Tunnel/Control.antt =====
-- The control messages of a tunnel (kcp_tunnel.cpp): a magic text and the session's salt.
use kcp_proxy_cpp.Base.{
  ℕ, ◌+◌, ◌≡◌, ◌↔◌, refl, ap, ap₂, sym, ◌∙◌, Bool, true, false, not, ◌&&◌, ◌==◌, ltb, if◌then◌else◌,
  List, [], ◌∷◌, ◌++◌, length, take, drop, bytes_eq, bytes_eq_refl, eq_of_bytes_eq, take-append,
  drop-append, length-append, length-drop, take-append-drop, arith,
}

-- `KCP_CONTROL_KEEPALIVE` and `KCP_CONTROL_FIN`.
abbrev pub kcp_control_keepalive : List ℕ
kcp_control_keepalive =
    b'K' ∷ b'C' ∷ b'P' ∷ b'_' ∷ b'P' ∷ b'R' ∷ b'O' ∷ b'X' ∷ b'Y' ∷ b'_' ∷ b'K' ∷ b'E' ∷ b'E' ∷ b'P'
    ∷ b'A' ∷ b'L' ∷ b'I' ∷ b'V' ∷ b'E' ∷ b'_' ∷ b'V' ∷ b'1' ∷ []

abbrev pub kcp_control_fin : List ℕ
kcp_control_fin =
    b'K' ∷ b'C' ∷ b'P' ∷ b'_' ∷ b'P' ∷ b'R' ∷ b'O' ∷ b'X' ∷ b'Y' ∷ b'_' ∷ b'F' ∷ b'I' ∷ b'N' ∷ b'_'
    ∷ b'V' ∷ b'1' ∷ []

pub build_control_payload : List ℕ → List ℕ → List ℕ
build_control_payload session_salt magic = magic ++ session_salt

pub is_control : List ℕ → List ℕ → List ℕ → Bool
is_control session_salt body magic =
    if not (length body == length magic + length session_salt)
    then false
    else if not (bytes_eq (take (length magic) body) magic)
    then false
    else if ltb 0 (length session_salt) && not (bytes_eq (drop (length magic) body) session_salt)
    then false
    else true

abbrev pub is_keepalive : List ℕ → List ℕ → Bool
is_keepalive session_salt body = is_control session_salt body kcp_control_keepalive

abbrev pub is_peer_fin : List ℕ → List ℕ → Bool
is_peer_fin session_salt body = is_control session_salt body kcp_control_fin

empty_of_length : (xs : List ℕ) → length xs ≡ 0 → xs ≡ []
empty_of_length [] e = refl
empty_of_length (x ∷ xs) e = absurd (omega arith)

is_control_sound :
    (session_salt body magic : List ℕ)
    → is_control session_salt body magic ≡ true
    → body ≡ build_control_payload session_salt magic
unfolding is_control build_control_payload
is_control_sound session_salt body magic same =
    let n = length magic in
    let head : take n body ≡ magic = ground (arith, same, eq_of_bytes_eq (take n body) magic) in
    let tail : drop n body ≡ session_salt = ground (
      arith,
      same,
      eq_of_bytes_eq (drop n body) session_salt,
      empty_of_length (drop n body),
      empty_of_length session_salt,
      length-drop n body,
    ) in
    sym (take-append-drop n body) ∙ ap₂ ◌++◌ head tail

is_control_complete :
    (session_salt magic : List ℕ)
    → is_control session_salt (build_control_payload session_salt magic) magic ≡ true
unfolding is_control build_control_payload
is_control_complete session_salt magic = ground (
  arith,
  length-append magic session_salt,
  take-append magic session_salt (length magic) refl,
  drop-append magic session_salt (length magic) refl,
  bytes_eq_refl magic,
  bytes_eq_refl session_salt,
)

-- A message is taken for a control message exactly where it is the magic text followed by the
-- session's salt, so that no other stream data is lost to it.
pub is_control_iff :
    (session_salt body magic : List ℕ)
    → (is_control session_salt body magic ≡ true)
      ↔ (body ≡ build_control_payload session_salt magic)
is_control_iff session_salt body magic = (
  is_control_sound session_salt body magic,
  λ e. ap (λ b. is_control session_salt b magic) e ∙ is_control_complete session_salt magic,
)

-- No message is taken for a keepalive and for the end of the stream at once.
pub is_keepalive_not_fin :
    (session_salt body : List ℕ)
    → is_keepalive session_salt body ≡ true
    → is_peer_fin session_salt body ≡ false
unfolding is_control
is_keepalive_not_fin session_salt body beats = ground (arith, beats)
