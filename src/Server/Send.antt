-- ===== src/Server/Send.antt =====
-- How the server hands datagrams to its socket (server.cpp): `send_to_client`,
-- `send_batch_to_client` with `sendmmsg`, and `initiate_send_to`, on the strand of the socket.
pub mod Handed
use kcp_proxy_cpp.Base.{
  ℕ, zero, suc, ◌+◌, ◌≤◌, ◌<◌, ◌≡◌, refl, sym, ap, ◌∙◌, inl, inr, Bool, true, false, not, ◌||◌, leb,
  ltb, ◌==◌, if◌then◌else◌, List, [], ◌∷◌, ◌++◌, length, take, drop, take-append-drop, append_assoc,
  append-nil, min, Bool-cases, arith,
}
use kcp_proxy_cpp.Server.Receive.{udp_batch_max}

-- What `sendmmsg` answers: how many datagrams it took, `interrupted` where it would block or was
-- interrupted, or another error.
pub data SendAnswer : Type 0 where
  interrupted failure : SendAnswer
  took : ℕ → SendAnswer

pub record SendKernel : Type 1 where
  pub State : Type 0
  pub sendmmsg : State → List (List ℕ) → State × SendAnswer

module _ (kernel : SendKernel) where
  -- `by_batch` went out by `sendmmsg`, `in_flight` by `async_send_to`.
  pub record Socket : Type 0 where
    pub running : Bool
    pub is_open : Bool
    pub state : kernel.State
    pub by_batch : List (List ℕ)
    pub in_flight : List (List ℕ)

  unfoldable pub initiate_send_to : Socket → List ℕ → Socket
  initiate_send_to s datagram = record s { in_flight = s.in_flight ++ (datagram ∷ []) }

  pub initiate_all : Socket → List (List ℕ) → Socket
  unfolding initiate_send_to
  initiate_all s [] = s
  initiate_all s (d ∷ rest) = initiate_all (initiate_send_to s d) rest

  unfoldable pub send_to_client : Socket → List ℕ → Socket
  unfolding initiate_send_to
  send_to_client s datagram =
      if not s.running || not s.is_open then s else initiate_send_to s datagram

  -- The loop over `sendmmsg`, with what is left for the asynchronous path.
  pub send_loop : ℕ → Socket → List (List ℕ) → Socket × List (List ℕ)
  send_loop zero s remaining = (s, remaining)
  send_loop (suc fuel) s remaining =
      let n = min (length remaining) udp_batch_max in
      let (k, answer) = kernel.sendmmsg s.state (take n remaining) in
      let s' = record s { state = k } in
      if length remaining == 0 then (s, remaining) else elim answer [
        | interrupted ↦ (s', remaining)
        | failure ↦ (s', remaining)
        | took sent ↦
            let after = record s' { by_batch = s.by_batch ++ take sent remaining } in
            let rest = send_loop fuel after (drop sent remaining) in
            if ltb sent n then (after, drop sent remaining) else rest
      ]

  unfoldable pub send_batch_to_client : Socket → List (List ℕ) → Socket
  unfolding send_to_client
  send_batch_to_client s [] = s
  send_batch_to_client s (d ∷ []) = send_to_client s d
  send_batch_to_client s (d ∷ d' ∷ rest) =
      let batch = d ∷ d' ∷ rest in
      let (sent, remaining) = send_loop (length batch) s batch in
      if not s.running || not s.is_open then s else initiate_all sent remaining
