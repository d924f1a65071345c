-- ===== src/Tunnel/Feed.antt =====
-- `KcpTunnel::feed_kcp_input` (kcp_tunnel.cpp): a decrypted datagram on its way into KCP, bare or with
-- the FEC header `[seqid(4)][type(2)][len(2)]`. KCP's input and the FEC decoder are parameters;
-- the warning about a peer with other settings is left out.
use kcp_proxy_cpp.Base.{
  ℕ, ◌+◌, ◌-◌, ◌/◌, ◌%◌, ◌<◌, ◌≤◌, ◌≡◌, Bool, true, false, not, ◌&&◌, ◌||◌, ltb, leb, ◌==◌,
  if◌then◌else◌, List, [], ◌∷◌, length, take, drop, Option, none, some, arith,
}
use kcp_proxy_cpp.Tunnel.Framing.{FecTypes, load_le16, looks_like_fec_frame}

-- The state of both, the state after `input` and whether it took the bytes, and `Decode` with the
-- shards that it rebuilt.
pub record FecInput : Type 1 where
  pub State : Type 0
  pub Decoder : Type 0
  pub input : State → List ℕ → State × Bool
  pub decode : Decoder → List ℕ → Decoder × List (List ℕ)

module _ (types : FecTypes) (kcp : FecInput) where
  pub record Feeder : Type 0 where
    pub state : kcp.State
    pub fec_decoder : Option kcp.Decoder
    pub fec_repaired : ℕ
    pub needs_flush : Bool

  -- The loop over the rebuilt shards.
  pub feed_rebuilt : Feeder → List (List ℕ) → Feeder
  feed_rebuilt f [] = f
  feed_rebuilt f (rebuilt ∷ rest) =
      let declared = load_le16 rebuilt 0 in
      let (s, taken) = kcp.input f.state (take (declared - 2) (drop 2 rebuilt)) in
      let skipped = feed_rebuilt f rest in
      let fed =
        feed_rebuilt
          (record f {
            state = s;
            fec_repaired = if taken then f.fec_repaired + 1 else f.fec_repaired;
          })
          rest in
      if ltb (length rebuilt) 2
      then skipped
      else if leb declared 2 || ltb (length rebuilt) declared
      then skipped
      else fed

  -- From the decoder on; `ret` is whether the datagram itself was taken.
  pub decode_and_feed : Feeder → kcp.Decoder → List ℕ → Bool → Feeder × Bool
  unfolding feed_rebuilt
  decode_and_feed f decoder bytes ret =
      let (decoder', rebuilt) = kcp.decode decoder bytes in
      (feed_rebuilt (record f { fec_decoder = some decoder' }) rebuilt, ret)

  -- `false` is a negative return.
  pub feed_with_decoder : Feeder → kcp.Decoder → List ℕ → Feeder × Bool
  unfolding decode_and_feed
  feed_with_decoder f decoder bytes =
      let flag = load_le16 bytes 4 in
      let declared = load_le16 bytes 6 in
      let (s, ret) = kcp.input f.state (drop 8 bytes) in
      if ltb (length bytes) 8
      then (f, false)
      else if flag == types.type_data
      then (if leb declared 2 || not (declared + 6 == length bytes)
          then (f, false)
          else decode_and_feed (record f { state = s }) decoder bytes ret)
      else if not (flag == types.type_parity) && not (flag == types.type_oob)
      then (f, false)
      else decode_and_feed f decoder bytes true

  pub feed_kcp_input : Feeder → List ℕ → Feeder × Bool
  unfolding feed_with_decoder
  feed_kcp_input f bytes =
      let f' = record f { needs_flush = true } in
      let (s, ret) = kcp.input f.state bytes in
      elim f.fec_decoder [
        | none ↦ (record f' { state = s }, ret)
        | some decoder ↦ feed_with_decoder f' decoder bytes
      ]

  -- The frame that the encoder makes of a payload: the length counts itself.
  abbrev pub data_frame : ℕ → ℕ → ℕ → ℕ → List ℕ → List ℕ
  data_frame a b c d payload =
      a
      ∷ b
      ∷ c
      ∷ d
      ∷ (types.type_data % 256)
      ∷ (types.type_data / 256)
      ∷ ((length payload + 2) % 256)
      ∷ ((length payload + 2) / 256)
      ∷ payload

  -- With FEC on, KCP is given exactly the payload that the encoder framed as a data shard, and the
  -- answer is KCP's, when the decoder rebuilds nothing. The payload has 1 to 65533 bytes.
  pub feed_kcp_input-data_frame :
      (f : Feeder) (decoder : kcp.Decoder) (a b c d : ℕ) (payload : List ℕ)
      → f.fec_decoder ≡ some decoder
      → types.type_data < 65536
      → 1 ≤ length payload
      → length payload + 2 < 65536
      → (kcp.decode decoder (data_frame a b c d payload)).1 ≡ []
      → ((feed_kcp_input f (data_frame a b c d payload)).1 ≡ (kcp.input f.state payload).1)
        × ((feed_kcp_input f (data_frame a b c d payload)).0.state ≡ (kcp.input f.state payload).0)
  unfolding feed_kcp_input
  feed_kcp_input-data_frame f decoder a b c d payload on small some_bytes short quiet =
      ground (arith, on, quiet)

  -- With FEC on, a datagram that is no FEC frame is refused, and neither KCP nor the decoder sees it.
  pub feed_kcp_input-unframed :
      (f : Feeder) (decoder : kcp.Decoder) (bytes : List ℕ)
      → f.fec_decoder ≡ some decoder
      → looks_like_fec_frame types bytes ≡ false
      → feed_kcp_input f bytes ≡ (record f { needs_flush = true }, false)
  unfolding feed_kcp_input looks_like_fec_frame
  feed_kcp_input-unframed f decoder bytes on other = ground (arith, on, other)
