-- ===== src/Sfu/Connection/Requests.antt =====
-- Resets and new peer connections make no offer and no request for one.
use kwmbridge.Base.{
  ℕ, ◌≡◌, refl, inl, inr, false, Option, none, some, List, [], ◌∷◌, ◌++◌, map, arith, Option-cases,
  Text, ◌⊎◌,
}
use kwmbridge.Sfu.Types.{Track, closed, p2p_bind, Outside}
use kwmbridge.Sfu.Connection.{
  Connection, reset_effects, reset, clear_peer_connection, negotiation_needed, withdrawal,
  close_rtcp, end_effects, peer_effects,
}
use kwmbridge.Sfu.Connection.Peer.{ensure_api, create_peer_connection}
use kwmbridge.Sfu.Connection.Protocol.{requests, requests-append}

module _ (w : Outside) where
  requests-withdrawals :
      (c : Connection) (l : List (ℕ × Track)) → requests (map (withdrawal c) l) ≡ 0
  unfolding requests
  requests-withdrawals c [] = refl
  requests-withdrawals c ((k, t) ∷ l) = omega (arith, requests-withdrawals c l)

  requests-close_rtcp : (o : Option ℕ) → requests (close_rtcp o) ≡ 0
  unfolding requests
  requests-close_rtcp none = refl
  requests-close_rtcp (some ch) = refl

  requests-end : (c : Connection) → requests (end_effects c) ≡ 0
  unfolding requests
  requests-end c = ground arith

  requests-peer : (c : Connection) → requests (peer_effects c) ≡ 0
  unfolding requests
  requests-peer c = ground (arith, requests-withdrawals c c.tracks)

  pub requests-reset : (c : Connection) → requests (reset w.ws_done c).log ≡ requests c.log
  unfolding reset reset_effects requests
  requests-reset c = omega (
    arith,
    requests-append c.log (reset_effects c),
    requests-append (peer_effects c) (close_rtcp c.rtcp_ch ++ end_effects c),
    requests-append (close_rtcp c.rtcp_ch) (end_effects c),
    requests-peer c,
    requests-close_rtcp c.rtcp_ch,
    requests-end c,
  )

  pub requests-clear : (c : Connection) → requests (clear_peer_connection c).log ≡ requests c.log
  unfolding clear_peer_connection requests
  requests-clear c = elim (Option-cases c.pc) [
    | inl free ↦ ground arith
    | inr (pc, has) ↦ ground (
      arith,
      requests-append c.log (closed pc ∷ close_rtcp c.rtcp_ch),
      requests-close_rtcp c.rtcp_ch,
    )
  ]

  -- What the flags and the log of a record are to those of another that made no request since.
  abbrev pub Quiet : Connection → Connection → Type 0
  Quiet c c' =
      (requests c'.log ≡ requests c.log)
      × ((c'.is_negotiating ≡ c.is_negotiating) ⊎ (c'.is_negotiating ≡ false))

  ensure_api-log :
      (c : Connection)
      → ((ensure_api w c).1.log ≡ c.log) × ((ensure_api w c).1.is_negotiating ≡ c.is_negotiating)
  unfolding ensure_api
  ensure_api-log c = ground arith

  pub create_peer_connection-log :
      (rpcid : Text) (c : Connection) → Quiet c (create_peer_connection w rpcid c).1
  unfolding create_peer_connection negotiation_needed requests
  create_peer_connection-log rpcid c = elim (Option-cases w.new_peer_connection) [
    | inl none' ↦ ground (arith, ensure_api-log c)
    | inr (pc, made) ↦ elim (Option-cases (w.create_data_channel pc)) [
      | inl none' ↦ ground (arith, ensure_api-log c)
      | inr (ch, has) ↦ ground (arith, ensure_api-log c, requests-append c.log (p2p_bind ch ∷ []))
    ]
  ]
