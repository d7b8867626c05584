-- ===== src/Sfu/Connection/Reset.antt =====
-- What a reset leaves of a connection record, and what it does to the record's surroundings.
use kwmbridge.Base.{
  ℕ, ◌≡◌, refl, ap, ◌∙◌, inl, inr, Bool, true, false, not, ◌&&◌, none, some, List, [], ◌∷◌, ◌++◌,
  map, arith, append-nil, ==_iff, if◌then◌else◌, Option-cases, is_some, lookup, ℕ_key,
}
use kwmbridge.Sfu.Types.{
  Track, TrackRecord, Effect, track_change, cancelled, p2p_reset, Outside, ok, err,
  remove_track_failed,
}
use kwmbridge.Sfu.Connection.{
  Connection, JitterLoops, no_jitter, running, stopped, stop_jitter, new_connection, emit,
  withdrawal, close_rtcp, peer_effects, end_effects, reset_effects, reset, clear_peer_connection,
}
use kwmbridge.Sfu.Connection.Tracks.{remove_track, remove_bound_track}

-- A record is reset to a new one of the same owner, identity and state, but for what it keeps: the
-- GUID, the payload types of its codecs, its part in the connection and, for the side that starts
-- the connection or a record without a peer connection, the media engine and the API; its jitter
-- buffer, of which it has the one from before with its loops stopped, where a new record of a sender
-- starts one; and its log, to which the reset adds, in order, the end of the context, the end of the
-- peer connection with the withdrawal of a sender's tracks, the end of the readers of RTCP packets,
-- and the reset of its controller with the call of the handler.
pub reset-new_connection :
    (done : Bool) (c : Connection)
    → let drop = is_some c.pc && not c.initiator in
      reset done c ≡ record (new_connection done c.owner c.owner_id c.id c.state c.pipeline) {
        initiator = c.initiator;
        guid = c.guid;
        rtp_payload_types = c.rtp_payload_types;
        webrtc_media = if drop then none else c.webrtc_media;
        webrtc_api = if drop then false else c.webrtc_api;
        jitter_buffer = stop_jitter c.jitter_buffer;
        log = c.log ++ (cancelled ∷ (peer_effects c ++ (close_rtcp c.rtcp_ch ++ end_effects c)));
      }
unfolding reset new_connection reset_effects
reset-new_connection done c = refl

stop_jitter-stop_jitter : (j : JitterLoops) → stop_jitter (stop_jitter j) ≡ stop_jitter j
stop_jitter-stop_jitter no_jitter = refl
stop_jitter-stop_jitter running = refl
stop_jitter-stop_jitter stopped = refl

-- A second reset only cancels the new context and resets the p2p record once more.
pub reset-reset :
    (done : Bool) (c : Connection)
    → reset done (reset done c) ≡ emit (cancelled ∷ p2p_reset ∷ []) (reset done c)
unfolding reset reset_effects
reset-reset done c =
    ap (λ j. record (emit (cancelled ∷ p2p_reset ∷ []) (reset done c)) { jitter_buffer = j })
      (stop_jitter-stop_jitter c.jitter_buffer)

-- The tracks that a log withdraws.
pub withdrawn : List Effect → List Track
withdrawn [] = []
withdrawn (track_change r ∷ es) =
    let rest = withdrawn es in if r.remove then r.track ∷ rest else rest
withdrawn (_ ∷ es) = withdrawn es

withdrawn-append : (xs ys : List Effect) → withdrawn (xs ++ ys) ≡ withdrawn xs ++ withdrawn ys
unfolding withdrawn
withdrawn-append [] ys = refl
withdrawn-append (x ∷ xs) ys = ground (arith, withdrawn-append xs ys)

withdrawn-map :
    (c : Connection) (l : List (ℕ × Track))
    → withdrawn (map (withdrawal c) l) ≡ map (λ (p : ℕ × Track). p.1) l
unfolding withdrawn
withdrawn-map c [] = refl
withdrawn-map c ((k, t) ∷ l) = ground (arith, withdrawn-map c l)

withdrawn-end : (c : Connection) → withdrawn (close_rtcp c.rtcp_ch ++ end_effects c) ≡ []
unfolding withdrawn
withdrawn-end c = elim (Option-cases c.rtcp_ch) [
  | inl none' ↦ ground arith
  | inr (ch, has) ↦ ground arith
]

withdrawn-peer :
    (c : Connection)
    → withdrawn (peer_effects c)
      ≡ (if is_some c.pc && c.pipeline then map (λ (p : ℕ × Track). p.1) c.tracks else [])
unfolding withdrawn
withdrawn-peer c = ground (arith, withdrawn-map c c.tracks)

-- A reset withdraws from the channel all tracks of a record that is a sender with a peer
-- connection, in their order, and no track of any other record.
pub reset_withdraws :
    (c : Connection)
    → withdrawn (reset_effects c)
      ≡ (if is_some c.pc && c.pipeline then map (λ (p : ℕ × Track). p.1) c.tracks else [])
unfolding withdrawn reset_effects
reset_withdraws c =
    withdrawn-append (peer_effects c) (close_rtcp c.rtcp_ch ++ end_effects c)
    ∙ rw (withdrawn-peer c, withdrawn-end c) (append-nil _)

module _ (w : Outside) where
  -- The senders outlive a change of the remote side, while the tracks do not: a track of the old
  -- peer connection `pc` that is removed later is removed from the new one, `pc'`.
  pub clear_peer_connection_stale :
      (r : TrackRecord) (pc pc' sender : ℕ) (c : Connection)
      → c.pc ≡ some pc
      → c.bound ≡ some r.source
      → lookup r.track.ssrc c.senders ≡ some sender
      → let c' = record (clear_peer_connection c) { pc = some pc' } in
        (lookup r.track.ssrc c'.tracks ≡ none)
        × ((remove_track w r c').0
            ≡ (if w.remove_track pc' sender then ok true else err remove_track_failed))
  unfolding clear_peer_connection remove_track remove_bound_track lookup
  clear_peer_connection_stale r pc pc' sender c has bound h =
      ground (arith, ==_iff r.source r.source)
