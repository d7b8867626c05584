-- ===== src/Sfu/Connection/Binding.antt =====
-- Which source the tracks of a connection come from, and how often a transceiver is asked for.
use kwmbridge.Base.{
  ℕ, ◌≡◌, ◌≢◌, inl, inr, true, Option, some, arith, ==_iff, Bool-cases, is_some, lookup, insert,
  lookup-insert, ℕ_key,
}
use kwmbridge.Sfu.Types.{
  Track, TrackRecord, Direction, Kind, Message, transceiver_request, ok, err, track_mismatch,
  Outside,
}
use kwmbridge.Sfu.Connection.{Connection, negotiation_needed}
use kwmbridge.Sfu.Connection.Negotiation.{send, message}
use kwmbridge.Sfu.Connection.Transceivers.{
  flip_init, add_own_transceiver, add_transceiver, request_missing_transceiver,
}
use kwmbridge.Sfu.Connection.Tracks.{add_track, remove_track}

module _ (w : Outside) where
  -- A track of another source than the record is bound to is neither added nor removed, and the
  -- record is left as it is.
  pub other_source_lem :
      (r : TrackRecord) (source : ℕ) (c : Connection)
      → c.bound ≡ some source
      → source ≢ r.source
      → (add_track w r c ≡ (err track_mismatch, c)) × (remove_track w r c ≡ (err track_mismatch, c))
  unfolding add_track remove_track
  other_source_lem r source c bound other = ground (arith, ==_iff source r.source)

  request_missing_transceiver_requested :
      (t : Track) (d : Direction) (c : Connection)
      → is_some (lookup t.ssrc c.requested_transceivers) ≡ true
      → request_missing_transceiver w t d c ≡ (ok tt, c)
  unfolding request_missing_transceiver
  request_missing_transceiver_requested t d c h = ground arith

  send-requested :
      (m : Message) (c : Connection)
      → ((send w m c).1.requested_transceivers ≡ c.requested_transceivers)
        × ((send w m c).1.tracks ≡ c.tracks)
        × ((send w m c).1.pending ≡ c.pending)
  unfolding send
  send-requested m c = ground arith

  add_transceiver-requested :
      (k : Kind) (d : Option Direction) (c : Connection)
      → (add_transceiver w k d c).0 ≡ ok tt
      → (add_transceiver w k d c).1.requested_transceivers ≡ c.requested_transceivers
  unfolding add_transceiver add_own_transceiver negotiation_needed
  add_transceiver-requested k d c h = elim (Bool-cases c.initiator) [
    | inl starts ↦ ground arith
    | inr asks ↦
        ground (arith, send-requested (message w (transceiver_request k (flip_init d)) c) c)
  ]

  request_missing_transceiver-IsRequested :
      (t : Track) (d : Direction) (c : Connection)
      → (request_missing_transceiver w t d c).0 ≡ ok tt
      → is_some (lookup t.ssrc (request_missing_transceiver w t d c).1.requested_transceivers)
        ≡ true
  unfolding request_missing_transceiver
  request_missing_transceiver-IsRequested t d c h =
      let c' = record c { requested_transceivers = insert t.ssrc tt c.requested_transceivers } in
      elim (Bool-cases (is_some (lookup t.ssrc c.requested_transceivers))) [
        | inl known ↦ ground arith
        | inr new ↦ ground (
          arith,
          ==_iff t.ssrc t.ssrc,
          lookup-insert t.ssrc t.ssrc tt c.requested_transceivers,
          add_transceiver-requested t.kind (some d) c',
        )
      ]

  -- A transceiver is asked for at most once for a track: after a request that succeeds, another
  -- one for a track of the same SSRC does nothing.
  pub request_missing_transceiver_once :
      (t : Track) (d d' : Direction) (c : Connection)
      → (request_missing_transceiver w t d c).0 ≡ ok tt
      → let c' = (request_missing_transceiver w t d c).1 in
        request_missing_transceiver w t d' c' ≡ (ok tt, c')
  request_missing_transceiver_once t d d' c h =
      request_missing_transceiver_requested t d' (request_missing_transceiver w t d c).1
        (request_missing_transceiver-IsRequested t d c h)
