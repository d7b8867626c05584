-- ===== src/Sfu/P2p/Removal.antt =====
-- channel.go: what the track worker leaves in peer to peer records when a sender withdraws a track.
use kwmbridge.Base.{
  ℕ, ◌≡◌, ◌≢◌, refl, sym, subst, Bool, true, false, none, some, [], ◌∷◌, arith, Text, text_eq_iff,
  is_some, lookup, insert, lookup-insert, lookup-erase, ℕ_key, text_key, ==_iff,
}
use kwmbridge.Sfu.Types.{Message, TrackRecord, Outcome, ok, err, Outside}
use kwmbridge.Sfu.P2p.{P2pRecord, send, negotiation_needed}
use kwmbridge.Sfu.P2p.Negotiation.{
  create_offer, request_offer, start_negotiation, negotiate, maybe_negotiate,
}
use kwmbridge.Sfu.P2p.Tracks.{remove_track}
use kwmbridge.Sfu.P2p.Controller.{Controller}
use kwmbridge.Sfu.P2p.Announcing.{Peers}
use kwmbridge.Sfu.P2p.Workers.{
  negotiate_change, update_record, update_controller, passed_record, take_p2p_track,
}

-- Two records with the same tracks, senders and pending tracks.
abbrev SameTracks : P2pRecord → P2pRecord → Type 0
SameTracks c c' = (c'.tracks ≡ c.tracks) × (c'.senders ≡ c.senders) × (c'.pending ≡ c.pending)

-- The record has nothing of the track with the SSRC.
abbrev pub Forgets : ℕ → P2pRecord → Type 0
Forgets ssrc c =
    (lookup ssrc c.pending ≡ none) × (lookup ssrc c.senders ≡ none) × (lookup ssrc c.tracks ≡ none)

Forgets-same : (ssrc : ℕ) (c c' : P2pRecord) → SameTracks c c' → Forgets ssrc c → Forgets ssrc c'
Forgets-same ssrc c c' (t, s, p) (a, b, d) = (rw p a, rw s b, rw t d)

module _ (w : Outside) (send_text : ℕ → Message → Bool) where
  start_negotiation-SameTracks :
      (noop : Bool) (c : P2pRecord) → SameTracks c (start_negotiation w send_text noop c).1
  unfolding start_negotiation create_offer request_offer send
  start_negotiation-SameTracks noop c = ground arith

  maybe_negotiate-SameTracks :
      (pick : Bool) (c : P2pRecord) → SameTracks c (maybe_negotiate w send_text pick c)
  unfolding maybe_negotiate negotiate
  maybe_negotiate-SameTracks pick c =
      ground (arith, start_negotiation-SameTracks false (record c { needs_negotiation = false }))

  negotiate_change-SameTracks : (p : Outcome Bool × P2pRecord) → SameTracks p.1 (negotiate_change p)
  unfolding negotiation_needed
  negotiate_change-SameTracks (err e, c) = (refl, refl, refl)
  negotiate_change-SameTracks (ok b, c) = ground arith

  remove_track-Forgets :
      (r : TrackRecord) (c : P2pRecord)
      → (is_some (lookup r.track.ssrc c.tracks) ≡ true
          → is_some (lookup r.track.ssrc c.senders) ≡ true)
      → Forgets r.track.ssrc (remove_track w send_text r c).1
  unfolding remove_track
  remove_track-Forgets r c matched =
      let ssrc = r.track.ssrc in
      ground (
        arith,
        ==_iff ssrc ssrc,
        lookup-erase ssrc ssrc c.pending,
        lookup-erase ssrc ssrc c.senders,
        lookup-erase ssrc ssrc c.tracks,
      )

  update_record-Forgets :
      (pick : Bool) (r : TrackRecord) (c : P2pRecord)
      → w.channel_closed ≡ false
      → r.remove ≡ true
      → is_some c.pc ≡ true
      → (is_some (lookup r.track.ssrc c.tracks) ≡ true
          → is_some (lookup r.track.ssrc c.senders) ≡ true)
      → Forgets r.track.ssrc (update_record w send_text pick r c)
  unfolding update_record
  update_record-Forgets pick r c running remove has matched =
      let p = remove_track w send_text r c in
      let c' = negotiate_change p in
      let e : update_record w send_text pick r c ≡ maybe_negotiate w send_text pick c' =
        ground arith in
      let gone =
        Forgets-same r.track.ssrc p.1 c' (negotiate_change-SameTracks p)
          (remove_track-Forgets r c matched) in
      subst (Forgets r.track.ssrc) (sym e) (
        Forgets-same r.track.ssrc c' (maybe_negotiate w send_text pick c')
          (maybe_negotiate-SameTracks pick c') gone)

  lookup-take_p2p_track :
      (picks : Text → Bool) (source_id token name : Text) (r : TrackRecord) (c : Controller)
      (peers : Peers)
      → r.remove ≡ true
      → lookup name peers ≡ some (false, some c)
      → name ≢ source_id
      → lookup name (take_p2p_track w send_text picks source_id r token peers)
        ≡ some (false, some (update_controller w send_text (picks name) r token c))
  unfolding take_p2p_track lookup passed_record
  lookup-take_p2p_track picks source_id token name r c [] remove h other = cc
  lookup-take_p2p_track picks source_id token name r c ((key, (gone, none)) ∷ peers) remove h
        other =
      ground (
        arith,
        text_eq_iff key name,
        lookup-take_p2p_track picks source_id token name r c peers remove,
      )
  lookup-take_p2p_track picks source_id token name r c ((key, (gone, some d)) ∷ peers) remove h
        other =
      ground (
        arith,
        text_eq_iff key name,
        text_eq_iff key source_id,
        lookup-take_p2p_track picks source_id token name r c peers remove,
      )

  -- After the track worker of an open channel took a record that withdraws a track of a peer to
  -- peer record, the record under the same token of every other user that is not closed has neither
  -- the track nor a sender for it, nor is the track pending there, provided that it had a peer
  -- connection, and a sender for the track if it had the track.
  pub take_p2p_track-Forgets :
      (picks : Text → Bool) (source_id token name : Text) (r : TrackRecord) (c : Controller)
      (p : P2pRecord) (peers : Peers)
      → w.channel_closed ≡ false
      → r.remove ≡ true
      → lookup name peers ≡ some (false, some c)
      → name ≢ source_id
      → lookup token c.callbacks ≡ some p
      → is_some p.pc ≡ true
      → (is_some (lookup r.track.ssrc p.tracks) ≡ true
          → is_some (lookup r.track.ssrc p.senders) ≡ true)
      → (c' : Controller) × (p' : P2pRecord) × (lookup name
            (take_p2p_track w send_text picks source_id r token peers)
          ≡ some (false, some c'))
        × (lookup token c'.callbacks ≡ some p')
        × Forgets r.track.ssrc p'
  unfolding update_controller
  take_p2p_track-Forgets picks source_id token name r c p peers running remove there other held has
        matched =
      let p' = update_record w send_text (picks name) r p in
      (
        record c { callbacks = insert token p' c.callbacks },
        p',
        ground
            (arith, lookup-take_p2p_track picks source_id token name r c peers remove there other),
        ground (arith, lookup-insert token token p' c.callbacks, text_eq_iff token token),
        update_record-Forgets (picks name) r p running remove has matched,
      )
