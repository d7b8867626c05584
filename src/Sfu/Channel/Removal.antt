-- ===== src/Sfu/Channel/Removal.antt =====
-- channel.go: what the track worker leaves behind when a sender withdraws a track.
use kwmbridge.Base.{
  ℕ, ◌≡◌, refl, sym, subst, ◌∙◌, Bool, true, false, none, some, arith, Text, text_eq_iff, is_some,
  lookup, insert, lookup-insert, ℕ_key, text_key, List, [], ◌∷◌, ◌≢◌,
}
use kwmbridge.Sfu.Types.{TrackRecord, Outcome, ok, err, Outside}
use kwmbridge.Sfu.Connection.{Connection, negotiation_needed}
use kwmbridge.Sfu.Connection.Negotiation.{
  send, create_offer, request_offer, start_negotiation, negotiate, maybe_negotiate,
}
use kwmbridge.Sfu.Connection.Tracks.{remove_track}
use kwmbridge.Sfu.Connection.Matched.{IsMatched, remove_track_lem}
use kwmbridge.Sfu.Users.{UserRecord, Channel}
use kwmbridge.Sfu.Channel.Workers.{
  negotiate_change, change_track, update_connection, update_target, update_targets, passed_record,
  take_track,
}

-- Two records with the same tracks, senders and pending tracks.
abbrev pub SameTracks : Connection → Connection → Type 0
SameTracks c c' = (c'.tracks ≡ c.tracks) × (c'.senders ≡ c.senders) × (c'.pending ≡ c.pending)

pub SameTracks-trans : (a b c : Connection) → SameTracks a b → SameTracks b c → SameTracks a c
SameTracks-trans a b c (x, y, z) (x', y', z') = (x' ∙ x, y' ∙ y, z' ∙ z)

-- The connection has nothing of the track with the SSRC.
abbrev pub Forgets : ℕ → Connection → Type 0
Forgets ssrc c =
    (lookup ssrc c.pending ≡ none) × (lookup ssrc c.senders ≡ none) × (lookup ssrc c.tracks ≡ none)

Forgets-same : (ssrc : ℕ) (c c' : Connection) → SameTracks c c' → Forgets ssrc c → Forgets ssrc c'
Forgets-same ssrc c c' (t, s, p) (a, b, d) = (rw p a, rw s b, rw t d)

module _ (w : Outside) where
  start_negotiation-SameTracks : (c : Connection) → SameTracks c (start_negotiation w c).1
  unfolding start_negotiation create_offer request_offer send
  start_negotiation-SameTracks c = ground arith

  pub maybe_negotiate-SameTracks :
      (pick : Bool) (c : Connection) → SameTracks c (maybe_negotiate w pick c)
  unfolding maybe_negotiate negotiate
  maybe_negotiate-SameTracks pick c =
      ground (arith, start_negotiation-SameTracks (record c { needs_negotiation = false }))

  negotiate_change-SameTracks :
      (p : Outcome Bool × Connection) → SameTracks p.1 (negotiate_change p)
  unfolding negotiation_needed
  negotiate_change-SameTracks (err e, c) = (refl, refl, refl)
  negotiate_change-SameTracks (ok b, c) = ground arith

  update_connection-Forgets :
      (pick : Bool) (r : TrackRecord) (c : Connection)
      → w.channel_closed ≡ false
      → r.remove ≡ true
      → is_some c.pc ≡ true
      → IsMatched c
      → c.bound ≡ some r.source
      → Forgets r.track.ssrc (update_connection w pick false r c)
  unfolding update_connection change_track
  update_connection-Forgets pick r c running remove has matched bound =
      let p = remove_track w r c in
      let c' = negotiate_change p in
      let e : update_connection w pick false r c ≡ maybe_negotiate w pick c' = ground arith in
      subst (Forgets r.track.ssrc) (sym e) (
        Forgets-same r.track.ssrc p.1 (maybe_negotiate w pick c')
          (SameTracks-trans p.1 c' (maybe_negotiate w pick c') (negotiate_change-SameTracks p)
            (maybe_negotiate-SameTracks pick c'))
          (remove_track_lem w r c matched bound))

  lookup-update_targets :
      (picks : Text → Bool) (source_id : Text) (r : TrackRecord) (name : Text) (target : UserRecord)
      (users : List (Text × UserRecord))
      → r.remove ≡ true
      → lookup name users ≡ some target
      → lookup name (update_targets w picks source_id r users)
        ≡ some (update_target w (picks name) source_id r name target)
  unfolding update_targets lookup passed_record
  lookup-update_targets picks source_id r name target [] remove h = cc
  lookup-update_targets picks source_id r name target ((key, other) ∷ users) remove h = ground (
    arith,
    text_eq_iff key name,
    lookup-update_targets picks source_id r name target users remove,
  )

  -- After the track worker of an open channel took a record that withdraws a track, every user that
  -- the channel lists beside the source and that is not closed has, in its connection to the source,
  -- neither the track nor a sender for it, nor is the track pending there, provided that the
  -- connection had a peer connection, had a sender for exactly its tracks and was bound to the source.
  pub take_track-Forgets :
      (picks : Text → Bool) (source_id : Text) (r : TrackRecord) (ch : Channel) (name : Text)
      (target : UserRecord) (c : Connection)
      → w.channel_closed ≡ false
      → r.remove ≡ true
      → lookup name ch.connections ≡ some target
      → name ≢ source_id
      → target.closed ≡ false
      → lookup source_id target.connections ≡ some c
      → is_some c.pc ≡ true
      → IsMatched c
      → c.bound ≡ some r.source
      → (target' : UserRecord) × (c' : Connection) × (lookup name
            (take_track w picks source_id r ch).connections
          ≡ some target')
        × (lookup source_id target'.connections ≡ some c')
        × Forgets r.track.ssrc c'
  unfolding take_track update_target
  take_track-Forgets picks source_id r ch name target c running remove there other live to_source
        has matched bound =
      let c' = update_connection w (picks name) false r c in
      (
        record target { connections = insert source_id c' target.connections },
        c',
        ground (
          arith,
          text_eq_iff name source_id,
          lookup-update_targets picks source_id r name target ch.connections remove there,
        ),
        ground (
          arith,
          lookup-insert source_id source_id c' target.connections,
          text_eq_iff source_id source_id,
        ),
        update_connection-Forgets (picks name) r c running remove has matched bound,
      )
