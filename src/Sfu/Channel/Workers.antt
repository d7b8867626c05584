-- ===== src/Sfu/Channel/Workers.antt =====
-- channel.go: the two workers that NewChannel starts. The first brings a track of a sender to all
-- receivers, or takes it from them; the second brings all tracks of a sender to a new receiver.
-- Each round is one step. What they do for peer to peer records is in Sfu.P2p.Workers. `picks` and
-- `pick` are the choices of maybeNegotiateAndUnlock.
use kwmbridge.Base.{
  ℕ, Bool, true, false, not, ◌||◌, ◌&&◌, Option, none, some, List, [], ◌∷◌, if◌then◌else◌, Text,
  text_eq, is_some, lookup, insert, ℕ_key, text_key,
}
use kwmbridge.Sfu.Types.{Track, TrackRecord, Outcome, ok, err, Outside}
use kwmbridge.Sfu.Connection.{Connection, negotiation_needed}
use kwmbridge.Sfu.Connection.Negotiation.{maybe_negotiate}
use kwmbridge.Sfu.Connection.Tracks.{add_track, remove_track}
use kwmbridge.Sfu.Users.{UserRecord, Channel}
use kwmbridge.Sfu.Channel.Messages.{default_publisher}

-- A change of the tracks that did not fail needs a negotiation.
abbrev pub negotiate_change : Outcome Bool × Connection → Connection
negotiate_change (err _, c) = c
negotiate_change (ok _, c) = negotiation_needed c

-- The record under which a track of a sender is given to a receiver.
abbrev pub publication : ℕ → Option ℕ → Track → TrackRecord
publication source rtcp_ch t = record {
  track = t;
  source = source;
  p2p = none;
  remove = false;
  transceiver = false;
  rtcp_ch = rtcp_ch;
}

-- Whether a receiver has a track already, or waits for it.
abbrev pub has_track : ℕ → Connection → Bool
has_track ssrc c = is_some (lookup ssrc c.tracks) || is_some (lookup ssrc c.pending)

-- A negotiation is needed where a track was added.
abbrev pub negotiate_filled : Outcome Bool × Connection → Connection
negotiate_filled (err _, c) = c
negotiate_filled (ok added, c) = if added then negotiation_needed c else c

-- Whether the track waits in the connection of a user to the source.
abbrev pub is_waiting : Text → ℕ → UserRecord → Bool
is_waiting source_id ssrc u = elim (lookup source_id u.connections) [
  | none ↦ false
  | some c ↦ is_some (lookup ssrc c.pending)
]

-- The track worker's record after a user: addTrack notes in it, for the users that follow, that it
-- left the track waiting.
unfoldable pub passed_record : Text → TrackRecord → UserRecord → UserRecord → TrackRecord
passed_record source_id r target target' =
    let ssrc = r.track.ssrc in
    let left = is_waiting source_id ssrc target' && not (is_waiting source_id ssrc target) in
    if r.remove then r else record r { transceiver = r.transceiver || left }

module _ (w : Outside) where
  -- Whether a worker does nothing with a connection that it has locked.
  abbrev pub is_idle : Bool → Connection → Bool
  is_idle owner_closed c = w.channel_closed || not (is_some c.pc) || owner_closed

  -- The change of the tracks of a receiver.
  unfoldable pub change_track : TrackRecord → Connection → Outcome Bool × Connection
  change_track r c = if r.remove then remove_track w r c else add_track w r c

  -- The track worker at one connection.
  unfoldable pub update_connection : Bool → Bool → TrackRecord → Connection → Connection
  unfolding change_track
  update_connection pick owner_closed r c =
      maybe_negotiate w pick
        (if is_idle owner_closed c then c else negotiate_change (change_track r c))

  -- The track worker at one user: the source's own record and closed records are passed by.
  unfoldable pub update_target : Bool → Text → TrackRecord → Text → UserRecord → UserRecord
  unfolding update_connection
  update_target pick source_id r key target =
      if text_eq key source_id
      then target
      else if target.closed
      then target
      else elim (lookup source_id target.connections) [
        | none ↦ target
        | some c ↦ record target {
          connections =
              insert source_id (update_connection pick target.closed r c) target.connections;
        }
      ]

  unfoldable pub update_targets :
      (Text → Bool) → Text → TrackRecord → List (Text × UserRecord) → List (Text × UserRecord)
  unfolding update_target passed_record
  update_targets picks source_id r [] = []
  update_targets picks source_id r ((key, target) ∷ rest) =
      let target' = update_target (picks key) source_id r key target in
      (key, target')
      ∷ update_targets picks source_id (passed_record source_id r target target') rest

  -- A round of the track worker; `source_id` is the id of the record's source.
  unfoldable pub take_track : (Text → Bool) → Text → TrackRecord → Channel → Channel
  unfolding update_targets
  take_track picks source_id r ch = record ch {
    connections = update_targets picks source_id r ch.connections;
  }

  -- The loop over the sender's tracks: whether one was added, or the failure that ends it.
  unfoldable pub fill_tracks :
      ℕ → Option ℕ → List (ℕ × Track) → Bool → Connection → Outcome Bool × Connection
  fill_tracks source rtcp_ch [] added c = (ok added, c)
  fill_tracks source rtcp_ch ((id, t) ∷ rest) added c =
      let p = add_track w (publication source rtcp_ch t) c in
      let passed = fill_tracks source rtcp_ch rest added c in
      let filled = fill_tracks source rtcp_ch rest true p.1 in
      if has_track t.ssrc c then passed else elim p.0 [ err e ↦ (err e, p.1) | ok _ ↦ filled ]

  -- The receiver worker at a connection, given the wanted user and its sender.
  unfoldable pub fill_connection : Bool → Bool → UserRecord → Connection → Connection → Connection
  unfolding fill_tracks
  fill_connection pick owner_closed source sender c = maybe_negotiate w pick (
      if is_idle owner_closed c
      then c
      else negotiate_filled (fill_tracks source.number sender.rtcp_ch sender.tracks false c))

  -- A round of the receiver worker, for a connection whose owner is closed or not.
  unfoldable pub take_receiver : Bool → Bool → Channel → Connection → Connection
  unfolding fill_connection
  take_receiver pick owner_closed ch c = elim (lookup c.id ch.connections) [
    | none ↦ c
    | some source ↦ elim (lookup default_publisher source.publishers) [
      | none ↦ c
      | some sender ↦ fill_connection pick owner_closed source sender c
    ]
  ]
