-- ===== src/Sfu/P2p/Workers.antt =====
-- channel.go: what the track worker does for peer to peer records, and the announcements of the
-- receiver worker. `Peers` are the users of the channel with the controllers of their connections to
-- the source. A round of the loop over the users is one step.
use kwmbridge.Base.{
  ℕ, Bool, false, not, ◌||◌, ◌&&◌, ℕ_key, none, some, List, [], ◌∷◌, if◌then◌else◌, Text, text_eq,
  is_some, lookup, insert, text_key,
}
use kwmbridge.Sfu.Types.{Message, TrackRecord, Outcome, ok, err, Outside}
use kwmbridge.Sfu.P2p.{P2pRecord, negotiation_needed}
use kwmbridge.Sfu.P2p.Negotiation.{maybe_negotiate}
use kwmbridge.Sfu.P2p.Tracks.{add_track, remove_track}
use kwmbridge.Sfu.P2p.Controller.{Controller, Stream, Sent}
use kwmbridge.Sfu.P2p.Announcing.{Peers, announce_streams}

-- A change of the tracks that did not fail needs a negotiation.
abbrev pub negotiate_change : Outcome Bool × P2pRecord → P2pRecord
negotiate_change (err _, c) = c
negotiate_change (ok _, c) = negotiation_needed c

-- Whether the track waits in the record under the token.
abbrev pub is_waiting : Text → ℕ → Controller → Bool
is_waiting token ssrc c = elim (lookup token c.callbacks) [
  | none ↦ false
  | some p ↦ is_some (lookup ssrc p.pending)
]

-- The track worker's record after a user: addTrack notes in it, for the users that follow, that it
-- left the track waiting.
unfoldable pub passed_record : Text → TrackRecord → Controller → Controller → TrackRecord
passed_record token r c c' =
    let ssrc = r.track.ssrc in
    let left = is_waiting token ssrc c' && not (is_waiting token ssrc c) in
    if r.remove then r else record r { transceiver = r.transceiver || left }

module _ (w : Outside) (send_text : ℕ → Message → Bool) where
  unfoldable pub change_track : TrackRecord → P2pRecord → Outcome Bool × P2pRecord
  change_track r c = if r.remove then remove_track w send_text r c else add_track w send_text r c

  -- The track worker at one record, which has no peer connection or is changed.
  unfoldable pub update_record : Bool → TrackRecord → P2pRecord → P2pRecord
  unfolding change_track
  update_record pick r c =
      maybe_negotiate w send_text pick
        (if w.channel_closed || not (is_some c.pc) then c else negotiate_change (change_track r c))

  -- At the controller of a user: the record under the token of the sender's record.
  unfoldable pub update_controller : Bool → TrackRecord → Text → Controller → Controller
  unfolding update_record
  update_controller pick r token c = elim (lookup token c.callbacks) [
    | none ↦ c
    | some p ↦ record c { callbacks = insert token (update_record pick r p) c.callbacks }
  ]

  -- The loop over the users, for a track of the record with the token.
  unfoldable pub take_p2p_track : (Text → Bool) → Text → TrackRecord → Text → Peers → Peers
  unfolding update_controller passed_record
  take_p2p_track picks source_id r token [] = []
  take_p2p_track picks source_id r token ((key, (gone, none)) ∷ rest) =
      (key, (gone, none)) ∷ take_p2p_track picks source_id r token rest
  take_p2p_track picks source_id r token ((key, (gone, some c)) ∷ rest) =
      let c' =
        if text_eq key source_id || gone then c else update_controller (picks key) r token c in
      (key, (gone, some c'))
      ∷ take_p2p_track picks source_id (passed_record token r c c') token rest

-- The receiver worker announces the streams of a sender's controller to the new receiver, one by
-- one, up to the first that fails.
unfoldable pub announce_each : (ℕ → Sent → Bool) → List (Text × Stream) → Controller → Controller
announce_each data_out [] c = c
announce_each data_out ((_, s) ∷ streams) c =
    let (done, c') = announce_streams data_out (s ∷ []) false c in
    let later = announce_each data_out streams c' in if done then later else c'
