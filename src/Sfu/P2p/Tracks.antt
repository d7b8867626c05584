-- ===== src/Sfu/P2p/Tracks.antt =====
-- p2precord.go: the tracks that the unit sends over the record's peer connection. A TrackRecord is
-- changed through its pointer in the source; here the changed one is what is stored.
use kwmbridge.Base.{
  ℕ, Bool, true, false, not, ◌||◌, none, some, if◌then◌else◌, is_some, lookup, insert, erase, ℕ_key,
  Option,
}
use kwmbridge.Sfu.Types.{
  Track, TrackRecord, Codec, Message, sendonly, ok, err, track_exists, new_track_failed,
  add_track_failed, codec_not_found, remove_track_failed, nil_pointer, no_media, Outside,
}
use kwmbridge.Sfu.Steps.{after, return}
use kwmbridge.Sfu.Connection.Tracks.{find_codec, local_track}
use kwmbridge.Sfu.P2p.{P2pRecord, M}
use kwmbridge.Sfu.P2p.Transceivers.{request_missing_transceiver}

module _ (w : Outside) (send_text : ℕ → Message → Bool) where
  -- The codec of the record's engine for a track; the code asks the engine unguarded.
  abbrev pub target_codec : Track → P2pRecord → Option Codec
  target_codec t c = elim c.webrtc_media [
    | none ↦ none
    | some media ↦ find_codec t.codec (w.codecs_by_kind media t.kind)
  ]

  -- The branch of addTrack that adds the track to the peer connection.
  unfoldable pub attach_track : Codec → Track → M Bool
  attach_track codec t c =
      if is_some (lookup t.ssrc c.tracks)
      then (err track_exists, c)
      else if not (w.new_track codec t)
      then (err new_track_failed, c)
      else elim c.pc [
        | none ↦ (err nil_pointer, c)
        | some pc ↦ elim (w.add_track pc (local_track codec t)) [
          | none ↦ (err add_track_failed, c)
          | some sender ↦ (
            ok true,
            record c {
              tracks = insert t.ssrc (local_track codec t) c.tracks;
              senders = insert t.ssrc sender c.senders;
            },
          )
        ]
      ]

  -- The branch of addTrack that leaves the track pending and asks for a transceiver.
  unfoldable pub defer_track : TrackRecord → M Bool
  defer_track r c =
      if c.initiator
      then (err codec_not_found, c)
      else if is_some (lookup r.track.ssrc c.pending)
      then (ok false, c)
      else after
          (request_missing_transceiver w send_text r.track sendonly (record c {
            pending = insert r.track.ssrc (record r { transceiver = true }) c.pending;
          }))
          (λ _. return false)

  -- addTrack: whether the track was added, or the failure. A record without a media engine faults.
  unfoldable pub add_track : TrackRecord → M Bool
  add_track r c =
      if is_some c.webrtc_media
      then (elim (target_codec r.track c) [
        | none ↦ defer_track r c
        | some codec ↦
            if c.initiator || r.transceiver then attach_track codec r.track c else defer_track r c
      ])
      else (err no_media, c)

  unfoldable pub remove_track : TrackRecord → M Bool
  remove_track r c =
      let ssrc = r.track.ssrc in
      let c' = record c { pending = erase ssrc c.pending } in
      elim (lookup ssrc c.senders) [
        | none ↦ (ok false, c')
        | some sender ↦
            let c'' = record c' { senders = erase ssrc c.senders; tracks = erase ssrc c.tracks } in
            elim c.pc [
              | none ↦ (err nil_pointer, c'')
              | some pc ↦
                  if w.remove_track pc sender
                  then (ok true, c'')
                  else (err remove_track_failed, c'')
            ]
      ]
