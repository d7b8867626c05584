-- ===== src/Sfu/Connection/Tracks.antt =====
-- connectionrecord.go: the tracks that the unit sends over a connection. A TrackRecord is changed
-- through its pointer in the source; here the changed one is what is stored.
use kwmbridge.Base.{
  Bool, true, false, not, ◌||◌, Option, none, some, List, [], ◌∷◌, if◌then◌else◌, ◌==◌, Text,
  text_eq, is_some, lookup, insert, erase, ℕ_key,
}
use kwmbridge.Sfu.Types.{
  Track, TrackRecord, Codec, sendonly, ok, err, track_mismatch, track_exists, new_track_failed,
  add_track_failed, codec_not_found, remove_track_failed, nil_pointer, no_media, Outside,
}
use kwmbridge.Sfu.Connection.{Connection, M, after, return}
use kwmbridge.Sfu.Connection.Transceivers.{request_missing_transceiver}

-- The search for the sender's codec among those of the record.
unfoldable pub find_codec : Text → List Codec → Option Codec
find_codec name [] = none
find_codec name (c ∷ rest) =
    let later = find_codec name rest in if text_eq c.name name then some c else later

-- What `webrtc.NewTrack` makes of the codec that was found and the sender's track.
abbrev pub local_track : Codec → Track → Track
local_track codec t = record t { payload_type = codec.payload_type; codec = codec.name }

module _ (w : Outside) where
  -- The codec of the record's engine for a track; the code asks the engine unguarded.
  abbrev pub target_codec : Track → Connection → Option Codec
  target_codec t c = elim c.webrtc_media [
    | none ↦ none
    | some media ↦ find_codec t.codec (w.codecs_by_kind media t.kind)
  ]

  -- The branch of addTrack that adds the track to the peer connection.
  unfoldable pub attach_track : Codec → Track → M Bool
  attach_track codec t c =
      if is_some (lookup t.ssrc c.tracks)
      then (err track_exists, c)
      else if not (w.new_track codec t)
      then (err new_track_failed, c)
      else elim c.pc [
        | none ↦ (err nil_pointer, c)
        | some pc ↦ elim (w.add_track pc (local_track codec t)) [
          | none ↦ (err add_track_failed, c)
          | some sender ↦ (
            ok true,
            record c {
              tracks = insert t.ssrc (local_track codec t) c.tracks;
              senders = insert t.ssrc sender c.senders;
            },
          )
        ]
      ]

  -- The branch of addTrack that leaves the track pending and asks for a transceiver.
  unfoldable pub defer_track : TrackRecord → M Bool
  defer_track r c =
      if c.initiator
      then (err codec_not_found, c)
      else if is_some (lookup r.track.ssrc c.pending)
      then (ok false, c)
      else after
          (request_missing_transceiver w r.track sendonly (record c {
            pending = insert r.track.ssrc (record r { transceiver = true }) c.pending;
          }))
          (λ _. return false)

  -- addTrack behind the test of the source.
  unfoldable pub add_bound_track : TrackRecord → M Bool
  add_bound_track r c = elim (target_codec r.track c) [
    | none ↦ defer_track r c
    | some codec ↦
        if c.initiator || r.transceiver then attach_track codec r.track c else defer_track r c
  ]

  -- addTrack: whether the track was added, or the failure. A record without a media engine
  -- faults, which ends the program in the source; the failure no_media stands for it.
  unfoldable pub add_track : TrackRecord → M Bool
  add_track r c =
      let bind = record c { bound = some r.source } in
      elim c.bound [
        | none ↦ if is_some c.webrtc_media then add_bound_track r bind else (err no_media, bind)
        | some source ↦
            if source == r.source
            then if is_some c.webrtc_media then add_bound_track r c else (err no_media, c)
            else (err track_mismatch, c)
      ]

  -- removeTrack behind the test of the source.
  unfoldable pub remove_bound_track : Track → M Bool
  remove_bound_track t c =
      let c' = record c { pending = erase t.ssrc c.pending } in
      elim (lookup t.ssrc c.senders) [
        | none ↦ (ok false, c')
        | some sender ↦
            let c'' = record c' {
              senders = erase t.ssrc c.senders;
              tracks = erase t.ssrc c.tracks;
            } in
            elim c.pc [
              | none ↦ (err nil_pointer, c'')
              | some pc ↦
                  if w.remove_track pc sender
                  then (ok true, c'')
                  else (err remove_track_failed, c'')
            ]
      ]

  unfoldable pub remove_track : TrackRecord → M Bool
  remove_track r c = elim c.bound [
    | none ↦ (ok false, c)
    | some source ↦
        if source == r.source then remove_bound_track r.track c else (err track_mismatch, c)
  ]
