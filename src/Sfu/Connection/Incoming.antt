-- ===== src/Sfu/Connection/Incoming.antt =====
-- connectionrecord.go: the handler of OnTrack of the peer connection `pc`, up to the goroutines that
-- pass packets on, and what the goroutine that reads the remote track does to the record when it
-- starts and when the track has ended. `source` is the number of the sourceRecord.
use kwmbridge.Base.{
  ℕ, Bool, true, false, not, ◌||◌, Option, none, some, [], ◌∷◌, ◌++◌, if◌then◌else◌, ◌==◌, is_some,
  codes, text_eq, is_empty, lookup, insert, erase, ℕ_key,
}
use kwmbridge.Sfu.Types.{
  Track, TrackRecord, track_change, sender_track_video, sender_track_audio, Outside,
}
use kwmbridge.Sfu.Incoming.{
  RemoteTrack, Media, Taken, ignored, unsupported, locked, panicked, taken,
}
use kwmbridge.Sfu.Connection.{Connection, emit}

-- The part before the codec is looked at: the record has a GUID and an rtcpCh afterwards.
unfoldable pub prepare_incoming : Media → Connection → Connection
prepare_incoming m c = record c {
  guid = if is_empty c.guid then codes "stream_" ++ c.owner_id else c.guid;
  rtcp_ch = if is_some c.rtcp_ch then c.rtcp_ch else some m.rtcp_ch;
}

-- The track and its receiver, in their slot.
unfoldable pub with_slot : ℕ → Track → ℕ → Connection → Connection
with_slot slot t receiver c = record c {
  tracks = insert slot t c.tracks;
  receivers = insert slot receiver c.receivers;
}

-- The branch of a codec, for its slot. `failed` says how a failure of NewTrack ends.
unfoldable pub take_slot : Media → ℕ → ℕ → Taken → RemoteTrack → ℕ → Connection → Taken × Connection
take_slot m pc slot failed remote receiver c =
    if is_some (lookup slot c.tracks)
    then (ignored, c)
    else elim (m.new_track pc remote.payload_type remote.ssrc m.track_id c.guid) [
      | none ↦ (failed, c)
      | some t ↦ (taken slot t c.rtcp_ch, with_slot slot t receiver c)
    ]

-- The branches. Where NewTrack fails they return with the record locked; the one of audio asks the
-- track that is nil for its SSRC.
unfoldable pub take_remote : Media → ℕ → RemoteTrack → ℕ → Connection → Taken × Connection
unfolding take_slot
take_remote m pc remote receiver c =
    if text_eq remote.codec m.vp8
    then take_slot m pc sender_track_video locked remote receiver c
    else if text_eq remote.codec m.opus
    then take_slot m pc sender_track_audio panicked remote receiver c
    else (unsupported, c)

abbrev pub is_current : ℕ → Option ℕ → Bool
is_current pc none = false
is_current pc (some current) = current == pc

-- The handler of OnTrack.
unfoldable pub on_track :
    Outside → Media → ℕ → Bool → RemoteTrack → ℕ → Connection → Taken × Connection
unfolding prepare_incoming take_remote
on_track w m pc owner_closed remote receiver c =
    if w.channel_closed
    then (ignored, c)
    else if not (is_current pc c.pc) || owner_closed
    then (ignored, c)
    else if not c.pipeline
    then (ignored, c)
    else take_remote m pc remote receiver (prepare_incoming m c)

abbrev pub publication : ℕ → Track → Option ℕ → TrackRecord
publication source t ch = record {
  track = t;
  source = source;
  p2p = none;
  remove = false;
  transceiver = false;
  rtcp_ch = ch;
}

-- What the goroutine sends first.
abbrev pub publish : ℕ → Taken × Connection → Connection
publish source (taken slot t ch, c) = emit (track_change (publication source t ch) ∷ []) c
publish source (_, c) = c

-- What it does when the remote track has ended.
unfoldable pub end_track : ℕ → ℕ → Track → Option ℕ → Connection → Connection
end_track source slot t ch c =
    emit (track_change (record (publication source t ch) { remove = true }) ∷ [])
      (record c { tracks = erase slot c.tracks; receivers = erase slot c.receivers })
