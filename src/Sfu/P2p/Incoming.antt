-- ===== src/Sfu/P2p/Incoming.antt =====
-- p2precord.go: the handler of OnTrack of the peer connection `pc`, up to the goroutines that pass
-- packets on, what the goroutine that reads the remote track does to the record, and the goroutine
-- that reads the RTCP records. Only video is taken.
use kwmbridge.Base.{
  ℕ, true, false, not, ◌||◌, Option, none, some, List, [], ◌∷◌, ◌++◌, if◌then◌else◌, is_some,
  text_eq, is_empty, lookup, insert, erase, ℕ_key,
}
use kwmbridge.Sfu.Types.{Track, TrackRecord, track_change, sender_track_video, Outside}
use kwmbridge.Sfu.Incoming.{
  RemoteTrack, Media, Taken, ignored, unsupported, locked, taken, Written, RtcpEvent, context_done,
  reset_record, received, answer_rtcp,
}
use kwmbridge.Sfu.Connection.Incoming.{is_current}
use kwmbridge.Sfu.P2p.{P2pRecord, emit}

-- The record has a GUID and an rtcpCh afterwards.
unfoldable pub prepare_incoming : Media → P2pRecord → P2pRecord
prepare_incoming m c = record c {
  guid = if is_empty c.guid then m.guid else c.guid;
  rtcp_ch = if is_some c.rtcp_ch then c.rtcp_ch else some m.rtcp_ch;
}

-- The track and its receiver, in the slot of video.
unfoldable pub with_video : Track → ℕ → P2pRecord → P2pRecord
with_video t receiver c = record c {
  tracks = insert sender_track_video t c.tracks;
  receivers = insert sender_track_video receiver c.receivers;
}

-- The branches of the codec. Where NewTrack fails the handler returns with the record locked.
unfoldable pub take_remote : Media → ℕ → RemoteTrack → ℕ → P2pRecord → Taken × P2pRecord
take_remote m pc remote receiver c =
    if text_eq remote.codec m.vp8 || text_eq remote.codec m.vp9
    then (if is_some (lookup sender_track_video c.tracks)
        then (ignored, c)
        else (elim (m.new_track pc remote.payload_type remote.ssrc m.track_id c.guid) [
          | none ↦ (locked, c)
          | some t ↦ (taken sender_track_video t c.rtcp_ch, with_video t receiver c)
        ]))
    else (unsupported, c)

-- The handler of OnTrack.
unfoldable pub on_track : Outside → Media → ℕ → RemoteTrack → ℕ → P2pRecord → Taken × P2pRecord
unfolding prepare_incoming take_remote
on_track w m pc remote receiver c =
    if w.channel_closed
    then (ignored, c)
    else if not (is_current pc c.pc)
    then (ignored, c)
    else take_remote m pc remote receiver (prepare_incoming m c)

abbrev pub publication : P2pRecord → Track → Option ℕ → TrackRecord
publication c t ch = record {
  track = t;
  source = c.owner;
  p2p = some c.token;
  remove = false;
  transceiver = false;
  rtcp_ch = ch;
}

-- What the goroutine that reads the remote track sends first.
abbrev pub publish : Taken × P2pRecord → P2pRecord
publish (taken slot t ch, c) = emit (track_change (publication c t ch) ∷ []) c
publish (_, c) = c

-- What it does when the remote track has ended.
unfoldable pub end_track : ℕ → Track → Option ℕ → P2pRecord → P2pRecord
end_track slot t ch c =
    emit (track_change (record (publication c t ch) { remove = true }) ∷ [])
      (record c { tracks = erase slot c.tracks; receivers = erase slot c.receivers })

-- The goroutine that reads the RTCP records, whose `switch` is that of a connection record.
unfoldable pub read_rtcp : ℕ → List RtcpEvent → List Written
unfolding answer_rtcp
read_rtcp pc [] = []
read_rtcp pc (context_done ∷ events) = []
read_rtcp pc (reset_record ∷ events) = []
read_rtcp pc (received r j ∷ events) = answer_rtcp pc j r ++ read_rtcp pc events
