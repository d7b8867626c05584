-- ===== src/Sfu/P2p/Peer.antt =====
-- p2precord.go: createPeerConnection, and `destroy`, which its handlers call where the peer
-- connection is closed or failed. The handler of tracks is in Incoming, that of ICE
-- candidates in Ice.
use kwmbridge.Base.{
  ℕ, Bool, true, false, none, some, Option, List, [], ◌∷◌, if◌then◌else◌, ◌==◌, Text, is_some,
  is_empty,
}
use kwmbridge.Sfu.Types.{
  audio, video, Track, TrackRecord, Message, ok, err, no_media, peer_failed, data_channel_failed,
  Outside,
}
use kwmbridge.Sfu.Steps.{after, ◌>>=◌, ◌>>◌, change, answer_or, return}
use kwmbridge.Sfu.Connection.Peer.{note_payload_types}
use kwmbridge.Sfu.P2p.{P2pRecord, M, reset, negotiation_needed}
use kwmbridge.Sfu.P2p.Tracks.{add_track}

-- What a record with a source reads of it: the tracks and the rtcpCh.
pub record Source : Type 0 where
  pub tracks : List (ℕ × Track)
  pub rtcp_ch : Option ℕ
  pub token : Text

module _ (w : Outside) (send_text : ℕ → Message → Bool) where
  -- The start of createPeerConnection: the record has a webrtc API afterwards.
  unfoldable pub ensure_api : M (Unit {0})
  ensure_api c =
      if c.webrtc_api
      then (ok tt, c)
      else if c.initiator
      then (
        ok tt,
        record c {
          rtp_payload_types =
              note_payload_types (w.codecs_by_kind w.new_media audio)
                (note_payload_types (w.codecs_by_kind w.new_media video) c.rtp_payload_types);
          webrtc_media = some w.new_media;
          webrtc_api = true;
        },
      )
      else if is_some c.webrtc_media
      then (ok tt, record c { webrtc_api = true })
      else (err no_media, c)

  abbrev pub install_peer : ℕ → Text → P2pRecord → P2pRecord
  install_peer pc rpcid c = record c {
    pcid = if is_empty c.pcid then w.peer_id pc else c.pcid;
    pc = some pc;
    rpcid = rpcid;
    is_negotiating = false;
  }

  -- The data channel that is made by the side that starts connections, and not kept.
  abbrev pub open_data_channel : ℕ → M (Unit {0})
  open_data_channel pc c =
      if c.initiator
      then (elim (w.create_data_channel pc) [
        | none ↦ (err data_channel_failed, c)
        | some _ ↦ (ok tt, c)
      ])
      else (ok tt, c)

  -- The record under which a track of the source is added.
  abbrev pub source_track : Source → ℕ → Track → TrackRecord
  source_track source owner t = record {
    track = t;
    source = owner;
    p2p = some source.token;
    remove = false;
    transceiver = false;
    rtcp_ch = source.rtcp_ch;
  }

  -- The loop over the tracks of the source.
  unfoldable pub add_each : Source → List (ℕ × Track) → M (Unit {0})
  add_each source [] c = (ok tt, c)
  add_each source ((_, t) ∷ rest) c =
      after (add_track w send_text (source_track source c.owner t) c) (λ _. add_each source rest)

  module _ (source_of : ℕ → Source) where
    unfoldable pub add_source_tracks : M (Unit {0})
    unfolding add_each
    add_source_tracks c = elim c.source [
      | none ↦ (ok tt, c)
      | some n ↦ add_each (source_of n) (source_of n).tracks c
    ]

    unfoldable pub create_peer_connection : Text → M ℕ
    create_peer_connection rpcid = do
      ensure_api
      pc ← answer_or peer_failed w.new_peer_connection
      change (install_peer pc rpcid)
      open_data_channel pc
      add_source_tracks
      change (λ c. if c.initiator then negotiation_needed c else c)
      return pc

  -- `destroy`, for the peer connection `pc`.
  unfoldable pub destroy : ℕ → P2pRecord → P2pRecord
  destroy pc c =
      if w.channel_closed
      then c
      else elim c.pc [ none ↦ reset c | some current ↦ if current == pc then reset c else c ]
