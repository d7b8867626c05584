-- ===== src/Sfu/Connection/Peer.antt =====
-- connectionrecord.go: createPeerConnection, the handlers that it installs on a peer connection,
-- and setupDataChannel. The watcher that closes a peer connection which does not get connected in
-- time, and the handler of ICE candidates, are in Ice; the handler of tracks is in Incoming.
use kwmbridge.Base.{
  ℕ, Bool, true, false, ◌&&◌, none, some, List, [], ◌∷◌, if◌then◌else◌, ◌==◌, Text, is_some,
  is_empty, insert, text_key,
}
use kwmbridge.Sfu.Types.{
  audio, video, Codec, p2p_bind, owner_killed, ok, err, no_media, peer_failed, data_channel_failed,
  Outside,
}
use kwmbridge.Sfu.Connection.{
  Connection, M, after, ◌>>=◌, ◌>>◌, change, answer_or, emit, reset, negotiation_needed,
}

-- `rtpPayloadTypes[codec.Name] = codec.PayloadType`, for each codec.
unfoldable pub note_payload_types : List Codec → List (Text × ℕ) → List (Text × ℕ)
note_payload_types [] types = types
note_payload_types (codec ∷ rest) types =
    note_payload_types rest (insert codec.name codec.payload_type types)

-- setupDataChannel, up to the handlers of the data channel.
abbrev pub setup_data_channel : ℕ → Connection → Connection
setup_data_channel data_channel c = emit (p2p_bind data_channel ∷ []) c

module _ (w : Outside) where
  -- The start of createPeerConnection: the record has a webrtc API afterwards.
  unfoldable pub ensure_api : M (Unit {0})
  ensure_api c =
      if c.webrtc_api
      then (ok tt, c)
      else if c.initiator
      then (
        ok tt,
        record c {
          rtp_payload_types =
              note_payload_types (w.codecs_by_kind w.new_media audio)
                (note_payload_types (w.codecs_by_kind w.new_media video) c.rtp_payload_types);
          webrtc_media = some w.new_media;
          webrtc_api = true;
        },
      )
      else if is_some c.webrtc_media
      then (ok tt, record c { webrtc_api = true })
      else (err no_media, c)

  abbrev install_peer : ℕ → Text → Connection → Connection
  install_peer pc rpcid c = record c {
    pcid = if is_empty c.pcid then w.peer_id pc else c.pcid;
    pc = some pc;
    rpcid = rpcid;
    is_negotiating = false;
  }

  abbrev open_data_channel : ℕ → M (Unit {0})
  open_data_channel pc c = elim (w.create_data_channel pc) [
    | none ↦ (err data_channel_failed, c)
    | some data_channel ↦ (ok tt, setup_data_channel data_channel c)
  ]

  unfoldable pub create_peer_connection : Text → M ℕ
  create_peer_connection rpcid = do
    ensure_api
    pc ← answer_or peer_failed w.new_peer_connection
    change (install_peer pc rpcid)
    λ c.
        if c.initiator
        then after (open_data_channel pc c) (λ _ c'. (ok pc, negotiation_needed c'))
        else (ok pc, c)

  -- `destroy`, for the peer connection `pc`: `is_default` says whether the record is the owner's
  -- default publisher, `listed` whether the channel still lists the owner.
  unfoldable pub destroy : Bool → Bool → ℕ → Connection → Connection
  destroy is_default listed pc c =
      let killed = c.pipeline && is_default && listed in
      let c' = reset w.ws_done (emit (if killed then owner_killed ∷ [] else []) c) in
      if w.channel_closed
      then c
      else elim c.pc [ none ↦ c' | some current ↦ if current == pc then c' else c ]

  -- The handler of OnDataChannel, of the peer connection `pc`.
  unfoldable pub on_data_channel : ℕ → ℕ → Connection → Connection
  on_data_channel pc data_channel c = if w.channel_closed then c else elim c.pc [
    | none ↦ c
    | some current ↦ if current == pc then setup_data_channel data_channel c else c
  ]

  -- The handler of the data channel's OnClose.
  unfoldable pub on_data_channel_close : ℕ → Connection → Connection
  on_data_channel_close pc c = elim c.pc [
    | none ↦ c
    | some current ↦ if current == pc then reset w.ws_done c else c
  ]
