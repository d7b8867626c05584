-- ===== src/Sfu/P2p/Dispatch.antt =====
-- rtmcsfu/p2controller.go: what a controller does with what arrives over the data channel. Each
-- failure of a message is only logged by handleData, so its result shows it and nothing more.
use kwmbridge.Base.{
  ℕ, Bool, true, Option, none, some, List, if◌then◌else◌, ◌==◌, Text, codes, text_eq, is_empty,
  lookup, insert, text_key,
}
use kwmbridge.Sfu.Types.{Message, Outside}
use kwmbridge.Sfu.Connection.Signal.{Remote}
use kwmbridge.Sfu.P2p.{P2pRecord}
use kwmbridge.Sfu.P2p.Peer.{Source}
use kwmbridge.Sfu.P2p.Handler.{handle_signal}
use kwmbridge.Sfu.P2p.Controller.{Announcement, Sent, handshake_reply, Controller}
use kwmbridge.Sfu.P2p.Announcing.{Peers, send_payload, handle_announce_streams}

-- The subtypes of messages of the type p2p.
pub data P2pSubtype : Type 0 where
  p2p_handshake p2p_announce p2p_other : P2pSubtype

-- A `kwm.P2PTypeP2P`; `raw` is its data.
pub record P2pMessage : Type 0 where
  pub type : Text
  pub subtype : P2pSubtype
  pub ts : ℕ
  pub version : ℕ
  pub streams : List Announcement
  pub raw : Text

-- An `api.RTMTypeWebRTC`, as the controller reads it.
pub record P2pSignal : Type 0 where
  pub is_signal : Bool  -- whether its subtype is that of signals
  pub source : Text
  pub pcid : Text
  pub raw : Text

-- encoding/json on what arrives over the data channel; the type of a message is its envelope's.
pub record P2pJson : Type 0 where
  pub type_of : Text → Option Text
  pub p2p_of : Text → Option P2pMessage
  pub webrtc_of : Text → Option P2pSignal

-- The failures that handleData logs.
pub data P2pFailure : Type 0 where
  unparsed unknown_type reply_failed bad_handshake no_callback : P2pFailure

abbrev pub p2p_type : Text
p2p_type = codes "p2p"

abbrev pub webrtc_type : Text
webrtc_type = codes "webrtc"

-- What the parts of the handlers find around them; `source_id` is the id of the parent's owner.
pub record Around : Type 0 where
  pub outside : Outside
  pub send_text : ℕ → Message → Bool
  pub data_out : ℕ → Sent → Bool
  pub source_of : ℕ → Source
  pub remote : Remote
  pub others : ℕ → P2pRecord → P2pRecord
  pub pick : Bool
  pub source_id : Text

abbrev pub State : Type 0
State = Controller × Peers

module _ (x : Around) where
  -- handleP2PMessage, where the message is no handshake.
  unfoldable pub handle_other : P2pMessage → State → Option P2pFailure × State
  handle_other m s = elim m.subtype [
    | p2p_announce ↦
        (none, handle_announce_streams x.outside x.send_text x.data_out x.source_id m.streams s)
    | _ ↦ (none, s)
  ]

  -- The data of a handshake: a message of its own, unless it is another handshake.
  unfoldable pub handle_extra : P2pJson → Text → State → Option P2pFailure × State
  unfolding handle_other
  handle_extra j raw s = if is_empty raw then (none, s) else elim (j.p2p_of raw) [
    | none ↦ (some bad_handshake, s)
    | some m ↦ if text_eq m.type p2p_type then handle_other m s else (none, s)
  ]

  -- handleP2PMessage. A second handshake is passed by.
  unfoldable pub handle_p2p : P2pJson → P2pMessage → State → Option P2pFailure × State
  unfolding handle_extra
  handle_p2p j m (c, peers) = elim m.subtype [
    | p2p_handshake ↦
        let (sent, c') =
          send_payload x.data_out (handshake_reply m.ts m.version)
            (record c { handshake = true }) in
        if c.handshake
        then (none, (c, peers))
        else if sent
        then handle_extra j m.raw (c', peers)
        else (some reply_failed, (c', peers))
    | _ ↦ handle_other m (c, peers)
  ]

  -- handleWebRTCMessage; the error of the record's handler is only logged.
  unfoldable pub handle_webrtc : P2pSignal → Controller → Option P2pFailure × Controller
  handle_webrtc m c =
      if m.is_signal
      then (elim (lookup m.source c.callbacks) [
        | none ↦ (some no_callback, c)
        | some r ↦
            let r' =
              (handle_signal x.outside x.send_text x.source_of x.remote x.others x.pick m.pcid m.raw
                r).1 in
            (none, record c { callbacks = insert m.source r' c.callbacks })
      ])
      else (none, c)

  -- handleData behind the parsing of the envelope, for a message of one of the types.
  unfoldable pub take_data : P2pJson → Text → Text → State → Option P2pFailure × State
  unfolding handle_p2p handle_webrtc
  take_data j type raw (c, peers) =
      if text_eq type p2p_type
      then (elim (j.p2p_of raw) [
        | none ↦ (some unparsed, (c, peers))
        | some m ↦ handle_p2p j m (c, peers)
      ])
      else if text_eq type webrtc_type
      then (elim (j.webrtc_of raw) [
        | none ↦ (some unparsed, (c, peers))
        | some m ↦ (let (f, c') = handle_webrtc m c in (f, (c', peers)))
      ])
      else (some unknown_type, (c, peers))

  -- handleData, for what the data channel with the number has received.
  unfoldable pub handle_data : P2pJson → ℕ → Text → State → Option P2pFailure × State
  unfolding take_data
  handle_data j channel raw (c, peers) = elim c.data_channel [
    | none ↦ (none, (c, peers))
    | some current ↦
        if current == channel
        then (elim (j.type_of raw) [
          | none ↦ (some unparsed, (c, peers))
          | some type ↦ take_data j type raw (c, peers)
        ])
        else (none, (c, peers))
  ]
