-- ===== src/Sfu/Connection/Signal.antt =====
-- channel.go: handleWebRTCSignalMessage, from where it has locked the connection record of a
-- message. The handler keeps the peer connection that it found in the variable `pc`. It lets go of
-- the lock four times; in Handler, `others` says what the record is changed to while it does, by the number of
-- the time, and the handler gives up where the record's peer connection is not `pc` any more.
use kwmbridge.Base.{
  ℕ, Bool, true, false, not, ◌&&◌, ◌||◌, Option, none, some, List, [], ◌∷◌, if◌then◌else◌, ◌==◌,
  Text, text_eq, is_empty, is_some, erase, ℕ_key,
}
use kwmbridge.Sfu.Types.{Kind, TrackRecord, receiver_added, Outcome, ok, err, Failure, Outside}
use kwmbridge.Sfu.Connection.{Connection, emit, reset, clear_peer_connection, negotiation_needed}
use kwmbridge.Sfu.Connection.Negotiation.{maybe_negotiate}
use kwmbridge.Sfu.Connection.Tracks.{add_track}
use kwmbridge.Sfu.Connection.Peer.{note_payload_types, create_peer_connection}

pub data SdpType : Type 0 where
  type_offer type_pranswer type_answer type_rollback : SdpType

-- An `RTMDataWebRTCSignal`, with its raw messages.
pub record Signal : Type 0 where
  pub renegotiate : Bool
  pub noop : Bool
  pub sdp_type : Text
  pub sdp : Text
  pub candidate : Text
  pub transceiver_request : Text

-- What the handler calls outside: encoding/json on raw messages, and the peer connection and the
-- media engine of pion/webrtc, while one message is handled.
pub record Remote : Type 0 where
  pub signal_of : Text → Option Signal
  pub sdp_type_of : Text → Option SdpType
  pub string_of : Text → Option Text
  pub candidate_of : Text → Option Text
  pub request_of : Text → Option Text  -- the kind of a transceiver request
  pub codec_type : Text → Kind
  pub has_remote_description : ℕ → Bool
  pub add_ice_candidate : ℕ → Text → Bool
  pub set_remote_description : ℕ → SdpType → Text → Bool
  pub populate_from_sdp : SdpType → Text → Option ℕ

-- The record, the variable `pc`, and `sendCallAnswer`.
pub record Turn : Type 0 where
  pub conn : Connection
  pub pc : Option ℕ
  pub send_call_answer : Bool

-- A part of the handler goes on, or returns.
pub data Progress : Type 0 where
  next : Progress
  ended : Outcome (Unit {0}) → Progress

abbrev pub outcome_of : Progress → Outcome (Unit {0})
outcome_of next = ok tt
outcome_of (ended o) = o

abbrev pub Stage : Type 0
Stage = Turn → Progress × Turn

abbrev pub then_stage : Progress × Turn → Stage → Progress × Turn
then_stage (next, t) k = k t
then_stage (ended r, t) k = (ended r, t)

abbrev pub same_pc : Option ℕ → Option ℕ → Bool
same_pc none none = true
same_pc none (some _) = false
same_pc (some _) none = false
same_pc (some a) (some b) = a == b

-- `lock`, and the return of the handler where it fails.
abbrev pub lock : Stage
lock t = if same_pc t.conn.pc t.pc then (next, t) else (ended (ok tt), t)

-- The record is a receiver unless it has a pipeline.
abbrev pub queue_receiver : Connection → Connection
queue_receiver c = if c.pipeline then c else emit (receiver_added ∷ []) c

-- The comparison of the message's pcid with the record's.
unfoldable pub bind_remote : Text → Connection → Connection
bind_remote pcid c =
    if text_eq pcid c.rpcid
    then c
    else if is_empty c.rpcid
    then (if is_some c.pc && not (is_empty pcid) then record c { rpcid = pcid } else c)
    else if is_some c.pc
    then clear_peer_connection c
    else c

abbrev pub noop_stage : Signal → Stage
noop_stage s t = if s.noop then (ended (ok tt), t) else (next, t)

module _ (w : Outside) where
  -- A failure behind which the record is reset.
  abbrev pub reset_with : Failure → Stage
  reset_with e t = (ended (err e), record t { conn = reset w.ws_done t.conn })

  -- A new peer connection, which the variable `pc` holds then.
  abbrev pub renew : Text → Turn → Progress × Turn
  renew rpcid t = elim (create_peer_connection w rpcid t.conn).0 [
    | err e ↦ reset_with e (record t { conn = (create_peer_connection w rpcid t.conn).1 })
    | ok pc ↦ (
      next,
      record t { conn = queue_receiver (create_peer_connection w rpcid t.conn).1; pc = some pc },
    )
  ]

  abbrev pub needed : Stage
  needed t = (next, record t { conn = negotiation_needed t.conn })

  -- The part for `signal.Renegotiate`, and the return for `signal.Noop`.
  unfoldable pub renegotiate_stage : Text → Signal → Stage
  renegotiate_stage pcid s t =
      if s.renegotiate
      then (if t.conn.initiator && (not s.noop || not (is_some t.conn.pc))
          then then_stage (if is_some t.conn.pc then (next, t) else renew pcid t) needed
          else (ended (ok tt), t))
      else (next, t)

  -- What becomes of a pending track by the result of addTrack: it is deleted where it was added
  -- or failed.
  unfoldable pub settle : ℕ → Outcome Bool × Connection → Connection
  settle ssrc (err _, c) = record c { pending = erase ssrc c.pending }
  settle ssrc (ok false, c) = c
  settle ssrc (ok true, c) = negotiation_needed (record c { pending = erase ssrc c.pending })

  -- The loop over the pending tracks, in the order of the map.
  unfoldable pub add_pending : List (ℕ × TrackRecord) → Connection → Connection
  unfolding settle
  add_pending [] c = c
  add_pending ((ssrc, r) ∷ rest) c = add_pending rest (settle ssrc (add_track w r c))

  -- The deferred end of the handler.
  abbrev pub finish : Bool → Turn → Connection
  finish pick t = if same_pc t.conn.pc t.pc then maybe_negotiate w pick t.conn else t.conn

  abbrev pub note_codecs : ℕ → Kind → Connection → Connection
  note_codecs media kind c = record c {
    rtp_payload_types = note_payload_types (w.codecs_by_kind media kind) c.rtp_payload_types;
  }
