-- ===== src/Sfu/P2p/Signal.antt =====
-- p2precord.go: handleWebRTCSignalMessage, the comparison of pcids, requests for a negotiation and
-- what the later parts use. As in channel.go, the handler keeps the peer connection that it found in
-- the variable `pc`, and gives up where the record's is not `pc` any more.
use kwmbridge.Base.{
  ℕ, Bool, true, false, not, ◌&&◌, ◌||◌, some, Option, List, [], ◌∷◌, if◌then◌else◌, Text, text_eq,
  is_empty, is_some, erase, ℕ_key,
}
use kwmbridge.Sfu.Types.{Kind, TrackRecord, Message, Outcome, ok, err, Failure, Outside}
use kwmbridge.Sfu.Connection.Signal.{Signal, Progress, next, ended, same_pc}
use kwmbridge.Sfu.Connection.Peer.{note_payload_types}
use kwmbridge.Sfu.P2p.{P2pRecord, reset, clear_peer_connection, negotiation_needed}
use kwmbridge.Sfu.P2p.Negotiation.{maybe_negotiate}
use kwmbridge.Sfu.P2p.Tracks.{add_track}
use kwmbridge.Sfu.P2p.Peer.{Source, create_peer_connection}

-- The record, and the variable `pc`.
pub record Turn : Type 0 where
  pub conn : P2pRecord
  pub pc : Option ℕ

abbrev pub Stage : Type 0
Stage = Turn → Progress × Turn

abbrev pub then_stage : Progress × Turn → Stage → Progress × Turn
then_stage (next, t) k = k t
then_stage (ended r, t) k = (ended r, t)

-- `lock`, and the return of the handler where it fails.
abbrev pub lock : Stage
lock t = if same_pc t.conn.pc t.pc then (next, t) else (ended (ok tt), t)

-- The comparison of the message's pcid with the record's.
unfoldable pub bind_remote : Text → P2pRecord → P2pRecord
bind_remote pcid c =
    if text_eq pcid c.rpcid
    then c
    else if is_empty c.rpcid
    then (if is_some c.pc && not (is_empty pcid) then record c { rpcid = pcid } else c)
    else if is_some c.pc
    then clear_peer_connection c
    else c

abbrev pub noop_stage : Signal → Stage
noop_stage s t = if s.noop then (ended (ok tt), t) else (next, t)

-- What becomes of a pending track by the result of addTrack: it is deleted where it was added
-- or failed.
unfoldable pub settle : ℕ → Outcome Bool × P2pRecord → P2pRecord
settle ssrc (err _, c) = record c { pending = erase ssrc c.pending }
settle ssrc (ok false, c) = c
settle ssrc (ok true, c) = negotiation_needed (record c { pending = erase ssrc c.pending })

module _ (w : Outside) (send_text : ℕ → Message → Bool) (source_of : ℕ → Source) where
  -- A failure behind which the record is reset.
  abbrev pub reset_with : Failure → Stage
  reset_with e t = (ended (err e), record t { conn = reset t.conn })

  -- A new peer connection, which the variable `pc` holds then.
  abbrev pub renew : Text → Turn → Progress × Turn
  renew rpcid t = elim (create_peer_connection w send_text source_of rpcid t.conn).0 [
    | err e ↦
        reset_with e
          (record t { conn = (create_peer_connection w send_text source_of rpcid t.conn).1 })
    | ok pc ↦ (
      next,
      record t {
        conn = (create_peer_connection w send_text source_of rpcid t.conn).1;
        pc = some pc;
      },
    )
  ]

  abbrev pub needed : Stage
  needed t = (next, record t { conn = negotiation_needed t.conn })

  -- The part for `signal.Renegotiate`, and the return for `signal.Noop`.
  unfoldable pub renegotiate_stage : Text → Signal → Stage
  renegotiate_stage pcid s t =
      if s.renegotiate
      then (if t.conn.initiator && (not s.noop || not (is_some t.conn.pc))
          then then_stage (if is_some t.conn.pc then (next, t) else renew pcid t) needed
          else (ended (ok tt), t))
      else (next, t)

  -- The loop over the pending tracks, in the order of the map.
  unfoldable pub add_pending : List (ℕ × TrackRecord) → P2pRecord → P2pRecord
  unfolding settle
  add_pending [] c = c
  add_pending ((ssrc, r) ∷ rest) c = add_pending rest (settle ssrc (add_track w send_text r c))

  -- The deferred end of the handler.
  abbrev pub finish : Bool → Turn → P2pRecord
  finish pick t = if same_pc t.conn.pc t.pc then maybe_negotiate w send_text pick t.conn else t.conn

  abbrev pub note_codecs : ℕ → Kind → P2pRecord → P2pRecord
  note_codecs media kind c = record c {
    rtp_payload_types = note_payload_types (w.codecs_by_kind media kind) c.rtp_payload_types;
  }
