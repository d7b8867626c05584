-- ===== src/Sfu/Channel/Messages.antt =====
-- channel.go: handleWebRTCSignalMessage on the users of the channel, createSender and
-- sendNoopRenegotiate. `fresh` is the number of the user record that is made where the sender of a
-- message is not known; `pick` is the choice of each maybeNegotiateAndUnlock. What the connection
-- record of the message does is in Connection.Handler.
use kwmbridge.Base.{
  ℕ, Bool, true, false, not, ◌||◌, none, some, [], ◌∷◌, ◌++◌, if◌then◌else◌, Text, codes, text_eq,
  is_some, lookup, insert, text_key,
}
use kwmbridge.Sfu.Types.{Message, renegotiate, Outcome, ok, Outside, webrtc_payload_version}
use kwmbridge.Sfu.Connection.{Connection, new_connection, negotiation_needed}
use kwmbridge.Sfu.Connection.Negotiation.{maybe_negotiate}
use kwmbridge.Sfu.Connection.Peer.{create_peer_connection}
use kwmbridge.Sfu.Connection.Signal.{Remote, queue_receiver}
use kwmbridge.Sfu.Connection.Handler.{handle_signal}
use kwmbridge.Sfu.Users.{UserRecord, Channel, new_user_record}

-- An incoming `api.RTMTypeWebRTC` with the subtype signal; `raw` is its data.
pub record Incoming : Type 0 where
  pub channel : Text
  pub target : Text
  pub source : Text
  pub hash : Text
  pub state : Text
  pub pcid : Text
  pub raw : Text

-- The results of the handler: its errors, or what the connection record's part returns.
pub data Reply : Type 0 where
  refused_closed refused_channel refused_source : Reply
  handled : Outcome (Unit {0}) → Reply

abbrev pub default_publisher : Text
default_publisher = codes "default"

abbrev pub put_user : Text → UserRecord → Channel → Channel
put_user name u ch = record ch { connections = insert name u ch.connections }

abbrev pub put_sender : Connection → UserRecord → UserRecord
put_sender c u = record u { publishers = insert default_publisher c u.publishers }

abbrev pub put_connection : Text → Connection → UserRecord → UserRecord
put_connection target c u = record u { connections = insert target c u.connections }

abbrev noop_renegotiate : Incoming → Message
noop_renegotiate m = record {
  version = webrtc_payload_version;
  channel = m.channel;
  target = m.target;
  source = m.source;
  group = m.state;
  hash = m.hash;
  state = m.state;
  pcid = [];
  payload = renegotiate true;
}

module _ (w : Outside) (pick : Bool) where
  unfoldable pub create_sender : Text → UserRecord → Connection
  create_sender pipeline u =
      let c = new_connection w.ws_done u.number u.id pipeline pipeline true in
      maybe_negotiate w pick (if w.channel_closed then c else negotiation_needed c)

  -- The user record that Upsert makes, with its default sender.
  unfoldable pub user_with_sender : Text → UserRecord → UserRecord
  unfolding create_sender
  user_with_sender pipeline u = record u {
    publishers = insert default_publisher (create_sender pipeline u) u.publishers;
  }

  -- The user record of a message's source.
  unfoldable pub source_user : ℕ → Text → Channel → UserRecord
  unfolding user_with_sender new_user_record
  source_user fresh source ch = elim (lookup source ch.connections) [
    | some u ↦ u
    | none ↦ user_with_sender ch.pipeline (new_user_record fresh source)
  ]

  -- The connection record of a message to the pipeline, and the user with what it becomes.
  unfoldable pub sender_of : Text → UserRecord → Connection
  unfolding create_sender
  sender_of pipeline u = elim (lookup default_publisher u.publishers) [
    | some c ↦ c
    | none ↦ create_sender pipeline u
  ]

  -- The connection record of a message to another user.
  unfoldable pub connection_to : Text → Text → UserRecord → Connection
  connection_to target state u = elim (lookup target u.connections) [
    | some c ↦ c
    | none ↦ new_connection w.ws_done u.number u.id target state false
  ]

  -- sendNoopRenegotiate, whose error is only logged.
  unfoldable pub send_noop_renegotiate : Incoming → Channel → Channel
  send_noop_renegotiate m ch =
      if w.send (noop_renegotiate m)
      then record ch { sent = ch.sent ++ (noop_renegotiate m ∷ []) }
      else ch

  -- The connection of the other side, where it has no peer connection.
  unfoldable pub resurrect : Connection → Connection
  resurrect c =
      let made = (create_peer_connection w [] (record c { pcid = [] })).1 in
      maybe_negotiate w pick (
        if w.channel_closed || is_some c.pc
        then c
        else if c.initiator
        then queue_receiver made
        else negotiation_needed c)

  -- The deferred part for `sendCallAnswer`.
  unfoldable pub call_answer : Incoming → Channel → Channel
  unfolding resurrect
  call_answer m ch = elim (lookup m.target ch.connections) [
    | none ↦ send_noop_renegotiate m ch
    | some target ↦ if target.closed then ch else elim (lookup m.source target.connections) [
      | none ↦ ch
      | some c ↦ put_user m.target (put_connection m.source (resurrect c) target) ch
    ]
  ]

  module _ (r : Remote) (others : ℕ → Connection → Connection) where
    -- A message to the pipeline, from a user that is not closed.
    unfoldable pub to_pipeline : Incoming → UserRecord → Channel → Reply × Channel
    to_pipeline m u ch =
        let c = sender_of ch.pipeline u in
        let p = handle_signal w r others pick m.pcid m.raw c in
        if w.channel_closed
        then (handled (ok tt), put_user m.source (put_sender c u) ch)
        else (handled p.0.0, put_user m.source (put_sender p.1 u) ch)

    -- A message to another user, from a user that is not closed.
    unfoldable pub to_user : Incoming → UserRecord → Channel → Reply × Channel
    to_user m u ch =
        let c = connection_to m.target m.state u in
        let p = handle_signal w r others pick m.pcid m.raw c in
        let ch' = put_user m.source (put_connection m.target p.1 u) ch in
        if w.channel_closed
        then (handled (ok tt), put_user m.source (put_connection m.target c u) ch)
        else (handled p.0.0, if p.0.1 then call_answer m ch' else ch')

    -- handleWebRTCSignalMessage.
    unfoldable pub handle_message : ℕ → Incoming → Channel → Reply × Channel
    handle_message fresh m ch =
        let u = source_user fresh m.source ch in
        let ch' = put_user m.source u ch in
        if ch.closed
        then (refused_closed, ch)
        else if not (text_eq m.channel ch.channel)
        then (refused_channel, ch)
        else if u.closed
        then (refused_source, ch')
        else if text_eq m.target ch.pipeline
        then to_pipeline m u ch'
        else to_user m u ch'
