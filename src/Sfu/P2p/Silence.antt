-- ===== src/Sfu/P2p/Silence.antt =====
-- p2precord.go: the methods of a record without a data channel, and what they send.
use kwmbridge.Base.{
  ℕ, ◌+◌, ◌≡◌, refl, sym, subst, inl, inr, Bool, true, false, Option, none, some, List, [], ◌∷◌,
  ◌++◌, arith, Text, Option-cases, insert, ℕ_key,
}
use kwmbridge.Sfu.Types.{
  Kind, Direction, sendonly, Codec, Track, TrackRecord, Message, Effect, sent, closed, rtcp_end,
  Outside,
}
use kwmbridge.Sfu.Connection.{close_rtcp}
use kwmbridge.Sfu.P2p.{
  P2pRecord, send, close_peer, reset, clear_peer_connection, negotiation_needed,
}
use kwmbridge.Sfu.P2p.Negotiation.{
  create_offer, request_offer, start_negotiation, negotiate, maybe_negotiate,
}
use kwmbridge.Sfu.P2p.Transceivers.{
  add_own_transceiver, add_transceiver, request_missing_transceiver, request_each,
  request_missing_transceivers, create_answer,
}
use kwmbridge.Sfu.P2p.Tracks.{target_codec, attach_track, defer_track, add_track}
use kwmbridge.Sfu.P2p.Peer.{
  Source, ensure_api, add_each, source_track, add_source_tracks, install_peer,
  create_peer_connection,
}

-- How many messages are in a log.
unfoldable pub messages : List Effect → ℕ
messages [] = 0
messages (sent _ ∷ l) = 1 + messages l
messages (_ ∷ l) = messages l

-- Nothing was sent since the log was `l`, and there is no data channel.
abbrev pub Silent : List Effect → P2pRecord → Type 0
Silent l c = (messages c.log ≡ messages l) × (c.data_channel ≡ none)

messages-append : (l l' : List Effect) → messages (l ++ l') ≡ messages l + messages l'
unfolding messages
messages-append [] l' = omega arith
messages-append (e ∷ l) l' = ground (arith, messages-append l l')

closing_is_silent : (pc rtcp : Option ℕ) → messages (close_peer pc ++ close_rtcp rtcp) ≡ 0
unfolding messages
closing_is_silent none none = refl
closing_is_silent none (some _) = refl
closing_is_silent (some _) none = refl
closing_is_silent (some _) (some _) = refl

pub reset-Silent : (c : P2pRecord) → Silent c.log (reset c)
unfolding reset
reset-Silent c = ground (
  arith,
  messages-append c.log (close_peer c.pc ++ close_rtcp c.rtcp_ch),
  closing_is_silent c.pc c.rtcp_ch,
)

pub clear_peer_connection-Silent :
    (c : P2pRecord) → c.data_channel ≡ none → Silent c.log (clear_peer_connection c)
unfolding clear_peer_connection messages
clear_peer_connection-Silent c h = elim (Option-cases c.pc) [
  | inl free ↦ ground arith
  | inr (pc, has) ↦ elim (Option-cases c.rtcp_ch) [
    | inl quiet ↦ ground (arith, messages-append c.log (closed pc ∷ []))
    | inr (ch, heard) ↦ ground (arith, messages-append c.log (closed pc ∷ rtcp_end ch ∷ []))
  ]
]

module _ (w : Outside) (send_text : ℕ → Message → Bool) where
  send-Silent :
      (m : Message) (c : P2pRecord) → c.data_channel ≡ none → Silent c.log (send send_text m c).1
  unfolding send
  send-Silent m c h = ground arith

  start_negotiation-Silent :
      (noop : Bool) (c : P2pRecord)
      → c.data_channel ≡ none
      → Silent c.log (start_negotiation w send_text noop c).1
  unfolding start_negotiation create_offer request_offer send
  start_negotiation-Silent noop c h = ground arith

  pub maybe_negotiate-Silent :
      (pick : Bool) (c : P2pRecord)
      → c.data_channel ≡ none
      → Silent c.log (maybe_negotiate w send_text pick c)
  unfolding maybe_negotiate negotiate
  maybe_negotiate-Silent pick c h =
      ground (arith, start_negotiation-Silent false (record c { needs_negotiation = false }))

  pub add_transceiver-Silent :
      (kind : Kind) (init : Option Direction) (c : P2pRecord)
      → c.data_channel ≡ none
      → Silent c.log (add_transceiver w send_text kind init c).1
  unfolding add_transceiver add_own_transceiver negotiation_needed send
  add_transceiver-Silent kind init c h = ground (arith, reset-Silent c)

  request_missing_transceiver-Silent :
      (t : Track) (d : Direction) (c : P2pRecord)
      → c.data_channel ≡ none
      → Silent c.log (request_missing_transceiver w send_text t d c).1
  unfolding request_missing_transceiver
  request_missing_transceiver-Silent t d c h =
      let c' = record c { requested_transceivers = insert t.ssrc tt c.requested_transceivers } in
      ground (arith, add_transceiver-Silent t.kind (some d) c' h)

  request_each-Silent :
      (l : List (Option Track × Direction)) (c : P2pRecord)
      → c.data_channel ≡ none
      → Silent c.log (request_each w send_text l c).1
  unfolding request_each
  request_each-Silent [] c h = (refl, h)
  request_each-Silent ((none, d) ∷ rest) c h = request_each-Silent rest c h
  request_each-Silent ((some t, d) ∷ rest) c h =
      let p = request_missing_transceiver w send_text t d c in
      let (same, mute) = request_missing_transceiver-Silent t d c h in
      ground (arith, same, mute, request_each-Silent rest p.1 mute)

  pub create_answer-Silent :
      (c : P2pRecord) → c.data_channel ≡ none → Silent c.log (create_answer w send_text c).1
  unfolding create_answer request_missing_transceivers send
  create_answer-Silent c h = elim (Option-cases c.pc) [
    | inl free ↦ ground arith
    | inr (pc, has) ↦ ground (arith, request_each-Silent (w.transceivers pc) c h)
  ]

  attach_track-Silent :
      (codec : Codec) (t : Track) (c : P2pRecord)
      → c.data_channel ≡ none
      → Silent c.log (attach_track w send_text codec t c).1
  unfolding attach_track
  attach_track-Silent codec t c h = ground arith

  defer_track-Silent :
      (r : TrackRecord) (c : P2pRecord)
      → c.data_channel ≡ none
      → Silent c.log (defer_track w send_text r c).1
  unfolding defer_track
  defer_track-Silent r c h =
      let marked = insert r.track.ssrc (record r { transceiver = true }) c.pending in
      ground (
        arith,
        request_missing_transceiver-Silent r.track sendonly (record c { pending = marked }) h,
      )

  pub add_track-Silent :
      (r : TrackRecord) (c : P2pRecord)
      → c.data_channel ≡ none
      → Silent c.log (add_track w send_text r c).1
  unfolding add_track
  add_track-Silent r c h = elim (Option-cases (target_codec w send_text r.track c)) [
    | inl free ↦ ground (arith, defer_track-Silent r c h)
    | inr (codec, found) ↦
        ground (arith, defer_track-Silent r c h, attach_track-Silent codec r.track c h)
  ]

  ensure_api-Silent :
      (c : P2pRecord) → c.data_channel ≡ none → Silent c.log (ensure_api w send_text c).1
  unfolding ensure_api
  ensure_api-Silent c h = ground arith

  add_each-Silent :
      (source : Source) (l : List (ℕ × Track)) (c : P2pRecord)
      → c.data_channel ≡ none
      → Silent c.log (add_each w send_text source l c).1
  unfolding add_each
  add_each-Silent source [] c h = (refl, h)
  add_each-Silent source ((id, t) ∷ rest) c h =
      let r = source_track w send_text source c.owner t in
      let p = add_track w send_text r c in
      let (same, mute) = add_track-Silent r c h in
      ground (arith, same, mute, add_each-Silent source rest p.1 mute)

  module _ (source_of : ℕ → Source) where
    add_source_tracks-Silent :
        (c : P2pRecord)
        → c.data_channel ≡ none
        → Silent c.log (add_source_tracks w send_text source_of c).1
    unfolding add_source_tracks
    add_source_tracks-Silent c h = elim (Option-cases c.source) [
      | inl free ↦ ground arith
      | inr (n, has) ↦
          let e : add_source_tracks w send_text source_of c
              ≡ add_each w send_text (source_of n) (source_of n).tracks c =
            ground arith in
          subst (λ p. Silent c.log p.1) (sym e)
            (add_each-Silent (source_of n) (source_of n).tracks c h)
    ]

    pub create_peer_connection-Silent :
        (rpcid : Text) (c : P2pRecord)
        → c.data_channel ≡ none
        → Silent c.log (create_peer_connection w send_text source_of rpcid c).1
    unfolding create_peer_connection negotiation_needed
    create_peer_connection-Silent rpcid c h =
        let a = ensure_api w send_text c in
        let (same, mute) = ensure_api-Silent c h in
        elim (Option-cases w.new_peer_connection) [
          | inl refused ↦ ground (arith, same, mute)
          | inr (pc, made) ↦
              let c' = install_peer w send_text pc rpcid a.1 in
              ground (arith, same, mute, add_source_tracks-Silent c' mute)
        ]
