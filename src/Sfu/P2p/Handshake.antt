-- ===== src/Sfu/P2p/Handshake.antt =====
-- p2controller.go: the replies to handshakes.
use kwmbridge.Base.{
  ℕ, ◌+◌, ◌≤◌, ◌≡◌, refl, sym, subst, inl, inr, true, false, List, [], ◌∷◌, ◌++◌, if◌then◌else◌,
  arith, Text, Bool-cases, Option-cases, lookup, text_key, text_eq, ◌==◌,
}
use kwmbridge.Sfu.P2p.Controller.{
  Stream, Announcement, Sent, handshake_reply, announced, Controller, scan, kept_streams,
  add_stream, add_streams, take_announcements,
}
use kwmbridge.Sfu.P2p.Announcing.{Peers, handle_announce_streams, send_payload}
use kwmbridge.Sfu.P2p.Dispatch.{
  P2pSubtype, p2p_handshake, p2p_announce, p2p_other, P2pMessage, P2pJson, P2pSignal, Around,
  p2p_type, webrtc_type, handle_other, handle_extra, handle_p2p, handle_webrtc, take_data,
  handle_data,
}

-- How many replies to a handshake are in a log.
unfoldable pub replies : List Sent → ℕ
replies [] = 0
replies (handshake_reply _ _ ∷ l) = 1 + replies l
replies (announced _ ∷ l) = replies l

replies-append :
    (l : List Sent) (ts v : ℕ) → replies (l ++ (handshake_reply ts v ∷ [])) ≡ replies l + 1
unfolding replies
replies-append [] ts v = refl
replies-append (handshake_reply _ _ ∷ l) ts v = omega (arith, replies-append l ts v)
replies-append (announced _ ∷ l) ts v = replies-append l ts v

-- At most one handshake was replied to, and none before there was one.
unfoldable pub RepliedOnce : Controller → Type 0
RepliedOnce c = replies c.log ≤ (if c.handshake then 1 else 0)

-- The controller has the log and the handshake of another.
abbrev Same : Controller → Controller → Type 0
Same c c' = (c'.log ≡ c.log) × (c'.handshake ≡ c.handshake)

Same-RepliedOnce : (c c' : Controller) → Same c c' → RepliedOnce c → RepliedOnce c'
unfolding RepliedOnce
Same-RepliedOnce c c' (l, h) once = rw (l, h) once

module _ (x : Around) where
  add_streams-Same :
      (l : List Stream) (c : Controller) → Same c (add_streams x.outside x.send_text l c).1
  unfolding add_streams add_stream
  add_streams-Same [] c = (refl, refl)
  add_streams-Same (s ∷ rest) c =
      ground (arith, add_streams-Same rest (add_stream x.outside x.send_text s c).1)

  take_announcements-Same :
      (l : List Announcement) (c : Controller)
      → Same c (take_announcements x.outside x.send_text l c).1
  unfolding take_announcements
  take_announcements-Same l c =
      let y = scan l (record { noted = []; added = []; streams = c.streams }) in
      let c' = record c { streams = kept_streams y.noted y.streams } in
      ground (arith, add_streams-Same y.added c')

  handle_announce_streams-Same :
      (l : List Announcement) (c : Controller) (peers : Peers)
      → Same c (handle_announce_streams x.outside x.send_text x.data_out x.source_id l (c, peers)).0
  unfolding handle_announce_streams
  handle_announce_streams-Same l c peers =
      elim (Option-cases (take_announcements x.outside x.send_text l c).0) [
        | inl quiet ↦ ground (arith, take_announcements-Same l c)
        | inr (added, told) ↦ ground (arith, take_announcements-Same l c)
      ]

  handle_other-Same :
      (m : P2pMessage) (t : P2pSubtype) (c : Controller) (peers : Peers)
      → m.subtype ≡ t
      → Same c (handle_other x m (c, peers)).1.0
  unfolding handle_other
  handle_other-Same m p2p_handshake c peers is = ground arith
  handle_other-Same m p2p_announce c peers is =
      ground (arith, handle_announce_streams-Same m.streams c peers)
  handle_other-Same m p2p_other c peers is = ground arith

  handle_extra-Same :
      (j : P2pJson) (raw : Text) (c : Controller) (peers : Peers)
      → Same c (handle_extra x j raw (c, peers)).1.0
  unfolding handle_extra
  handle_extra-Same j raw c peers = elim (Option-cases (j.p2p_of raw)) [
    | inl bad ↦ ground arith
    | inr (m, parsed) ↦ ground (arith, handle_other-Same m m.subtype c peers refl)
  ]

  first_handshake-RepliedOnce :
      (j : P2pJson) (m : P2pMessage) (c : Controller) (peers : Peers)
      → m.subtype ≡ p2p_handshake
      → c.handshake ≡ false
      → RepliedOnce c
      → RepliedOnce (handle_p2p x j m (c, peers)).1.0
  unfolding handle_p2p send_payload RepliedOnce
  first_handshake-RepliedOnce j m c peers is new once =
      let c' = record c {
        handshake = true;
        log = c.log ++ (handshake_reply m.ts m.version ∷ []);
      } in
      let more = handle_extra-Same j m.raw c' peers in
      let one = replies-append c.log m.ts m.version in ground (arith, more, one)

  handle_p2p-RepliedOnce :
      (j : P2pJson) (m : P2pMessage) (t : P2pSubtype) (c : Controller) (peers : Peers)
      → m.subtype ≡ t
      → RepliedOnce c
      → RepliedOnce (handle_p2p x j m (c, peers)).1.0
  unfolding handle_p2p
  handle_p2p-RepliedOnce j m p2p_handshake c peers is once = elim (Bool-cases c.handshake) [
    | inl known ↦
        let e : (handle_p2p x j m (c, peers)).1.0 ≡ c = ground arith in
        subst RepliedOnce (sym e) once
    | inr new ↦ first_handshake-RepliedOnce j m c peers is new once
  ]
  handle_p2p-RepliedOnce j m p2p_announce c peers is once =
      let e : handle_p2p x j m (c, peers) ≡ handle_other x m (c, peers) = ground arith in
      subst (λ q. RepliedOnce q.1.0) (sym e)
        (Same-RepliedOnce c (handle_other x m (c, peers)).1.0
          (handle_other-Same m p2p_announce c peers is) once)
  handle_p2p-RepliedOnce j m p2p_other c peers is once =
      let e : handle_p2p x j m (c, peers) ≡ handle_other x m (c, peers) = ground arith in
      subst (λ q. RepliedOnce q.1.0) (sym e)
        (Same-RepliedOnce c (handle_other x m (c, peers)).1.0
          (handle_other-Same m p2p_other c peers is) once)

  handle_webrtc-Same : (m : P2pSignal) (c : Controller) → Same c (handle_webrtc x m c).1
  unfolding handle_webrtc
  handle_webrtc-Same m c = elim (Option-cases (lookup m.source c.callbacks)) [
    | inl free ↦ ground arith
    | inr (r, has) ↦ ground arith
  ]

  take_data-RepliedOnce :
      (j : P2pJson) (type raw : Text) (c : Controller) (peers : Peers)
      → RepliedOnce c
      → RepliedOnce (take_data x j type raw (c, peers)).1.0
  unfolding take_data
  take_data-RepliedOnce j type raw c peers once =
      let c' = (take_data x j type raw (c, peers)).1.0 in
      let kept : c' ≡ c → RepliedOnce c' = λ e. subst RepliedOnce (sym e) once in
      elim (Bool-cases (text_eq type p2p_type)) [
        | inl ours ↦ elim (Option-cases (j.p2p_of raw)) [
          | inl bad ↦ kept (ground arith)
          | inr (m, parsed) ↦
              let e : c' ≡ (handle_p2p x j m (c, peers)).1.0 = ground arith in
              subst RepliedOnce (sym e) (handle_p2p-RepliedOnce j m m.subtype c peers refl once)
        ]
        | inr other ↦ elim (Bool-cases (text_eq type webrtc_type)) [
          | inr none_of_them ↦ kept (ground arith)
          | inl signal ↦ elim (Option-cases (j.webrtc_of raw)) [
            | inl bad ↦ kept (ground arith)
            | inr (m, parsed) ↦
                let e : c' ≡ (handle_webrtc x m c).1 = ground arith in
                subst RepliedOnce (sym e)
                  (Same-RepliedOnce c (handle_webrtc x m c).1 (handle_webrtc-Same m c) once)
          ]
        ]
      ]

  -- A controller that has replied to at most one handshake, and to none before it had one, is so
  -- after whatever comes over a data channel: a second handshake is not replied to.
  pub handle_data-RepliedOnce :
      (j : P2pJson) (channel : ℕ) (raw : Text) (c : Controller) (peers : Peers)
      → RepliedOnce c
      → RepliedOnce (handle_data x j channel raw (c, peers)).1.0
  unfolding handle_data
  handle_data-RepliedOnce j channel raw c peers once =
      let c' = (handle_data x j channel raw (c, peers)).1.0 in
      let kept : c' ≡ c → RepliedOnce c' = λ e. subst RepliedOnce (sym e) once in
      elim (Option-cases c.data_channel) [
        | inl free ↦ kept (ground arith)
        | inr (current, has) ↦ elim (Bool-cases (current == channel)) [
          | inr replaced ↦ kept (ground arith)
          | inl own ↦ elim (Option-cases (j.type_of raw)) [
            | inl bad ↦ kept (ground arith)
            | inr (type, typed) ↦
                let e : c' ≡ (take_data x j type raw (c, peers)).1.0 = ground arith in
                subst RepliedOnce (sym e) (take_data-RepliedOnce j type raw c peers once)
          ]
        ]
      ]
