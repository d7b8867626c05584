-- ===== src/Sfu/Connection/Answers.antt =====
-- channel.go and connectionrecord.go: the answers that a connection sends.
use kwmbridge.Base.{
  ℕ, suc, ◌+◌, ◌≡◌, ◌≢◌, refl, ◌∙◌, inl, inr, Bool, true, false, Option, none, some, List, [], ◌∷◌,
  ◌++◌, arith, if◌then◌else◌, Text, Option-cases, insert, ℕ_key,
}
use kwmbridge.Utils.Sdp.{local_sdp_transform}
use kwmbridge.Sfu.Types.{
  Kind, Direction, Codec, Track, TrackRecord, sendonly, answer, renegotiate, transceiver_request,
  Message, Effect, sent, Outcome, ok, err, Outside,
}
use kwmbridge.Sfu.Connection.{Connection, negotiation_needed}
use kwmbridge.Sfu.Connection.Negotiation.{
  message, send, request_offer, start_negotiation, negotiate, maybe_negotiate,
}
use kwmbridge.Sfu.Connection.Transceivers.{
  flip_init, add_transceiver, request_missing_transceiver, request_each,
  request_missing_transceivers, after_answer, create_answer,
}
use kwmbridge.Sfu.Connection.Tracks.{
  target_codec, attach_track, defer_track, add_bound_track, add_track,
}
use kwmbridge.Sfu.Connection.Signal.{settle, add_pending}

-- Whether an effect is an answer that was sent.
abbrev pub is_answer : Effect → Bool
is_answer (sent m) = elim m.payload [ answer _ ↦ true | _ ↦ false ]
is_answer _ = false

-- How many answers are in a log.
unfoldable pub answers : List Effect → ℕ
answers [] = 0
answers (e ∷ es) = (if is_answer e then 1 else 0) + answers es

pub answers-append : (xs ys : List Effect) → answers (xs ++ ys) ≡ answers xs + answers ys
unfolding answers
answers-append [] ys = omega arith
answers-append (x ∷ xs) ys = omega (arith, answers-append xs ys)

-- No answer is sent, and the record stays on its side of its peer connection.
abbrev pub Quiet : Connection → Connection → Type 0
Quiet c c' = (answers c'.log ≡ answers c.log) × (c'.pc ≡ c.pc) × (c'.initiator ≡ c.initiator)

pub Quiet-trans : (a b c : Connection) → Quiet a b → Quiet b c → Quiet a c
Quiet-trans a b c (l, p, i) (l', p', i') = (l' ∙ l, p' ∙ p, i' ∙ i)

module _ (w : Outside) where
  send-Quiet : (m : Message) (c : Connection) → is_answer (sent m) ≡ false → Quiet c (send w m c).1
  unfolding send answers
  send-Quiet m c h = ground (arith, answers-append c.log (sent m ∷ []))

  add_transceiver-Quiet :
      (k : Kind) (d : Option Direction) (c : Connection)
      → c.initiator ≡ false
      → Quiet c (add_transceiver w k d c).1
  unfolding add_transceiver
  add_transceiver-Quiet k d c h =
      ground (arith, send-Quiet (message w (transceiver_request k (flip_init d)) c) c refl)

  request_missing_transceiver-Quiet :
      (t : Track) (d : Direction) (c : Connection)
      → c.initiator ≡ false
      → Quiet c (request_missing_transceiver w t d c).1
  unfolding request_missing_transceiver
  request_missing_transceiver-Quiet t d c h = ground (
    arith,
    add_transceiver-Quiet t.kind (some d)
        (record c { requested_transceivers = insert t.ssrc tt c.requested_transceivers }),
  )

  request_each-Quiet :
      (l : List (Option Track × Direction)) (c : Connection)
      → c.initiator ≡ false
      → Quiet c (request_each w l c).1
  unfolding request_each
  request_each-Quiet [] c h = (refl, refl, refl)
  request_each-Quiet ((none, d) ∷ l) c h = request_each-Quiet l c h
  request_each-Quiet ((some t, d) ∷ l) c h = ground (
    arith,
    request_missing_transceiver-Quiet t d c h,
    request_each-Quiet l (request_missing_transceiver w t d c).1,
  )

  defer_track-Quiet :
      (r : TrackRecord) (c : Connection) → c.initiator ≡ false → Quiet c (defer_track w r c).1
  unfolding defer_track
  defer_track-Quiet r c h = ground (
    arith,
    request_missing_transceiver-Quiet r.track sendonly
        (record c { pending = insert r.track.ssrc (record r { transceiver = true }) c.pending }),
  )

  attach_track-Quiet :
      (codec : Codec) (t : Track) (c : Connection) → Quiet c (attach_track w codec t c).1
  unfolding attach_track
  attach_track-Quiet codec t c = ground arith

  add_bound_track-Quiet :
      (r : TrackRecord) (c : Connection) → c.initiator ≡ false → Quiet c (add_bound_track w r c).1
  unfolding add_bound_track
  add_bound_track-Quiet r c h = elim (Option-cases (target_codec w r.track c)) [
    | inl none' ↦ ground (arith, defer_track-Quiet r c h)
    | inr (codec, found) ↦
        ground (arith, defer_track-Quiet r c h, attach_track-Quiet codec r.track c)
  ]

  add_track-Quiet :
      (r : TrackRecord) (c : Connection) → c.initiator ≡ false → Quiet c (add_track w r c).1
  unfolding add_track
  add_track-Quiet r c h = ground (
    arith,
    add_bound_track-Quiet r c h,
    add_bound_track-Quiet r (record c { bound = some r.source }) h,
  )

  settle-Quiet : (ssrc : ℕ) (p : Outcome Bool × Connection) → Quiet p.1 (settle w ssrc p)
  unfolding settle negotiation_needed
  settle-Quiet ssrc (err e, c) = (refl, refl, refl)
  settle-Quiet ssrc (ok false, c) = (refl, refl, refl)
  settle-Quiet ssrc (ok true, c) = ground arith

  pub add_pending-Quiet :
      (l : List (ℕ × TrackRecord)) (c : Connection)
      → c.initiator ≡ false
      → Quiet c (add_pending w l c)
  unfolding add_pending
  add_pending-Quiet [] c h = (refl, refl, refl)
  add_pending-Quiet ((ssrc, r) ∷ l) c h =
      let p = add_track w r c in
      let c' = settle w ssrc p in
      let one = Quiet-trans c p.1 c' (add_track-Quiet r c h) (settle-Quiet ssrc p) in
      Quiet-trans c c' (add_pending w l c') one (add_pending-Quiet l c' (one.2 ∙ h))

  request_offer-Quiet : (c : Connection) → Quiet c (request_offer w c).1
  unfolding request_offer
  request_offer-Quiet c =
      let c' = record c { pcid = w.random_string } in
      ground (
        arith,
        send-Quiet (message w (renegotiate false) c) c refl,
        send-Quiet (message w (renegotiate false) c') c' refl,
      )

  negotiate-Quiet : (c : Connection) → c.initiator ≡ false → Quiet c (negotiate w c).1
  unfolding negotiate start_negotiation
  negotiate-Quiet c h = ground (arith, request_offer-Quiet c)

  pub maybe_negotiate-Quiet :
      (pick : Bool) (c : Connection) → c.initiator ≡ false → Quiet c (maybe_negotiate w pick c)
  unfolding maybe_negotiate
  maybe_negotiate-Quiet pick c h =
      ground (arith, negotiate-Quiet (record c { needs_negotiation = false }) h)

  -- What an answer needs of the calls outside.
  abbrev pub CanAnswer : ℕ → Type 0
  CanAnswer pc =
      ((m : Message) → w.send m ≡ true)
      × (w.create_answer pc ≢ none)
      × ((sdp : Text) → w.set_local_description pc sdp ≡ true)

  after_answer-Quiet :
      (initiator pipeline : Bool) (c : Connection)
      → c.initiator ≡ false
      → Quiet c (after_answer w initiator pipeline c).1
        × ((after_answer w initiator pipeline c).0 ≡ ok tt)
  unfolding after_answer request_missing_transceivers
  after_answer-Quiet initiator pipeline c h = elim (Option-cases c.pc) [
    | inl free ↦ ground arith
    | inr (pc, has) ↦ ground (arith, request_each-Quiet (w.transceivers pc) c h)
  ]

  send_answer :
      (m : Message) (c : Connection)
      → w.send m ≡ true
      → is_answer (sent m) ≡ true
      → answers (send w m c).1.log ≡ suc (answers c.log)
        × ((send w m c).1.pc ≡ c.pc)
        × ((send w m c).1.initiator ≡ c.initiator)
  unfolding send answers
  send_answer m c h k = ground (arith, answers-append c.log (sent m ∷ []))

  pub create_answer_once :
      (pc : ℕ) (c : Connection)
      → CanAnswer pc
      → c.pc ≡ some pc
      → c.initiator ≡ false
      → ((create_answer w c).0 ≡ ok tt)
        × (answers (create_answer w c).1.log ≡ suc (answers c.log))
        × ((create_answer w c).1.pc ≡ c.pc)
        × ((create_answer w c).1.initiator ≡ c.initiator)
  unfolding create_answer
  create_answer_once pc c (sends, makes, sets) has asks = elim (Option-cases (w.create_answer pc)) [
    | inl lost ↦ absurd (makes lost)
    | inr (sdp, made) ↦
        let m = message w (answer (local_sdp_transform sdp)) c in
        let c' = (send w m c).1 in
        let one = send_answer m c (sends m) refl in
        let rest = after_answer-Quiet c.initiator c.pipeline c' (one.2 ∙ asks) in
        let set = sets (local_sdp_transform sdp) in
        let e : create_answer w c ≡ after_answer w c.initiator c.pipeline c' = ground arith in
        rw e (rest.1, rest.0.0 ∙ one.0, rest.0.1 ∙ one.1, rest.0.2 ∙ one.2)
  ]
