-- ===== src/Sfu/Connection/Matched.antt =====
-- The tracks of a connection and their senders, over addTrack and removeTrack.
use kwmbridge.Base.{
  ℕ, ◌≡◌, refl, sym, subst, inl, inr, Bool, true, false, ◌||◌, none, some, arith, ◌==◌, ==_iff,
  Bool-cases, Option-cases, is_some, lookup, insert, lookup-insert, lookup-erase, ℕ_key,
}
use kwmbridge.Sfu.Types.{
  Track, TrackRecord, Direction, Codec, sendonly, Outcome, err, track_mismatch, no_media, Outside,
}
use kwmbridge.Sfu.Connection.{Connection}
use kwmbridge.Sfu.Connection.Negotiation.{send}
use kwmbridge.Sfu.Connection.Transceivers.{add_transceiver, request_missing_transceiver}
use kwmbridge.Sfu.Connection.Tracks.{
  target_codec, local_track, attach_track, defer_track, add_bound_track, add_track,
  remove_bound_track, remove_track,
}

-- The record has a sender for exactly the SSRCs that it has a track of.
unfoldable pub IsMatched : Connection → Type 0
IsMatched c = (ssrc : ℕ) → is_some (lookup ssrc c.senders) ≡ is_some (lookup ssrc c.tracks)

module _ (w : Outside) where
  -- The tracks that a record has stay.
  abbrev Keeps : Connection → Connection → Type 0
  Keeps c c' =
      (ssrc : ℕ) (t : Track) → lookup ssrc c.tracks ≡ some t → lookup ssrc c'.tracks ≡ some t

  attach_track-Keeps :
      (codec : Codec) (t : Track) (c : Connection) → Keeps c (attach_track w codec t c).1
  unfolding attach_track
  attach_track-Keeps codec t c k u h =
      ground (arith, ==_iff t.ssrc k, lookup-insert t.ssrc k (local_track codec t) c.tracks)

  attach_track-IsMatched :
      (codec : Codec) (t : Track) (c : Connection)
      → IsMatched c
      → IsMatched (attach_track w codec t c).1
  unfolding IsMatched attach_track
  attach_track-IsMatched codec t c h k = elim (Option-cases c.pc) [
    | inl free ↦ ground (arith, h k)
    | inr (pc, has) ↦ elim (Option-cases (w.add_track pc (local_track codec t))) [
      | inl refused ↦ ground (arith, h k)
      | inr (sender, added) ↦ ground (
        arith,
        h k,
        ==_iff t.ssrc k,
        lookup-insert t.ssrc k (local_track codec t) c.tracks,
        lookup-insert t.ssrc k sender c.senders,
      )
    ]
  ]

  remove_bound_track-IsMatched :
      (t : Track) (c : Connection) → IsMatched c → IsMatched (remove_bound_track w t c).1
  unfolding IsMatched remove_bound_track
  remove_bound_track-IsMatched t c h k =
      ground (
        arith,
        h k,
        ==_iff t.ssrc k,
        lookup-erase t.ssrc k c.tracks,
        lookup-erase t.ssrc k c.senders,
      )

  -- Where a record that has a sender for exactly its tracks is bound to the source of a track, the
  -- track that removeTrack is given has no sender afterwards, is not one of the record's tracks and
  -- is not pending.
  pub remove_track_lem :
      (r : TrackRecord) (c : Connection)
      → IsMatched c
      → c.bound ≡ some r.source
      → let c' = (remove_track w r c).1 in
        (lookup r.track.ssrc c'.pending ≡ none)
        × (lookup r.track.ssrc c'.senders ≡ none)
        × (lookup r.track.ssrc c'.tracks ≡ none)
  unfolding remove_track remove_bound_track IsMatched
  remove_track_lem r c h bound =
      let ssrc = r.track.ssrc in
      ground (
        arith,
        h ssrc,
        ==_iff r.source r.source,
        ==_iff ssrc ssrc,
        lookup-erase ssrc ssrc c.pending,
        lookup-erase ssrc ssrc c.senders,
        lookup-erase ssrc ssrc c.tracks,
      )

  -- Two records with the same tracks and senders.
  abbrev Same : Connection → Connection → Type 0
  Same c c' = (c'.tracks ≡ c.tracks) × (c'.senders ≡ c.senders)

  request_missing_transceiver-Same :
      (t : Track) (d : Direction) (c : Connection)
      → c.initiator ≡ false
      → Same c (request_missing_transceiver w t d c).1
  unfolding request_missing_transceiver add_transceiver send
  request_missing_transceiver-Same t d c h = ground arith

  defer_track-Same : (r : TrackRecord) (c : Connection) → Same c (defer_track w r c).1
  unfolding defer_track
  defer_track-Same r c = ground (
    arith,
    request_missing_transceiver-Same r.track sendonly
        (record c { pending = insert r.track.ssrc (record r { transceiver = true }) c.pending }),
  )

  -- The tracks that a record has stay as they are, and each has its sender.
  abbrev Grows : Connection → Connection → Type 0
  Grows c c' = Keeps c c' × IsMatched c'

  Same-Grows : (c c' : Connection) → Same c c' → IsMatched c → Grows c c'
  unfolding IsMatched
  Same-Grows c c' (tracks, senders) h = (λ k t has. rw tracks has, λ k. rw (tracks, senders) (h k))

  -- A step whose result is another's grows the record as that one does.
  by_result : {x y : Outcome Bool × Connection} (c : Connection) → x ≡ y → Grows c y.1 → Grows c x.1
  by_result c e h = subst (λ p. Grows c p.1) (sym e) h

  add_bound_track-Grows :
      (r : TrackRecord) (c : Connection) → IsMatched c → Grows c (add_bound_track w r c).1
  unfolding add_bound_track
  add_bound_track-Grows r c h =
      let deferred = Same-Grows c (defer_track w r c).1 (defer_track-Same r c) h in
      elim (Option-cases (target_codec w r.track c)) [
        | inl none' ↦
            let e : add_bound_track w r c ≡ defer_track w r c = ground arith in
            by_result c e deferred
        | inr (codec, found) ↦ elim (Bool-cases (c.initiator || r.transceiver)) [
          | inl now ↦
              let e : add_bound_track w r c ≡ attach_track w codec r.track c = ground arith in
              by_result c e
                (attach_track-Keeps codec r.track c, attach_track-IsMatched codec r.track c h)
          | inr later ↦
              let e : add_bound_track w r c ≡ defer_track w r c = ground arith in
              by_result c e deferred
        ]
      ]

  add_track-Grows : (r : TrackRecord) (c : Connection) → IsMatched c → Grows c (add_track w r c).1
  unfolding add_track IsMatched
  add_track-Grows r c h =
      let b = record c { bound = some r.source } in
      let same = Same-Grows c c (refl, refl) h in
      elim (Bool-cases (is_some c.webrtc_media)) [
        | inl media ↦ elim (Option-cases c.bound) [
          | inl free ↦
              let e : add_track w r c ≡ add_bound_track w r b = ground arith in
              by_result c e (add_bound_track-Grows r b h)
          | inr (source, has) ↦ elim (Bool-cases (source == r.source)) [
            | inl own ↦
                let e : add_track w r c ≡ add_bound_track w r c = ground arith in
                by_result c e (add_bound_track-Grows r c h)
            | inr other ↦
                let e : add_track w r c ≡ (err track_mismatch, c) = ground arith in
                by_result c e same
          ]
        ]
        | inr lost ↦ elim (Option-cases c.bound) [
          | inl free ↦
              let e : add_track w r c ≡ (err no_media, b) = ground arith in by_result c e same
          | inr (source, has) ↦
              let e : (add_track w r c).1 ≡ c = ground arith in subst (Grows c) (sym e) same
        ]
      ]

  -- Adding a track to a record that has a sender for exactly its tracks never replaces a track that
  -- the record has.
  pub add_track_keeps :
      (r : TrackRecord) (c : Connection) (ssrc : ℕ) (t : Track)
      → IsMatched c
      → lookup ssrc c.tracks ≡ some t
      → lookup ssrc (add_track w r c).1.tracks ≡ some t
  add_track_keeps r c ssrc t h has = (add_track-Grows r c h).0 ssrc t has

  -- Adding a track to a record that has a sender for exactly its tracks keeps that so, with
  -- whatever result.
  pub add_track-IsMatched :
      (r : TrackRecord) (c : Connection) → IsMatched c → IsMatched (add_track w r c).1
  add_track-IsMatched r c h = (add_track-Grows r c h).1
