-- ===== src/Sfu/Channel/Adding.antt =====
-- connectionrecord.go: the tracks of a connection, and those that wait, over addTrack.
use kwmbridge.Base.{
  ℕ, ◌≡◌, sym, subst, inl, inr, Bool, true, false, ◌||◌, some, arith, ◌==◌, ==_iff, Bool-cases,
  Option-cases, is_some, insert, lookup-insert, ℕ_key, text_key,
}
use kwmbridge.Sfu.Types.{
  Track, TrackRecord, Direction, Codec, sendonly, Outcome, ok, err, Failure, track_mismatch,
  no_media, Outside,
}
use kwmbridge.Sfu.Connection.{Connection}
use kwmbridge.Sfu.Connection.Negotiation.{send}
use kwmbridge.Sfu.Connection.Transceivers.{add_transceiver, request_missing_transceiver}
use kwmbridge.Sfu.Connection.Tracks.{
  target_codec, local_track, attach_track, defer_track, add_bound_track, add_track,
}
use kwmbridge.Sfu.Channel.Removal.{SameTracks}
use kwmbridge.Sfu.Channel.Workers.{has_track}

-- A step behind which a connection has every track that it had, and the one of the SSRC where the
-- step does not fail.
abbrev pub Adds : ℕ → Connection → Outcome Bool × Connection → Type 0
Adds ssrc c p =
    ((k : ℕ) → has_track k c ≡ true → has_track k p.1 ≡ true)
    × ((b : Bool) → p.0 ≡ ok b → has_track ssrc p.1 ≡ true)

Adds-from :
    {x y : Outcome Bool × Connection} (ssrc : ℕ) (c : Connection)
    → x ≡ y
    → Adds ssrc c y
    → Adds ssrc c x
Adds-from ssrc c e h = subst (Adds ssrc c) (sym e) h

-- A failure that leaves the tracks as they are.
Adds-failed :
    (p : Outcome Bool × Connection) (ssrc : ℕ) (c : Connection) (e : Failure)
    → p.0 ≡ err e
    → SameTracks c p.1
    → Adds ssrc c p
Adds-failed p ssrc c e failed same = (λ k h. ground (arith, same), λ b done. ground arith)

module _ (w : Outside) where
  attach_track-Adds :
      (codec : Codec) (t : Track) (c : Connection) → Adds t.ssrc c (attach_track w codec t c)
  unfolding attach_track
  attach_track-Adds codec t c = (
    λ k h. ground (arith, ==_iff t.ssrc k, lookup-insert t.ssrc k (local_track codec t) c.tracks),
    λ b e.
        ground
          (arith, ==_iff t.ssrc t.ssrc, lookup-insert t.ssrc t.ssrc (local_track codec t) c.tracks),
  )

  request_missing_transceiver-SameTracks :
      (t : Track) (d : Direction) (c : Connection)
      → c.initiator ≡ false
      → SameTracks c (request_missing_transceiver w t d c).1
  unfolding request_missing_transceiver add_transceiver send
  request_missing_transceiver-SameTracks t d c h = ground arith

  defer_track-Adds : (r : TrackRecord) (c : Connection) → Adds r.track.ssrc c (defer_track w r c)
  unfolding defer_track
  defer_track-Adds r c =
      let ssrc = r.track.ssrc in
      let marked = record r { transceiver = true } in
      let c' = record c { pending = insert ssrc marked c.pending } in
      let same = request_missing_transceiver-SameTracks r.track sendonly c' in
      (
        λ k h. ground (arith, same, ==_iff ssrc k, lookup-insert ssrc k marked c.pending),
        λ b e. ground (arith, same, ==_iff ssrc ssrc, lookup-insert ssrc ssrc marked c.pending),
      )

  add_bound_track-Adds :
      (r : TrackRecord) (c : Connection) → Adds r.track.ssrc c (add_bound_track w r c)
  unfolding add_bound_track
  add_bound_track-Adds r c =
      let ssrc = r.track.ssrc in
      let deferred = defer_track-Adds r c in
      elim (Option-cases (target_codec w r.track c)) [
        | inl free ↦
            let e : add_bound_track w r c ≡ defer_track w r c = ground arith in
            Adds-from ssrc c e deferred
        | inr (codec, found) ↦ elim (Bool-cases (c.initiator || r.transceiver)) [
          | inl now ↦
              let e : add_bound_track w r c ≡ attach_track w codec r.track c = ground arith in
              Adds-from ssrc c e (attach_track-Adds codec r.track c)
          | inr later ↦
              let e : add_bound_track w r c ≡ defer_track w r c = ground arith in
              Adds-from ssrc c e deferred
        ]
      ]

  pub add_track-Adds : (r : TrackRecord) (c : Connection) → Adds r.track.ssrc c (add_track w r c)
  unfolding add_track
  add_track-Adds r c =
      let ssrc = r.track.ssrc in
      let b = record c { bound = some r.source } in
      elim (Bool-cases (is_some c.webrtc_media)) [
        | inl media ↦ elim (Option-cases c.bound) [
          | inl free ↦
              let e : add_track w r c ≡ add_bound_track w r b = ground arith in
              Adds-from ssrc c e (add_bound_track-Adds r b)
          | inr (source, has) ↦ elim (Bool-cases (source == r.source)) [
            | inl own ↦
                let e : add_track w r c ≡ add_bound_track w r c = ground arith in
                Adds-from ssrc c e (add_bound_track-Adds r c)
            | inr other ↦
                Adds-failed (add_track w r c) ssrc c track_mismatch (ground arith) (ground arith)
          ]
        ]
        | inr lost ↦ elim (Option-cases c.bound) [
          | inl free ↦ Adds-failed (add_track w r c) ssrc c no_media (ground arith) (ground arith)
          | inr (source, has) ↦ elim (Bool-cases (source == r.source)) [
            | inl own ↦ Adds-failed (add_track w r c) ssrc c no_media (ground arith) (ground arith)
            | inr other ↦
                Adds-failed (add_track w r c) ssrc c track_mismatch (ground arith) (ground arith)
          ]
        ]
      ]
