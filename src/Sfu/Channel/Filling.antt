-- ===== src/Sfu/Channel/Filling.antt =====
-- channel.go: what the receiver worker brings to a connection.
use kwmbridge.Base.{
  ℕ, ◌≡◌, refl, sym, subst, inl, inr, Bool, true, false, some, List, [], ◌∷◌, Option, arith,
  Bool-cases, is_some, lookup, ℕ_key, text_key, ◌⊎◌,
}
use kwmbridge.Sfu.Types.{Track, Outcome, ok, err, Failure, Outside}
use kwmbridge.Sfu.Connection.{Connection, negotiation_needed}
use kwmbridge.Sfu.Connection.Negotiation.{maybe_negotiate}
use kwmbridge.Sfu.Connection.Tracks.{add_track}
use kwmbridge.Sfu.Channel.Removal.{SameTracks, SameTracks-trans, maybe_negotiate-SameTracks}
use kwmbridge.Sfu.Channel.Adding.{add_track-Adds}
use kwmbridge.Sfu.Channel.Workers.{
  publication, has_track, fill_tracks, negotiate_filled, fill_connection, take_receiver,
}
use kwmbridge.Sfu.Users.{UserRecord, Channel}
use kwmbridge.Sfu.Channel.Messages.{default_publisher}

-- The connection has every track of a list, or waits for it.
unfoldable pub Covers : List (ℕ × Track) → Connection → Type 0
Covers [] c = Unit {0}
Covers ((id, t) ∷ rest) c = (has_track t.ssrc c ≡ true) × Covers rest c

-- What a fill that does not fail leaves.
abbrev Fills : List (ℕ × Track) → Outcome Bool × Connection → Type 0
Fills tracks p = (b : Bool) → p.0 ≡ ok b → Covers tracks p.1

negotiate_filled-SameTracks : (p : Outcome Bool × Connection) → SameTracks p.1 (negotiate_filled p)
unfolding negotiation_needed
negotiate_filled-SameTracks (err e, c) = (refl, refl, refl)
negotiate_filled-SameTracks (ok added, c) = ground arith

outcome_cases : (o : Outcome Bool) → ((b : Bool) × (o ≡ ok b)) ⊎ ((e : Failure) × (o ≡ err e))
outcome_cases (ok b) = inl (b, refl)
outcome_cases (err e) = inr (e, refl)

-- Nothing is added to a connection that has all tracks.
fill_covered :
    (w : Outside) (source : ℕ) (ch : Option ℕ) (tracks : List (ℕ × Track)) (added : Bool)
    (c : Connection)
    → Covers tracks c
    → fill_tracks w source ch tracks added c ≡ (ok added, c)
unfolding fill_tracks Covers
fill_covered w source ch [] added c h = refl
fill_covered w source ch ((id, t) ∷ rest) added c (has, h) =
    ground (arith, fill_covered w source ch rest added c h)

Covers-same :
    (tracks : List (ℕ × Track)) (c c' : Connection)
    → SameTracks c c'
    → Covers tracks c
    → Covers tracks c'
unfolding Covers
Covers-same [] c c' same h = h
Covers-same ((id, t) ∷ rest) c c' same (has, h) =
    (ground (arith, same), Covers-same rest c c' same h)

module _ (w : Outside) where
  fill_tracks_keeps :
      (source : ℕ) (ch : Option ℕ) (tracks : List (ℕ × Track)) (added : Bool) (c : Connection)
      (k : ℕ)
      → has_track k c ≡ true
      → has_track k (fill_tracks w source ch tracks added c).1 ≡ true
  unfolding fill_tracks
  fill_tracks_keeps source ch [] added c k h = h
  fill_tracks_keeps source ch ((id, t) ∷ rest) added c k h =
      let p = add_track w (publication source ch t) c in
      let kept = (add_track-Adds w (publication source ch t) c).0 k h in
      ground (
        arith,
        kept,
        fill_tracks_keeps source ch rest added c k h,
        fill_tracks_keeps source ch rest true p.1 k kept,
      )

  fill_tracks-Fills :
      (source : ℕ) (ch : Option ℕ) (tracks : List (ℕ × Track)) (added : Bool) (c : Connection)
      → Fills tracks (fill_tracks w source ch tracks added c)
  unfolding fill_tracks Covers
  fill_tracks-Fills source ch [] added c = λ b done. tt
  fill_tracks-Fills source ch ((id, t) ∷ rest) added c =
      let p = add_track w (publication source ch t) c in
      let all = fill_tracks w source ch ((id, t) ∷ rest) added c in
      let passed = fill_tracks w source ch rest added c in
      let filled = fill_tracks w source ch rest true p.1 in
      let there = (add_track-Adds w (publication source ch t) c).1 in
      elim (Bool-cases (has_track t.ssrc c)) [
        | inl has ↦
            let e : all ≡ passed = ground arith in
            subst (Fills ((id, t) ∷ rest)) (sym e) (λ b done. (
              fill_tracks_keeps source ch rest added c t.ssrc has,
              fill_tracks-Fills source ch rest added c b done,
            ))
        | inr new ↦ elim (outcome_cases p.0) [
          | inl (b', fine) ↦
              let e : all ≡ filled = ground arith in
              subst (Fills ((id, t) ∷ rest)) (sym e) (λ b done. (
                fill_tracks_keeps source ch rest true p.1 t.ssrc (there b' fine),
                fill_tracks-Fills source ch rest true p.1 b done,
              ))
          | inr (f, failed) ↦
              let e : all ≡ (err f, p.1) = ground arith in
              subst (Fills ((id, t) ∷ rest)) (sym e) (λ b done. ground arith)
        ]
      ]

  -- Where the receiver worker of an open channel gets a connection with a peer connection, whose
  -- owner is not closed, and the wanted user has a sender, then unless adding a track fails the
  -- connection has every track of the sender afterwards, or waits for it, and filling it once more
  -- adds nothing.
  pub take_receiver-Covers :
      (pick b : Bool) (ch : Channel) (source : UserRecord) (sender c : Connection)
      → w.channel_closed ≡ false
      → is_some c.pc ≡ true
      → lookup c.id ch.connections ≡ some source
      → lookup default_publisher source.publishers ≡ some sender
      → (fill_tracks w source.number sender.rtcp_ch sender.tracks false c).0 ≡ ok b
      → let c' = take_receiver w pick false ch c in
        Covers sender.tracks c'
        × (fill_tracks w source.number sender.rtcp_ch sender.tracks false c' ≡ (ok false, c'))
  unfolding take_receiver fill_connection
  take_receiver-Covers pick b ch source sender c running has wanted published done =
      let p = fill_tracks w source.number sender.rtcp_ch sender.tracks false c in
      let c1 = negotiate_filled p in
      let c2 = maybe_negotiate w pick c1 in
      let e : take_receiver w pick false ch c ≡ c2 = ground arith in
      let same =
        SameTracks-trans p.1 c1 c2 (negotiate_filled-SameTracks p)
          (maybe_negotiate-SameTracks w pick c1) in
      let all =
        Covers-same sender.tracks p.1 c2 same
          (fill_tracks-Fills source.number sender.rtcp_ch sender.tracks false c b done) in
      subst
        (λ x.
          Covers sender.tracks x
          × (fill_tracks w source.number sender.rtcp_ch sender.tracks false x ≡ (ok false, x)))
        (sym e) (all, fill_covered w source.number sender.rtcp_ch sender.tracks false c2 all)
