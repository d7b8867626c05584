-- ===== src/Sfu/Connection/Ended.antt =====
-- connectionrecord.go: what the end of a remote track leaves of it.
use kwmbridge.Base.{
  ℕ, ◌≡◌, ◌≢◌, refl, Bool, true, Option, none, some, [], ◌∷◌, ◌++◌, arith, lookup, insert, ℕ_key,
  lookup-insert, lookup-erase, append_assoc,
}
use kwmbridge.Sfu.Types.{Track, track_change, Outside}
use kwmbridge.Sfu.Incoming.{RemoteTrack, Media, taken}
use kwmbridge.Sfu.Connection.{Connection}
use kwmbridge.Sfu.Connection.Incoming.{
  prepare_incoming, with_slot, on_track, publication, publish, end_track,
}
use kwmbridge.Sfu.Connection.Publishing.{on_track_taken}

-- The end of a track empties its slot, leaves the others, and sends the withdrawal of the track.
pub end_track_lem :
    (source slot : ℕ) (t : Track) (ch : Option ℕ) (c : Connection)
    → let ended = end_track source slot t ch c in
      (lookup slot ended.tracks ≡ none)
      × (lookup slot ended.receivers ≡ none)
      × ((k : ℕ)
          → k ≢ slot
          → (lookup k ended.tracks ≡ lookup k c.tracks)
            × (lookup k ended.receivers ≡ lookup k c.receivers))
      × (ended.log
          ≡ c.log ++ (track_change (record (publication source t ch) { remove = true }) ∷ []))
unfolding end_track
end_track_lem source slot t ch c = (
  ground (arith, lookup-erase slot slot c.tracks),
  ground (arith, lookup-erase slot slot c.receivers),
  λ k other. ground (arith, lookup-erase slot k c.tracks, lookup-erase slot k c.receivers),
  refl,
)

-- Where a remote track has been taken for a slot, and the goroutine of an earlier track of that slot
-- ends afterwards, the slot is empty although the new track has not ended: the new one has been
-- announced, and the earlier one is withdrawn.
pub end_track_stale :
    (w : Outside) (m : Media) (pc receiver source slot : ℕ) (closed : Bool) (remote : RemoteTrack)
    (c c' : Connection) (earlier t : Track) (ch ch' : Option ℕ)
    → on_track w m pc closed remote receiver c ≡ (taken slot t ch, c')
    → let live = publish source (on_track w m pc closed remote receiver c) in
      let ended = end_track source slot earlier ch' live in
      (lookup slot live.tracks ≡ some t)
      × (lookup slot ended.tracks ≡ none)
      × (ended.pc ≡ c.pc)
      × (ended.log
          ≡ c.log
            ++ (track_change (publication source t ch)
                ∷ track_change (record (publication source earlier ch') { remove = true })
                ∷ []))
unfolding prepare_incoming end_track with_slot
end_track_stale w m pc receiver source slot closed remote c c' earlier t ch ch' done =
    let p = prepare_incoming m c in
    let (_, free, _, is, _) = on_track_taken w m pc closed remote receiver c c' slot t ch done in
    rw done (
      rw is (
        ground (arith, lookup-insert slot slot t c.tracks),
        ground (arith, lookup-erase slot slot (insert slot t c.tracks)),
        refl,
        append_assoc c.log (track_change (publication source t ch) ∷ [])
            (track_change (record (publication source earlier ch') { remove = true }) ∷ []),
      ))
