-- ===== src/Sfu/Connection/Publishing.antt =====
-- connectionrecord.go: the tracks that a sender's connection has, from their start to their end.
use kwmbridge.Base.{
  ℕ, ◌≡◌, refl, sym, subst, inl, inr, Bool, true, false, Option, none, some, [], ◌||◌, arith,
  is_some, lookup, ℕ_key, lookup-insert, lookup-erase, ◌==◌, ◌⊎◌,
}
use kwmbridge.Sfu.Types.{Track, sender_track_video, sender_track_audio, Outside}
use kwmbridge.Sfu.Incoming.{
  RemoteTrack, Media, Taken, ignored, unsupported, locked, panicked, taken,
}
use kwmbridge.Sfu.Connection.{Connection, clear_peer_connection, reset}
use kwmbridge.Sfu.Connection.Incoming.{
  prepare_incoming, with_slot, take_slot, take_remote, on_track, publish, end_track,
}

abbrev pub is_slot : ℕ → Bool
is_slot k = k == sender_track_video || k == sender_track_audio

-- A connection of a sender: its tracks lie in the two slots, each with a receiver.
abbrev pub IsPublishing : Connection → Type 0
IsPublishing c =
    (k : ℕ)
    → is_some (lookup k c.tracks) ≡ true
    → (is_some (lookup k c.receivers) ≡ true) × (is_slot k ≡ true)

abbrev is_taken : Taken → Bool
is_taken (taken _ _ _) = true
is_taken _ = false

take_slot_taken :
    (m : Media) (pc slot slot' receiver : ℕ) (failed : Taken) (remote : RemoteTrack)
    (c c' : Connection) (t : Track) (ch : Option ℕ)
    → take_slot m pc slot failed remote receiver c ≡ (taken slot' t ch, c')
    → is_taken failed ≡ false
    → (slot' ≡ slot)
      × (lookup slot c.tracks ≡ none)
      × (ch ≡ c.rtcp_ch)
      × (c' ≡ with_slot slot t receiver c)
      × (m.new_track pc remote.payload_type remote.ssrc m.track_id c.guid ≡ some t)
unfolding take_slot
take_slot_taken m pc slot slot' receiver failed remote c c' t ch done fails = ground arith

module _ (w : Outside) (m : Media) (pc : ℕ) (closed : Bool) (remote : RemoteTrack)
    (receiver : ℕ) where
  -- What it says of a track that it is taken.
  pub on_track_taken :
      (c c' : Connection) (slot : ℕ) (t : Track) (ch : Option ℕ)
      → on_track w m pc closed remote receiver c ≡ (taken slot t ch, c')
      → let p = prepare_incoming m c in
        (is_slot slot ≡ true)
        × (lookup slot c.tracks ≡ none)
        × (ch ≡ p.rtcp_ch)
        × (c' ≡ with_slot slot t receiver p)
        × (m.new_track pc remote.payload_type remote.ssrc m.track_id p.guid ≡ some t)
  unfolding on_track
  on_track_taken c c' slot t ch done =
      let p = prepare_incoming m c in
      unfold prepare_incoming take_remote in
      ground (
        arith,
        take_slot_taken m pc sender_track_video slot receiver locked remote p c' t ch,
        take_slot_taken m pc sender_track_audio slot receiver panicked remote p c' t ch,
      )

  -- A track that is not taken leaves the tracks as they are.
  pub on_track_refused :
      (c : Connection)
      → is_taken (on_track w m pc closed remote receiver c).0 ≡ false
      → let c' = (on_track w m pc closed remote receiver c).1 in
        (c'.tracks ≡ c.tracks) × (c'.receivers ≡ c.receivers) × (c'.log ≡ c.log)
  unfolding on_track
  on_track_refused c = unfold prepare_incoming take_remote take_slot in ground arith

with_slot-IsPublishing :
    (slot receiver : ℕ) (t : Track) (c : Connection)
    → is_slot slot ≡ true
    → IsPublishing c
    → IsPublishing (with_slot slot t receiver c)
unfolding with_slot
with_slot-IsPublishing slot receiver t c good h k has =
    ground (arith, lookup-insert slot k t c.tracks, lookup-insert slot k receiver c.receivers, h k)

end_track-IsPublishing :
    (source slot : ℕ) (t : Track) (ch : Option ℕ) (c : Connection)
    → IsPublishing c
    → IsPublishing (end_track source slot t ch c)
unfolding end_track
end_track-IsPublishing source slot t ch c h k has =
    ground (arith, lookup-erase slot k c.tracks, lookup-erase slot k c.receivers, h k)

clear_peer_connection-IsPublishing :
    (c : Connection) → IsPublishing c → IsPublishing (clear_peer_connection c)
unfolding clear_peer_connection lookup
clear_peer_connection-IsPublishing c h k has = ground (arith, h k)

reset-IsPublishing : (parent_done : Bool) (c : Connection) → IsPublishing (reset parent_done c)
unfolding reset lookup
reset-IsPublishing parent_done c k has = absurd (cc)

taken_cases :
    (x : Taken)
    → (is_taken x ≡ false) ⊎ ((slot : ℕ) × (t : Track) × (ch : Option ℕ) × (x ≡ taken slot t ch))
taken_cases ignored = inl refl
taken_cases unsupported = inl refl
taken_cases locked = inl refl
taken_cases panicked = inl refl
taken_cases (taken slot t ch) = inr (slot, t, ch, refl)

publish_kept :
    (source : ℕ) (x : Taken × Connection)
    → ((publish source x).tracks ≡ x.1.tracks) × ((publish source x).receivers ≡ x.1.receivers)
publish_kept source (ignored, c) = (refl, refl)
publish_kept source (unsupported, c) = (refl, refl)
publish_kept source (locked, c) = (refl, refl)
publish_kept source (panicked, c) = (refl, refl)
publish_kept source (taken slot t ch, c) = (refl, refl)

same-IsPublishing :
    (c c' : Connection)
    → c'.tracks ≡ c.tracks
    → c'.receivers ≡ c.receivers
    → IsPublishing c
    → IsPublishing c'
same-IsPublishing c c' e f h k has = ground (arith, h k)

on_track-IsPublishing :
    (w : Outside) (m : Media) (pc receiver source : ℕ) (closed : Bool) (remote : RemoteTrack)
    (c : Connection)
    → IsPublishing c
    → IsPublishing (publish source (on_track w m pc closed remote receiver c))
on_track-IsPublishing w m pc receiver source closed remote c h =
    let x = on_track w m pc closed remote receiver c in
    let (e, f) = publish_kept source x in
    same-IsPublishing x.1 (publish source x) e f (elim (taken_cases x.0) [
      | inl refused ↦
          let (g, g', _) = on_track_refused w m pc closed remote receiver c refused in
          same-IsPublishing c x.1 g g' h
      | inr (slot, t, ch, e') ↦
          let (good, _, _, is, _) =
            on_track_taken w m pc closed remote receiver c x.1 slot t ch (ground arith) in
          subst IsPublishing (sym is) (
            with_slot-IsPublishing slot receiver t (prepare_incoming m c) good (
              same-IsPublishing c (prepare_incoming m c) (unfold prepare_incoming in refl)
                (unfold prepare_incoming in refl) h))
    ])

-- What happens to the tracks of a sender's connection: a remote track comes, the reader of a track
-- ends, and the connection is reset or loses its peer connection.
pub data Happens (w : Outside) (m : Media) (source : ℕ) : Connection → Connection → Type 0 where
  arrives :
      (pc receiver : ℕ) (closed : Bool) (remote : RemoteTrack) (c : Connection)
      → Happens w m source c (publish source (on_track w m pc closed remote receiver c))
  ends :
      (slot : ℕ) (t : Track) (ch : Option ℕ) (c : Connection)
      → Happens w m source c (end_track source slot t ch c)
  resets : (parent_done : Bool) (c : Connection) → Happens w m source c (reset parent_done c)
  clears : (c : Connection) → Happens w m source c (clear_peer_connection c)

pub data Life (w : Outside) (m : Media) (source : ℕ) (c : Connection) : Connection → Type 0 where
  start : Life w m source c c
  next : {d e : Connection} → Life w m source c d → Happens w m source d e → Life w m source c e

Happens-IsPublishing :
    {w : Outside} {m : Media} {source : ℕ} {c d : Connection}
    → Happens w m source c d
    → IsPublishing c
    → IsPublishing d
Happens-IsPublishing {w} {m} {source} (arrives pc receiver closed remote c) h =
    on_track-IsPublishing w m pc receiver source closed remote c h
Happens-IsPublishing {w} {m} {source} (ends slot t ch c) h =
    end_track-IsPublishing source slot t ch c h
Happens-IsPublishing (resets parent_done c) h = reset-IsPublishing parent_done c
Happens-IsPublishing (clears c) h = clear_peer_connection-IsPublishing c h

-- Whatever remote tracks come and end, and whenever the connection is reset or its peer connection is
-- cleared, the tracks of a connection that has none at first lie in the slots of video and audio, and
-- each has a receiver.
pub Life-IsPublishing :
    {w : Outside} {m : Media} {source : ℕ} {c d : Connection}
    → c.tracks ≡ []
    → Life w m source c d
    → IsPublishing d
unfolding lookup
Life-IsPublishing e start = λ k has. ground arith
Life-IsPublishing e (next life h) = Happens-IsPublishing h (Life-IsPublishing e life)
