-- ===== src/Sfu/Channel/Delivery.antt =====
-- connectionrecord.go: which of a channel's users get a packet of a sender's track.
use kwmbridge.Base.{
  ℕ, ◌≡◌, ◌≢◌, refl, false, none, some, List, [], ◌∷◌, ◌++◌, arith, if◌then◌else◌, Text, lookup,
  insert, ℕ_key, text_key, Option-cases, inl, inr, append_assoc,
}
use kwmbridge.JitterBuffer.Packet.{Packet}
use kwmbridge.Sfu.Types.{Codec, Track, Outside}
use kwmbridge.Sfu.Incoming.{Media, to_track}
use kwmbridge.Sfu.Connection.{Connection, reset}
use kwmbridge.Sfu.Users.{UserRecord}
use kwmbridge.Sfu.Channel.Forwarding.{target_type, forward_one, forward}

-- Two packets that differ in the payload type at most.
abbrev pub untyped : Packet → Packet
untyped p = record p { payload_type = 0 }

module _ (w : Outside) (m : Media) (codec : Codec) (source : ℕ) (source_id : Text) where
  -- The payload type that a packet comes with makes no difference to a round.
  one_same :
      (p q : Packet) (target : UserRecord)
      → untyped p ≡ untyped q
      → let a = forward_one w m codec source source_id p target in
        let b = forward_one w m codec source source_id q target in
        (a.written ≡ b.written) × (a.users ≡ b.users) × (untyped a.packet ≡ untyped b.packet)
  unfolding forward_one
  one_same p q target same = ground arith

  -- Nor to the loop.
  pub forward_same :
      (users : List (Text × UserRecord)) (p q : Packet)
      → untyped p ≡ untyped q
      → let a = forward w m codec source source_id p users in
        let b = forward w m codec source source_id q users in
        (a.written ≡ b.written) × (a.users ≡ b.users)
  unfolding forward
  forward_same [] p q same = (refl, refl)
  forward_same ((key, target) ∷ rest) p q same =
      let a = forward_one w m codec source source_id p target in
      let b = forward_one w m codec source source_id q target in
      let first = one_same p q target same in
      ground (arith, first, forward_same rest a.packet b.packet)

  pub one_untyped :
      (p : Packet) (target : UserRecord)
      → untyped (forward_one w m codec source source_id p target).packet ≡ untyped p
  unfolding forward_one
  one_untyped p target = ground arith

  -- The loop over users in two parts: the second part is as if the packet came there first.
  pub forward-append :
      (front rest : List (Text × UserRecord)) (p : Packet)
      → let whole = forward w m codec source source_id p (front ++ rest) in
        let a = forward w m codec source source_id p front in
        let b = forward w m codec source source_id p rest in
        (whole.written ≡ a.written ++ b.written) × (whole.users ≡ a.users ++ b.users)
  unfolding forward
  forward-append [] rest p = (refl, refl)
  forward-append ((key, target) ∷ front) rest p =
      let a = forward_one w m codec source source_id p target in
      let more = forward w m codec source source_id a.packet front in
      let b = forward w m codec source source_id p rest in
      ground (
        arith,
        forward-append front rest a.packet,
        forward_same rest a.packet p (one_untyped p target),
        append_assoc a.written more.written b.written,
      )

  -- A user that is not the source, is not closed, and has a connection to the source with a track
  -- of the packet's SSRC gets the packet exactly once, on that track and with the payload type
  -- that its connection has for the codec, wherever it stands among the users. Its connection is
  -- reset where the write fails and stays as it is otherwise; the writes to the users before and
  -- after it, and what becomes of them, are those of a loop without it.
  pub forward_delivers :
      (front rest : List (Text × UserRecord)) (key : Text) (target : UserRecord) (c : Connection)
      (t : Track) (p : Packet)
      → target.number ≢ source
      → target.closed ≡ false
      → lookup source_id target.connections ≡ some c
      → lookup p.ssrc c.tracks ≡ some t
      → let whole = forward w m codec source source_id p (front ++ ((key, target) ∷ rest)) in
        let a = forward w m codec source source_id p front in
        let b = forward w m codec source source_id p rest in
        let q : Packet = record p { payload_type = target_type codec c } in
        let failed : UserRecord = record target {
          connections = insert source_id (reset w.ws_done c) target.connections;
        } in
        (whole.written ≡ a.written ++ (to_track t q ∷ b.written))
        × (whole.users ≡ a.users ++ ((key, if m.write_rtp t q then target else failed) ∷ b.users))
  unfolding forward forward_one
  forward_delivers front rest key target c t p other live connected has =
      let one = forward_one w m codec source source_id p target in
      ground (
        arith,
        forward-append front ((key, target) ∷ rest) p,
        forward_same rest one.packet p (one_untyped p target),
      )

  -- A user that is the source, or is closed, or has no connection to the source, or whose
  -- connection has no track of the packet's SSRC, gets nothing and stays as it is.
  pub forward_skips :
      (front rest : List (Text × UserRecord)) (key : Text) (target : UserRecord) (p : Packet)
      → ((c : Connection)
          → target.number ≢ source
          → target.closed ≡ false
          → lookup source_id target.connections ≡ some c
          → lookup p.ssrc c.tracks ≡ none)
      → let whole = forward w m codec source source_id p (front ++ ((key, target) ∷ rest)) in
        let a = forward w m codec source source_id p front in
        let b = forward w m codec source source_id p rest in
        (whole.written ≡ a.written ++ b.written)
        × (whole.users ≡ a.users ++ ((key, target) ∷ b.users))
  unfolding forward forward_one
  forward_skips front rest key target p unable =
      let one = forward_one w m codec source source_id p target in
      elim (Option-cases (lookup source_id target.connections)) [
        | inl missing ↦ ground (
          arith,
          forward-append front ((key, target) ∷ rest) p,
          forward_same rest one.packet p (one_untyped p target),
        )
        | inr (c, found) ↦ ground (
          arith,
          forward-append front ((key, target) ∷ rest) p,
          forward_same rest one.packet p (one_untyped p target),
          unable c,
        )
      ]
