-- ===== src/Sfu/P2p/Delivery.antt =====
-- p2precord.go: which of a channel's users get a packet of a track of a peer to peer record.
use kwmbridge.Base.{
  ◌≡◌, refl, Bool, false, none, some, [], ◌∷◌, ◌++◌, arith, if◌then◌else◌, Text, lookup, insert,
  ℕ_key, text_key, append_assoc,
}
use kwmbridge.JitterBuffer.Packet.{Packet}
use kwmbridge.Sfu.Types.{Codec, Track}
use kwmbridge.Sfu.Incoming.{Media, to_track}
use kwmbridge.Sfu.Incoming.Pumping.{Passes}
use kwmbridge.Sfu.P2p.{P2pRecord, reset}
use kwmbridge.Sfu.P2p.Controller.{Controller}
use kwmbridge.Sfu.P2p.Announcing.{Peers}
use kwmbridge.Sfu.Channel.Delivery.{untyped}
use kwmbridge.Sfu.P2p.Forwarding.{target_type, forward_one, forward}

module _ (m : Media) (codec : Codec) (token : Text) where
  -- The payload type that a packet comes with makes no difference to a round.
  one_same :
      (p q : Packet) (gone : Bool) (target : Controller)
      → untyped p ≡ untyped q
      → let a = forward_one m codec token p gone target in
        let b = forward_one m codec token q gone target in
        (a.written ≡ b.written) × (a.users ≡ b.users) × (untyped a.packet ≡ untyped b.packet)
  unfolding forward_one
  one_same p q gone target same = ground arith

  -- Nor to the loop.
  forward_same :
      (users : Peers) (p q : Packet)
      → untyped p ≡ untyped q
      → let a = forward m codec token p users in
        let b = forward m codec token q users in (a.written ≡ b.written) × (a.users ≡ b.users)
  unfolding forward
  forward_same [] p q same = (refl, refl)
  forward_same ((key, (gone, none)) ∷ rest) p q same = ground (arith, forward_same rest p q same)
  forward_same ((key, (gone, some target)) ∷ rest) p q same =
      let a = forward_one m codec token p gone target in
      let b = forward_one m codec token q gone target in
      ground (arith, one_same p q gone target same, forward_same rest a.packet b.packet)

  one_untyped :
      (p : Packet) (gone : Bool) (target : Controller)
      → untyped (forward_one m codec token p gone target).packet ≡ untyped p
  unfolding forward_one
  one_untyped p gone target = ground arith

  forward-append :
      (front rest : Peers) (p : Packet)
      → let whole = forward m codec token p (front ++ rest) in
        let a = forward m codec token p front in
        let b = forward m codec token p rest in
        (whole.written ≡ a.written ++ b.written) × (whole.users ≡ a.users ++ b.users)
  unfolding forward
  forward-append [] rest p = (refl, refl)
  forward-append ((key, (gone, none)) ∷ front) rest p = ground (arith, forward-append front rest p)
  forward-append ((key, (gone, some target)) ∷ front) rest p =
      let a = forward_one m codec token p gone target in
      let more = forward m codec token a.packet front in
      let b = forward m codec token p rest in
      ground (
        arith,
        forward-append front rest a.packet,
        forward_same rest a.packet p (one_untyped p gone target),
        append_assoc a.written more.written b.written,
      )

  -- A user that is not closed, and whose controller has a record under the token with a track of
  -- the packet's SSRC, gets the packet exactly once, on that track and with the payload type that
  -- the record has for the codec, wherever it stands among the users; the source is no exception.
  -- Its record is reset where the write fails, and stays as it is otherwise.
  pub forward_reaches :
      (front rest : Peers) (key : Text) (target : Controller) (c : P2pRecord) (t : Track)
      (p : Packet)
      → lookup token target.callbacks ≡ some c
      → lookup p.ssrc c.tracks ≡ some t
      → let whole = forward m codec token p (front ++ ((key, (false, some target)) ∷ rest)) in
        let a = forward m codec token p front in
        let b = forward m codec token p rest in
        let q : Packet = record p { payload_type = target_type codec c } in
        let failed : Controller = record target {
          callbacks = insert token (reset c) target.callbacks;
        } in
        let target' : Controller = if m.write_rtp t q then target else failed in
        (whole.written ≡ a.written ++ (to_track t q ∷ b.written))
        × (whole.users ≡ a.users ++ ((key, (false, some target')) ∷ b.users))
  unfolding forward forward_one
  forward_reaches front rest key target c t p held has =
      let one = forward_one m codec token p false target in
      ground (
        arith,
        forward-append front ((key, (false, some target)) ∷ rest) p,
        forward_same rest one.packet p (one_untyped p false target),
      )

  forward_number :
      (users : Peers) (p : Packet)
      → let q = (forward m codec token p users).packet in
        (q.sequence_number ≡ p.sequence_number) × (q.ssrc ≡ p.ssrc)
  unfolding forward
  forward_number [] p = (refl, refl)
  forward_number ((key, (gone, none)) ∷ rest) p = ground (arith, forward_number rest p)
  forward_number ((key, (gone, some target)) ∷ rest) p =
      let one = forward_one m codec token p gone target in
      unfold forward_one in ground (arith, forward_number rest one.packet)

  pub forward-Passes : Passes (forward m codec token)
  forward-Passes = record {
    keeps_number = λ p users. (forward_number users p).0;
    keeps_ssrc = λ p users. (forward_number users p).1;
  }
