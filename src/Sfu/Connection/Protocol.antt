-- ===== src/Sfu/Connection/Protocol.antt =====
-- What one negotiation sends, and the bound on the requests in a log that it keeps.
use kwmbridge.Base.{
  ℕ, ◌+◌, ◌≤◌, ◌≡◌, refl, sym, subst, ◌≢◌, inl, inr, Bool, true, false, not, ◌&&◌, List, [], ◌∷◌,
  ◌++◌, arith, if◌then◌else◌, Bool-cases, Option-cases, is_empty, is_some, ◌⊎◌,
}
use kwmbridge.Sfu.Types.{Message, offer, renegotiate, Effect, sent, Outcome, ok, err, Outside}
use kwmbridge.Sfu.Connection.{after, change, Connection}
use kwmbridge.Sfu.Connection.Negotiation.{
  message, send, create_offer, request_offer, start_negotiation, negotiate, maybe_negotiate,
}

-- Whether an effect is an offer, or a request for one, that was sent.
abbrev pub is_request : Effect → Bool
is_request (sent m) = elim m.payload [ offer _ ↦ true | renegotiate _ ↦ true | _ ↦ false ]
is_request _ = false

-- How many requests are in a log.
unfoldable pub requests : List Effect → ℕ
requests [] = 0
requests (e ∷ es) = (if is_request e then 1 else 0) + requests es

pub requests-append : (xs ys : List Effect) → requests (xs ++ ys) ≡ requests xs + requests ys
unfolding requests
requests-append [] ys = omega arith
requests-append (x ∷ xs) ys = omega (arith, requests-append xs ys)

-- At most `n` requests were made, and the one that is on its way.
unfoldable pub Bounded : ℕ → Connection → Type 0
Bounded n c = requests c.log ≤ n + (if c.is_negotiating then 1 else 0)

module _ (w : Outside) where
  -- A negotiation that is started while one is on its way sends nothing and is queued; the
  -- exception, a record that starts connections but has none, neither sends nor queues.
  pub negotiate_busy :
      (c : Connection)
      → c.is_negotiating ≡ true
      → negotiate w c ≡ (
        ok tt,
        record c {
          queued_negotiation =
              if c.initiator && not (is_some c.pc) then c.queued_negotiation else true;
        },
      )
  unfolding negotiate start_negotiation
  negotiate_busy c h = ground arith

  pub requests-sent :
      (l : List Effect) (m : Message)
      → is_request (sent m) ≡ true
      → requests (l ++ (sent m ∷ [])) ≡ requests l + 1
  unfolding requests
  requests-sent l m h = rw (requests-append l (sent m ∷ []), h) refl

  abbrev pub SameFlags : Connection → Connection → Type 0
  SameFlags c c' =
      (c'.is_negotiating ≡ c.is_negotiating)
      × (c'.queued_negotiation ≡ c.queued_negotiation)
      × (c'.needs_negotiation ≡ c.needs_negotiation)
      × (c'.pc ≡ c.pc)

  -- One request is sent, or the step fails and nothing is.
  abbrev pub Sends : Connection → Outcome (Unit {0}) × Connection → Type 0
  Sends c p =
      ((m : Message) × (is_request (sent m) ≡ true)
        × (p.0 ≡ ok tt)
        × (p.1.log ≡ c.log ++ (sent m ∷ []))
        × SameFlags c p.1)
      ⊎ ((p.0 ≢ ok tt) × (p.1.log ≡ c.log) × SameFlags c p.1)

  send-Sends : (m : Message) (c : Connection) → is_request (sent m) ≡ true → Sends c (send w m c)
  unfolding send
  send-Sends m c h = elim (Bool-cases (w.send m)) [
    | inl out ↦ rw out (inl (m, h, refl, refl, (refl, refl, refl, refl)))
    | inr lost ↦ rw lost (inr (λ e. cc, refl, (refl, refl, refl, refl)))
  ]

  pub create_offer-Sends : (pc : ℕ) (c : Connection) → Sends c (create_offer w pc c)
  unfolding create_offer
  create_offer-Sends pc c = elim (Option-cases (w.create_offer pc)) [
    | inl none' ↦ rw none' (inr (λ e. cc, refl, (refl, refl, refl, refl)))
    | inr (sdp, made) ↦ elim (Bool-cases (w.set_local_description pc sdp)) [
      | inl set ↦ rw (made, set) (send-Sends (message w (offer sdp) c) c refl)
      | inr refused ↦ rw (made, refused) (inr (λ e. cc, refl, (refl, refl, refl, refl)))
    ]
  ]

  pub request_offer-Sends : (c : Connection) → Sends c (request_offer w c)
  unfolding request_offer
  request_offer-Sends c = elim (Bool-cases (is_empty c.pcid)) [
    | inl fresh ↦
        let c' = record c { pcid = w.random_string } in
        rw fresh (send-Sends (message w (renegotiate false) c') c' refl)
    | inr named ↦ rw named (send-Sends (message w (renegotiate false) c) c refl)
  ]

  -- A negotiation that succeeds sends one request: an offer from the side that starts connections
  -- and a request for an offer from the other side. (A record of the first kind without a peer
  -- connection sends nothing.) One that fails sends nothing and leaves the flags.
  start_idle :
      (c : Connection)
      → c.is_negotiating ≡ false
      → Sends c (start_negotiation w c) ⊎ (start_negotiation w c ≡ (ok tt, c))
  unfolding start_negotiation
  start_idle c h = elim (Bool-cases c.initiator) [
    | inl starts ↦ elim (Option-cases c.pc) [
      | inl free ↦ inr (ground arith)
      | inr (pc, has) ↦
          let e : start_negotiation w c ≡ create_offer w pc c = ground arith in
          inl (subst (Sends c) (sym e) (create_offer-Sends pc c))
    ]
    | inr asks ↦
        let e : start_negotiation w c ≡ request_offer w c = ground arith in
        inl (subst (Sends c) (sym e) (request_offer-Sends c))
  ]

  finish-Bounded :
      (n : ℕ) (c : Connection) (p : Outcome (Unit {0}) × Connection)
      → Bounded n c
      → c.is_negotiating ≡ false
      → Sends c p ⊎ (p ≡ (ok tt, c))
      → Bounded n (after p (λ _. change (λ d. record d { is_negotiating = true }))).1
  unfolding Bounded
  finish-Bounded n c (ok u, c') h idle (inl (inl (m, asks, fine, grown, flags))) =
      ground (arith, requests-sent c.log m asks)
  finish-Bounded n c (ok u, c') h idle (inl (inr (failed, same, flags))) = ground arith
  finish-Bounded n c (ok u, c') h idle (inr done) = ground arith
  finish-Bounded n c (err e, c') h idle (inl (inl (m, asks, fine, grown, flags))) = ground arith
  finish-Bounded n c (err e, c') h idle (inl (inr (failed, same, flags))) = ground arith
  finish-Bounded n c (err e, c') h idle (inr done) = ground arith

  negotiate-Bounded : (n : ℕ) (c : Connection) → Bounded n c → Bounded n (negotiate w c).1
  unfolding negotiate
  negotiate-Bounded n c h = elim (Bool-cases c.is_negotiating) [
    | inl busy ↦ unfold Bounded in ground (arith, negotiate_busy c busy)
    | inr idle ↦ finish-Bounded n c (start_negotiation w c) h idle (start_idle c idle)
  ]

  pub maybe_negotiate-Bounded :
      (n : ℕ) (pick : Bool) (c : Connection) → Bounded n c → Bounded n (maybe_negotiate w pick c)
  unfolding maybe_negotiate
  maybe_negotiate-Bounded n pick c h =
      unfold Bounded in
      ground (arith, negotiate-Bounded n (record c { needs_negotiation = false }) h)
