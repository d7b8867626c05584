-- ===== src/Sfu/Plugin/Pump.antt =====
-- rtmcsfu.go: the plugin's channel over the runs of its pump.
use kwmbridge.Base.{
  ◌≡◌, refl, sym, subst, inl, inr, Bool, none, some, List, [], ◌∷◌, arith, Text, Bool-cases,
  Option-cases, text_eq, lookup, text_key,
}
use kwmbridge.Sfu.Users.{Channel, close, Hangup, handle_hangup}
use kwmbridge.Sfu.Channel.Messages.{
  Incoming, call_answer, send_noop_renegotiate, to_pipeline, to_user, handle_message,
}
use kwmbridge.Sfu.Channel.Senders.{AllHaveSender, handle_message-AllHaveSender}
use kwmbridge.Sfu.Channel.Hangups.{handle_hangup-AllHaveSender}
use kwmbridge.Sfu.Plugin.{
  WebRtc, Json, Subtype, hangup_of, Surroundings, Read, text_frame, binary_frame, read_cancelled,
  read_closed, read_failed, body_failed, Plugin, put_channel, empty_channel, mcu_forward,
  webrtc_type, webrtc_channel, webrtc_signal, webrtc_hangup, webrtc_other, new_channel,
  take_channel, handle_webrtc, take_text, read_pump,
}

-- The channel that a plugin has, if any, has a sender for each of its users.
unfoldable pub SendersKnown : Plugin → Type 0
SendersKnown p = (ch : Channel) → p.channel ≡ some ch → AllHaveSender ch

-- The plugin has a channel with the name and the pipeline.
abbrev pub IsNamed : Text → Text → Channel → Type 0
IsNamed name pipeline ch = (ch.channel ≡ name) × (ch.pipeline ≡ pipeline)

unfoldable pub HasChannel : Text → Text → Plugin → Type 0
HasChannel name pipeline p = (ch : Channel) × (p.channel ≡ some ch) × IsNamed name pipeline ch

handle_message-IsNamed :
    (s : Surroundings) (m : Incoming) (ch : Channel)
    → IsNamed ch.channel ch.pipeline
        (handle_message s.outside s.pick s.remote s.others s.fresh m ch).1
unfolding handle_message to_pipeline to_user call_answer send_noop_renegotiate
handle_message-IsNamed s m ch = ground arith

handle_hangup-IsNamed :
    (ws_done : Bool) (m : Hangup) (ch : Channel)
    → IsNamed ch.channel ch.pipeline (handle_hangup ws_done m ch).1
unfolding handle_hangup close
handle_hangup-IsNamed ws_done m ch = elim (Option-cases (lookup m.source ch.connections)) [
  | inl free ↦ ground arith
  | inr (u, has) ↦ ground arith
]

-- The steps that a message can make.
data Taken (s : Surroundings) (p : Plugin) (p' : Plugin) : Type 0 where
  taken_nothing : p' ≡ p → Taken s p p'
  taken_channel :
      (name pipeline : Text)
      → p.channel ≡ none
      → p' ≡ put_channel (empty_channel name pipeline) p
      → Taken s p p'
  taken_signal :
      (m : Incoming) (ch : Channel)
      → p.channel ≡ some ch
      → p' ≡ put_channel (handle_message s.outside s.pick s.remote s.others s.fresh m ch).1 p
      → Taken s p p'
  taken_hangup :
      (m : Hangup) (ch : Channel)
      → p.channel ≡ some ch
      → p' ≡ put_channel (handle_hangup s.outside.ws_done m ch).1 p
      → Taken s p p'

empty_channel-AllHaveSender : (name pipeline : Text) → AllHaveSender (empty_channel name pipeline)
unfolding AllHaveSender lookup
empty_channel-AllHaveSender name pipeline = λ n u there. ground arith

Taken-SendersKnown :
    (s : Surroundings) (p p' : Plugin) → SendersKnown p → Taken s p p' → SendersKnown p'
unfolding SendersKnown
Taken-SendersKnown s p p' h (taken_nothing e) = λ ch has. h ch (ground arith)
Taken-SendersKnown s p p' h (taken_channel name pipeline free e) = λ ch has.
    let made : empty_channel name pipeline ≡ ch = ground arith in
    subst AllHaveSender made (empty_channel-AllHaveSender name pipeline)
Taken-SendersKnown s p p' h (taken_signal m c there e) = λ ch has.
    let made : (handle_message s.outside s.pick s.remote s.others s.fresh m c).1 ≡ ch =
      ground arith in
    subst AllHaveSender made
      (handle_message-AllHaveSender s.outside s.pick s.remote s.others s.fresh m c (h c there))
Taken-SendersKnown s p p' h (taken_hangup m c there e) = λ ch has.
    let made : (handle_hangup s.outside.ws_done m c).1 ≡ ch = ground arith in
    subst AllHaveSender made (handle_hangup-AllHaveSender s.outside.ws_done m c (h c there))

Taken-HasChannel :
    (name pipeline : Text) (s : Surroundings) (p p' : Plugin)
    → HasChannel name pipeline p
    → Taken s p p'
    → HasChannel name pipeline p'
unfolding HasChannel
Taken-HasChannel name pipeline s p p' (ch, has, named) (taken_nothing e) = (ch, ground arith, named)
Taken-HasChannel name pipeline s p p' (ch, has, named) (taken_channel n l free e) =
    (empty_channel n l, ground arith, ground arith)
Taken-HasChannel name pipeline s p p' (ch, has, named) (taken_signal m c there e) = (
  (handle_message s.outside s.pick s.remote s.others s.fresh m c).1,
  ground arith,
  ground (arith, handle_message-IsNamed s m c),
)
Taken-HasChannel name pipeline s p p' (ch, has, named) (taken_hangup m c there e) = (
  (handle_hangup s.outside.ws_done m c).1,
  ground arith,
  ground (arith, handle_hangup-IsNamed s.outside.ws_done m c),
)

module _ (j : Json) where
  -- What every text message keeps, every run of the pump keeps.
  pump_keeps :
      (P : Plugin → Type 0)
      → ((s : Surroundings) (body : Text) (p : Plugin) → P p → P (take_text j s body p).1)
      → (reads : List (Surroundings × Read)) (p : Plugin) → P p
      → P (read_pump j reads p).1
  unfolding read_pump
  pump_keeps P step [] p h = h
  pump_keeps P step ((s, read_cancelled) ∷ rest) p h = h
  pump_keeps P step ((s, read_closed) ∷ rest) p h = h
  pump_keeps P step ((s, read_failed) ∷ rest) p h = h
  pump_keeps P step ((s, body_failed) ∷ rest) p h = h
  pump_keeps P step ((s, binary_frame body) ∷ rest) p h = pump_keeps P step rest p h
  pump_keeps P step ((s, text_frame body) ∷ rest) p h =
      let q = take_text j s body p in
      elim (Option-cases q.0) [
        | inl well ↦
            let e : (read_pump j ((s, text_frame body) ∷ rest) p).1 ≡ (read_pump j rest q.1).1 =
              ground arith in
            subst P (sym e) (pump_keeps P step rest q.1 (step s body p h))
        | inr (f, failed) ↦
            let e : (read_pump j ((s, text_frame body) ∷ rest) p).1 ≡ q.1 = ground arith in
            subst P (sym e) (step s body p h)
      ]

  take_channel-Taken :
      (s : Surroundings) (m : Incoming) (p : Plugin) → Taken s p (take_channel j m p).1
  unfolding take_channel new_channel
  take_channel-Taken s m p = elim (Option-cases p.channel) [
    | inr (ch, has) ↦ taken_nothing (ground arith)
    | inl free ↦ elim (Option-cases (j.channel_extra_of m.raw)) [
      | inl bad ↦ taken_nothing (ground arith)
      | inr (extra, parsed) ↦ elim (Option-cases extra) [
        | inl bare ↦ taken_nothing (ground arith)
        | inr (pipeline, given) ↦ elim (Bool-cases (text_eq pipeline.mode mcu_forward)) [
          | inl fits ↦ taken_channel m.channel pipeline.name free (ground arith)
          | inr other ↦ taken_nothing (ground arith)
        ]
      ]
    ]
  ]

  handle_webrtc_by_subtype :
      (t : Subtype) (s : Surroundings) (x : WebRtc) (p : Plugin)
      → x.subtype ≡ t
      → Taken s p (handle_webrtc j s x p).1
  unfolding handle_webrtc
  handle_webrtc_by_subtype webrtc_channel s x p is =
      let e : handle_webrtc j s x p ≡ take_channel j x.message p = ground arith in
      subst (λ q. Taken s p q.1) (sym e) (take_channel-Taken s x.message p)
  handle_webrtc_by_subtype webrtc_signal s x p is = elim (Option-cases p.channel) [
    | inl free ↦ taken_nothing (ground arith)
    | inr (ch, has) ↦ taken_signal x.message ch has (ground arith)
  ]
  handle_webrtc_by_subtype webrtc_hangup s x p is = elim (Option-cases p.channel) [
    | inl free ↦ taken_nothing (ground arith)
    | inr (ch, has) ↦ taken_hangup (hangup_of x.message) ch has (ground arith)
  ]
  handle_webrtc_by_subtype webrtc_other s x p is = taken_nothing (ground arith)

  handle_webrtc-Taken :
      (s : Surroundings) (x : WebRtc) (p : Plugin) → Taken s p (handle_webrtc j s x p).1
  handle_webrtc-Taken s x p = handle_webrtc_by_subtype x.subtype s x p refl

  take_text-Taken :
      (s : Surroundings) (body : Text) (p : Plugin) → Taken s p (take_text j s body p).1
  unfolding take_text
  take_text-Taken s body p = elim (Option-cases (j.type_of body)) [
    | inl bad ↦ taken_nothing (ground arith)
    | inr (type, typed) ↦ elim (Option-cases (j.webrtc_of body)) [
      | inl bad ↦ taken_nothing (ground arith)
      | inr (x, parsed) ↦ elim (Bool-cases (text_eq type webrtc_type)) [
        | inl ours ↦
            let e : take_text j s body p ≡ handle_webrtc j s x p = ground arith in
            subst (λ q. Taken s p q.1) (sym e) (handle_webrtc-Taken s x p)
        | inr other ↦ taken_nothing (ground arith)
      ]
    ]
  ]

  take_text-SendersKnown :
      (s : Surroundings) (body : Text) (p : Plugin)
      → SendersKnown p
      → SendersKnown (take_text j s body p).1
  unfolding SendersKnown
  take_text-SendersKnown s body p h =
      Taken-SendersKnown s p (take_text j s body p).1 h (take_text-Taken s body p)

  take_text-HasChannel :
      (name pipeline : Text) (s : Surroundings) (body : Text) (p : Plugin)
      → HasChannel name pipeline p
      → HasChannel name pipeline (take_text j s body p).1
  take_text-HasChannel name pipeline s body p h =
      Taken-HasChannel name pipeline s p (take_text j s body p).1 h (take_text-Taken s body p)

  -- The plugin's channel, if there is one, has a sender for each of its users after any run of the
  -- pump, if it was so before; it is so for a plugin without a channel.
  pub read_pump-SendersKnown :
      (reads : List (Surroundings × Read)) (p : Plugin)
      → SendersKnown p
      → SendersKnown (read_pump j reads p).1
  read_pump-SendersKnown reads p h = pump_keeps SendersKnown take_text-SendersKnown reads p h

  -- A plugin that has a channel has a channel of the same name and pipeline after any run of the
  -- pump: no message replaces the channel or drops it.
  pub read_pump-HasChannel :
      (name pipeline : Text) (reads : List (Surroundings × Read)) (p : Plugin)
      → HasChannel name pipeline p
      → HasChannel name pipeline (read_pump j reads p).1
  read_pump-HasChannel name pipeline reads p h =
      pump_keeps (HasChannel name pipeline) (take_text-HasChannel name pipeline) reads p h
