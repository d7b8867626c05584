-- ===== src/Sfu/Channel/Senders.antt =====
-- channel.go: the senders of users over the messages to a channel.
use kwmbridge.Base.{
  ℕ, ◌≡◌, sym, subst, inl, inr, Bool, true, not, ◌||◌, some, arith, Text, Bool-cases, Option-cases,
  text_eq, text_eq_iff, is_some, lookup, lookup-insert, text_key,
}
use kwmbridge.Sfu.Types.{Outside}
use kwmbridge.Sfu.Connection.{Connection}
use kwmbridge.Sfu.Connection.Signal.{Remote}
use kwmbridge.Sfu.Connection.Handler.{handle_signal}
use kwmbridge.Sfu.Users.{UserRecord, Channel, new_user_record}
use kwmbridge.Sfu.Channel.Messages.{
  Incoming, default_publisher, create_sender, user_with_sender, source_user, put_user, sender_of,
  put_sender, connection_to, put_connection, resurrect, send_noop_renegotiate, call_answer,
  to_pipeline, to_user, handle_message,
}

-- The user has a sender.
abbrev pub HasSender : UserRecord → Type 0
HasSender u = is_some (lookup default_publisher u.publishers) ≡ true

-- Every user that the channel lists has a sender.
unfoldable pub AllHaveSender : Channel → Type 0
AllHaveSender ch =
    (name : Text) (u : UserRecord) → lookup name ch.connections ≡ some u → HasSender u

put_user-AllHaveSender :
    (name : Text) (u : UserRecord) (ch : Channel)
    → AllHaveSender ch
    → HasSender u
    → AllHaveSender (put_user name u ch)
unfolding AllHaveSender
put_user-AllHaveSender name u ch h has j v there =
    ground (arith, lookup-insert name j u ch.connections, text_eq_iff name j, h j v)

put_sender-HasSender : (c : Connection) (u : UserRecord) → HasSender (put_sender c u)
put_sender-HasSender c u = ground (
  arith,
  lookup-insert default_publisher default_publisher c u.publishers,
  text_eq_iff default_publisher default_publisher,
)

module _ (w : Outside) (pick : Bool) where
  user_with_sender-HasSender :
      (pipeline : Text) (u : UserRecord) → HasSender (user_with_sender w pick pipeline u)
  unfolding user_with_sender
  user_with_sender-HasSender pipeline u = ground (
    arith,
    lookup-insert default_publisher default_publisher (create_sender w pick pipeline u)
        u.publishers,
    text_eq_iff default_publisher default_publisher,
  )

  source_user-HasSender :
      (fresh : ℕ) (source : Text) (ch : Channel)
      → AllHaveSender ch
      → HasSender (source_user w pick fresh source ch)
  unfolding AllHaveSender source_user
  source_user-HasSender fresh source ch h = elim (Option-cases (lookup source ch.connections)) [
    | inl free ↦
        let made = user_with_sender-HasSender ch.pipeline (new_user_record fresh source) in
        let e : source_user w pick fresh source ch
            ≡ user_with_sender w pick ch.pipeline (new_user_record fresh source) =
          ground arith in
        subst HasSender (sym e) made
    | inr (u, has) ↦
        let e : source_user w pick fresh source ch ≡ u = ground arith in
        subst HasSender (sym e) (h source u has)
  ]

  put_connection-HasSender :
      (target : Text) (c : Connection) (u : UserRecord)
      → HasSender u
      → HasSender (put_connection target c u)
  put_connection-HasSender target c u h = h

  call_answer-AllHaveSender :
      (m : Incoming) (ch : Channel) → AllHaveSender ch → AllHaveSender (call_answer w pick m ch)
  unfolding call_answer AllHaveSender send_noop_renegotiate
  call_answer-AllHaveSender m ch h = elim (Option-cases (lookup m.target ch.connections)) [
    | inl free ↦ λ name u there. ground (arith, h name u)
    | inr (target, has) ↦ elim (Option-cases (lookup m.source target.connections)) [
      | inl free ↦ λ name u there. ground (arith, h name u)
      | inr (c, found) ↦ λ name u there.
          let t = put_connection m.source (resurrect w pick c) target in
          ground (
            arith,
            h name u,
            h m.target target,
            put_user-AllHaveSender m.target t ch h (h m.target target has) name u,
          )
    ]
  ]

  module _ (r : Remote) (others : ℕ → Connection → Connection) where
    to_pipeline-AllHaveSender :
        (m : Incoming) (u : UserRecord) (ch : Channel)
        → AllHaveSender ch
        → AllHaveSender (to_pipeline w pick r others m u ch).1
    unfolding to_pipeline
    to_pipeline-AllHaveSender m u ch h =
        let c = sender_of w pick ch.pipeline u in
        let c' = (handle_signal w r others pick m.pcid m.raw c).1 in
        let put : (d : Connection) → AllHaveSender (put_user m.source (put_sender d u) ch) =
          λ d. put_user-AllHaveSender m.source (put_sender d u) ch h (put_sender-HasSender d u) in
        elim (Bool-cases w.channel_closed) [
          | inl shut ↦
              let e : (to_pipeline w pick r others m u ch).1
                  ≡ put_user m.source (put_sender c u) ch =
                ground arith in
              subst AllHaveSender (sym e) (put c)
          | inr running ↦
              let e : (to_pipeline w pick r others m u ch).1
                  ≡ put_user m.source (put_sender c' u) ch =
                ground arith in
              subst AllHaveSender (sym e) (put c')
        ]

    to_user-AllHaveSender :
        (m : Incoming) (u : UserRecord) (ch : Channel)
        → AllHaveSender ch
        → HasSender u
        → AllHaveSender (to_user w pick r others m u ch).1
    unfolding to_user
    to_user-AllHaveSender m u ch h has =
        let c = connection_to w pick m.target m.state u in
        let p = handle_signal w r others pick m.pcid m.raw c in
        let before = put_user m.source (put_connection m.target c u) ch in
        let behind = put_user m.source (put_connection m.target p.1 u) ch in
        let put : (d : Connection)
            → AllHaveSender (put_user m.source (put_connection m.target d u) ch) =
          λ d. put_user-AllHaveSender m.source (put_connection m.target d u) ch h has in
        elim (Bool-cases w.channel_closed) [
          | inl shut ↦
              let e : (to_user w pick r others m u ch).1 ≡ before = ground arith in
              subst AllHaveSender (sym e) (put c)
          | inr running ↦ elim (Bool-cases p.0.1) [
            | inl answered ↦
                let e : (to_user w pick r others m u ch).1 ≡ call_answer w pick m behind =
                  ground arith in
                subst AllHaveSender (sym e) (call_answer-AllHaveSender m behind (put p.1))
            | inr silent ↦
                let e : (to_user w pick r others m u ch).1 ≡ behind = ground arith in
                subst AllHaveSender (sym e) (put p.1)
          ]
        ]

    -- Where every user of a channel has a sender, it is so after any message, whatever comes of it.
    pub handle_message-AllHaveSender :
        (fresh : ℕ) (m : Incoming) (ch : Channel)
        → AllHaveSender ch
        → AllHaveSender (handle_message w pick r others fresh m ch).1
    unfolding handle_message
    handle_message-AllHaveSender fresh m ch h =
        let u = source_user w pick fresh m.source ch in
        let has = source_user-HasSender fresh m.source ch h in
        let ch' = put_user m.source u ch in
        let put = put_user-AllHaveSender m.source u ch h has in
        let same_channel = text_eq m.channel ch.channel in
        let result = (handle_message w pick r others fresh m ch).1 in
        elim (Bool-cases (ch.closed || not same_channel)) [
          | inl refused ↦ let e : result ≡ ch = ground arith in subst AllHaveSender (sym e) h
          | inr taken ↦ elim (Bool-cases u.closed) [
            | inl gone ↦ let e : result ≡ ch' = ground arith in subst AllHaveSender (sym e) put
            | inr there ↦ elim (Bool-cases (text_eq m.target ch.pipeline)) [
              | inl up ↦
                  let e : result ≡ (to_pipeline w pick r others m u ch').1 = ground arith in
                  subst AllHaveSender (sym e) (to_pipeline-AllHaveSender m u ch' put)
              | inr down ↦
                  let e : result ≡ (to_user w pick r others m u ch').1 = ground arith in
                  subst AllHaveSender (sym e) (to_user-AllHaveSender m u ch' put has)
            ]
          ]
        ]
