-- ===== src/Sfu/Channel/Hangups.antt =====
-- channel.go: the senders of users over a hangup.
use kwmbridge.Base.{
  ◌≡◌, inl, inr, Bool, some, List, arith, Text, Option-cases, lookup, erase, lookup-erase, text_key,
}
use kwmbridge.Sfu.Users.{UserRecord, Channel, withdraw, withdraw_all, close, Hangup, handle_hangup}
use kwmbridge.Sfu.Users.Leaving.{lookup-withdraw_all, lookup-withdraw_all-none}
use kwmbridge.Sfu.Channel.Senders.{HasSender, AllHaveSender}

withdraw-publishers :
    (ws_done : Bool) (u target : UserRecord) (name : Text)
    → (withdraw ws_done u name target).0.publishers ≡ target.publishers
unfolding withdraw
withdraw-publishers ws_done u target name = elim (Option-cases (lookup u.id target.connections)) [
  | inl free ↦ ground arith
  | inr (c, has) ↦ ground arith
]

withdraw_all-HasSender :
    (ws_done : Bool) (u v : UserRecord) (name : Text) (users : List (Text × UserRecord))
    → ((t : UserRecord) → lookup name users ≡ some t → HasSender t)
    → lookup name (withdraw_all ws_done u users).0 ≡ some v
    → HasSender v
withdraw_all-HasSender ws_done u v name users h there = elim (Option-cases (lookup name users)) [
  | inl free ↦ ground (arith, lookup-withdraw_all-none ws_done u name users free)
  | inr (t, has) ↦ ground (
    arith,
    lookup-withdraw_all ws_done u t name users has,
    withdraw-publishers ws_done u t name,
    h t has,
  )
]

pub handle_hangup-AllHaveSender :
    (ws_done : Bool) (m : Hangup) (ch : Channel)
    → AllHaveSender ch
    → AllHaveSender (handle_hangup ws_done m ch).1
unfolding handle_hangup close AllHaveSender
handle_hangup-AllHaveSender ws_done m ch h name v =
    let users = erase m.source ch.connections in
    let left : (t : UserRecord) → lookup name users ≡ some t → HasSender t =
      λ t has. ground (arith, lookup-erase m.source name ch.connections, h name t) in
    elim (Option-cases (lookup m.source ch.connections)) [
      | inl free ↦ ground (arith, h name v)
      | inr (u, has) ↦
          ground (arith, h name v, left v, withdraw_all-HasSender ws_done u v name users left)
    ]
