-- ===== src/Sfu/Users/Leaving.antt =====
-- What a user that leaves takes along, and what stays.
use kwmbridge.Base.{
  ◌≡◌, ◌≢◌, refl, inl, inr, Bool, false, Option, none, some, List, [], ◌∷◌, arith, if◌then◌else◌,
  Text, Option-cases, text_eq, text_eq_iff, lookup, erase, lookup-erase, text_key,
}
use kwmbridge.Sfu.Connection.{Connection}
use kwmbridge.Sfu.Users.{
  UserRecord, Channel, done, already_closed, is_bound, withdraw, withdraw_all, close, Hangup,
  handle_hangup,
}

-- What a user has towards another after that one left: the connection that it had, unless that was
-- the leaving user's or nobody's.
abbrev pub kept : UserRecord → Option Connection → Option Connection
kept u none = none
kept u (some c) = if is_bound u.number c then none else some c

withdraw_lem :
    (ws_done : Bool) (u target : UserRecord) (name key : Text)
    → target.closed ≡ false
    → name ≢ u.id
    → lookup key (withdraw ws_done u name target).0.connections ≡ (
        if text_eq u.id key
        then kept u (lookup key target.connections)
        else lookup key target.connections)
unfolding withdraw
withdraw_lem ws_done u target name key live other =
    elim (Option-cases (lookup u.id target.connections)) [
      | inl free ↦ ground (arith, text_eq_iff name u.id, text_eq_iff u.id key)
      | inr (c, has) ↦ ground (
        arith,
        text_eq_iff name u.id,
        text_eq_iff u.id key,
        lookup-erase u.id key target.connections,
      )
    ]

-- Looking a user up after all users were visited.
pub lookup-withdraw_all :
    (ws_done : Bool) (u target : UserRecord) (name : Text) (users : List (Text × UserRecord))
    → lookup name users ≡ some target
    → lookup name (withdraw_all ws_done u users).0 ≡ some (withdraw ws_done u name target).0
unfolding withdraw_all lookup
lookup-withdraw_all ws_done u target name [] h = cc
lookup-withdraw_all ws_done u target name ((key, other) ∷ users) h =
    ground (arith, text_eq_iff key name, lookup-withdraw_all ws_done u target name users)

pub lookup-withdraw_all-none :
    (ws_done : Bool) (u : UserRecord) (name : Text) (users : List (Text × UserRecord))
    → lookup name users ≡ none
    → lookup name (withdraw_all ws_done u users).0 ≡ none
unfolding withdraw_all lookup
lookup-withdraw_all-none ws_done u name [] h = refl
lookup-withdraw_all-none ws_done u name ((key, other) ∷ users) h =
    ground (arith, lookup-withdraw_all-none ws_done u name users)

-- After the hangup of a user of the channel that is not closed, the channel does not list the user
-- any more. Every other user that is not closed is still listed and has the connections that it
-- had, without the one to the user that left, if that one was bound to the user or to nobody.
pub handle_hangup_lem :
    (ws_done : Bool) (m : Hangup) (ch : Channel) (u target : UserRecord) (name key : Text)
    → ch.closed ≡ false
    → m.channel ≡ ch.channel
    → m.target ≡ ch.pipeline
    → lookup m.source ch.connections ≡ some u
    → u.id ≡ m.source
    → u.closed ≡ false
    → lookup name ch.connections ≡ some target
    → name ≢ m.source
    → target.closed ≡ false
    → let ((r, _), ch') = handle_hangup ws_done m ch in
      (r ≡ done)
      × (lookup m.source ch'.connections ≡ none)
      × ((target' : UserRecord) × (lookup name ch'.connections ≡ some target')
          × (lookup key target'.connections ≡ (
              if text_eq m.source key
              then kept u (lookup key target.connections)
              else lookup key target.connections)))
unfolding handle_hangup close
handle_hangup_lem ws_done m ch u target name key running same_channel pipe has named live there
      other open_target =
    let users = erase m.source ch.connections in
    let gone : lookup m.source users ≡ none =
      ground
        (arith, text_eq_iff m.source m.source, lookup-erase m.source m.source ch.connections) in
    let found : lookup name users ≡ some target =
      ground (arith, text_eq_iff m.source name, lookup-erase m.source name ch.connections) in
    let own = text_eq_iff m.channel ch.channel in
    let piped = text_eq_iff m.target ch.pipeline in
    (
      ground (arith, own, piped),
      ground (arith, own, piped, lookup-withdraw_all-none ws_done u m.source users gone),
      (
        (withdraw ws_done u name target).0,
        ground (arith, own, piped, lookup-withdraw_all ws_done u target name users found),
        ground (arith, withdraw_lem ws_done u target name key open_target),
      ),
    )

-- A user record that is closed once is not closed again: the second close gives the error and
-- leaves the record and the channel as they are.
pub close-close :
    (ws_done : Bool) (u : UserRecord) (ch ch'' : Channel)
    → u.closed ≡ false
    → let ((r, u'), ch') = close ws_done u ch in
      (r ≡ done) × (close ws_done u' ch'' ≡ ((already_closed, u'), ch''))
unfolding close
close-close ws_done u ch ch'' live = ground arith
