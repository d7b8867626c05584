-- ===== src/Sfu/Plugin/Stopping.antt =====
-- channel.go: what Stop leaves of a channel.
use kwmbridge.Base.{
  ◌≡◌, refl, sym, subst, inl, inr, ◌⊎◌, Bool, true, false, some, List, [], ◌∷◌, arith, Text,
  Bool-cases, Option-cases, text_eq, text_eq_iff, is_some, lookup, lookup-insert, text_key,
}
use kwmbridge.Sfu.Users.{UserRecord, Channel, withdraw, close}
use kwmbridge.Sfu.Users.Leaving.{lookup-withdraw_all, lookup-withdraw_all-none}
use kwmbridge.Sfu.Channel.Messages.{put_user}
use kwmbridge.Sfu.Plugin.{stop_users, stop}

-- Every user that the channel lists is closed.
unfoldable pub AllClosed : Channel → Type 0
AllClosed ch =
    (name : Text) (u : UserRecord) → lookup name ch.connections ≡ some u → u.closed ≡ true

-- Every user of the channel is closed, or still to be visited.
unfoldable Closing : List (Text × UserRecord) → Channel → Type 0
Closing rest ch =
    (name : Text) (u : UserRecord)
    → lookup name ch.connections ≡ some u
    → (u.closed ≡ true) ⊎ (is_some (lookup name rest) ≡ true)

withdraw-closed :
    (ws_done : Bool) (u target : UserRecord) (name : Text)
    → (withdraw ws_done u name target).0.closed ≡ target.closed
unfolding withdraw
withdraw-closed ws_done u target name = elim (Option-cases (lookup u.id target.connections)) [
  | inl free ↦ ground arith
  | inr (c, has) ↦ ground arith
]

-- Whom the channel lists after a close, it listed before, and as closed as then.
close_lists :
    (ws_done : Bool) (u v : UserRecord) (name : Text) (ch : Channel)
    → lookup name (close ws_done u ch).1.connections ≡ some v
    → (t : UserRecord) × (lookup name ch.connections ≡ some t) × (v.closed ≡ t.closed)
unfolding close
close_lists ws_done u v name ch there = elim (Bool-cases u.closed) [
  | inl gone ↦ (v, ground arith, refl)
  | inr live ↦ elim (Option-cases (lookup name ch.connections)) [
    | inl free ↦
        (v, ground (arith, lookup-withdraw_all-none ws_done u name ch.connections free), refl)
    | inr (t, has) ↦ (
      t,
      has,
      ground (
        arith,
        lookup-withdraw_all ws_done u t name ch.connections has,
        withdraw-closed ws_done u t name,
      ),
    )
  ]
]

close_closes :
    (ws_done : Bool) (u : UserRecord) (ch : Channel) → (close ws_done u ch).0.1.closed ≡ true
unfolding close
close_closes ws_done u ch = ground arith

stop_users_closes :
    (ws_done : Bool) (rest : List (Text × UserRecord)) (ch : Channel)
    → Closing rest ch
    → AllClosed (stop_users ws_done rest ch)
unfolding stop_users Closing AllClosed lookup
stop_users_closes ws_done [] ch h = λ name u there. ground (arith, h name u there)
stop_users_closes ws_done ((key, first) ∷ rest) ch h =
    elim (Option-cases (lookup key ch.connections)) [
      | inl free ↦
          let visited : Closing rest ch =
            λ name u there. ground (arith, h name u there, text_eq_iff key name) in
          let e : stop_users ws_done ((key, first) ∷ rest) ch ≡ stop_users ws_done rest ch =
            ground arith in
          subst AllClosed (sym e) (stop_users_closes ws_done rest ch visited)
      | inr (u, has) ↦
          let p = close ws_done u ch in
          let ch' = put_user key p.0.1 p.1 in
          let visited : Closing rest ch' = λ name v there. elim (Bool-cases (text_eq key name)) [
            | inl same ↦ inl (
                ground
                  (arith, close_closes ws_done u ch, lookup-insert key name p.0.1 p.1.connections))
            | inr other ↦
                let before =
                  close_lists ws_done u v name ch
                    (ground (arith, lookup-insert key name p.0.1 p.1.connections)) in
                ground (arith, h name before.0 before.1, before)
          ] in
          let e : stop_users ws_done ((key, first) ∷ rest) ch ≡ stop_users ws_done rest ch' =
            ground arith in
          subst AllClosed (sym e) (stop_users_closes ws_done rest ch' visited)
    ]

everyone : (ch : Channel) → Closing ch.connections ch
unfolding Closing
everyone ch = λ name u there. inr (ground arith)

closed_alike : (ch : Channel) → AllClosed ch → AllClosed (record ch { closed = true })
unfolding AllClosed
closed_alike ch h = h

-- After the stop of a channel that is not closed, the channel is closed and so is every user that
-- it lists.
pub stop_closes :
    (ws_done : Bool) (ch : Channel)
    → ch.closed ≡ false
    → ((stop ws_done ch).closed ≡ true) × AllClosed (stop ws_done ch)
unfolding stop
stop_closes ws_done ch running =
    let all = stop_users_closes ws_done ch.connections ch (everyone ch) in
    let ch' = record (stop_users ws_done ch.connections ch) { closed = true } in
    let e : stop ws_done ch ≡ ch' = ground arith in
    subst (λ c. (c.closed ≡ true) × AllClosed c) (sym e)
      (refl, closed_alike (stop_users ws_done ch.connections ch) all)
