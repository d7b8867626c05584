-- ===== src/Sfu/Users.antt =====
-- rtmcsfu/userrecord.go, and hangups in channel.go: the users of a channel, and how one leaves it.
-- What UserRecord.close leaves to a goroutine runs here as one step. A user record is known by its
-- number, which the connection records that are bound to it hold. The connection records that a
-- close takes from other users are returned beside the users, since their logs go on.
pub mod Leaving
mod Tests
use kwmbridge.Base.{
  ℕ, Bool, true, false, Option, none, some, List, [], ◌∷◌, ◌++◌, map, if◌then◌else◌, ◌==◌, Text,
  text_eq, lookup, erase, text_key,
}
use kwmbridge.Sfu.Types.{Message}
use kwmbridge.Sfu.Connection.{Connection, reset}

pub record UserRecord : Type 0 where
  pub number : ℕ
  pub id : Text
  pub closed : Bool
  pub connections : List (Text × Connection)
  pub publishers : List (Text × Connection)

-- The part of a channel that hangups use; `pipeline` is the pipeline's name.
pub record Channel : Type 0 where
  pub closed : Bool
  pub channel : Text
  pub pipeline : Text
  pub connections : List (Text × UserRecord)
  pub removed : List Connection  -- the connection records taken from users that stay
  pub sent : List Message  -- the messages that the channel itself sends

-- NewUserRecord.
unfoldable pub new_user_record : ℕ → Text → UserRecord
new_user_record number id = record {
  number = number;
  id = id;
  closed = false;
  connections = [];
  publishers = [];
}

-- The results of a hangup.
pub data Result : Type 0 where
  done already_closed channel_closed channel_mismatch : Result

abbrev pub reset_entry : Bool → Text × Connection → Text × Connection
reset_entry ws_done (target, c) = (target, reset ws_done c)

-- Whether a connection is taken from a user when the user with the number leaves.
abbrev pub is_bound : ℕ → Connection → Bool
is_bound number c = elim c.bound [ none ↦ true | some source ↦ source == number ]

-- A round of the loop of close: the user under a key, and the connection that was taken from it.
unfoldable pub withdraw : Bool → UserRecord → Text → UserRecord → UserRecord × List Connection
withdraw ws_done u key target =
    if text_eq key u.id
    then (target, [])
    else if target.closed
    then (target, [])
    else elim (lookup u.id target.connections) [
      | none ↦ (target, [])
      | some c ↦
          if is_bound u.number c
          then (record target { connections = erase u.id target.connections }, reset ws_done c ∷ [])
          else (target, [])
    ]

unfoldable pub withdraw_all :
    Bool → UserRecord → List (Text × UserRecord) → List (Text × UserRecord) × List Connection
unfolding withdraw
withdraw_all ws_done u [] = ([], [])
withdraw_all ws_done u ((key, target) ∷ rest) =
    let (target', taken) = withdraw ws_done u key target in
    let (rest', more) = withdraw_all ws_done u rest in ((key, target') ∷ rest', taken ++ more)

-- close: the result, the record and the channel.
unfoldable pub close : Bool → UserRecord → Channel → (Result × UserRecord) × Channel
unfolding withdraw_all
close ws_done u ch =
    if u.closed
    then ((already_closed, u), ch)
    else (let (users, taken) = withdraw_all ws_done u ch.connections in
        (
          (
            done,
            record u {
              closed = true;
              publishers = map (reset_entry ws_done) u.publishers;
              connections = map (reset_entry ws_done) u.connections;
            },
          ),
          record ch { connections = users; removed = ch.removed ++ taken },
        ))

-- A hangup message: its channel, target and source.
pub record Hangup : Type 0 where
  pub channel : Text
  pub target : Text
  pub source : Text

abbrev gone : (Result × UserRecord) × Channel → (Result × Option UserRecord) × Channel
gone ((r, u), ch) = ((r, some u), ch)

-- handleWebRTCHangupMessage: the result, the user record that has left, if any, and the channel.
unfoldable pub handle_hangup : Bool → Hangup → Channel → (Result × Option UserRecord) × Channel
unfolding close
handle_hangup ws_done m ch =
    if ch.closed
    then ((channel_closed, none), ch)
    else if text_eq m.channel ch.channel
    then (if text_eq m.target ch.pipeline
        then (elim (lookup m.source ch.connections) [
          | none ↦ ((done, none), ch)
          | some u ↦
              gone (close ws_done u (record ch { connections = erase m.source ch.connections }))
        ])
        else ((done, none), ch))
    else ((channel_mismatch, none), ch)
