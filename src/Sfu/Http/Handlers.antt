-- ===== src/Sfu/Http/Handlers.antt =====
-- rtmcsfu/http.go: the handlers of the routes. A request has the variables of its route, which are
-- empty where the route has none. The pipeline of a channel is shown by its name. `none` says that
-- the fuel for nested resources was not enough.
use kwmbridge.Base.{
  ℕ, true, false, Option, none, some, List, [], ◌∷◌, map, if◌then◌else◌, Text, codes, text_eq,
  is_empty, length, lookup, text_key,
}
use kwmbridge.Bridge.Api.{
  Error, coded, err_not_found, root_item, channel_item, user_collection, user_resource,
  connection_collection, no_answer, Served, served, status_not_found, write_body,
  write_error_as_json, write_item, Request, with_context,
}
use kwmbridge.Sfu.Connection.{Connection}
use kwmbridge.Sfu.Users.{UserRecord}
use kwmbridge.Sfu.Plugin.{Plugin, summary}
use kwmbridge.Sfu.Http.Resources.{Reads, new_channel_user_resource}
use kwmbridge.Sfu.Http.Nested.{◌>>=◌, ConnectionResource, connection_resource}

pub record PageRequest : Type 0 where
  pub request : Request
  pub user_id : Text
  pub action_id : Text

abbrev pub no_channel_error : Error
no_channel_error =
    coded (codes "ErrorMessageNoChannel") (codes "The specified bridge has no channel")
      err_not_found

abbrev pub user_not_found : Error
user_not_found =
    coded (codes "ErrorMessageUserNotFoundInChannel")
      (codes "The specified user does not existin in the selected channel") err_not_found

-- HTTPRootHandler.
unfoldable pub http_root_handler : Plugin → PageRequest → Served
unfolding summary
http_root_handler p req = with_context req.request (λ context. elim (summary p) [
  | none ↦ write_item (some (root_item context false none)) no_answer
  | some name ↦ write_item (some (root_item context true (some name))) no_answer
])

-- What is found under an action: the user itself, a map of its connections, or nothing.
pub data Shown : Type 0 where
  the_user : Shown
  the_connections : List (Text × Connection) → Shown
  unknown_action : Shown

abbrev publishers_action : Text
publishers_action = codes "publishers"

abbrev connections_action : Text
connections_action = codes "connections"

unfoldable pub shown : Text → UserRecord → Shown
shown action u =
    if is_empty action
    then the_user
    else if text_eq action publishers_action
    then the_connections u.publishers
    else if text_eq action connections_action
    then the_connections u.connections
    else unknown_action

module _ (w : Reads) where
  -- HTTPChannelHandler.
  unfoldable pub http_channel_handler : Plugin → PageRequest → Served
  http_channel_handler p req = elim p.channel [
    | none ↦ write_error_as_json no_channel_error no_answer
    | some ch ↦ with_context req.request (λ context.
        write_item
          (some (
            channel_item context (record {
              when = w.channel_when;
              channel = ch.channel;
              group = w.channel_group;
              pipeline = ch.pipeline;
              user_count = length ch.connections;
            })))
          no_answer)
  ]

  -- The entries of a map of connections, each made into a resource.
  unfoldable pub connection_resources :
      ℕ → List (Text × Connection) → Option (List ConnectionResource)
  connection_resources fuel [] = some []
  connection_resources fuel ((key, c) ∷ rest) = do
    r ← connection_resource w fuel key (some c)
    more ← connection_resources fuel rest
    some (r ∷ more)

  unfoldable pub show : ℕ → PageRequest → UserRecord → Shown → Option Served
  unfolding connection_resources
  show fuel req u the_user =
      some
        (served (write_body (user_resource (new_channel_user_resource w req.user_id u)) no_answer))
  show fuel req u (the_connections l) = do
    found ← connection_resources fuel l
    some (
        with_context req.request
          (λ context. served (write_body (connection_collection context found) no_answer)))
  show fuel req u unknown_action =
      some (served (record { status = some status_not_found; bodies = [] }))

  -- HTTPChannelUsersHandler.
  unfoldable pub http_channel_users_handler : ℕ → Plugin → PageRequest → Option Served
  unfolding show shown
  http_channel_users_handler fuel p req = elim p.channel [
    | none ↦ some (write_error_as_json no_channel_error no_answer)
    | some ch ↦
        if is_empty req.user_id
        then some (
            with_context req.request (λ context. served (
              write_body
                (user_collection context (
                  map (λ (e : Text × UserRecord). new_channel_user_resource w e.0 e.1)
                    ch.connections))
                no_answer)))
        else elim (lookup req.user_id ch.connections) [
          | none ↦ some (write_error_as_json user_not_found no_answer)
          | some u ↦ show fuel req u (shown req.action_id u)
        ]
  ]
