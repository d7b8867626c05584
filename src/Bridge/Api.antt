-- ===== src/Bridge/Api.antt =====
-- bridge/api-v0 and bridge/odata: requests, errors, resources and how they are written. An answer
-- is the status, once it is written, and the JSON values of the body; a panic ends the handler.
use kwmbridge.Base.{
  ℕ, Bool, true, false, not, ◌&&◌, Option, none, some, List, [], ◌∷◌, ◌++◌, if◌then◌else◌, Text,
  codes, is_empty,
}
use kwmbridge.Mcu.Resource.{ClientResource, AttachedResource}
use kwmbridge.Sfu.Http.Resources.{ChannelResource, ChannelUserResource}
use kwmbridge.Sfu.Http.Nested.{ConnectionResource}

-- Go's errors, as far as this code makes and reads them: nil, `ErrNotFound`, an error of another
-- package, and an ErrorWithCodeAndMessage with its inner error.
pub data Error : Type 0 where
  no_error err_not_found : Error
  foreign : Text → Error
  coded : Text → Text → Error → Error

-- `errors.Is(err, ErrNotFound)`, through Unwrap.
unfoldable pub is_not_found : Error → Bool
is_not_found no_error = false
is_not_found err_not_found = true
is_not_found (foreign _) = false
is_not_found (coded _ _ inner) = is_not_found inner

abbrev is_nil : Error → Bool
is_nil no_error = true
is_nil _ = false

-- The method Error; nil has none.
unfoldable pub error_text : Error → Text
error_text no_error = []
error_text err_not_found = codes "not found"
error_text (foreign text) = text
error_text (coded code message inner) =
    let inner_text = error_text inner in
    code ++ codes ": " ++ (if is_empty message && not (is_nil inner) then inner_text else message)

-- What a body holds.
pub data Body : Type 0 where
  error_body : Text → Text → Body  -- code and message
  client_item : Text → ClientResource → Body  -- with the OData context
  attached_item : Text → AttachedResource → Body
  client_collection : Text → List ClientResource → Body
  attached_collection : Text → List AttachedResource → Body
  plugin_answer : ℕ → Text → Body  -- the plugin that serves the rest, with its path
  root_item : Text → Bool → Option Text → Body  -- a RootResource: whether there is a channel
  channel_item : Text → ChannelResource → Body
  user_collection : Text → List ChannelUserResource → Body
  user_resource : ChannelUserResource → Body
  connection_collection : Text → List ConnectionResource → Body

pub record Answer : Type 0 where
  pub status : Option ℕ
  pub bodies : List Body

abbrev pub no_answer : Answer
no_answer = record { status = none; bodies = [] }

-- The end of a handler.
pub data Served : Type 0 where
  served panicked : Answer → Served

abbrev pub status_ok : ℕ
status_ok = 200

abbrev pub status_not_found : ℕ
status_not_found = 404

abbrev pub status_internal_server_error : ℕ
status_internal_server_error = 500

-- `WriteHeader`: the first status stays.
abbrev write_header : ℕ → Answer → Answer
write_header status a = elim a.status [ none ↦ record a { status = some status } | some _ ↦ a ]

-- A body that is written; the status is 200 where none was written.
abbrev pub write_body : Body → Answer → Answer
write_body b a = let a' = write_header status_ok a in record a' { bodies = a'.bodies ++ (b ∷ []) }

abbrev error_code_unspecified_error : Text
error_code_unspecified_error = codes "ErrorUnspecifiedError"

-- The body of WriteErrorAsJSON.
abbrev error_as_body : Error → Body
error_as_body (coded code message _) = error_body code message
error_as_body e =
    error_body error_code_unspecified_error (codes "unspecified error: " ++ error_text e)

unfoldable pub write_error_as_json : Error → Answer → Served
unfolding error_text
write_error_as_json e a =
    if is_not_found e
    then served (write_body (error_as_body e) (write_header status_not_found a))
    else if is_nil e
    then panicked a
    else served (write_body (error_as_body e) (write_header status_internal_server_error a))

-- A request: the variables of its route, which are empty where the route has none, its path and
-- the OData value of its context.
pub record Request : Type 0 where
  pub client_id : Text
  pub attached_id : Text
  pub bridge_id : Text
  pub path : Text
  pub odata : Option Text

-- The middleware WithOData.
unfoldable pub with_odata : (Request → Served) → Request → Served
with_odata next req = next (record req { odata = some req.path })

-- FromContext with what the resources make of it: a context without the value is a panic.
unfoldable pub with_context : Request → (Text → Served) → Served
with_context req k = elim req.odata [ none ↦ panicked no_answer | some context ↦ k context ]

-- WriteResourceAsJSON of an ItemResource, whose item may be a nil pointer: MarshalJSON asks
-- package reflect for its type, which is a panic.
unfoldable pub write_item : (Option Body) → Answer → Served
write_item none a = panicked a
write_item (some b) a = served (write_body b a)
