-- ===== src/Mcu/Client.antt =====
-- internal/kwm/mcu/client.go: the client record and its handlers.
-- A plugin is known by a number. What a websocket delivers, and the ends of plugins between, is given
-- as a list of reads; `log` holds what the client does to its surroundings, in order.
use kwmbridge.Base.{
  ℕ, Bool, true, false, Option, none, some, List, [], ◌∷◌, ◌++◌, if◌then◌else◌, Text, codes,
  text_eq, is_some, lookup, insert, erase, text_key,
}
use kwmbridge.Utils.{Url, as_websocket_url}

-- `kwm.MCUTypeContainer`.
pub record Container : Type 0 where
  pub message_type : Text
  pub transaction : Text
  pub plugin : Text
  pub handle : ℕ

pub record AttachedRecord : Type 0 where
  pub when : ℕ
  pub plugin : ℕ
  pub message : Container

pub data Effect : Type 0 where
  dialled : Url → Effect
  created : ℕ → Effect  -- a plugin by the factory
  plugin_closed : ℕ → Effect
  cancelled : Effect  -- the context of the websocket

pub record Client : Type 0 where
  pub id : Text
  pub base_uri : Text
  pub ws : Bool  -- whether there is a websocket
  pub ws_cancel : Bool  -- whether the client was ever started
  pub attached : List (Text × AttachedRecord)
  pub log : List Effect

pub data Failure : Type 0 where
  bad_address dial_failed no_factory factory_failed read_failed no_connection ping_failed : Failure
  no_options : Failure

pub data Outcome : Type 0 where
  done : Outcome
  failed : Failure → Outcome

-- What lies outside: `url.Parse`, whether an address can be dialled or a websocket answers, the
-- factory of the options, the clock, and what a plugin says of itself.
pub record Outside : Type 0 where
  pub parse : Text → Option Url
  pub dial : Url → Bool
  pub answers_ping : Bool
  pub factory : Option (Container → Option ℕ)
  pub now : ℕ
  pub bridge : ℕ → Text
  pub summary : ℕ → Option Text
  pub handles_http : ℕ → Bool

-- What a read of the websocket gives: the end of the context, a close status, an error, an error
-- in the body, a message that is not text, or a text, parsed or not. While it waits, the goroutine of
-- a plugin may end, which came with a message.
pub data Read : Type 0 where
  context_canceled normal_closure reader_failed body_failed : Read
  not_text : Read
  text : Option Container → Read
  plugin_end : Container → ℕ → Read

-- NewClient; `options` says whether there are some.
unfoldable pub new_client : Text → Text → Bool → Option Client
new_client guid kwm_uri options =
    if options
    then some (record {
      id = guid;
      base_uri = kwm_uri ++ codes "/api/kwm/v2/mcu";
      ws = false;
      ws_cancel = false;
      attached = [];
      log = [];
    })
    else none

abbrev pub emit : Effect → Client → Client
emit e c = record c { log = c.log ++ (e ∷ []) }

-- The address with a path after it.
abbrev pub at_path : Text → Url → Url
at_path path u = record u { rest = u.rest ++ path }

-- The case detatch of handleWebsocketMessage.
unfoldable pub detatch : Container → Client → Outcome × Client
detatch message c = elim (lookup message.transaction c.attached) [
  | none ↦ (done, c)
  | some r ↦ (
    done,
    record (emit (plugin_closed r.plugin) c) { attached = erase message.transaction c.attached },
  )
]

-- The goroutine of a plugin, from where the plugin's Start returns: the plugin is closed, and
-- whatever is attached to the transaction is taken off.
unfoldable pub plugin_ended : Container → ℕ → Client → Client
plugin_ended message plugin c = record (emit (plugin_closed plugin) c) {
  attached = erase message.transaction c.attached;
}

unfoldable pub close : Client → Client
close c = if c.ws_cancel then emit cancelled c else c

module _ (w : Outside) where
  unfoldable pub attach_plugin : Container → Client → Outcome × Client
  attach_plugin message c = elim w.factory [
    | none ↦ (failed no_factory, c)
    | some factory ↦ elim (factory message) [
      | none ↦ (failed factory_failed, c)
      | some plugin ↦ (
        done,
        record (emit (created plugin) c) {
          attached =
              insert message.transaction
                (record { when = w.now; plugin = plugin; message = message }) c.attached;
        },
      )
    ]
  ]

  -- The case attach of handleWebsocketMessage.
  unfoldable pub attach : Container → Client → Outcome × Client
  unfolding as_websocket_url
  attach message c = elim (as_websocket_url w.parse c.base_uri) [
    | none ↦ (failed bad_address, c)
    | some base ↦
        let uri = at_path (codes "/websocket/" ++ message.transaction) base in
        if w.dial uri then attach_plugin message (emit (dialled uri) c) else (failed dial_failed, c)
  ]

  unfoldable pub handle_websocket_message : Container → Client → Outcome × Client
  handle_websocket_message message c =
      if text_eq message.message_type (codes "attach")
      then attach message c
      else if text_eq message.message_type (codes "detatch")
      then detatch message c
      else (done, c)

  -- The dispatch of readPump on the type of a message.
  unfoldable pub dispatch : Container → Client → Outcome × Client
  dispatch message c =
      if text_eq message.message_type (codes "attach")
      then handle_websocket_message message c
      else if text_eq message.message_type (codes "detach")
      then handle_websocket_message message c
      else (done, c)

  -- One round of readPump: whether the loop ends, with its result, and the client.
  unfoldable pub pump_step : Read → Client → Option Outcome × Client
  unfolding plugin_ended
  pump_step context_canceled c = (some done, c)
  pump_step normal_closure c = (some done, c)
  pump_step reader_failed c = (some (failed read_failed), c)
  pump_step body_failed c = (some (failed read_failed), c)
  pump_step not_text c = (none, c)
  pump_step (plugin_end message plugin) c = (none, plugin_ended message plugin c)
  pump_step (text none) c = (none, c)
  pump_step (text (some message)) c = elim (dispatch message c).0 [
    | done ↦ (none, (dispatch message c).1)
    | failed e ↦ (some (failed e), (dispatch message c).1)
  ]

  -- readPump over the reads so far: no result where it waits for the next one.
  unfoldable pub read_pump : List Read → Client → Option Outcome × Client
  read_pump [] c = (none, c)
  read_pump (r ∷ reads) c =
      let rest = read_pump reads (pump_step r c).1 in
      if is_some (pump_step r c).0 then pump_step r c else rest

  abbrev pub connected : Url → Client → Client
  connected uri c = record (emit (dialled uri) c) { ws = true; ws_cancel = true }

  abbrev pub disconnect : Option Outcome × Client → Option Outcome × Client
  disconnect (none, c) = (none, c)
  disconnect (some o, c) = (some o, record c { ws = false; log = c.log ++ (cancelled ∷ []) })

  -- Start, over the reads that the connection gives.
  unfoldable pub start : List Read → Client → Option Outcome × Client
  unfolding as_websocket_url
  start reads c = elim (as_websocket_url w.parse c.base_uri) [
    | none ↦ (some (failed bad_address), c)
    | some base ↦
        let uri = at_path (codes "/websocket") base in
        if w.dial uri
        then disconnect (read_pump reads (connected uri c))
        else (some (failed dial_failed), c)
  ]

  unfoldable pub ping : Client → Outcome
  ping c =
      if c.ws then if w.answers_ping then done else failed ping_failed else failed no_connection
