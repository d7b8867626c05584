-- ===== src/Sfu/Plugin.antt =====
-- rtmcsfu/rtmcsfu.go: the plugin, which reads the messages of its websocket and passes them to its
-- channel; the checks of NewChannel; and Stop of channel.go. What a read of the websocket gives,
-- and what the parts of the handlers find around them, is handed to the pump read by read.
pub mod Pump
pub mod Stopping
pub mod Settings
mod Tests
use kwmbridge.Base.{
  ℕ, Bool, true, false, not, Option, none, some, ◌⊎◌, inl, inr, List, [], ◌∷◌, if◌then◌else◌, Text,
  codes, text_eq, lookup, text_key,
}
use kwmbridge.Sfu.Types.{Outside}
use kwmbridge.Sfu.Connection.{Connection}
use kwmbridge.Sfu.Connection.Signal.{Remote}
use kwmbridge.Sfu.Users.{UserRecord, Channel, close, Hangup, handle_hangup}
use kwmbridge.Sfu.Channel.Messages.{Incoming, put_user, handle_message}

pub data Subtype : Type 0 where
  webrtc_channel webrtc_signal webrtc_hangup webrtc_other : Subtype

-- An `api.RTMTypeWebRTC`.
pub record WebRtc : Type 0 where
  pub subtype : Subtype
  pub message : Incoming

-- An `api.RTMDataWebRTCChannelPipeline`.
pub record Pipeline : Type 0 where
  pub name : Text
  pub mode : Text

-- encoding/json on messages of the websocket; the type of a message is its envelope's. The data of
-- a channel message may have no pipeline.
pub record Json : Type 0 where
  pub type_of : Text → Option Text
  pub webrtc_of : Text → Option WebRtc
  pub channel_extra_of : Text → Option (Option Pipeline)

-- What a message finds around it: the arguments of the channel's handlers.
pub record Surroundings : Type 0 where
  pub outside : Outside
  pub remote : Remote
  pub others : ℕ → Connection → Connection
  pub pick : Bool
  pub fresh : ℕ

-- What a read of the websocket gives.
pub data Read : Type 0 where
  read_cancelled read_closed read_failed body_failed : Read
  text_frame binary_frame : Text → Read

pub data PluginError : Type 0 where
  already_have_channel channel_unparsed no_pipeline unsupported_mode no_channel : PluginError

-- How the pump ends: with nil, with an error, or not yet.
pub data End : Type 0 where
  ended_well read_error waiting : End
  message_error : PluginError → End

-- The state of a plugin; `cancelled` says whether its context is.
pub record Plugin : Type 0 where
  pub channel : Option Channel
  pub cancelled : Bool

-- What handleWebRTCHangupMessage reads of a message.
abbrev pub hangup_of : Incoming → Hangup
hangup_of m = record { channel = m.channel; target = m.target; source = m.source }

abbrev pub mcu_forward : Text
mcu_forward = codes "mcu-forward"

abbrev pub webrtc_type : Text
webrtc_type = codes "webrtc"

-- The channel that NewChannel makes.
abbrev pub empty_channel : Text → Text → Channel
empty_channel name pipeline = record {
  closed = false;
  channel = name;
  pipeline = pipeline;
  connections = [];
  removed = [];
  sent = [];
}

-- Summary: the name of the channel, if there is one.
unfoldable pub summary : Plugin → Option Text
summary p = elim p.channel [ none ↦ none | some ch ↦ some ch.channel ]

abbrev pub put_channel : Channel → Plugin → Plugin
put_channel ch p = record p { channel = some ch }

-- The loop of Stop: each user of the channel is closed.
unfoldable pub stop_users : Bool → List (Text × UserRecord) → Channel → Channel
stop_users ws_done [] ch = ch
stop_users ws_done ((name, _) ∷ rest) ch = elim (lookup name ch.connections) [
  | none ↦ stop_users ws_done rest ch
  | some u ↦
      let ((_, u'), ch') = close ws_done u ch in stop_users ws_done rest (put_user name u' ch')
]

-- Stop.
unfoldable pub stop : Bool → Channel → Channel
unfolding stop_users
stop ws_done ch =
    if ch.closed then ch else record (stop_users ws_done ch.connections ch) { closed = true }

-- Close: the plugin without its channel, and the channel that was stopped, if any.
unfoldable pub close_plugin : Plugin → Plugin × Option Channel
unfolding stop
close_plugin p = (
  record { channel = none; cancelled = true },
  elim p.channel [ none ↦ none | some ch ↦ some (stop true ch) ],
)

module _ (j : Json) where
  -- NewChannel up to its two workers.
  unfoldable pub new_channel : Incoming → PluginError ⊎ Channel
  new_channel m = elim (j.channel_extra_of m.raw) [
    | none ↦ inl channel_unparsed
    | some none ↦ inl no_pipeline
    | some (some pipeline) ↦
        if text_eq pipeline.mode mcu_forward
        then inr (empty_channel m.channel pipeline.name)
        else inl unsupported_mode
  ]

  -- The part of handleWebRTCMessage for a new channel.
  unfoldable pub take_channel : Incoming → Plugin → Option PluginError × Plugin
  unfolding new_channel
  take_channel m p = elim p.channel [
    | some ch ↦ (some already_have_channel, p)
    | none ↦ elim (new_channel m) [ inl e ↦ (some e, p) | inr ch ↦ (none, put_channel ch p) ]
  ]

  -- handleWebRTCMessage: the error, if any. What fails in a signal or hangup is only logged.
  unfoldable pub handle_webrtc : Surroundings → WebRtc → Plugin → Option PluginError × Plugin
  unfolding take_channel
  handle_webrtc s x p = elim x.subtype [
    | webrtc_channel ↦ take_channel x.message p
    | webrtc_signal ↦ elim p.channel [
      | none ↦ (some no_channel, p)
      | some ch ↦ (
        none,
        put_channel (handle_message s.outside s.pick s.remote s.others s.fresh x.message ch).1 p,
      )
    ]
    | webrtc_hangup ↦ elim p.channel [
      | none ↦ (none, p)
      | some ch ↦ (none, put_channel (handle_hangup s.outside.ws_done (hangup_of x.message) ch).1 p)
    ]
    | webrtc_other ↦ (none, p)
  ]

  -- A text message; one that cannot be parsed, or is of another type, is passed by.
  unfoldable pub take_text : Surroundings → Text → Plugin → Option PluginError × Plugin
  unfolding handle_webrtc
  take_text s body p = elim (j.type_of body) [
    | none ↦ (none, p)
    | some type ↦
        if text_eq type webrtc_type
        then (elim (j.webrtc_of body) [ none ↦ (none, p) | some x ↦ handle_webrtc s x p ])
        else (none, p)
  ]

  -- readPump, on the reads to come.
  unfoldable pub read_pump : List (Surroundings × Read) → Plugin → End × Plugin
  unfolding take_text
  read_pump [] p = (waiting, p)
  read_pump ((s, read_cancelled) ∷ rest) p = (ended_well, p)
  read_pump ((s, read_closed) ∷ rest) p = (ended_well, p)
  read_pump ((s, read_failed) ∷ rest) p = (read_error, p)
  read_pump ((s, body_failed) ∷ rest) p = (read_error, p)
  read_pump ((s, binary_frame body) ∷ rest) p = read_pump rest p
  read_pump ((s, text_frame body) ∷ rest) p =
      let q = take_text s body p in
      elim q.0 [ none ↦ read_pump rest q.1 | some e ↦ (message_error e, q.1) ]
