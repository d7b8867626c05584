-- ===== src/Sfu/Plugin/Tests.antt =====
-- A run of the pump, and the theorems on the plugin at it.
use kwmbridge.Base.{◌≡◌, refl, true, false, none, some, List, [], ◌∷◌, arith, codes, text_key}
use kwmbridge.Sfu.Samples.{world, remote, offer_signal, unchanged}
use kwmbridge.Sfu.Users.{UserRecord, Channel}
use kwmbridge.Sfu.Channel.Messages.{Incoming}
use kwmbridge.Sfu.Plugin.{
  webrtc_channel, Subtype, Json, Surroundings, Read, text_frame, read_closed, Plugin, mcu_forward,
  webrtc_type, empty_channel, read_pump, stop,
}
use kwmbridge.Sfu.Plugin.Pump.{SendersKnown, HasChannel, read_pump-SendersKnown}
use kwmbridge.Sfu.Plugin.Stopping.{AllClosed, stop_closes}

abbrev from_alice : Incoming
from_alice = record {
  channel = codes "c";
  target = codes "p";
  source = codes "alice";
  hash = [];
  state = [];
  pcid = [];
  raw = [];
}

-- Each message is parsed as one of the subtype.
abbrev json : Subtype → Json
json t = record {
  type_of = λ _. some webrtc_type;
  webrtc_of = λ _. some (record { subtype = t; message = from_alice });
  channel_extra_of = λ _. some (some (record { name = codes "p"; mode = mcu_forward }));
}

abbrev around : Surroundings
around = record {
  outside = world;
  remote = remote offer_signal;
  others = unchanged;
  pick = false;
  fresh = 1;
}

abbrev reads : List (Surroundings × Read)
reads = (around, text_frame []) ∷ (around, text_frame []) ∷ (around, read_closed) ∷ []

abbrev new_plugin : Plugin
new_plugin = record { channel = none; cancelled = false }

abbrev plugin_in_use : Plugin
plugin_in_use = record new_plugin { channel = some (empty_channel (codes "c") (codes "p")) }

new_plugin-SendersKnown : SendersKnown new_plugin
unfolding SendersKnown
new_plugin-SendersKnown ch h = ground arith

read_pump-SendersKnown_example : SendersKnown (read_pump (json webrtc_channel) reads new_plugin).1
read_pump-SendersKnown_example =
    read_pump-SendersKnown (json webrtc_channel) reads new_plugin new_plugin-SendersKnown

plugin_in_use-HasChannel : HasChannel (codes "c") (codes "p") plugin_in_use
unfolding HasChannel
plugin_in_use-HasChannel = (empty_channel (codes "c") (codes "p"), refl, (refl, refl))

abbrev alice : UserRecord
alice = record { number = 1; id = codes "alice"; closed = false; connections = []; publishers = [] }

abbrev channel : Channel
channel = record (empty_channel (codes "c") (codes "p")) {
  connections = (codes "alice", alice) ∷ [];
}

stop_closes_example : ((stop true channel).closed ≡ true) × AllClosed (stop true channel)
stop_closes_example = stop_closes true channel refl
