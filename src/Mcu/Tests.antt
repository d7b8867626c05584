-- ===== src/Mcu/Tests.antt =====
-- Runs of the client, and its theorems at them.
use kwmbridge.Base.{
  ◌≡◌, refl, true, none, some, List, [], ◌∷◌, Text, codes, text_eq, is_some, lookup, text_key,
}
use kwmbridge.Utils.{Url}
use kwmbridge.Mcu.Client.{Container, Client, Outside, Read, text, not_text, pump_step}
use kwmbridge.Mcu.Attach.{at, detach_ignored}

abbrev address : Url
address = record { scheme = codes "https"; rest = codes "//h" }

abbrev base : Url
base = record { scheme = codes "wss"; rest = codes "//h" }

abbrev world : Outside
world = record {
  parse = λ _. some address;
  dial = λ _. true;
  answers_ping = true;
  factory = some (λ _. some 4);
  now = 8;
  bridge = λ _. codes "sfu";
  summary = λ _. none;
  handles_http = λ _. true;
}

abbrev message_of : Text → Container
message_of type = record {
  message_type = type;
  transaction = codes "t";
  plugin = codes "p";
  handle = 1;
}

abbrev attaching : Container
attaching = message_of (codes "attach")

-- A client with the plugin 3 attached.
abbrev client : Client
client = record {
  id = codes "m";
  base_uri = codes "https://h";
  ws = true;
  ws_cancel = true;
  attached = (codes "t", record { when = 8; plugin = 3; message = attaching }) ∷ [];
  log = [];
}

detach_ignored_example :
    pump_step world (text (some (message_of (codes "detach")))) client ≡ (none, client)
detach_ignored_example = detach_ignored world (message_of (codes "detach")) client refl

abbrev reads : List Read
reads = text (some (message_of (codes "detach"))) ∷ not_text ∷ text none ∷ []

attached_some : is_some (at (codes "t") client) ≡ true
unfolding lookup text_eq
attached_some = refl
