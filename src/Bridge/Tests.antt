-- ===== src/Bridge/Tests.antt =====
-- Requests, and the theorems on their answers at them.
use kwmbridge.Base.{
  All, ◌≡◌, refl, true, false, is_some, none, some, List, [], ◌∷◌, Text, codes, text_eq, lookup,
  text_key,
}
use kwmbridge.Utils.Sdp.{has_prefix}
use kwmbridge.Mcu.Client.{
  AttachedRecord, Container, plugin_end, Client, Outside, not_text, normal_closure, reader_failed,
}
use kwmbridge.Mcu.Attach.{at}
use kwmbridge.Bridge.Manager.{Round, connector}
use kwmbridge.Bridge.Reconnects.{Spares, connector-keeps}
use kwmbridge.Bridge.Api.{error_body, panicked, status_not_found, Request, with_odata}
use kwmbridge.Bridge.Clients.{find_client, http_clients_handler, index, drop, plugin_path}
use kwmbridge.Bridge.Answers.{http_clients_handler_unknown}

abbrev world : Outside
world = record {
  parse = λ _. none;
  dial = λ _. true;
  answers_ping = true;
  factory = none;
  now = 8;
  bridge = λ _. codes "sfu";
  summary = λ _. none;
  handles_http = λ _. true;
}

abbrev attached_record : AttachedRecord
attached_record = record {
  when = 8;
  plugin = 3;
  message = record {
    message_type = codes "attach";
    transaction = codes "t";
    plugin = codes "p";
    handle = 1;
  };
}

abbrev client : Client
client = record {
  id = codes "m";
  base_uri = codes "https://h";
  ws = true;
  ws_cancel = true;
  attached = (codes "t", attached_record) ∷ [];
  log = [];
}

abbrev clients : List Client
clients = client ∷ []

abbrev request_for : Text → Text → Text → Request
request_for client_id attached_id bridge_id = record {
  client_id = client_id;
  attached_id = attached_id;
  bridge_id = bridge_id;
  path = codes "/m/t/sfu/x";
  odata = none;
}

no_such_client : find_client (codes "n") clients ≡ none
unfolding find_client text_eq
no_such_client = refl

client_found : find_client (codes "m") clients ≡ some client
unfolding find_client text_eq
client_found = refl

record_found : lookup (codes "t") client.attached ≡ some attached_record
unfolding lookup text_eq
record_found = refl

http_clients_handler_unknown_example :
    with_odata (http_clients_handler clients) (request_for (codes "n") [] [])
    ≡ panicked (record {
      status = some status_not_found;
      bodies =
          error_body
            (codes "ErrorMessageClientNotfound")
            (codes "The specified client was not found")
          ∷ [];
    })
http_clients_handler_unknown_example =
    http_clients_handler_unknown clients (request_for (codes "n") [] []) refl no_such_client

bridge_index : index (codes "/m/t/sfu/x") (codes "/sfu") ≡ some 4
unfolding index has_prefix
bridge_index = refl

bridge_path : plugin_path (codes "sfu") (codes "/m/t/sfu/x") ≡ some (codes "/x")
unfolding plugin_path index drop has_prefix
bridge_path = refl

abbrev other_message : Container
other_message = record {
  message_type = codes "attach";
  transaction = codes "u";
  plugin = codes "rtm";
  handle = 1;
}

-- Two connections: one whose websocket closes, and one that fails when the context is done. Two
-- plugins of another transaction end.
abbrev rounds : List Round
rounds =
    record {
      ended = (other_message, 4) ∷ [];
      reads = not_text ∷ plugin_end other_message 5 ∷ normal_closure ∷ [];
      done = false;
    }
    ∷ record { ended = []; reads = reader_failed ∷ []; done = true }
    ∷ []

abbrev reachable : Outside
reachable = record world {
  parse = λ _. some (record { scheme = codes "https"; rest = codes "//h" });
}

attached_some : is_some (at (codes "t") client) ≡ true
unfolding lookup text_eq
attached_some = refl

others_end : All (Spares (codes "t")) rounds
unfolding text_eq
others_end = (((refl, tt), (refl, (refl, (refl, tt)))), ((tt, (refl, tt)), tt))

connector-keeps_example : is_some (at (codes "t") (connector reachable rounds client)) ≡ true
connector-keeps_example =
    connector-keeps reachable rounds (codes "t") client others_end attached_some
