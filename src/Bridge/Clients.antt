-- ===== src/Bridge/Clients.antt =====
-- bridge/mcuc: the manager's clients, and the handlers of the HTTP API.
use kwmbridge.Base.{
  ℕ, zero, suc, ◌+◌, ltb, not, ◌&&◌, Option, none, some, List, [], ◌∷◌, ◌++◌, map, if◌then◌else◌,
  ◌==◌, Text, codes, text_eq, is_empty, length,
}
use kwmbridge.Utils.Sdp.{has_prefix}
use kwmbridge.Mcu.Client.{Client, Outside}
use kwmbridge.Mcu.Resource.{resource, AttachedResource, attached, bridge_http_handler}
use kwmbridge.Bridge.Api.{
  Error, coded, err_not_found, client_item, attached_item, client_collection, attached_collection,
  plugin_answer, Answer, no_answer, Served, served, panicked, write_body, write_error_as_json,
  write_item, Request, with_context,
}

-- The loop of getClientResourceOrWriteError.
unfoldable pub find_client : Text → List Client → Option Client
find_client id [] = none
find_client id (c ∷ clients) =
    let later = find_client id clients in if text_eq c.id id then some c else later

abbrev pub client_not_found : Error
client_not_found =
    coded (codes "ErrorMessageClientNotfound") (codes "The specified client was not found")
      err_not_found

abbrev transaction_not_found : Error
transaction_not_found =
    coded (codes "ErrorMessageClientTransactionNotfound")
      (codes "The specified transaction is not attached") err_not_found

abbrev bridge_not_found : Error
bridge_not_found =
    coded (codes "ErrorMessageBridgeNotfound")
      (codes "The specified bridge is not valid for this transaction") err_not_found

abbrev bridge_unsupported : Error
bridge_unsupported =
    coded (codes "ErrorMessageBridgeUnsupported")
      (codes "The specified bridge does not support this API") err_not_found

-- What a handler does next, on the answer so far.
abbrev and_then : Served → (Answer → Served) → Served
and_then (served a) k = k a
and_then (panicked a) k = panicked a

-- HTTPClientsHandler. For a client that is not found, its `resource` is an interface that holds a
-- nil pointer, which is not nil: the handler goes on after the error is written.
unfoldable pub http_clients_handler : List Client → Request → Served
http_clients_handler clients req =
    if is_empty req.client_id
    then with_context req (λ context.
      served (write_body (client_collection context (map resource clients)) no_answer))
    else elim (find_client req.client_id clients) [
      | none ↦ and_then (write_error_as_json client_not_found no_answer) (λ a.
          elim (with_context req (λ _. served a)) [
            | served a' ↦ write_item none a'
            | panicked _ ↦ panicked a
          ])
      | some c ↦
          with_context req
            (λ context. write_item (some (client_item context (resource c))) no_answer)
    ]

-- The client of a request, or the error written.
abbrev with_client : List Client → Request → (Client → Served) → Served
with_client clients req k = elim (find_client req.client_id clients) [
  | none ↦ write_error_as_json client_not_found no_answer
  | some c ↦ k c
]

abbrev shift : Option ℕ → Option ℕ
shift none = none
shift (some n) = some (suc n)

-- `strings.Index`
unfoldable pub index : Text → Text → Option ℕ
unfolding has_prefix
index [] needle = if is_empty needle then some 0 else none
index (c ∷ text) needle =
    let later = shift (index text needle) in if has_prefix (c ∷ text) needle then some 0 else later

unfoldable pub drop : ℕ → Text → Text
drop zero text = text
drop (suc n) [] = []
drop (suc n) (_ ∷ text) = drop n text

-- The end of the prefix, which is `idx+len(bridgeID)+1` with the index -1 where there is none.
abbrev prefix_end : Option ℕ → Text → ℕ
prefix_end none bridge_id = length bridge_id
prefix_end (some i) bridge_id = i + length bridge_id + 1

-- The path that the plugin serves, behind the prefix, or the panic of a slice that is too long.
unfoldable pub plugin_path : Text → Text → Option Text
unfolding index drop
plugin_path bridge_id path =
    let end = prefix_end (index path (codes "/" ++ bridge_id)) bridge_id in
    let rest = drop end path in
    if ltb (length path) end then none else some (if is_empty rest then codes "/" else rest)

module _ (w : Outside) where
  -- getAttachedResourceOrWriteError: the resources, or the error written.
  unfoldable pub with_attached : Client → Request → (List AttachedResource → Served) → Served
  with_attached c req k =
      let found = attached w c req.attached_id in
      if not (is_empty req.attached_id) && not (length found == 1)
      then write_error_as_json transaction_not_found no_answer
      else k found

  abbrev first_item : Text → List AttachedResource → Served
  first_item context [] = panicked no_answer
  first_item context (r ∷ _) = write_item (some (attached_item context r)) no_answer

  unfoldable pub http_clients_attached_handler : List Client → Request → Served
  http_clients_attached_handler clients req = with_client clients req (λ c.
      with_attached c req (λ found. with_context req (λ context.
        if is_empty req.attached_id
        then served (write_body (attached_collection context found) no_answer)
        else first_item context found)))

  abbrev pub serve_bridge : Request → AttachedResource → Served
  serve_bridge req a =
      if not (text_eq a.bridge req.bridge_id)
      then write_error_as_json bridge_not_found no_answer
      else elim (bridge_http_handler w a) [
        | none ↦ write_error_as_json bridge_unsupported no_answer
        | some plugin ↦ elim (plugin_path req.bridge_id req.path) [
          | none ↦ panicked no_answer
          | some path ↦ served (write_body (plugin_answer plugin path) no_answer)
        ]
      ]

  abbrev pub first_bridge : Request → List AttachedResource → Served
  first_bridge req [] = panicked no_answer
  first_bridge req (a ∷ _) = serve_bridge req a

  unfoldable pub http_clients_attached_bridge_handler : List Client → Request → Served
  http_clients_attached_bridge_handler clients req =
      with_client clients req (λ c. with_attached c req (first_bridge req))
