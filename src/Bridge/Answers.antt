-- ===== src/Bridge/Answers.antt =====
-- What the handlers of the HTTP API answer.
use kwmbridge.Base.{
  ℕ, ◌+◌, ◌≡◌, ◌≢◌, ◌⊎◌, ◌∙◌, append_assoc, refl, subst, inl, inr, Bool, true, false, ◌||◌, none,
  some, List, [], ◌∷◌, ◌++◌, arith, if◌then◌else◌, ltb, Bool-cases, Option-cases, Text, codes,
  text_eq_iff, is_empty, is_some, length, lookup, text_key,
}
use kwmbridge.Mcu.Client.{Client, AttachedRecord, Outside}
use kwmbridge.Mcu.Resource.{attached, new_attached_resource, bridge_http_handler}
use kwmbridge.Bridge.Api.{
  Error, error_body, plugin_answer, no_answer, Served, served, panicked, status_ok,
  status_not_found, is_not_found, write_error_as_json, write_item, Request, with_context,
  with_odata,
}
use kwmbridge.Bridge.Clients.{
  find_client, http_clients_handler, with_attached, http_clients_attached_handler, index, drop,
  plugin_path, http_clients_attached_bridge_handler,
}

-- One body was written, with the status.
abbrev pub IsAnswer : ℕ → Served → Type 0
IsAnswer status (served a) = (a.status ≡ some status) × (length a.bodies ≡ 1)
IsAnswer _ (panicked a) = ⊥

write_error_as_json-IsAnswer :
    (e : Error)
    → is_not_found e ≡ true
    → IsAnswer status_not_found (write_error_as_json e no_answer)
unfolding write_error_as_json
write_error_as_json-IsAnswer e h = rw h (refl, refl)

-- Asked for a client that it does not have, the handler writes the error with status 404 and then
-- panics, since it tests an interface that holds a nil pointer for nil.
pub http_clients_handler_unknown :
    (clients : List Client) (req : Request)
    → is_empty req.client_id ≡ false
    → find_client req.client_id clients ≡ none
    → with_odata (http_clients_handler clients) req
      ≡ panicked (record {
        status = some status_not_found;
        bodies =
            error_body
              (codes "ErrorMessageClientNotfound")
              (codes "The specified client was not found")
            ∷ [];
      })
unfolding with_odata http_clients_handler with_context write_error_as_json is_not_found write_item
http_clients_handler_unknown clients req named unknown = ground arith

-- Asked for all clients, or for one that it has, the handler writes one body with status 200.
pub http_clients_handler_known :
    (clients : List Client) (req : Request)
    → (is_empty req.client_id ≡ true) ⊎ (find_client req.client_id clients ≢ none)
    → IsAnswer status_ok (with_odata (http_clients_handler clients) req)
unfolding with_odata http_clients_handler with_context write_item
http_clients_handler_known clients req (inl all) = rw all (refl, refl)
http_clients_handler_known clients req (inr known) =
    elim (Option-cases (find_client req.client_id clients)) [
      | inl unknown ↦ absurd (known unknown)
      | inr (c, found) ↦ elim (Bool-cases (is_empty req.client_id)) [
        | inl all ↦ rw all (refl, refl)
        | inr one ↦ rw (one, found) (refl, refl)
      ]
    ]

module _ (w : Outside) where
  -- Whether a request names a client, and a transaction that is attached to it, if any.
  abbrev pub is_known : List Client → Request → Bool
  is_known clients req = elim (find_client req.client_id clients) [
    | none ↦ false
    | some c ↦ is_empty req.attached_id || is_some (lookup req.attached_id c.attached)
  ]

  -- The handler of attached plugins answers every request, with one body: with status 200 where
  -- the client is known and so is the transaction, if one is named, and with 404 elsewhere.
  pub http_clients_attached_handler_lem :
      (clients : List Client) (req : Request)
      → IsAnswer
          (if is_known clients req then status_ok else status_not_found)
          (with_odata (http_clients_attached_handler w clients) req)
  unfolding with_odata http_clients_attached_handler with_attached with_context attached write_item
      new_attached_resource is_not_found write_error_as_json
  http_clients_attached_handler_lem clients req =
      elim (Option-cases (find_client req.client_id clients)) [
        | inl unknown ↦ ground arith
        | inr (c, found) ↦ elim (Bool-cases (is_empty req.attached_id)) [
          | inl all ↦ ground arith
          | inr one ↦ elim (Option-cases (lookup req.attached_id c.attached)) [
            | inl gone ↦ ground arith
            | inr (r, has) ↦ ground arith
          ]
        ]
      ]

drop-append : (xs ys : Text) → drop (length xs) (xs ++ ys) ≡ ys
unfolding drop
drop-append [] ys = refl
drop-append (x ∷ xs) ys = drop-append xs ys

length-append : (xs ys : Text) → length (xs ++ ys) ≡ length xs + length ys
length-append [] ys = omega arith
length-append (x ∷ xs) ys = omega (arith, length-append xs ys)

-- The path that a plugin serves is what follows the first occurrence of its bridge in the path
-- of the request, and "/" where nothing follows.
pub plugin_path_lem :
    (before bridge_id rest : Text)
    → index (before ++ ((codes "/" ++ bridge_id) ++ rest)) (codes "/" ++ bridge_id)
      ≡ some (length before)
    → plugin_path bridge_id (before ++ ((codes "/" ++ bridge_id) ++ rest))
      ≡ some (if is_empty rest then codes "/" else rest)
unfolding plugin_path
plugin_path_lem before bridge_id rest first =
    let needle = codes "/" ++ bridge_id in
    let end = length before + length bridge_id + 1 in
    let path = before ++ (needle ++ rest) in
    let dropped : drop end path ≡ rest =
      subst (λ k. drop k path ≡ rest) (length-append before needle ∙ omega arith)
        (subst (λ p. drop (length (before ++ needle)) p ≡ rest) (append_assoc before needle rest)
          (drop-append (before ++ needle) rest)) in
    let long : ltb (length path) end ≡ false =
      ground (arith, length-append before (needle ++ rest), length-append needle rest) in
    rw (first, long, dropped) refl

module _ (w : Outside) where
  -- The handler of a bridge passes a request on to the plugin of an attached transaction, if the
  -- bridge is the plugin's and the plugin serves HTTP, with the path behind the bridge.
  pub http_clients_attached_bridge_handler_lem :
      (clients : List Client) (req : Request) (c : Client) (r : AttachedRecord) (path : Text)
      → find_client req.client_id clients ≡ some c
      → is_empty req.attached_id ≡ false
      → lookup req.attached_id c.attached ≡ some r
      → w.bridge r.plugin ≡ req.bridge_id
      → w.handles_http r.plugin ≡ true
      → plugin_path req.bridge_id req.path ≡ some path
      → with_odata (http_clients_attached_bridge_handler w clients) req
        ≡ served (record { status = some status_ok; bodies = plugin_answer r.plugin path ∷ [] })
  unfolding with_odata http_clients_attached_bridge_handler with_attached attached
      new_attached_resource bridge_http_handler
  http_clients_attached_bridge_handler_lem clients req c r path found one has own serves at =
      ground (arith, text_eq_iff (w.bridge r.plugin) req.bridge_id)

  -- Where the plugin is another bridge's, the answer is the error with status 404.
  pub http_clients_attached_bridge_handler_other :
      (clients : List Client) (req : Request) (c : Client) (r : AttachedRecord)
      → find_client req.client_id clients ≡ some c
      → is_empty req.attached_id ≡ false
      → lookup req.attached_id c.attached ≡ some r
      → w.bridge r.plugin ≢ req.bridge_id
      → IsAnswer status_not_found (with_odata (http_clients_attached_bridge_handler w clients) req)
  unfolding with_odata http_clients_attached_bridge_handler with_attached attached
      new_attached_resource is_not_found write_error_as_json
  http_clients_attached_bridge_handler_other clients req c r found one has other =
      ground (arith, text_eq_iff (w.bridge r.plugin) req.bridge_id)
