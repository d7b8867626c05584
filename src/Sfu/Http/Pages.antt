-- ===== src/Sfu/Http/Pages.antt =====
-- rtmcsfu/http.go: what the pages over a channel answer.
use kwmbridge.Base.{
  ℕ, suc, ◌<◌, ◌≤◌, ◌≡◌, refl, inl, inr, Bool, true, false, ◌||◌, Option, none, some, List, [], ◌∷◌,
  arith, if◌then◌else◌, Text, is_empty, is_some, length, lookup, text_key, text_eq, Bool-cases,
  Option-cases, codes,
}
use kwmbridge.Bridge.Api.{
  Served, served, panicked, status_ok, status_not_found, write_error_as_json, is_not_found,
  with_context,
}
use kwmbridge.Sfu.Connection.{Connection}
use kwmbridge.Sfu.Users.{UserRecord, Channel}
use kwmbridge.Sfu.Plugin.{Plugin}
use kwmbridge.Sfu.Http.Resources.{Reads, string_of_rune}
use kwmbridge.Sfu.Http.Depth.{Ends, >>=-Ends, Falls, connection_resource_total}
use kwmbridge.Sfu.Http.Handlers.{
  PageRequest, shown, connection_resources, show, http_channel_users_handler,
}

-- The numbers beyond the code points are all turned into the same text.
pub string_of_rune_same :
    (m n : ℕ) → 0x110000 ≤ m → 0x110000 ≤ n → string_of_rune m ≡ string_of_rune n
unfolding string_of_rune
string_of_rune_same m n h k = ground arith

-- One body was written, with the status.
abbrev pub IsPage : ℕ → Option Served → Type 0
IsPage status (some (served a)) = (a.status ≡ some status) × (length a.bodies ≡ 1)
IsPage status (some (panicked a)) = ⊥
IsPage status none = ⊥

-- Whether the channel has the user of a request, or all users are asked for.
abbrev pub is_known : Text → Option Channel → Bool
is_known user_id none = false
is_known user_id (some ch) = is_empty user_id || is_some (lookup user_id ch.connections)

-- The actions that the routes let through.
abbrev pub is_routed : Text → Bool
is_routed action =
    is_empty action || text_eq action (codes "publishers") || text_eq action (codes "connections")

module _ (w : Reads) (rank : Connection → ℕ) (fuel : ℕ) (falls : Falls w rank) where
  connection_resources_end :
      ((c : Connection) → rank c < fuel)
      → (l : List (Text × Connection)) → Ends (connection_resources w (suc fuel) l)
  unfolding connection_resources
  connection_resources_end low [] = ([], refl)
  connection_resources_end low ((key, c) ∷ rest) =
      >>=-Ends (connection_resource_total w rank fuel key (some c) falls (λ d e. low d))
        (λ r. >>=-Ends (connection_resources_end low rest) (λ more. (_, refl)))

  show-IsPage :
      (req : PageRequest) (context : Text) (u : UserRecord)
      → req.request.odata ≡ some context
      → is_routed req.action_id ≡ true
      → ((c : Connection) → rank c < fuel)
      → IsPage status_ok (show w (suc fuel) req u (shown req.action_id u))
  unfolding show shown with_context
  show-IsPage req context u within routed low =
      let (l, done) = connection_resources_end low u.publishers in
      let (l', done') = connection_resources_end low u.connections in
      elim (Bool-cases (is_empty req.action_id)) [
        | inl e ↦ rw e (refl, refl)
        | inr e ↦ elim (Bool-cases (text_eq req.action_id (codes "publishers"))) [
          | inl e' ↦ rw (e, e') (rw done (rw within (refl, refl)))
          | inr e' ↦ elim (Bool-cases (text_eq req.action_id (codes "connections"))) [
            | inl e'' ↦ rw (e, e', e'') (rw done' (rw within (refl, refl)))
            | inr e'' ↦ absurd (ground (arith, routed))
          ]
        ]
      ]

  -- Where what waits in connections comes from connections of a lower rank, which is below the
  -- fuel, a request that has its OData context and an action which the routes of a channel's users
  -- let through always gets one body: with status 200 where the plugin has a channel and the channel
  -- has the user, or all users are asked for, and with status 404 otherwise.
  pub http_channel_users_handler-IsPage :
      (p : Plugin) (req : PageRequest) (context : Text)
      → req.request.odata ≡ some context
      → is_routed req.action_id ≡ true
      → ((c : Connection) → rank c < fuel)
      → IsPage
          (if is_known req.user_id p.channel then status_ok else status_not_found)
          (http_channel_users_handler w (suc fuel) p req)
  unfolding http_channel_users_handler with_context write_error_as_json is_not_found
  http_channel_users_handler-IsPage p req context within routed low =
      elim (Option-cases p.channel) [
        | inl free ↦ rw free (refl, refl)
        | inr (ch, has) ↦ elim (Bool-cases (is_empty req.user_id)) [
          | inl all ↦ rw has (rw all (rw within (refl, refl)))
          | inr named ↦ elim (Option-cases (lookup req.user_id ch.connections)) [
            | inl unknown ↦ rw has (rw named (rw unknown (refl, refl)))
            | inr (u, found) ↦
                rw has (rw named (rw found (show-IsPage req context u within routed low)))
          ]
        ]
      ]
