-- ===== src/Bridge/Manager.antt =====
-- bridge/mcuc/manager.go, with kwm.NewClient of internal/kwm/client.go: the clients of the manager,
-- and the goroutine of each, which connects it again and again. `guid` and `string_of` stand for the
-- random identifier and the printed form of an address.
use kwmbridge.Base.{
  ℕ, Bool, true, ◌||◌, Option, none, some, List, [], ◌∷◌, ◌++◌, if◌then◌else◌, Text, codes, text_eq,
}
use kwmbridge.Utils.{Url}
use kwmbridge.Mcu.Client.{Client, Container, Outside, Read, new_client, plugin_ended, start}

-- Whether kwm.NewClient takes an address.
unfoldable pub is_kwm_address : Url → Bool
is_kwm_address uri = text_eq uri.scheme (codes "https") || text_eq uri.scheme (codes "http")

module _ (guid string_of : Url → Text) where
  -- connect, up to the goroutine that it starts.
  unfoldable pub connect : Url → Option Client
  unfolding is_kwm_address
  connect uri = if is_kwm_address uri then new_client (guid uri) (string_of uri) true else none

  -- The loop of NewManager: the clients of the manager, if it does not fail, and those whose
  -- goroutines were started.
  unfoldable pub connect_all : List Url → List Client → Option (List Client) × List Client
  unfolding connect
  connect_all [] clients = (some clients, clients)
  connect_all (uri ∷ uris) clients = elim (connect uri) [
    | none ↦ (none, clients)
    | some c ↦ connect_all uris (clients ++ (c ∷ []))
  ]

  unfoldable pub new_manager : List Url → Option (List Client) × List Client
  unfolding connect_all
  new_manager uris = connect_all uris []

-- A round of the goroutine: the plugins that end before it, each with the message that it came with,
-- what its connection gives, and whether the context is done when Start has returned.
pub record Round : Type 0 where
  pub ended : List (Container × ℕ)
  pub reads : List Read
  pub done : Bool

unfoldable pub end_plugins : List (Container × ℕ) → Client → Client
end_plugins [] c = c
end_plugins ((message, plugin) ∷ rest) c = end_plugins rest (plugin_ended message plugin c)

-- The goroutine of a client. A connection that has not ended yet ends the rounds.
unfoldable pub connector : Outside → List Round → Client → Client
unfolding end_plugins
connector w [] c = c
connector w (r ∷ rounds) c =
    let waited = end_plugins r.ended c in
    let c' = (start w r.reads waited).1 in
    let later = connector w rounds c' in
    elim (start w r.reads waited).0 [ none ↦ c' | some _ ↦ if r.done then c' else later ]
