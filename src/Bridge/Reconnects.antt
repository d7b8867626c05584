-- ===== src/Bridge/Reconnects.antt =====
-- bridge/mcuc/manager.go: which clients the manager has, and what a client keeps when it connects
-- again.
use kwmbridge.Base.{
  ℕ, All, text_eq, ◌≡◌, refl, true, false, Option, none, some, List, [], ◌∷◌, ◌++◌, map, arith, ap,
  sym, Text, codes, is_some, Option-cases, inl, inr, append_assoc, append-nil,
}
use kwmbridge.Utils.{Url, as_websocket_url}
use kwmbridge.Mcu.Client.{
  Client, Container, Outside, Outcome, plugin_ended, Read, new_client, start, read_pump, at_path,
  connected, disconnect,
}
use kwmbridge.Mcu.Attach.{at, ends_at, plugin_ended-keeps, read_pump-keeps}
use kwmbridge.Bridge.Manager.{
  is_kwm_address, connect, connect_all, new_manager, Round, end_plugins, connector,
}

-- All are addresses of kwm servers.
abbrev pub AreAddresses : List Url → Type 0
AreAddresses [] = Unit {0}
AreAddresses (uri ∷ uris) = (is_kwm_address uri ≡ true) × AreAddresses uris

module _ (guid string_of : Url → Text) where
  -- The client of an address.
  abbrev pub client_at : Url → Client
  client_at uri = record {
    id = guid uri;
    base_uri = string_of uri ++ codes "/api/kwm/v2/mcu";
    ws = false;
    ws_cancel = false;
    attached = [];
    log = [];
  }

  connect_all_good :
      (front rest : List Url) (clients : List Client)
      → AreAddresses front
      → connect_all guid string_of (front ++ rest) clients
        ≡ connect_all guid string_of rest (clients ++ map client_at front)
  unfolding connect_all connect new_client
  connect_all_good [] rest clients h =
      ap (λ x. connect_all guid string_of rest x) (sym (append-nil clients))
  connect_all_good (uri ∷ front) rest clients (h, hs) =
      let next = clients ++ (client_at uri ∷ []) in
      ground (
        arith,
        connect_all_good front rest next hs,
        append_assoc clients (client_at uri ∷ []) (map client_at front),
      )

  -- Where all addresses are those of kwm servers, the manager has a client for each, in order, and
  -- each is started. At the first that is not, NewManager fails, and the clients of the addresses
  -- before it have been started.
  pub new_manager_lem :
      (front rest : List Url) (bad : Url)
      → AreAddresses front
      → is_kwm_address bad ≡ false
      → (new_manager guid string_of front ≡ (some (map client_at front), map client_at front))
        × (new_manager guid string_of (front ++ (bad ∷ rest)) ≡ (none, map client_at front))
  unfolding new_manager
  new_manager_lem front rest bad good other = (
    ground (arith, connect_all_good front [] [] good, append-nil front),
    ground (arith, connect_all_good front (bad ∷ rest) [] good),
  )

-- No plugin that came with a message of the transaction ends in the round.
abbrev pub Spares : Text → Round → Type 0
Spares t r =
    All (λ (e : Container × ℕ). text_eq e.0.transaction t ≡ false) r.ended
    × All (λ (e : Read). ends_at t e ≡ false) r.reads

end_plugins-keeps :
    (t : Text) (l : List (Container × ℕ)) (c : Client)
    → All (λ (e : Container × ℕ). text_eq e.0.transaction t ≡ false) l
    → at t (end_plugins l c) ≡ at t c
unfolding end_plugins
end_plugins-keeps t [] c h = refl
end_plugins-keeps t ((message, plugin) ∷ rest) c (other, others) = ground (
  arith,
  end_plugins-keeps t rest (plugin_ended message plugin c) others,
  plugin_ended-keeps t message plugin c other,
)

module _ (w : Outside) where
  disconnect-same : (x : Option Outcome × Client) → (disconnect w x).1.attached ≡ x.1.attached
  disconnect-same (none, c) = refl
  disconnect-same (some o, c) = refl

  start-keeps :
      (reads : List Read) (t : Text) (c : Client)
      → All (λ (r : Read). ends_at t r ≡ false) reads
      → is_some (at t c) ≡ true
      → is_some (at t (start w reads c).1) ≡ true
  unfolding start
  start-keeps reads t c others h = elim (Option-cases (as_websocket_url w.parse c.base_uri)) [
    | inl bad ↦ ground (arith, bad)
    | inr (base, parsed) ↦
        let uri = at_path (codes "/websocket") base in
        let x = read_pump w reads (connected w uri c) in
        ground
          (arith, parsed, read_pump-keeps w reads t (connected w uri c) others, disconnect-same x)
  ]

  -- However often a client connects again, and whatever its connections deliver, a transaction to
  -- which a plugin is attached has one afterwards, where no goroutine of a plugin that was attached
  -- to the transaction ends meanwhile. Plugins of other transactions may end at any time.
  pub connector-keeps :
      (rounds : List Round) (t : Text) (c : Client)
      → All (Spares t) rounds
      → is_some (at t c) ≡ true
      → is_some (at t (connector w rounds c)) ≡ true
  unfolding connector
  connector-keeps [] t c others h = h
  connector-keeps (r ∷ rounds) t c ((before, during), others) h =
      let waited = end_plugins r.ended c in
      let kept : is_some (at t waited) ≡ true = rw (end_plugins-keeps t r.ended c before) h in
      let kept' = start-keeps r.reads t waited during kept in
      ground (arith, kept', connector-keeps rounds t (start w r.reads waited).1 others kept')
