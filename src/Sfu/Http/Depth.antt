-- ===== src/Sfu/Http/Depth.antt =====
-- rtmcsfu/http.go: the resources of connections end where the pending tracks lead to no circle.
use kwmbridge.Base.{ℕ, zero, suc, ◌<◌, ◌≡◌, refl, Option, none, some, List, [], ◌∷◌, arith, Text}
use kwmbridge.Sfu.Types.{TrackRecord}
use kwmbridge.Sfu.Connection.{Connection}
use kwmbridge.Sfu.P2p.{P2pRecord}
use kwmbridge.Sfu.P2p.Controller.{Controller, Stream}
use kwmbridge.Sfu.Http.Resources.{Reads, string_of_rune}
use kwmbridge.Sfu.Http.Nested.{
  ◌>>=◌, ConnectionResource, null_connection, no_pending, null_record, pending_resources,
  new_p2p_record_resource, record_resources, stream_record, stream_resources,
  new_p2p_controller_resource, connection_resource,
}

-- The computation has a result.
abbrev pub Ends : {A : Type 0} → Option A → Type 0
Ends {A} o = (a : A) × (o ≡ some a)

pub >>=-Ends :
    {A B : Type 0} {m : Option A} {f : A → Option B}
    → Ends m
    → ((a : A) → Ends (f a))
    → Ends (m >>= f)
>>=-Ends {m = none} (a, e) h = absurd (cc)
>>=-Ends {m = some x} (a, e) h = h x

module _ (w : Reads) (rank : Connection → ℕ) where
  -- The connection behind a pointer, if any, is below the bound.
  abbrev pub IsBelow : ℕ → Option Connection → Type 0
  IsBelow n c = (d : Connection) → c ≡ some d → rank d < n

  abbrev pub AreBelow : ℕ → List (ℕ × TrackRecord) → Type 0
  AreBelow n [] = Unit {0}
  AreBelow n ((_, r) ∷ rest) = IsBelow n (w.connection_of r) × AreBelow n rest

  abbrev RecordBelow : ℕ → Option P2pRecord → Type 0
  RecordBelow n none = Unit {0}
  RecordBelow n (some p) = AreBelow n p.pending

  abbrev RecordsBelow : ℕ → List (Text × P2pRecord) → Type 0
  RecordsBelow n [] = Unit {0}
  RecordsBelow n ((_, p) ∷ rest) = AreBelow n p.pending × RecordsBelow n rest

  abbrev StreamsBelow : ℕ → List (Text × Stream) → Type 0
  StreamsBelow n [] = Unit {0}
  StreamsBelow n ((_, s) ∷ rest) = RecordBelow n (stream_record w s) × StreamsBelow n rest

  abbrev ControllerBelow : ℕ → Option Controller → Type 0
  ControllerBelow n none = Unit {0}
  ControllerBelow n (some c) =
      RecordsBelow n c.callbacks × StreamsBelow n c.streams × StreamsBelow n c.pending

  -- What waits in a connection, and in the records of its controller, comes from connections of a
  -- lower rank.
  abbrev pub Falls : Type 0
  Falls =
      (c : Connection) → AreBelow (rank c) c.pending × ControllerBelow (rank c) (w.controller_of c)

  -- What makes the resource of a connection ends on those below the bound.
  abbrev EndsBelow : (Text → Option Connection → Option ConnectionResource) → ℕ → Type 0
  EndsBelow at n = (key : Text) (c : Option Connection) → IsBelow n c → Ends (at key c)

  module _ (at : Text → Option Connection → Option ConnectionResource) (n : ℕ)
      (total : EndsBelow at n) where
    pending-Ends : (l : List (ℕ × TrackRecord)) → AreBelow n l → Ends (pending_resources w at l)
    unfolding pending_resources
    pending-Ends [] h = (no_pending, refl)
    pending-Ends ((key, r) ∷ rest) (h, hs) =
        >>=-Ends (total (string_of_rune key) (w.connection_of r) h)
          (λ c. >>=-Ends (pending-Ends rest hs) (λ more. (_, refl)))

    record-Ends :
        (key : Text) (p : Option P2pRecord)
        → RecordBelow n p
        → Ends (new_p2p_record_resource w at key p)
    unfolding new_p2p_record_resource
    record-Ends key none h = (null_record, refl)
    record-Ends key (some p) h = >>=-Ends (pending-Ends p.pending h) (λ waiting. (_, refl))

    records_end : (l : List (Text × P2pRecord)) → RecordsBelow n l → Ends (record_resources w at l)
    unfolding record_resources
    records_end [] h = (_, refl)
    records_end ((key, p) ∷ rest) (h, hs) =
        >>=-Ends (record-Ends key (some p) h)
          (λ r. >>=-Ends (records_end rest hs) (λ more. (_, refl)))

    streams_end : (l : List (Text × Stream)) → StreamsBelow n l → Ends (stream_resources w at l)
    unfolding stream_resources
    streams_end [] h = (_, refl)
    streams_end ((key, s) ∷ rest) (h, hs) =
        >>=-Ends (record-Ends [] (stream_record w s) h)
          (λ r. >>=-Ends (streams_end rest hs) (λ more. (_, refl)))

    controller-Ends :
        (c : Option Controller) → ControllerBelow n c → Ends (new_p2p_controller_resource w at c)
    unfolding new_p2p_controller_resource
    controller-Ends none h = (_, refl)
    controller-Ends (some c) (h, h', h'') = >>=-Ends (records_end c.callbacks h) (λ a.
        >>=-Ends (streams_end c.streams h')
          (λ b. >>=-Ends (streams_end c.pending h'') (λ d. (_, refl))))

  -- Where what waits in connections comes from connections of a lower rank, fuel above the rank of
  -- a connection is enough for its resource.
  pub connection_resource_total :
      (fuel : ℕ) (key : Text) (c : Option Connection)
      → Falls
      → IsBelow fuel c
      → Ends (connection_resource w (suc fuel) key c)
  unfolding connection_resource
  connection_resource_total fuel key none falls h = (null_connection, refl)
  connection_resource_total zero key (some c) falls h = let below = h c refl in absurd (omega arith)
  connection_resource_total (suc fuel) key (some c) falls h =
      let at = connection_resource w (suc fuel) in
      let within = h c refl in
      let inner : EndsBelow at (rank c) = λ k d below.
        connection_resource_total fuel k d falls (λ e is. let lower = below e is in omega arith) in
      >>=-Ends (controller-Ends at (rank c) inner (w.controller_of c) (falls c).1) (λ p2p.
        >>=-Ends (pending-Ends at (rank c) inner c.pending (falls c).0) (λ waiting. (_, refl)))
