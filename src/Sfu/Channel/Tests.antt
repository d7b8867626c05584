-- ===== src/Sfu/Channel/Tests.antt =====
-- A channel of a sender and a receiver, and the theorems on the workers at it.
use kwmbridge.Base.{
  ◌≡◌, refl, true, false, some, [], ◌∷◌, arith, codes, lookup, text_key, text_eq, ℕ_key,
}
use kwmbridge.Sfu.Types.{ok, TrackRecord}
use kwmbridge.Sfu.Samples.{world, camera, camera_of, fresh, live}
use kwmbridge.Sfu.Connection.{Connection, new_connection}
use kwmbridge.Sfu.Connection.Negotiation.{send}
use kwmbridge.Sfu.Connection.Transceivers.{request_missing_transceiver, add_transceiver}
use kwmbridge.Sfu.Connection.Tracks.{add_track, add_bound_track, find_codec, defer_track}
use kwmbridge.Sfu.Connection.Matched.{IsMatched}
use kwmbridge.Sfu.Users.{UserRecord, Channel}
use kwmbridge.Sfu.Channel.Messages.{default_publisher}
use kwmbridge.Sfu.Channel.Workers.{fill_tracks, take_track, take_receiver}
use kwmbridge.Sfu.Channel.Removal.{Forgets, take_track-Forgets}
use kwmbridge.Sfu.Channel.Filling.{Covers, take_receiver-Covers}

-- Bob's connection to Alice, with her camera, and one without.
abbrev to_alice : Connection
to_alice = record live { bound = some 1; id = codes "alice" }

abbrev new_to_alice : Connection
new_to_alice = record to_alice { tracks = []; senders = []; initiator = false }

abbrev sender : Connection
sender = record fresh { tracks = (1, camera) ∷ [] }

abbrev alice : UserRecord
alice = record {
  number = 1;
  id = codes "alice";
  closed = false;
  connections = [];
  publishers = (default_publisher, sender) ∷ [];
}

abbrev bob : UserRecord
bob = record {
  number = 2;
  id = codes "bob";
  closed = false;
  connections = (codes "alice", to_alice) ∷ [];
  publishers = [];
}

abbrev channel : Channel
channel = record {
  closed = false;
  channel = codes "c";
  pipeline = codes "p";
  connections = (codes "alice", alice) ∷ (codes "bob", bob) ∷ [];
  removed = [];
  sent = [];
}

abbrev withdrawn_camera : TrackRecord
withdrawn_camera = record (camera_of 1) { remove = true }

bob_listed : lookup (codes "bob") channel.connections ≡ some bob
unfolding lookup text_eq
bob_listed = refl

alice_listed : lookup (codes "alice") channel.connections ≡ some alice
unfolding lookup text_eq
alice_listed = refl

bob_connected : lookup (codes "alice") bob.connections ≡ some to_alice
unfolding lookup text_eq
bob_connected = refl

alice_publishes : lookup default_publisher alice.publishers ≡ some sender
unfolding lookup text_eq
alice_publishes = refl

to_alice-IsMatched : IsMatched to_alice
unfolding IsMatched lookup
to_alice-IsMatched ssrc = ground arith

take_track-Forgets_example :
    ((target' : UserRecord) × (c' : Connection) × (lookup
          (codes "bob")
          (take_track world (λ _. false) (codes "alice") withdrawn_camera channel).connections
        ≡ some target')
      × (lookup (codes "alice") target'.connections ≡ some c')
      × Forgets 11 c')
take_track-Forgets_example =
    take_track-Forgets world (λ _. false) (codes "alice") withdrawn_camera channel (codes "bob") bob
      to_alice refl refl bob_listed (λ e. ground arith) refl bob_connected refl to_alice-IsMatched
      refl

filled : (fill_tracks world 1 sender.rtcp_ch sender.tracks false new_to_alice).0 ≡ ok true
unfolding fill_tracks new_connection lookup add_track add_bound_track find_codec text_eq defer_track
    request_missing_transceiver add_transceiver send
filled = refl

take_receiver-Covers_example :
    (let c' = take_receiver world false false channel new_to_alice in
      Covers sender.tracks c'
      × (fill_tracks world 1 sender.rtcp_ch sender.tracks false c' ≡ (ok false, c')))
take_receiver-Covers_example =
    take_receiver-Covers world false true channel alice sender new_to_alice refl refl alice_listed
      alice_publishes filled
