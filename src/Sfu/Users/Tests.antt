-- ===== src/Sfu/Users/Tests.antt =====
-- A hangup in a channel of two users, and the theorems at it.
use kwmbridge.Base.{
  ◌≡◌, refl, false, none, some, [], ◌∷◌, if◌then◌else◌, codes, text_eq, lookup, text_key,
}
use kwmbridge.Sfu.Connection.{Connection, new_connection}
use kwmbridge.Sfu.Users.{UserRecord, Channel, done, Hangup, handle_hangup}
use kwmbridge.Sfu.Users.Leaving.{kept, handle_hangup_lem}

abbrev alice : UserRecord
alice = record { number = 1; id = codes "alice"; closed = false; connections = []; publishers = [] }

-- Bob's connection to Alice, bound to her.
abbrev to_alice : Connection
to_alice = record (new_connection false 2 (codes "bob") (codes "alice") (codes "s") false) {
  bound = some 1;
}

abbrev bob : UserRecord
bob = record {
  number = 2;
  id = codes "bob";
  closed = false;
  connections = (codes "alice", to_alice) ∷ [];
  publishers = [];
}

abbrev channel : Channel
channel = record {
  closed = false;
  channel = codes "c";
  pipeline = codes "p";
  connections = (codes "alice", alice) ∷ (codes "bob", bob) ∷ [];
  removed = [];
  sent = [];
}

abbrev hangup : Hangup
hangup = record { channel = codes "c"; target = codes "p"; source = codes "alice" }

alice_listed : lookup (codes "alice") channel.connections ≡ some alice
unfolding lookup text_eq
alice_listed = refl

bob_listed : lookup (codes "bob") channel.connections ≡ some bob
unfolding lookup text_eq
bob_listed = refl

handle_hangup_lem_example :
    (let ((r, _), ch') = handle_hangup false hangup channel in
      (r ≡ done)
      × (lookup (codes "alice") ch'.connections ≡ none)
      × ((target' : UserRecord) × (lookup (codes "bob") ch'.connections ≡ some target')
          × (lookup (codes "alice") target'.connections ≡ (
              if text_eq (codes "alice") (codes "alice")
              then kept alice (lookup (codes "alice") bob.connections)
              else lookup (codes "alice") bob.connections))))
handle_hangup_lem_example =
    handle_hangup_lem false hangup channel alice bob (codes "bob") (codes "alice") refl refl refl
      alice_listed refl refl bob_listed (λ e. cc) refl
