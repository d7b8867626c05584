-- ===== src/Sfu/Http/Tests.antt =====
-- The pages of a channel with one user, one of whose connections has a track that waits.
use kwmbridge.Base.{
  ℕ, ◌<◌, ◌≡◌, refl, true, false, none, some, List, [], ◌∷◌, arith, if◌then◌else◌, codes, text_key,
  text_eq,
}
use kwmbridge.Bridge.Api.{status_ok, status_not_found}
use kwmbridge.Sfu.Types.{TrackRecord}
use kwmbridge.Sfu.Samples.{camera_of, fresh, live}
use kwmbridge.Sfu.Connection.{Connection, new_connection}
use kwmbridge.Sfu.Users.{UserRecord}
use kwmbridge.Sfu.Plugin.{Plugin}
use kwmbridge.Sfu.Http.Resources.{Reads}
use kwmbridge.Sfu.Http.Depth.{AreBelow, Falls}
use kwmbridge.Sfu.Http.Handlers.{PageRequest, http_channel_users_handler}
use kwmbridge.Sfu.Http.Pages.{IsPage, is_known, is_routed, http_channel_users_handler-IsPage}

abbrev reads : Reads
reads = record {
  channel_when = 0;
  channel_group = codes "g";
  when = λ _. 0;
  user_of = λ _. none;
  connection_of = λ _. some fresh;
  jitter_buffer_of = λ _. none;
  p2p_jitter_buffer_of = λ _. none;
  controller_of = λ _. none;
  record_of = λ _. none;
  peer_of = λ _. record {
    id = codes "1";
    connection_state = codes "connected";
    signaling_state = codes "stable";
    ice_gathering_state = codes "complete";
    local_description = none;
    remote_description = none;
    stats = [];
  };
  kind_text = λ _. codes "video";
  sender_transport = λ _. none;
  sender_track = λ _. none;
  receiver_transport = λ _. none;
  receiver_track = λ _. none;
}

-- One for a connection with tracks that wait; they come from connections where none waits.
abbrev waiting_rank : List (ℕ × TrackRecord) → ℕ
waiting_rank [] = 0
waiting_rank (_ ∷ _) = 1

abbrev rank : Connection → ℕ
rank c = waiting_rank c.pending

fresh-lt : (d : Connection) → some fresh ≡ some d → rank d < 1
unfolding new_connection
fresh-lt d e = ground arith

abbrev waiting : Connection
waiting = record live { pending = (11, camera_of 1) ∷ [] }

abbrev bob : UserRecord
bob = record {
  number = 2;
  id = codes "bob";
  closed = false;
  connections = (codes "alice", waiting) ∷ [];
  publishers = [];
}

abbrev plugin : Plugin
plugin = record {
  cancelled = false;
  channel = some (record {
    closed = false;
    channel = codes "c";
    pipeline = codes "p";
    connections = (codes "bob", bob) ∷ [];
    removed = [];
    sent = [];
  });
}

abbrev page : PageRequest
page = record {
  user_id = codes "bob";
  action_id = codes "connections";
  request = record {
    client_id = [];
    attached_id = [];
    bridge_id = [];
    path = codes "/channel/users/bob/connections";
    odata = some (codes "o");
  };
}

waiting_low : (n : ℕ) (l : List (ℕ × TrackRecord)) → 0 < n → AreBelow reads rank n l
waiting_low n [] h = tt
waiting_low n (x ∷ l) h = ((λ d e. let low = fresh-lt d e in omega arith), waiting_low n l h)

reads_fall : (l : List (ℕ × TrackRecord)) → AreBelow reads rank (waiting_rank l) l
reads_fall [] = tt
reads_fall (x ∷ l) = (fresh-lt, waiting_low 1 l (omega arith))

reads-Falls : Falls reads rank
reads-Falls c = (reads_fall c.pending, tt)

waiting_rank-lt : (l : List (ℕ × TrackRecord)) → waiting_rank l < 2
waiting_rank-lt [] = omega arith
waiting_rank-lt (x ∷ l) = omega arith

connections_routed : is_routed page.action_id ≡ true
unfolding text_eq
connections_routed = refl

http_channel_users_handler-IsPage_example :
    IsPage
      (if is_known (codes "bob") plugin.channel then status_ok else status_not_found)
      (http_channel_users_handler reads 3 plugin page)
http_channel_users_handler-IsPage_example =
    http_channel_users_handler-IsPage reads rank 2 reads-Falls plugin page (codes "o") refl
      connections_routed (λ c. waiting_rank-lt c.pending)
