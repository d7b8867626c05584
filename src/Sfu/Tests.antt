-- ===== src/Sfu/Tests.antt =====
-- Connections in use, and the theorems at them.
use kwmbridge.Base.{
  ◌+◌, ◌++◌, ◌≤◌, ◌≡◌, refl, true, false, not, ◌&&◌, none, some, List, [], ◌∷◌, arith,
  if◌then◌else◌, codes, lookup, ℕ_key,
}
use kwmbridge.Sfu.Types.{cancelled}
use kwmbridge.Sfu.Samples.{world, camera, live}
use kwmbridge.Sfu.Connection.{
  Connection, stopped, peer_effects, close_rtcp, end_effects, new_connection, reset,
}
use kwmbridge.Sfu.Connection.Negotiation.{on_stable}
use kwmbridge.Sfu.Connection.Protocol.{requests}
use kwmbridge.Sfu.Connection.Runs.{need, unlock, stable, Event, run, endings, run_requests_lem}
use kwmbridge.Sfu.Connection.Queue.{Started, on_stable_queued}
use kwmbridge.Sfu.Connection.Matched.{IsMatched}
use kwmbridge.Sfu.Connection.Reset.{reset-new_connection}

abbrev waiting : Connection
waiting = record live { is_negotiating = true; queued_negotiation = true }

idle : live.is_negotiating ≡ false
unfolding new_connection
idle = refl

alive : waiting.ctx_done ≡ false
unfolding new_connection
alive = refl

abbrev asking : List Event
asking = need ∷ unlock false ∷ need ∷ unlock false ∷ stable false 5 ∷ []

run_requests_lem_example :
    requests (run world asking live).log ≤ requests live.log + endings asking + 1
run_requests_lem_example = run_requests_lem world asking live idle

on_stable_queued_example : Started world waiting (on_stable world false 5 waiting)
on_stable_queued_example =
    on_stable_queued world false 5 waiting ((λ m. refl), (λ pc e. ground arith), (λ pc sdp. refl))
      refl alive refl refl refl

live-IsMatched : IsMatched live
unfolding IsMatched lookup
live-IsMatched ssrc = ground arith

has_camera : lookup 11 live.tracks ≡ some camera
unfolding lookup
has_camera = refl

has_sender : lookup 11 live.senders ≡ some 9
unfolding lookup
has_sender = refl

reset-new_connection_example :
    reset false waiting
    ≡ record (new_connection false 1 (codes "alice") (codes "bob") (codes "s") true) {
      initiator = waiting.initiator;
      guid = waiting.guid;
      rtp_payload_types = waiting.rtp_payload_types;
      webrtc_media = if true && not waiting.initiator then none else some 1;
      webrtc_api = if true && not waiting.initiator then false else waiting.webrtc_api;
      jitter_buffer = stopped;
      log =
          waiting.log
          ++ (cancelled
              ∷ (peer_effects waiting ++ (close_rtcp waiting.rtcp_ch ++ end_effects waiting)));
    }
unfolding new_connection
reset-new_connection_example = reset-new_connection false waiting
