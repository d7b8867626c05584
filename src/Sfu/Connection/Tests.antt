-- ===== src/Sfu/Connection/Tests.antt =====
-- The theorems on signals, at messages to a receiver, and on a sender's tracks, at a camera.
use kwmbridge.Base.{
  suc, ◌≡◌, refl, true, false, none, some, [], ◌∷◌, ◌++◌, arith, codes, text_eq, lookup, ℕ_key,
}
use kwmbridge.Sfu.Samples.{
  camera, media, remote_camera, fresh, world, live, receiver, offer_signal, request_signal, remote,
  unchanged,
}
use kwmbridge.Sfu.Types.{Track, track_change, ok, err, parse_failed, video}
use kwmbridge.Sfu.Connection.{Connection, new_connection, clear_peer_connection}
use kwmbridge.Sfu.Connection.Signal.{bind_remote, finish, note_codecs}
use kwmbridge.Sfu.Connection.Handler.{handle_signal, add_candidates}
use kwmbridge.Sfu.Connection.Answers.{answers}
use kwmbridge.Sfu.Connection.Offers.{offer_answered}
use kwmbridge.Sfu.Incoming.{Taken, taken}
use kwmbridge.Sfu.Connection.Incoming.{
  on_track, take_slot, with_slot, publication, publish, end_track,
}
use kwmbridge.Sfu.Connection.Publishing.{
  IsPublishing, arrives, ends, clears, start, next, Life-IsPublishing,
}
use kwmbridge.Sfu.Connection.Ended.{end_track_stale}
use kwmbridge.Sfu.Connection.Signals.{transceiver_request_refused, changed_offer_lost}

all_taken :
    add_candidates world (remote offer_signal) unchanged 5 receiver.pending_candidates ≡ true
unfolding new_connection add_candidates
all_taken = refl

offer_answered_example :
    (let p = handle_signal world (remote offer_signal) unchanged false (codes "q") [] receiver in
      (p.0 ≡ (ok tt, true)) × (answers p.1.log ≡ suc (answers receiver.log)) × (p.1.pc ≡ some 5))
offer_answered_example =
    offer_answered world (remote offer_signal) unchanged false [] (codes "v=0") offer_signal
      receiver 5 1 (λ k d. refl)
      (((λ m. refl), (λ e. ground arith), (λ sdp. refl)), refl, all_taken) refl refl refl
      (refl, refl, refl, refl, refl) refl refl refl

abbrev starter : Connection
starter = record live { initiator = true }

starts : (bind_remote [] starter).initiator ≡ true
unfolding bind_remote text_eq new_connection
starts = refl

transceiver_request_refused_example :
    handle_signal world (remote request_signal) unchanged false [] [] starter ≡ (
      (err parse_failed, false),
      finish world false
          (record { conn = bind_remote [] starter; pc = starter.pc; send_call_answer = false }),
    )
transceiver_request_refused_example =
    transceiver_request_refused world (remote request_signal) unchanged false [] [] request_signal
      starter refl refl (refl, refl, refl, refl, refl) starts

changed_offer_lost_example :
    handle_signal world (remote offer_signal) unchanged false (codes "z") [] receiver
    ≡ ((ok tt, false), note_codecs world 1 video (clear_peer_connection receiver))
changed_offer_lost_example =
    changed_offer_lost world (remote offer_signal) unchanged false (codes "z") [] (codes "v=0")
      offer_signal receiver 5 1 refl refl refl (λ e. ground arith) refl refl refl refl refl refl
      refl refl (λ d. refl)

-- A sender's connection without tracks, whose peer connection is 5.
abbrev empty_sender : Connection
empty_sender = record fresh { pc = some 5 }

abbrev remote_track : Track
remote_track = record camera { id = codes "i"; label = codes "stream_alice" }

abbrev arrival : Taken × Connection
arrival = on_track world media 5 false remote_camera 3 empty_sender

arrival_taken : arrival ≡ (taken 1 remote_track (some 4), arrival.1)
unfolding on_track new_connection text_eq take_slot with_slot lookup
arrival_taken = refl

no_tracks : empty_sender.tracks ≡ []
unfolding new_connection
no_tracks = refl

Life-IsPublishing_example :
    IsPublishing (clear_peer_connection (end_track 1 1 camera none (publish 1 arrival)))
Life-IsPublishing_example =
    Life-IsPublishing {w = world} {m = media} {source = 1} {c = empty_sender} no_tracks (
      next
        (next (next start (arrives 5 3 false remote_camera empty_sender))
          (ends 1 camera none (publish 1 arrival)))
        (clears (end_track 1 1 camera none (publish 1 arrival))))

end_track_stale_example :
    (let ended = end_track 1 1 camera none (publish 1 arrival) in
      (lookup 1 (publish 1 arrival).tracks ≡ some remote_track)
      × (lookup 1 ended.tracks ≡ none)
      × (ended.pc ≡ empty_sender.pc)
      × (ended.log
          ≡ empty_sender.log
            ++ (track_change (publication 1 remote_track (some 4))
                ∷ track_change (record (publication 1 camera none) { remove = true })
                ∷ [])))
end_track_stale_example =
    end_track_stale world media 5 3 1 1 false remote_camera empty_sender arrival.1 camera
      remote_track (some 4) none arrival_taken
