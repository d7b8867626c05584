-- ===== src/Sfu/Channel/Lives.antt =====
-- connectionrecord.go: a remote track of a sender, from the handler of OnTrack to the end of its
-- goroutines.
use kwmbridge.Base.{
  ℕ, ◌≡◌, ◌≢◌, refl, arith, lookup-insert, Bool, true, Option, none, some, List, [], ◌∷◌, ◌++◌,
  Text, lookup, ℕ_key, ◌==◌,
}
use kwmbridge.JitterBuffer.Packet.{Packet}
use kwmbridge.JitterBuffer.Registry.{get_buffer}
use kwmbridge.Sfu.Types.{Codec, Track, track_change, sender_track_video, Outside}
use kwmbridge.Sfu.Incoming.{RemoteTrack, Media, taken}
use kwmbridge.Sfu.Incoming.Pump.{Meanwhile, Flow}
use kwmbridge.Sfu.Incoming.Pumping.{AreWords, HasRoom, pump_ends}
use kwmbridge.Sfu.Connection.{Connection}
use kwmbridge.Sfu.Connection.Incoming.{
  prepare_incoming, with_slot, on_track, publication, publish, end_track,
}
use kwmbridge.Sfu.Connection.Publishing.{on_track_taken}
use kwmbridge.Sfu.Connection.Ended.{end_track_lem}
use kwmbridge.Sfu.Channel.Forwarding.{Users, forward, run_track}
use kwmbridge.Sfu.Channel.Pumping.{forward-Passes}

-- Where the handler of OnTrack has taken a remote track, its slot was free, and it has the track when
-- the track is announced to the worker of the channel. For all packets with its SSRC and uint16
-- sequence numbers the goroutines end when the track does, provided that the worker and the channel of
-- the jitter buffer take what they are sent, whatever happens meanwhile to the connection, the users
-- and the jitter buffer. The slot is empty then, of whatever track was in it, the other slots have
-- what they had just before, the last that the worker was sent is the withdrawal of the track, and the
-- jitter buffer has no buffer for the SSRC.
pub run_track_lem :
    (w : Outside) (m : Media) (codec : Codec) (source : ℕ) (source_id : Text) (pc receiver slot : ℕ)
    (closed : Bool) (remote : RemoteTrack) (c c' : Connection) (t : Track) (ch : Option ℕ)
    (packets : List Packet) (around : Meanwhile Users Connection) (flow : Flow Users)
    → on_track w m pc closed remote receiver c ≡ (taken slot t ch, c')
    → AreWords t.ssrc packets
    → around.worker ≡ true
    → HasRoom around.room
    → let live = publish source (taken slot t ch, c') in
      let before = around.record_changes live in
      (lookup slot c.tracks ≡ none)
      × (lookup slot live.tracks ≡ some t)
      × (live.log ≡ c.log ++ (track_change (publication source t ch) ∷ []))
      × ((ended : Connection) × (flow' : Flow Users) × (run_track w m codec source source_id around
              slot t ch packets
              (c', flow)
            ≡ some (ended, flow'))
          × (lookup slot ended.tracks ≡ none)
          × (lookup slot ended.receivers ≡ none)
          × ((k : ℕ)
              → k ≢ slot
              → (lookup k ended.tracks ≡ lookup k before.tracks)
                × (lookup k ended.receivers ≡ lookup k before.receivers))
          × (ended.log
              ≡ before.log
                ++ (track_change (record (publication source t ch) { remove = true }) ∷ []))
          × (get_buffer t.ssrc flow'.jitter_buffer ≡ none))
unfolding run_track prepare_incoming with_slot
run_track_lem w m codec source source_id pc receiver slot closed remote c c' t ch packets around
      flow done words works free =
    let (flow', ran, gone) =
      pump_ends (forward w m codec source source_id) (forward-Passes w m codec source source_id)
        around.room free around.flow_changes (slot == sender_track_video) t.ssrc packets flow
        words in
    let (_, empty, _, is, _) = on_track_taken w m pc closed remote receiver c c' slot t ch done in
    let before = around.record_changes (publish source (taken slot t ch, c')) in
    let (no_track, no_receiver, others, sent) = end_track_lem source slot t ch before in
    (
      empty,
      ground (arith, is, lookup-insert slot slot t c.tracks),
      ground (arith, is),
      (
        end_track source slot t ch before,
        flow',
        rw (works, run_track) (rw (ran, run_track) refl),
        no_track,
        no_receiver,
        others,
        sent,
        gone,
      ),
    )
