-- ===== src/Sfu/P2p/Lives.antt =====
-- p2precord.go: a remote track of a peer to peer record, from the handler of OnTrack to the end of
-- its goroutines.
use kwmbridge.Base.{
  ℕ, ◌≡◌, ◌≢◌, refl, true, Option, none, some, List, [], ◌∷◌, ◌++◌, arith, Text, lookup, ℕ_key,
  lookup-insert, lookup-erase,
}
use kwmbridge.JitterBuffer.Packet.{Packet}
use kwmbridge.JitterBuffer.Registry.{get_buffer}
use kwmbridge.Sfu.Types.{Codec, Track, track_change, sender_track_video, Outside}
use kwmbridge.Sfu.Incoming.{RemoteTrack, Media, taken}
use kwmbridge.Sfu.Incoming.Pump.{Meanwhile, Flow}
use kwmbridge.Sfu.Incoming.Pumping.{AreWords, HasRoom, pump_ends}
use kwmbridge.Sfu.P2p.{P2pRecord}
use kwmbridge.Sfu.P2p.Announcing.{Peers}
use kwmbridge.Sfu.P2p.Incoming.{
  prepare_incoming, with_video, take_remote, on_track, publication, publish, end_track,
}
use kwmbridge.Sfu.P2p.Forwarding.{forward, run_track}
use kwmbridge.Sfu.P2p.Delivery.{forward-Passes}

on_track_taken :
    (w : Outside) (m : Media) (pc receiver slot : ℕ) (remote : RemoteTrack) (c c' : P2pRecord)
    (t : Track) (ch : Option ℕ)
    → on_track w m pc remote receiver c ≡ (taken slot t ch, c')
    → (slot ≡ sender_track_video)
      × (lookup sender_track_video c.tracks ≡ none)
      × (c' ≡ with_video t receiver (prepare_incoming m c))
unfolding on_track
on_track_taken w m pc receiver slot remote c c' t ch done =
    unfold prepare_incoming take_remote in ground arith

-- The end of a track empties its slot, leaves the others, and sends the withdrawal of the track.
end_track_lem :
    (slot : ℕ) (t : Track) (ch : Option ℕ) (c : P2pRecord)
    → let ended = end_track slot t ch c in
      (lookup slot ended.tracks ≡ none)
      × ((k : ℕ) → k ≢ slot → lookup k ended.tracks ≡ lookup k c.tracks)
      × (ended.log ≡ c.log ++ (track_change (record (publication c t ch) { remove = true }) ∷ []))
unfolding end_track
end_track_lem slot t ch c = (
  ground (arith, lookup-erase slot slot c.tracks),
  λ k other. ground (arith, lookup-erase slot k c.tracks),
  refl,
)

-- Where the handler of OnTrack has taken a remote track, it is for the slot of video, which was free,
-- and it has the track when the track is announced to the worker of the channel. For all packets with
-- its SSRC and uint16 sequence numbers the goroutines end when the track does, provided that the
-- worker and the channel of the jitter buffer take what they are sent, whatever happens meanwhile to
-- the record, the users and the jitter buffer. The slot is empty then, of whatever track was in it,
-- the other slots have the tracks that they had just before, the last that the worker was sent is the
-- withdrawal of the track, and the jitter buffer has no buffer for the SSRC.
pub run_p2p_track_lem :
    (w : Outside) (m : Media) (codec : Codec) (token : Text) (pc receiver slot : ℕ)
    (remote : RemoteTrack) (c c' : P2pRecord) (t : Track) (ch : Option ℕ) (packets : List Packet)
    (around : Meanwhile Peers P2pRecord) (flow : Flow Peers)
    → on_track w m pc remote receiver c ≡ (taken slot t ch, c')
    → AreWords t.ssrc packets
    → around.worker ≡ true
    → HasRoom around.room
    → let live = publish (taken slot t ch, c') in
      let before = around.record_changes live in
      (slot ≡ sender_track_video)
      × (lookup slot c.tracks ≡ none)
      × (lookup slot live.tracks ≡ some t)
      × (live.log ≡ c.log ++ (track_change (publication c t ch) ∷ []))
      × ((ended : P2pRecord) × (flow' : Flow Peers) × (run_track m codec token around t ch packets
              (c', flow)
            ≡ some (ended, flow'))
          × (lookup slot ended.tracks ≡ none)
          × ((k : ℕ) → k ≢ slot → lookup k ended.tracks ≡ lookup k before.tracks)
          × (ended.log
              ≡ before.log
                ++ (track_change (record (publication before t ch) { remove = true }) ∷ []))
          × (get_buffer t.ssrc flow'.jitter_buffer ≡ none))
unfolding run_track prepare_incoming with_video
run_p2p_track_lem w m codec token pc receiver slot remote c c' t ch packets around flow done words
      works free =
    let (flow', ran, gone) =
      pump_ends (forward m codec token) (forward-Passes m codec token) around.room free
        around.flow_changes true t.ssrc packets flow words in
    let (video, empty, is) = on_track_taken w m pc receiver slot remote c c' t ch done in
    let before = around.record_changes (publish (taken sender_track_video t ch, c')) in
    let (no_track, others, sent) = end_track_lem sender_track_video t ch before in
    (
      video,
      rw video empty,
      ground (arith, is, video, lookup-insert sender_track_video sender_track_video t c.tracks),
      ground (arith, is),
      (
        end_track sender_track_video t ch before,
        flow',
        rw (works, run_track) (rw (ran, run_track) refl),
        rw video no_track,
        rw video others,
        sent,
        gone,
      ),
    )
