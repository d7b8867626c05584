-- ===== src/Sfu/Connection/Signals.antt =====
-- channel.go: what becomes of transceiver requests, and of offers under another pcid.
use kwmbridge.Base.{
  ℕ, ◌≡◌, ◌≢◌, Bool, true, false, none, some, [], arith, Text, text_eq_iff, is_empty, ℕ_key,
}
use kwmbridge.Utils.Sdp.{remote_sdp_transform}
use kwmbridge.Sfu.Types.{video, ok, err, parse_failed, Outside}
use kwmbridge.Sfu.Connection.{Connection, clear_peer_connection}
use kwmbridge.Sfu.Connection.Signal.{
  type_offer, Signal, Remote, bind_remote, renegotiate_stage, finish, note_codecs,
}
use kwmbridge.Sfu.Connection.Handler.{
  candidate_stage, media_stage, description_stage, sdp_stage, transceiver_stage, signal_stages,
  handle_signal,
}

-- A signal that carries a transceiver request and nothing else.
abbrev pub IsRequestOnly : Signal → Type 0
IsRequestOnly s =
    (s.renegotiate ≡ false)
    × (s.noop ≡ false)
    × (s.candidate ≡ [])
    × (s.sdp ≡ [])
    × (is_empty s.transceiver_request ≡ false)

module _ (w : Outside) (r : Remote) (others : ℕ → Connection → Connection) where
  -- The side that starts a connection refuses each transceiver request that comes alone, as this
  -- program sends it, with a parse error: it parses the description in place of the request, and
  -- encoding/json refuses an empty text. No transceiver is added: the record is as the check of the
  -- pcid leaves it, but for a negotiation that was needed before and starts at the handler's end.
  pub transceiver_request_refused :
      (pick : Bool) (pcid raw : Text) (s : Signal) (c : Connection)
      → r.signal_of raw ≡ some s
      → r.request_of [] ≡ none
      → IsRequestOnly s
      → (bind_remote pcid c).initiator ≡ true
      → handle_signal w r others pick pcid raw c ≡ (
        ((err parse_failed, false)),
        finish w pick (record { conn = bind_remote pcid c; pc = c.pc; send_call_answer = false }),
      )
  unfolding handle_signal signal_stages renegotiate_stage candidate_stage sdp_stage
      transceiver_stage
  transceiver_request_refused pick pcid raw s c parsed empty only starts = ground arith

  -- Where the pcid of a message is not the one that the record is bound to, and an offer comes
  -- with it to the side that does not start the connection, the offer is lost: the handler closes
  -- the old peer connection but goes on with it, finds that the record does not have it, and
  -- returns without an error. The record has no peer connection then, and nothing is answered. This
  -- is for a message without a candidate, a request to negotiate or a noop, with a description that
  -- the media engine takes, where nothing changes the record while it is unlocked.
  pub changed_offer_lost :
      (pick : Bool) (pcid raw sdp : Text) (s : Signal) (c : Connection) (pc media : ℕ)
      → c.initiator ≡ false
      → c.pc ≡ some pc
      → is_empty c.rpcid ≡ false
      → c.rpcid ≢ pcid
      → r.signal_of raw ≡ some s
      → s.renegotiate ≡ false
      → s.noop ≡ false
      → s.candidate ≡ []
      → is_empty s.sdp ≡ false
      → r.sdp_type_of s.sdp_type ≡ some type_offer
      → r.string_of s.sdp ≡ some sdp
      → r.populate_from_sdp type_offer (remote_sdp_transform sdp) ≡ some media
      → ((d : Connection) → others 0 d ≡ d)
      → handle_signal w r others pick pcid raw c
        ≡ ((ok tt, false), note_codecs w media video (clear_peer_connection c))
  unfolding handle_signal signal_stages renegotiate_stage candidate_stage sdp_stage
      description_stage media_stage bind_remote clear_peer_connection
  changed_offer_lost pick pcid raw sdp s c pc media asks has bound differs parsed plain loud
        no_candidate has_sdp is_offer is_text populated alone =
      ground (arith, text_eq_iff pcid c.rpcid, alone (clear_peer_connection c))
