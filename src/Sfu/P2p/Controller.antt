-- ===== src/Sfu/P2p/Controller.antt =====
-- rtmcsfu/p2controller.go and streamrecord.go: the streams that a user announces over its data
-- channel, and the peer to peer records for them, by their tokens. A record has the number that it
-- was made under. What a controller sends over its data channel is in `log`, in order; encoding/json
-- on the payloads cannot fail for their types. The parts of handleAnnounceStreams run with the
-- controller locked, so each is one step.
pub mod Scans
pub mod Streams
use kwmbridge.Base.{
  ℕ, ◌+◌, Bool, true, false, not, ◌&&◌, ◌||◌, Option, none, some, List, [], ◌∷◌, ◌++◌, map,
  if◌then◌else◌, ◌==◌, Text, text_eq, is_empty, is_some, lookup, insert, erase, text_key,
}
use kwmbridge.Sfu.Types.{Message, Outcome, ok, err, Outside, webrtc_payload_version}
use kwmbridge.Sfu.Connection.Signal.{Remote}
use kwmbridge.Sfu.P2p.{P2pRecord, new_record}
use kwmbridge.Sfu.P2p.Negotiation.{negotiate}
use kwmbridge.Sfu.P2p.Peer.{Source}
use kwmbridge.Sfu.P2p.Handler.{handle_signal}

-- A StreamRecord; `connection` is the number of its record.
pub record Stream : Type 0 where
  pub id : Text
  pub kind : Text
  pub token : Text
  pub connection : Option ℕ

-- A `kwm.P2PDataStream`.
pub record Announcement : Type 0 where
  pub id : Text
  pub kind : Text
  pub token : Text
  pub version : ℕ

-- What a controller sends: the reply to a handshake, with its time and version, or streams.
pub data Sent : Type 0 where
  handshake_reply : ℕ → ℕ → Sent
  announced : List Announcement → Sent

pub record Controller : Type 0 where
  pub initiator : Bool  -- the parent's
  pub owner : ℕ  -- the number of the parent's owner
  pub ctx_done : Bool  -- the parent's
  pub handshake : Bool  -- whether there was one
  pub data_channel : Option ℕ
  pub callbacks : List (Text × P2pRecord)
  pub streams : List (Text × Stream)
  pub pending : List (Text × Stream)
  pub next_record : ℕ
  pub log : List Sent

-- NewP2PController.
unfoldable pub new_controller : Bool → ℕ → Bool → Controller
new_controller initiator owner ctx_done = record {
  initiator = initiator;
  owner = owner;
  ctx_done = ctx_done;
  handshake = false;
  data_channel = none;
  callbacks = [];
  streams = [];
  pending = [];
  next_record = 0;
  log = [];
}

-- reset
unfoldable pub reset : Controller → Controller
reset c = record c {
  handshake = false;
  data_channel = none;
  callbacks = [];
  streams = [];
  pending = [];
}

-- StreamRecord.reset
abbrev pub reset_stream : Stream → Stream
reset_stream s = record s { connection = none }

-- What the next record of the controller for a stream is.
abbrev pub made_record : Stream → Option ℕ → Controller → P2pRecord
made_record s source c =
    new_record c.ctx_done c.initiator c.owner c.data_channel s.id s.token source

-- The token's record is set where there is none.
abbrev pub set_if_absent : Text → P2pRecord → Controller → Controller
set_if_absent token r c =
    if is_some (lookup token c.callbacks)
    then c
    else record c { callbacks = insert token r c.callbacks }

abbrev pub announcement : Stream → Announcement
announcement s = record { id = s.id; kind = s.kind; token = s.token; version = 1 }

-- The announcements of a message: which ids are noted, which streams are new, and the streams of
-- the controller, whose tokens are brought up to date. A stream whose kind has changed is passed by.
pub record Scan : Type 0 where
  pub noted : List (Text × Unit {0})
  pub added : List Stream
  pub streams : List (Text × Stream)

unfoldable pub scan_one : Announcement → Scan → Scan
scan_one a x = elim (lookup a.id x.streams) [
  | none ↦ record x {
    noted = insert a.id tt x.noted;
    added =
        x.added ++ (record { id = a.id; kind = a.kind; token = a.token; connection = none } ∷ []);
  }
  | some s ↦ if not (text_eq s.kind a.kind) then x else record x {
    noted = insert a.id tt x.noted;
    streams =
        if text_eq s.token a.token
        then x.streams
        else insert a.id (record s { token = a.token; connection = none }) x.streams;
  }
]

unfoldable pub scan : List Announcement → Scan → Scan
unfolding scan_one
scan [] x = x
scan (a ∷ rest) x = scan rest (scan_one a x)

-- The streams that stay, and those that are removed: what was not noted.
unfoldable pub kept_streams : List (Text × Unit {0}) → List (Text × Stream) → List (Text × Stream)
kept_streams noted [] = []
kept_streams noted ((id, s) ∷ rest) =
    let kept = kept_streams noted rest in if is_some (lookup id noted) then (id, s) ∷ kept else kept

unfoldable pub removed_streams : List (Text × Unit {0}) → List (Text × Stream) → List Stream
removed_streams noted [] = []
removed_streams noted ((id, s) ∷ rest) =
    let removed = removed_streams noted rest in
    if is_some (lookup id noted) then removed else reset_stream s ∷ removed

abbrev pub is_nil : {A : Type 0} → List A → Bool
is_nil [] = true
is_nil (_ ∷ _) = false

module _ (w : Outside) (send_text : ℕ → Message → Bool) where
  -- A new stream: its record, which asks for a negotiation unless the token is taken. The error of
  -- that is only logged.
  unfoldable pub add_stream : Stream → Controller → Stream × Controller
  add_stream s c =
      let number = c.next_record in
      let s' = record s { connection = some number } in
      let c' = record c { next_record = number + 1; streams = insert s.id s' c.streams } in
      if is_some (lookup s.token c.callbacks) then (s', c') else (
        s',
        record c' {
          callbacks =
              insert s.token (negotiate w send_text true (made_record s none c)).1 c.callbacks;
        },
      )

  unfoldable pub add_streams : List Stream → Controller → List Stream × Controller
  unfolding add_stream
  add_streams [] c = ([], c)
  add_streams (s ∷ rest) c =
      let (s', c1) = add_stream s c in let (l, c2) = add_streams rest c1 in (s' ∷ l, c2)

  -- handleAnnounceStreams on the controller that gets the message: the streams that the other users
  -- are told of, unless nothing was added or removed.
  unfoldable pub take_announcements :
      List Announcement → Controller → Option (List Stream) × Controller
  unfolding scan kept_streams removed_streams add_streams
  take_announcements streams c =
      let x = scan streams (record { noted = []; added = []; streams = c.streams }) in
      let removed = removed_streams x.noted x.streams in
      let c' = record c { streams = kept_streams x.noted x.streams } in
      let (added, c'') = add_streams x.added c' in
      if is_nil x.added && is_nil removed then (none, c') else (some added, c'')
