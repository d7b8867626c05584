-- ===== src/Sfu/P2p/Announcing.antt =====
-- p2controller.go: what a controller announces over its data channel, and the streams that wait
-- for one.
use kwmbridge.Base.{
  ℕ, ◌+◌, Bool, true, false, not, ◌&&◌, ◌||◌, Option, none, some, List, [], ◌∷◌, ◌++◌, map,
  if◌then◌else◌, ◌==◌, Text, text_eq, is_some, lookup, insert, text_key,
}
use kwmbridge.Sfu.Types.{Message, Outside}
use kwmbridge.Sfu.P2p.Controller.{
  Stream, Announcement, Sent, announced, Controller, set_if_absent, made_record, announcement,
  is_nil, take_announcements,
}

-- A payload goes out where there is a data channel that takes it.
unfoldable pub send_payload : (ℕ → Sent → Bool) → Sent → Controller → Bool × Controller
send_payload data_out m c = elim c.data_channel [
  | none ↦ (false, c)
  | some channel ↦
      if data_out channel m then (true, record c { log = c.log ++ (m ∷ []) }) else (false, c)
]

-- A stream of another user: it waits for a data channel, or gets a record that sends it out, and is
-- to be announced unless the token is taken.
unfoldable pub announce_one : Stream → Controller → Option Announcement × Controller
announce_one s c =
    let c' =
      set_if_absent s.token (made_record s s.connection c)
        (record c { next_record = c.next_record + 1 }) in
    if not (is_some c.data_channel)
    then (none, record c { pending = insert s.id s c.pending })
    else if is_some (lookup s.token c.callbacks)
    then (none, c')
    else (some (announcement s), c')

abbrev pub cons_some : Option Announcement → List Announcement → List Announcement
cons_some none l = l
cons_some (some a) l = a ∷ l

unfoldable pub announce_all : List Stream → Controller → List Announcement × Controller
unfolding announce_one
announce_all [] c = ([], c)
announce_all (s ∷ rest) c =
    let (a, c1) = announce_one s c in let (l, c2) = announce_all rest c1 in (cons_some a l, c2)

-- announceStreams: whether it does not fail, and the controller.
unfoldable pub announce_streams :
    (ℕ → Sent → Bool) → List Stream → Bool → Controller → Bool × Controller
unfolding announce_all send_payload
announce_streams data_out streams force c =
    let (l, c') = announce_all streams c in
    if not force && is_nil l then (true, c') else send_payload data_out (announced l) c'

-- bind: the streams that waited, and the controller.
unfoldable pub bind : ℕ → Controller → List Stream × Controller
bind channel c = (map (λ p. p.1) c.pending, record c { data_channel = some channel; pending = [] })

-- What bind leaves to a goroutine, which does nothing where the data channel has changed.
unfoldable pub announce_bound : (ℕ → Sent → Bool) → ℕ → List Stream → Controller → Controller
unfolding announce_streams
announce_bound data_out channel streams c = elim c.data_channel [
  | none ↦ c
  | some current ↦ if current == channel then (announce_streams data_out streams false c).1 else c
]

-- The users of the channel as an announcement meets them: the id, whether the user is closed, and
-- the controller of its connection to the source, if it has one.
abbrev pub Peers : Type 0
Peers = List (Text × (Bool × Option Controller))

-- The loop of handleAnnounceStreams over the users, whose errors are only logged.
unfoldable pub announce_to : (ℕ → Sent → Bool) → Text → List Stream → Peers → Peers
unfolding announce_streams
announce_to data_out source streams [] = []
announce_to data_out source streams ((id, (gone, none)) ∷ rest) =
    (id, (gone, none)) ∷ announce_to data_out source streams rest
announce_to data_out source streams ((id, (gone, some c)) ∷ rest) =
    let rest' = announce_to data_out source streams rest in
    if text_eq id source || gone
    then (id, (gone, some c)) ∷ rest'
    else (id, (gone, some (announce_streams data_out streams true c).1)) ∷ rest'

module _ (w : Outside) (send_text : ℕ → Message → Bool) where
  -- handleAnnounceStreams, with the other users.
  unfoldable pub handle_announce_streams :
      (ℕ → Sent → Bool) → Text → List Announcement → Controller × Peers → Controller × Peers
  unfolding take_announcements announce_to
  handle_announce_streams data_out source streams (c, peers) =
      let (added, c') = take_announcements w send_text streams c in
      elim added [ none ↦ (c', peers) | some l ↦ (c', announce_to data_out source l peers) ]
