-- ===== src/Sfu/P2p/Controller/Streams.antt =====
-- p2controller.go: what a controller makes of the streams that are announced to it.
use kwmbridge.Base.{
  ℕ, ◌≡◌, ◌≢◌, sym, subst, inl, inr, ◌⊎◌, Bool, true, false, ◌&&◌, none, some, List, [], ◌∷◌, ◌++◌,
  arith, Text, Bool-cases, Option-cases, text_eq_iff, is_some, lookup, lookup-insert, text_key,
}
use kwmbridge.Sfu.Types.{Message, Outside}
use kwmbridge.Sfu.P2p.{P2pRecord}
use kwmbridge.Sfu.P2p.Negotiation.{negotiate}
use kwmbridge.Sfu.P2p.Controller.{
  Stream, Announcement, Controller, Scan, scan, kept_streams, removed_streams, add_stream,
  add_streams, take_announcements, made_record, is_nil,
}
use kwmbridge.Sfu.P2p.Controller.Scans.{
  announces, brings, start, kept_streams_noted, scan_noted_announced, scan_added_announced,
  kept_streams_unnoted, changed_kind_unnoted,
}

module _ (w : Outside) (send_text : ℕ → Message → Bool) where
  add_streams_known :
      (id : Text) (l : List Stream) (c : Controller)
      → is_some (lookup id (add_streams w send_text l c).1.streams) ≡ true
      → (brings id l ≡ true) ⊎ (is_some (lookup id c.streams) ≡ true)
  unfolding add_streams add_stream brings
  add_streams_known id [] c h = inr h
  add_streams_known id (s ∷ rest) c h =
      let number = c.next_record in
      let s' = record s { connection = some number } in
      ground (
        arith,
        text_eq_iff s.id id,
        add_streams_known id rest (add_stream w send_text s c).1,
        lookup-insert s.id id s' c.streams,
      )

  -- Every stream that a controller has after it took a message with announcements was announced by
  -- that message: streams that are not announced any more are dropped, whatever was before.
  pub take_announcements_known :
      (id : Text) (streams : List Announcement) (c : Controller) (s : Stream)
      → lookup id (take_announcements w send_text streams c).1.streams ≡ some s
      → announces id streams ≡ true
  unfolding take_announcements
  take_announcements_known id streams c s h =
      let x0 : Scan = record { noted = []; added = []; streams = c.streams } in
      let x = scan streams x0 in
      let c' = record c { streams = kept_streams x.noted x.streams } in
      elim (Bool-cases (is_nil x.added && is_nil (removed_streams x.noted x.streams))) [
        | inl same ↦ ground (
          arith,
          kept_streams_noted id x.noted x.streams s,
          scan_noted_announced id streams c.streams,
        )
        | inr changed ↦
            let e : (take_announcements w send_text streams c).1
                ≡ (add_streams w send_text x.added c').1 =
              ground arith in
            let there : lookup id (add_streams w send_text x.added c').1.streams ≡ some s =
              subst (λ d. lookup id d.streams ≡ some s) e h in
            elim (add_streams_known id x.added c' (ground arith)) [
              | inl new ↦ scan_added_announced id streams c.streams new
              | inr old ↦ elim (Option-cases (lookup id (kept_streams x.noted x.streams))) [
                | inl free ↦ ground arith
                | inr (t, has) ↦
                    scan_noted_announced id streams c.streams
                      (kept_streams_noted id x.noted x.streams t has)
              ]
            ]
      ]

  add_streams_keeps :
      (token : Text) (l : List Stream) (c : Controller) (r : P2pRecord)
      → lookup token c.callbacks ≡ some r
      → lookup token (add_streams w send_text l c).1.callbacks ≡ some r
  unfolding add_streams add_stream
  add_streams_keeps token [] c r h = h
  add_streams_keeps token (s ∷ rest) c r h =
      let made = (negotiate w send_text true (made_record s none c)).1 in
      ground (
        arith,
        text_eq_iff s.token token,
        add_streams_keeps token rest (add_stream w send_text s c).1 r,
        lookup-insert s.token token made c.callbacks,
      )

  -- Whatever streams are announced to a controller, and dropped since they are not, the records that
  -- it has by their tokens stay, and stay as they are.
  pub take_announcements_keeps :
      (token : Text) (streams : List Announcement) (c : Controller) (r : P2pRecord)
      → lookup token c.callbacks ≡ some r
      → lookup token (take_announcements w send_text streams c).1.callbacks ≡ some r
  unfolding take_announcements
  take_announcements_keeps token streams c r h =
      let x0 : Scan = record { noted = []; added = []; streams = c.streams } in
      let x = scan streams x0 in
      let c' = record c { streams = kept_streams x.noted x.streams } in
      ground (arith, h, add_streams_keeps token x.added c' r h)

  -- A stream that a message announces once, with another kind than the one it is known by, is
  -- dropped by the message, and no stream takes its place, whatever else the message announces.
  pub changed_kind_dropped :
      (front rest : List Announcement) (a : Announcement) (c : Controller) (s : Stream)
      → announces a.id front ≡ false
      → announces a.id rest ≡ false
      → lookup a.id c.streams ≡ some s
      → a.kind ≢ s.kind
      → lookup a.id (take_announcements w send_text (front ++ (a ∷ rest)) c).1.streams ≡ none
  unfolding take_announcements
  changed_kind_dropped front rest a c s before after has other =
      let streams = front ++ (a ∷ rest) in
      let x = scan streams (start c.streams) in
      let c' = record c { streams = kept_streams x.noted x.streams } in
      let (unnoted, unadded) =
        changed_kind_unnoted front rest a c.streams s before after has other in
      let gone : lookup a.id c'.streams ≡ none =
        kept_streams_unnoted a.id x.noted x.streams unnoted in
      elim (Bool-cases (is_nil x.added && is_nil (removed_streams x.noted x.streams))) [
        | inl same ↦ ground (arith, gone)
        | inr changed ↦
            let e : (take_announcements w send_text streams c).1
                ≡ (add_streams w send_text x.added c').1 =
              ground arith in
            elim (Option-cases (lookup a.id (add_streams w send_text x.added c').1.streams)) [
              | inl free ↦ subst (λ d. lookup a.id d.streams ≡ none) (sym e) free
              | inr (t, there) ↦ elim (add_streams_known a.id x.added c' (ground arith)) [
                | inl new ↦ ground arith
                | inr old ↦ ground arith
              ]
            ]
      ]
