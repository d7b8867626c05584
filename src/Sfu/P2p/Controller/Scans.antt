-- ===== src/Sfu/P2p/Controller/Scans.antt =====
-- p2controller.go: which streams the scan of a message with announcements notes and adds.
use kwmbridge.Base.{
  ◌≡◌, ◌≢◌, refl, sym, ap, ◌∙◌, subst, inl, inr, ◌⊎◌, Bool, true, false, none, some, List, [], ◌∷◌,
  ◌++◌, if◌then◌else◌, arith, Text, Option-cases, text_eq, text_eq_iff, is_some, lookup,
  lookup-insert, text_key,
}
use kwmbridge.Sfu.P2p.Controller.{Stream, Announcement, Scan, scan_one, scan, kept_streams}

-- Whether a stream is among those announced.
unfoldable pub announces : Text → List Announcement → Bool
announces id [] = false
announces id (a ∷ rest) = if text_eq a.id id then true else announces id rest

unfoldable pub brings : Text → List Stream → Bool
brings id [] = false
brings id (s ∷ rest) = if text_eq s.id id then true else brings id rest

brings-append :
    (id : Text) (l : List Stream) (s : Stream)
    → brings id (l ++ (s ∷ [])) ≡ (if brings id l then true else text_eq s.id id)
unfolding brings
brings-append id [] s = ground arith
brings-append id (t ∷ l) s = ground (arith, brings-append id l s)

scan_noted :
    (id : Text) (streams : List Announcement) (x : Scan)
    → is_some (lookup id (scan streams x).noted) ≡ true
    → (announces id streams ≡ true) ⊎ (is_some (lookup id x.noted) ≡ true)
unfolding scan scan_one announces
scan_noted id [] x h = inr h
scan_noted id (a ∷ rest) x h = elim (Option-cases (lookup a.id x.streams)) [
  | inl free ↦ ground (arith, scan_noted id rest (scan_one a x), lookup-insert a.id id tt x.noted)
  | inr (s, has) ↦
      ground (arith, scan_noted id rest (scan_one a x), lookup-insert a.id id tt x.noted)
]

scan_added :
    (id : Text) (streams : List Announcement) (x : Scan)
    → brings id (scan streams x).added ≡ true
    → (announces id streams ≡ true) ⊎ (brings id x.added ≡ true)
unfolding scan scan_one announces
scan_added id [] x h = inr h
scan_added id (a ∷ rest) x h = elim (Option-cases (lookup a.id x.streams)) [
  | inl free ↦
      let s : Stream = record { id = a.id; kind = a.kind; token = a.token; connection = none } in
      ground (arith, scan_added id rest (scan_one a x), brings-append id x.added s)
  | inr (s, has) ↦ ground (arith, scan_added id rest (scan_one a x))
]

pub kept_streams_noted :
    (id : Text) (noted : List (Text × Unit {0})) (l : List (Text × Stream)) (s : Stream)
    → lookup id (kept_streams noted l) ≡ some s
    → is_some (lookup id noted) ≡ true
unfolding kept_streams lookup
kept_streams_noted id noted [] s h = ground arith
kept_streams_noted id noted ((key, t) ∷ rest) s h =
    ground (arith, text_eq_iff key id, kept_streams_noted id noted rest s)

-- The same for a scan from the start.
abbrev pub start : List (Text × Stream) → Scan
start l = record { noted = []; added = []; streams = l }

pub scan_noted_announced :
    (id : Text) (streams : List Announcement) (l : List (Text × Stream))
    → is_some (lookup id (scan streams (start l)).noted) ≡ true
    → announces id streams ≡ true
unfolding lookup
scan_noted_announced id streams l h = elim (scan_noted id streams (start l) h) [
  | inl told ↦ told
  | inr old ↦ cc
]

pub scan_added_announced :
    (id : Text) (streams : List Announcement) (l : List (Text × Stream))
    → brings id (scan streams (start l)).added ≡ true
    → announces id streams ≡ true
unfolding brings
scan_added_announced id streams l h = elim (scan_added id streams (start l) h) [
  | inl told ↦ told
  | inr old ↦ cc
]

scan-append :
    (front rest : List Announcement) (x : Scan) → scan (front ++ rest) x ≡ scan rest (scan front x)
unfolding scan
scan-append [] rest x = refl
scan-append (a ∷ front) rest x = scan-append front rest (scan_one a x)

-- What is not announced keeps its stream.
scan_streams :
    (id : Text) (streams : List Announcement) (x : Scan)
    → announces id streams ≡ false
    → lookup id (scan streams x).streams ≡ lookup id x.streams
unfolding scan scan_one announces
scan_streams id [] x h = refl
scan_streams id (a ∷ rest) x h = elim (Option-cases (lookup a.id x.streams)) [
  | inl free ↦ ground (arith, scan_streams id rest (scan_one a x))
  | inr (s, has) ↦
      let s' : Stream = record s { token = a.token; connection = none } in
      ground (arith, scan_streams id rest (scan_one a x), lookup-insert a.id id s' x.streams)
]

pub kept_streams_unnoted :
    (id : Text) (noted : List (Text × Unit {0})) (l : List (Text × Stream))
    → is_some (lookup id noted) ≡ false
    → lookup id (kept_streams noted l) ≡ none
kept_streams_unnoted id noted l h = elim (Option-cases (lookup id (kept_streams noted l))) [
  | inl free ↦ free
  | inr (s, has) ↦ absurd (ground (arith, kept_streams_noted id noted l s has))
]

scan_one_changed :
    (a : Announcement) (x : Scan) (s : Stream)
    → lookup a.id x.streams ≡ some s
    → a.kind ≢ s.kind
    → scan_one a x ≡ x
unfolding scan_one
scan_one_changed a x s has other = ground (arith, text_eq_iff s.kind a.kind)

-- A stream that is announced once, with another kind, is neither noted nor added.
pub changed_kind_unnoted :
    (front rest : List Announcement) (a : Announcement) (l : List (Text × Stream)) (s : Stream)
    → announces a.id front ≡ false
    → announces a.id rest ≡ false
    → lookup a.id l ≡ some s
    → a.kind ≢ s.kind
    → let x = scan (front ++ (a ∷ rest)) (start l) in
      (is_some (lookup a.id x.noted) ≡ false) × (brings a.id x.added ≡ false)
unfolding scan
changed_kind_unnoted front rest a l s before after has other =
    let y = scan front (start l) in
    let same : lookup a.id y.streams ≡ some s = scan_streams a.id front (start l) before ∙ has in
    let e : scan (front ++ (a ∷ rest)) (start l) ≡ scan rest y =
      scan-append front (a ∷ rest) (start l)
      ∙ ap (λ z. scan rest z) (scan_one_changed a y s same other) in
    subst (λ x. (is_some (lookup a.id x.noted) ≡ false) × (brings a.id x.added ≡ false)) (sym e)
      (
        ground (arith, scan_noted a.id rest y, scan_noted_announced a.id front l),
        ground (arith, scan_added a.id rest y, scan_added_announced a.id front l),
      )
