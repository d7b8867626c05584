-- ===== src/Utils/Sdp.antt =====
-- rtmcsfu/utils.go: remoteSDPTransform drops the lines that begin with `b=TIAS:`, and what it calls
-- of package strings (Split and Join with the separator CR LF, HasPrefix).
use kwmbridge.Base.{
  ℕ, ◌≡◌, ◌≢◌, refl, ap, ◌∙◌, Bool, true, false, not, List, [], ◌∷◌, ◌++◌, arith, if◌then◌else◌,
  ◌==◌, ◌&&◌, Bool-cases, inl, inr, Text, codes,
}

-- `strings.HasPrefix`
unfoldable pub has_prefix : Text → Text → Bool
has_prefix s [] = true
has_prefix [] (c ∷ p) = false
has_prefix (b ∷ s) (c ∷ p) = b == c && has_prefix s p

abbrev push_front : ℕ → List Text → List Text
push_front a [] = (a ∷ []) ∷ []
push_front a (l ∷ ls) = (a ∷ l) ∷ ls

-- `strings.Split(s, "\r\n")`
unfoldable pub split : Text → List Text
split [] = [] ∷ []
split (a ∷ []) = (a ∷ []) ∷ []
split (a ∷ b ∷ s) =
    let cut = [] ∷ split s in
    let on = push_front a (split (b ∷ s)) in if a == 13 && b == 10 then cut else on

-- `strings.Join(lines, "\r\n")`
unfoldable pub join : List Text → Text
join [] = []
join (l ∷ []) = l
join (l ∷ m ∷ ls) = l ++ (13 ∷ 10 ∷ join (m ∷ ls))

abbrev pub tias : Text
tias = codes "b=TIAS:"

-- The loop over the lines.
unfoldable pub drop_tias : List Text → List Text
unfolding has_prefix
drop_tias [] = []
drop_tias (line ∷ lines) =
    let rest = drop_tias lines in if has_prefix line tias then rest else line ∷ rest

-- The session description's text; localSDPTransform changes nothing.
unfoldable pub remote_sdp_transform : Text → Text
unfolding split join drop_tias
remote_sdp_transform sdp = join (drop_tias (split sdp))

unfoldable pub local_sdp_transform : Text → Text
local_sdp_transform sdp = sdp

-- A text with no CR LF in it.
abbrev no_break : Text → Bool
no_break [] = true
no_break (a ∷ []) = true
no_break (a ∷ b ∷ s) = not (a == 13 && b == 10) && no_break (b ∷ s)

abbrev IsLines : List Text → Type 0
IsLines [] = Unit
IsLines (l ∷ ls) = (no_break l ≡ true) × IsLines ls

split_line : (l : Text) → no_break l ≡ true → split l ≡ l ∷ []
unfolding split
split_line [] h = refl
split_line (a ∷ []) h = refl
split_line (a ∷ b ∷ s) h = ground (arith, split_line (b ∷ s))

split-append : (l s : Text) → no_break l ≡ true → split (l ++ (13 ∷ 10 ∷ s)) ≡ l ∷ split s
unfolding split
split-append [] s h = refl
split-append (a ∷ []) s h = ground arith
split-append (a ∷ b ∷ l) s h = ground (arith, split-append (b ∷ l) s)

-- Splitting undoes joining, for one line or more.
split-join : (l : Text) (ls : List Text) → IsLines (l ∷ ls) → split (join (l ∷ ls)) ≡ l ∷ ls
unfolding join
split-join l [] h = split_line l h.0
split-join l (m ∷ ls) h = split-append l (join (m ∷ ls)) h.0 ∙ ap (λ r. l ∷ r) (split-join m ls h.1)

join-push_front : (a : ℕ) (ls : List Text) → ls ≢ [] → join (push_front a ls) ≡ a ∷ join ls
unfolding join
join-push_front a [] h = absurd (h refl)
join-push_front a (l ∷ []) h = refl
join-push_front a (l ∷ m ∷ ls) h = refl

push_front-ne-nil : (a : ℕ) (ls : List Text) → push_front a ls ≢ []
push_front-ne-nil a [] h = cc
push_front-ne-nil a (l ∷ ls) h = cc

split-ne-nil : (s : Text) → split s ≢ []
unfolding split
split-ne-nil [] h = cc
split-ne-nil (a ∷ []) h = cc
split-ne-nil (a ∷ b ∷ s) h = elim (Bool-cases (a == 13 && b == 10)) [
  | inl cut ↦ ground arith
  | inr on ↦ push_front-ne-nil a (split (b ∷ s)) (rw on at h)
]

join-cons : (l : Text) (ls : List Text) → ls ≢ [] → join (l ∷ ls) ≡ l ++ (13 ∷ 10 ∷ join ls)
unfolding join
join-cons l [] h = absurd (h refl)
join-cons l (m ∷ ls) h = refl

-- Joining undoes splitting.
join-split : (s : Text) → join (split s) ≡ s
unfolding split
join-split [] = unfold join in refl
join-split (a ∷ []) = unfold join in refl
join-split (a ∷ b ∷ s) = elim (Bool-cases (a == 13 && b == 10)) [
  | inl cut ↦ rw (cut, join-cons [] (split s) (split-ne-nil s), join-split s) (ground arith)
  | inr on ↦ rw (on, join-push_front a (split (b ∷ s)) (split-ne-nil (b ∷ s)), join-split (b ∷ s))
]

-- What the first line that comes of `b ∷ s` begins with, if it is not empty.
abbrev Starts : ℕ → List Text → Type 0
Starts b [] = ⊥
Starts b ([] ∷ ls) = Unit
Starts b ((c ∷ l) ∷ ls) = c ≡ b

push_front-Starts : (b : ℕ) (ls : List Text) → Starts b (push_front b ls)
push_front-Starts b [] = refl
push_front-Starts b (l ∷ ls) = refl

split-Starts : (b : ℕ) (s : Text) → Starts b (split (b ∷ s))
unfolding split
split-Starts b [] = refl
split-Starts b (c ∷ s) = elim (Bool-cases (b == 13 && c == 10)) [
  | inl cut ↦ rw cut tt
  | inr on ↦ rw on (push_front-Starts b (split (c ∷ s)))
]

push_front-IsLines :
    (a b : ℕ) (ls : List Text)
    → (a == 13 && b == 10) ≡ false
    → Starts b ls
    → IsLines ls
    → IsLines (push_front a ls)
push_front-IsLines a b [] on st h = (refl, tt)
push_front-IsLines a b ([] ∷ ls) on st h = (refl, h.1)
push_front-IsLines a b ((c ∷ []) ∷ ls) on st h = (ground arith, h.1)
push_front-IsLines a b ((c ∷ d ∷ l) ∷ ls) on st h = (ground arith, h.1)

split-IsLines : (s : Text) → IsLines (split s)
unfolding split
split-IsLines [] = (refl, tt)
split-IsLines (a ∷ []) = (refl, tt)
split-IsLines (a ∷ b ∷ s) = elim (Bool-cases (a == 13 && b == 10)) [
  | inl cut ↦ rw cut (refl, split-IsLines s)
  | inr on ↦
      rw on (push_front-IsLines a b (split (b ∷ s)) on (split-Starts b s) (split-IsLines (b ∷ s)))
]

drop_tias-IsLines : (ls : List Text) → IsLines ls → IsLines (drop_tias ls)
unfolding drop_tias
drop_tias-IsLines [] h = tt
drop_tias-IsLines (l ∷ ls) h = elim (Bool-cases (has_prefix l tias)) [
  | inl out ↦ rw out (drop_tias-IsLines ls h.1)
  | inr keep ↦ rw keep (h.0, drop_tias-IsLines ls h.1)
]

split-join_all : (ls : List Text) → ls ≢ [] → IsLines ls → split (join ls) ≡ ls
split-join_all [] ne h = absurd (ne refl)
split-join_all (l ∷ ls) ne h = split-join l ls h

-- The lines of the description that remoteSDPTransform leaves are the lines of the one that it was
-- given, in order, without those that begin with `b=TIAS:`, as long as any line is left.
pub split-remote_sdp_transform :
    (sdp : Text)
    → drop_tias (split sdp) ≢ []
    → split (remote_sdp_transform sdp) ≡ drop_tias (split sdp)
unfolding remote_sdp_transform
split-remote_sdp_transform sdp ne =
    split-join_all (drop_tias (split sdp)) ne (drop_tias-IsLines (split sdp) (split-IsLines sdp))

-- A description without a line that begins with `b=TIAS:` stays as it is.
pub remote_sdp_transform_same :
    (sdp : Text) → drop_tias (split sdp) ≡ split sdp → remote_sdp_transform sdp ≡ sdp
unfolding remote_sdp_transform
remote_sdp_transform_same sdp same = ap join same ∙ join-split sdp
