-- ===== src/Utils/Tests.antt =====
-- The theorems of the utilities at texts.
use kwmbridge.Base.{◌≡◌, ◌≢◌, refl, [], ◌∷◌, ◌++◌, Text, codes}
use kwmbridge.Utils.Sdp.{
  has_prefix, split, drop_tias, remote_sdp_transform, remote_sdp_transform_same,
}

-- Three lines, of which the second is dropped.
abbrev description : Text
description = codes "v=0" ++ (13 ∷ 10 ∷ codes "b=TIAS:90") ++ (13 ∷ 10 ∷ codes "a=x")

lines_left : drop_tias (split description) ≢ []
unfolding drop_tias split has_prefix
lines_left e = cc

nothing_dropped : drop_tias (split (codes "v=0")) ≡ split (codes "v=0")
unfolding drop_tias split has_prefix
nothing_dropped = refl

remote_sdp_transform_same_example : remote_sdp_transform (codes "v=0") ≡ codes "v=0"
remote_sdp_transform_same_example = remote_sdp_transform_same (codes "v=0") nothing_dropped
