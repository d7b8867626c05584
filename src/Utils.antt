-- ===== src/Utils.antt =====
-- internal/kwm/utils/utils.go and internal/kwm/mcu/plugins/rtmcsfu/utils.go: which side starts a
-- connection, websocket addresses, and the filter for session descriptions.
pub mod Sdp
mod Tests
use kwmbridge.Base.{
  ℕ, ◌≡◌, ◌≢◌, Bool, true, false, not, Option, none, some, [], arith, if◌then◌else◌, Text, codes,
  text_eq, text_lt, eq_of_text_eq, text_lt_asym, text_lt_total,
}

unfoldable pub compute_initiator : Text → Text → Bool
compute_initiator source target = if text_eq source [] then false else text_lt source target

-- Of two users with different names that are not empty, exactly one starts the connection between
-- them: each side computes the opposite of what the other computes.
pub compute_initiator_opposite :
    (a b : Text) → a ≢ [] → b ≢ [] → a ≢ b → compute_initiator a b ≡ not (compute_initiator b a)
unfolding compute_initiator
compute_initiator_opposite a b na nb ne = ground (
  arith,
  eq_of_text_eq a [],
  eq_of_text_eq b [],
  text_lt_asym a b,
  text_lt_asym b a,
  text_lt_total a b,
)

-- A parsed address, as `url.Parse` of net/url gives it: the scheme and what follows.
pub record Url : Type 0 where
  pub scheme : Text
  pub rest : Text

-- AsWebsocketURL up to the printing; `parse` is `url.Parse`.
unfoldable pub as_websocket_url : (Text → Option Url) → Text → Option Url
as_websocket_url parse s = elim (parse s) [
  | none ↦ none
  | some u ↦ some (record u {
    scheme =
        if text_eq u.scheme (codes "https")
        then codes "wss"
        else if text_eq u.scheme (codes "http")
        then codes "ws"
        else u.scheme;
  })
]
