-- ===== src/Delivery/Mrkdwn.antt =====
-- packages/core/src/delivery/mrkdwn.ts: text that Slack shows as it is, and how much of one fits.
pub mod Laws
use growthmind.Prelude.{ℕ, ◌+◌, Text, text, List, [], ◌∷◌, ◌++◌, length, ltb, ◌==◌, if◌then◌else◌}

abbrev pub ampersand : ℕ
ampersand = 38

abbrev pub less_than : ℕ
less_than = 60

abbrev pub greater_than : ℕ
greater_than = 62

-- `text.replaceAll(unit, replacement)`
unfoldable pub replace_all : ℕ → Text → Text → Text
replace_all unit replacement [] = []
replace_all unit replacement (c ∷ s) =
    (if c == unit then replacement else c ∷ []) ++ replace_all unit replacement s

unfoldable pub escape_mrkdwn : Text → Text
unfolding replace_all
escape_mrkdwn s =
    replace_all greater_than (text "&gt;")
      (replace_all less_than (text "&lt;") (replace_all ampersand (text "&amp;") s))

abbrev pub mrkdwn_length : Text → ℕ
mrkdwn_length s = length (escape_mrkdwn s)

-- The loop: `used` of the budget is taken up by the units before `index`.
unfoldable pub prefix_from : ℕ → ℕ → ℕ → Text → ℕ
prefix_from budget used index [] = index
prefix_from budget used index (c ∷ s) =
    let more = prefix_from budget (used + mrkdwn_length (c ∷ [])) (index + 1) s in
    if ltb budget (used + mrkdwn_length (c ∷ [])) then index else more

unfoldable pub mrkdwn_prefix_length : Text → ℕ → ℕ
unfolding prefix_from
mrkdwn_prefix_length s budget = prefix_from budget 0 0 s
