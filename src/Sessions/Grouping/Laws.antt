-- ===== src/Sessions/Grouping/Laws.antt =====
-- packages/shared/src/sessions/grouping.ts: the sessions that the accounts count, and their order.
use growthmind.Prelude.{
  ℕ, ◌+◌, Text, text_eq, Option, none, some, List, [], ◌∷◌, map, if◌then◌else◌,
}
use growthmind.Platform.{Platform}
use growthmind.Sessions.Grouping.{DomainGroup, AccountGroup, to_account_group}

-- How many sessions the accounts of a domain count.
pub sessions_in : Text → List AccountGroup → ℕ
sessions_in domain [] = 0
sessions_in domain (g ∷ gs) =
    (if text_eq g.domain domain then g.session_count else 0) + sessions_in domain gs

abbrev counted_in : Text → List (Text × DomainGroup) → ℕ
counted_in domain groups = sessions_in domain (map to_account_group groups)

abbrev count_or_zero_of : Option DomainGroup → ℕ
count_or_zero_of none = 0
count_or_zero_of (some g) = g.count

abbrev if_in : Text → Text → ℕ → ℕ
if_in domain key n = if text_eq key domain then n else 0
