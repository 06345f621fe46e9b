-- ===== src/Evidence/ElementKey.antt =====
-- packages/core/src/evidence/element-key.ts: the key by which a control is told apart.
use growthmind.Prelude.{
  Text, text, compare_texts, to_sorted, join_with, Bool, true, false, ◌&&◌, is_empty, Option, none,
  some, List, [], ◌∷◌, if◌then◌else◌,
}
use growthmind.Replay.Types.{ElementIdentity, is_unknown_identity}

pub data ElementKeyTier : Type 0 where
  stable structural : ElementKeyTier

pub record ElementKey : Type 0 where
  pub key : Text
  pub tier : ElementKeyTier

abbrev pub is_missing : Option Text → Bool
is_missing none = true
is_missing (some _) = false

abbrev pub is_structurally_anonymous : ElementIdentity → Bool
is_structurally_anonymous identity =
    is_missing identity.test_id && (is_missing identity.id && is_empty identity.classes)

-- The separator of fields is the code unit 0, that of classes a space.
unfoldable pub join_key : List Text → Text
unfolding join_with
join_key parts = join_with 0 parts

abbrev pub or_empty_text : Option Text → Text
or_empty_text none = []
or_empty_text (some t) = t

-- `toSorted()` without a comparator is by code units.
unfoldable pub structural_key : ElementIdentity → Text
unfolding join_key join_with to_sorted compare_texts
structural_key identity = join_key (
    text "structural"
    ∷ identity.tag_name
    ∷ or_empty_text identity.role
    ∷ join_with 32 (to_sorted compare_texts identity.classes)
    ∷ [])

abbrev pub key_by_id : ElementIdentity → Option Text → ElementKey
key_by_id identity (some id) = record {
  key = join_key (text "stable" ∷ text "id" ∷ id ∷ []);
  tier = stable;
}
key_by_id identity none = record { key = structural_key identity; tier = structural }

abbrev pub key_of_identity : ElementIdentity → Option Text → ElementKey
key_of_identity identity (some test_id) = record {
  key = join_key (text "stable" ∷ text "testid" ∷ test_id ∷ []);
  tier = stable;
}
key_of_identity identity none = key_by_id identity identity.id

unfoldable pub stable_element_key : ElementIdentity → Option ElementKey
unfolding is_unknown_identity structural_key join_key
stable_element_key identity =
    if is_unknown_identity identity
    then none
    else if is_structurally_anonymous identity
    then none
    else some (key_of_identity identity identity.test_id)
