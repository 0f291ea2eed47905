-- ===== src/Permissions/Tests.antt =====
-- The registry, evaluated.
use pluris.Prelude.{none, false, ◌≡◌, refl, length}
use pluris.Permissions.{all_keys, action_by_key, has_duplicate}

-- No key is registered twice, so `init` does not panic.
keys_distinct : has_duplicate all_keys ≡ false
unfolding has_duplicate all_keys
keys_distinct = refl

key_count : length all_keys ≡ 29
unfolding all_keys
key_count = refl

unknown_action : action_by_key "identity.fly" ≡ none
unfolding action_by_key
unknown_action = refl
