-- ===== src/Db/ApiKeys.antt =====
-- internal/db/api_keys.go. The column key_hash is unique.
use orqestra.Base.{
  Bool, false, List, [], ◌∷◌, ◌++◌, String, str_eq, any, Outcome, attempt, answers, if◌then◌else◌,
}
use orqestra.Db.Tables.{Query, found, broken}

pub record ApiKey : Type 0 where
  pub name : String
  pub key_hash : String

-- EXISTS (SELECT … WHERE key_hash = $1).
abbrev pub has_key : String → List ApiKey → Bool
has_key key_hash keys = any (λ k. str_eq k.key_hash key_hash) keys

-- The new table, and whether the error is nil: a hash that is there already violates the key.
unfoldable pub insert_api_key : Outcome → String → String → List ApiKey → List ApiKey × Bool
insert_api_key o name key_hash keys =
    if has_key key_hash keys
    then (keys, false)
    else attempt o (λ ks. ks ++ record { name = name; key_hash = key_hash } ∷ []) keys

unfoldable pub validate_api_key : Outcome → String → List ApiKey → Query Bool
validate_api_key o key_hash keys = if answers o then found (has_key key_hash keys) else broken
