-- ===== src/Process/Keygen.antt =====
-- cmd/keygen/main.go: a new API key. The random bytes and the SHA-256 hash are parameters.
use Prim.Native.Nat.{◌/◌, ◌%◌}
use Prim.Native.String.{◌++◌ as str_append}
use text.Mathlib.TextLemmas.{append-eq-nil_iff}
use orqestra.Base.{
  ℕ, ◌≡◌, refl, ap, sym, ◌∙◌, Bool, true, false, Option, none, some, List, [], ◌∷◌, ◌++◌, String,
  str_eq, eq_iff, arith, any, get_or, if◌then◌else◌, Bool-cases, inl, inr, Outcome, done, refused,
  lost, attempt,
}
use orqestra.Queue.Interface.{JobQueue}
use orqestra.Workflow.Registry.{Registry}
use orqestra.Db.Tables.{Db}
use orqestra.Db.ApiKeys.{ApiKey, has_key, insert_api_key, validate_api_key}
use orqestra.Api.Requests.{Request, bearer, ApiCalls}
use orqestra.Api.{handle, serve}

abbrev hex_digits : List String
hex_digits =
    "0" ∷ "1" ∷ "2" ∷ "3" ∷ "4" ∷ "5" ∷ "6" ∷ "7" ∷ "8" ∷ "9" ∷ "a" ∷ "b" ∷ "c" ∷ "d" ∷ "e" ∷ "f"
    ∷ []

-- `hex.EncodeToString`.
unfoldable pub hex : List ℕ → String
hex [] = ""
hex (b ∷ bs) =
    str_append (get_or hex_digits (b / 16) "") (str_append (get_or hex_digits (b % 16) "") (hex bs))

unfoldable pub key_of : List ℕ → String
unfolding hex
key_of raw = str_append "orq_" (hex raw)

-- The name that the first argument gives.
unfoldable pub key_name : List String → String
key_name [] = "default"
key_name (name ∷ _) = name

module _ (hash : String → String) where
  -- The bytes are `none` if `rand.Read` fails. The key that is printed; `none` is an exit with an error.
  unfoldable pub keygen :
      Outcome → List String → Option (List ℕ) → List ApiKey → List ApiKey × Option String
  unfolding key_of key_name
  keygen o args none keys = (keys, none)
  keygen o args (some raw) keys =
      let key = key_of raw in
      let (keys', ok) = insert_api_key o (key_name args) (hash key) keys in
      (keys', if ok then some key else none)

  any-last :
      (p : ApiKey → Bool) (keys : List ApiKey) (k : ApiKey)
      → p k ≡ true
      → any p (keys ++ k ∷ []) ≡ true
  any-last p [] k h = ground arith
  any-last p (x ∷ keys) k h = ground (arith, any-last p keys k h)

  inserted-key :
      (o : Outcome) (name key_hash : String) (keys : List ApiKey)
      → (insert_api_key o name key_hash keys).1 ≡ true
      → has_key key_hash (insert_api_key o name key_hash keys).0 ≡ true
  unfolding insert_api_key
  inserted-key o name key_hash keys h = elim (Bool-cases (has_key key_hash keys)) [
    | inl old ↦ absurd (let gone : false ≡ true = rw old at h in cc)
    | inr new ↦ rw new (go o (rw new at h))
  ]
    where
      add : List ApiKey → List ApiKey
      add ks = ks ++ record { name = name; key_hash = key_hash } ∷ []

      go :
          (o : Outcome)
          → (attempt o add keys).1 ≡ true
          → has_key key_hash (attempt o add keys).0 ≡ true
      go done h =
          any-last (λ k. str_eq k.key_hash key_hash) keys _ ((eq_iff key_hash key_hash).1 refl)
      go refused h = absurd (cc)
      go lost h = absurd (cc)

  key_of-ne : (raw : List ℕ) → str_eq (key_of raw) "" ≡ false
  unfolding key_of
  key_of-ne raw = elim (Bool-cases (str_eq (key_of raw) "")) [
    | inr e ↦ e
    | inl e ↦
        let none_left = ((append-eq-nil_iff).0 ((eq_iff (key_of raw) "").0 e)).0 in
        absurd (let same = (eq_iff "orq_" "").1 none_left in cc)
  ]

  -- The key is one that the table knows, and is not empty.
  Known : List ApiKey → String → Type 0
  Known keys key = (has_key (hash key) keys ≡ true) × (str_eq key "" ≡ false)

  keygen-Known :
      (o : Outcome) (args : List String) (raw : Option (List ℕ)) (keys : List ApiKey) (key : String)
      → (keygen o args raw keys).1 ≡ some key
      → Known (keygen o args raw keys).0 key
  unfolding keygen Known
  keygen-Known o args none keys key h = absurd (cc)
  keygen-Known o args (some raw) keys key h =
      let k = key_of raw in
      let x = insert_api_key o (key_name args) (hash k) keys in
      elim (Bool-cases x.1) [
        | inr e ↦ absurd (let gone : none ≡ some key = rw e at h in cc)
        | inl e ↦
            let same : k ≡ key = (let e' : some k ≡ some key = rw e at h in cc) in
            (
              ap (λ y. has_key (hash y) x.0) (sym same)
                  ∙ inserted-key o (key_name args) (hash k) keys e,
              ap (λ y. str_eq y "") (sym same) ∙ key_of-ne raw,
            )
      ]

  -- A key that the command prints is accepted: if the table can be read, every request with it is
  -- handled.
  pub keygen-serve :
      (q : JobQueue) (o : Outcome) (args : List String) (raw : Option (List ℕ)) (keys : List ApiKey)
      (key : String) (c : ApiCalls) (registry : Registry) (now : ℕ) (r : Request) (db : Db)
      (s : q.State)
      → (keygen o args raw keys).1 ≡ some key
      → c.auth ≡ done
      → serve q hash (keygen o args raw keys).0 c registry now (bearer key) r db s
        ≡ handle q c registry now r db s
  unfolding serve validate_api_key Known
  keygen-serve q o args raw keys key c registry now r db s h a =
      let (known, full) = keygen-Known o args raw keys key h in
      rw (full, serve, validate_api_key, a, known) refl
