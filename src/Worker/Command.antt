-- ===== src/Worker/Command.antt =====
-- `executeJob` of cmd/worker/main.go. What encoding/json makes of a payload that is no command, and the
-- shell, are parameters.
use Prim.Native.String.{◌++◌ as str_append}
use text.Mathlib.TextLemmas.{append-eq-nil_iff}
use mathlib.Core.List.{append-nil}
use orqestra.Base.{
  ℕ, ◌*◌, ◌≤◌, ◌<◌, ap, ◌≡◌, ◌≢◌, refl, sym, ◌⊎◌, inl, inr, Bool, true, false, Option, none, some,
  List, [], ◌++◌, String, str_eq, eq_iff, arith, ltb, if◌then◌else◌, length, take, drop,
  take-append-drop, length-take, utf8, ltb→lt, trim_space, Bool-cases, Option-cases,
}
use orqestra.Queue.Keyspace.{Payload, command, other}

pub data Decoded : Type 0 where
  bad : String → Decoded
  fields : String → String → Decoded

-- What a run of `sh -c` writes, and the error of `cmd.Run`.
pub record Ran : Type 0 where
  pub stdout : String
  pub stderr : String
  pub error : Option String

-- The command, and the bytes of the variable PREVIOUS_OUTPUT.
abbrev pub Shell : Type 0
Shell = String → List ℕ → Ran

pub record Executed : Type 0 where
  pub success : Bool
  pub error : String
  pub output : String

abbrev failed_with : String → Executed
failed_with error = record { success = false; error = error; output = "" }

abbrev pub max_previous_output_bytes : ℕ
max_previous_output_bytes = 64 * 1024

unfoldable pub cut : ℕ → List ℕ → List ℕ
cut limit bytes = if ltb limit (length bytes) then take limit bytes else bytes

-- The value of PREVIOUS_OUTPUT.
unfoldable pub previous_env : String → List ℕ
unfolding cut
previous_env previous = cut max_previous_output_bytes (utf8 previous)

-- After `cmd.Run`.
unfoldable pub finish : Ran → Executed
finish ran = elim ran.error [
  | some error ↦
      failed_with
        (str_append "command failed: " (str_append error (str_append "\n" (trim_space ran.stderr))))
  | none ↦ record { success = true; error = ""; output = trim_space ran.stdout }
]

module _ (json : String → Decoded) where
  abbrev pub decode : Payload → Decoded
  decode (command c previous) = fields c previous
  decode (other text) = json text

  unfoldable pub execute_job : Shell → Payload → Executed
  unfolding previous_env finish
  execute_job shell payload = elim (decode payload) [
    | bad error ↦ failed_with (str_append "invalid payload: " error)
    | fields c previous ↦
        if str_eq c ""
        then failed_with "missing required field: command"
        else finish (shell c (previous_env previous))
  ]

  -- What goes wrong: the payload cannot be read, it has no command, or the shell reports an error.
  abbrev pub GoesWrong : Shell → Payload → Type 0
  GoesWrong shell payload =
      ((e : String) × (decode payload ≡ bad e))
      ⊎ ((previous : String) × (decode payload ≡ fields "" previous))
      ⊎ ((c : String) × (previous : String) × (e : String) × (decode payload ≡ fields c previous)
          × (c ≢ "")
          × ((shell c (previous_env previous)).error ≡ some e))

  -- Either something goes wrong, and there is no success, with an error and no output; or the payload has a
  -- command, the shell ran it without an error, and the output is what it wrote, trimmed.
  abbrev pub Executes : Shell → Payload → Executed → Type 0
  Executes shell payload x =
      (GoesWrong shell payload × (x.success ≡ false) × (x.error ≢ "") × (x.output ≡ ""))
      ⊎ ((c : String) × (previous : String) × (decode payload ≡ fields c previous)
          × (c ≢ "")
          × ((shell c (previous_env previous)).error ≡ none)
          × (x ≡ record {
            success = true;
            error = "";
            output = trim_space (shell c (previous_env previous)).stdout;
          }))

  prefix-ne : (p s : String) → str_eq p "" ≡ false → str_append p s ≢ ""
  prefix-ne p s h e =
      let none_left = ((append-eq-nil_iff).0 e).0 in
      absurd (let same = (eq_iff p "").1 none_left in cc)

  Decoded-cases :
      (d : Decoded)
      → ((e : String) × (d ≡ bad e))
        ⊎ ((c : String) × (previous : String) × (d ≡ fields c previous))
  Decoded-cases (bad e) = inl (e, refl)
  Decoded-cases (fields c previous) = inr (c, previous, refl)

  -- Whatever the payload and the shell: if the payload has a command that the shell runs without an error,
  -- `executeJob` reports a success and the trimmed standard output; if the payload cannot be read, has no
  -- command, or the shell reports an error, it reports no success, an error and no output.
  pub execute_job-Executes :
      (shell : Shell) (payload : Payload) → Executes shell payload (execute_job shell payload)
  unfolding execute_job finish
  execute_job-Executes shell payload = elim (Decoded-cases (decode payload)) [
    | inl (e, d) ↦
        rw (d, execute_job) (inl (inl (e, refl), refl, prefix-ne "invalid payload: " e refl, refl))
    | inr (c, previous, d) ↦ elim (Bool-cases (str_eq c "")) [
      | inl empty ↦
          rw (d, empty, execute_job)
            (inl (
              inr (inl (previous, ap (λ x. fields x previous) ((eq_iff c "").0 empty))),
              refl,
              (λ e. absurd (let same = (eq_iff _ "").1 e in cc)),
              refl,
            ))
      | inr there ↦
          let ne : c ≢ "" = λ e. absurd (let same = (eq_iff c "").1 e in cc) in
          let ran = shell c (previous_env previous) in
          elim (Option-cases ran.error) [
            | inl ok ↦ inr (c, previous, d, ne, ok, rw (d, there, ok, execute_job, finish) refl)
            | inr (e, bad_run) ↦
                rw (d, there, bad_run, execute_job, finish)
                  (inl (
                    inr (inr (c, previous, e, refl, ne, bad_run)),
                    refl,
                    prefix-ne "command failed: " _ refl,
                    refl,
                  ))
          ]
    ]
  ]

-- What a cut leaves: all of it if that is no more than the limit, and as many as the limit from the front
-- otherwise.
abbrev pub IsCut : ℕ → List ℕ → List ℕ → Type 0
IsCut limit bytes kept =
    (length bytes ≤ limit → kept ≡ bytes)
    × (limit < length bytes → length kept ≡ limit)
    × ((rest : List ℕ) × (bytes ≡ kept ++ rest))

cut-IsCut : (limit : ℕ) (bytes : List ℕ) → IsCut limit bytes (cut limit bytes)
unfolding cut
cut-IsCut limit bytes = elim (Bool-cases (ltb limit (length bytes))) [
  | inl long ↦
      let more = ltb→lt limit (length bytes) long in
      rw (long, cut)
        (
          (λ few. absurd (omega arith)),
          (λ _. length-take limit bytes (omega arith)),
          (drop limit bytes, sym (take-append-drop limit bytes)),
        )
  | inr short ↦
      let few : length bytes ≤ limit = ground arith in
      rw (short, cut) ((λ _. refl), (λ more. absurd (omega arith)), ([], sym (append-nil bytes)))
]

-- The value of PREVIOUS_OUTPUT is a front part of the output of the step before: all of it if that has at
-- most 65536 bytes, and its first 65536 bytes otherwise.
pub previous_env-IsCut :
    (previous : String) → IsCut max_previous_output_bytes (utf8 previous) (previous_env previous)
unfolding previous_env
previous_env-IsCut previous = cut-IsCut max_previous_output_bytes (utf8 previous)
