-- ===== src/Workflow/Registry.antt =====
-- The registry and `LoadFromDir` of internal/workflow/workflow.go.
use orqestra.Base.{
  Bool, true, false, Option, none, some, List, [], ◌∷◌, String, str_eq, if◌then◌else◌,
}
use orqestra.Workflow.{Workflow, validate}

-- `map[string]Workflow`, a name at most once.
abbrev pub Registry : Type 0
Registry = List Workflow

unfoldable pub register : Workflow → Registry → Registry
register w [] = w ∷ []
register w (v ∷ r) = if str_eq v.name w.name then w ∷ r else v ∷ register w r

unfoldable pub lookup : String → Registry → Option Workflow
lookup name [] = none
lookup name (v ∷ r) = if str_eq v.name name then some v else lookup name r

-- A file of the directory: what `yaml.Unmarshal` makes of it. A directory entry, or a name that does not
-- end in ".yaml", is skipped.
pub data Entry : Type 0 where
  skipped : Entry
  unreadable : Entry
  unparsable : Entry
  parsed : Workflow → Entry

-- Whether loading succeeds, with the registry that it leaves.
unfoldable pub load_entries : Registry → List Entry → Registry × Bool
load_entries r [] = (r, true)
load_entries r (skipped ∷ es) = load_entries r es
load_entries r (unreadable ∷ es) = (r, false)
load_entries r (unparsable ∷ es) = (r, false)
load_entries r (parsed w ∷ es) =
    let (w', e) = validate w in
    elim e [ some _ ↦ (r, false) | none ↦ load_entries (register w' r) es ]

-- What `os.ReadDir` makes of the directory.
pub data Directory : Type 0 where
  missing : Directory
  unlistable : Directory
  listed : List Entry → Directory

unfoldable pub load_from_dir : Registry → Directory → Registry × Bool
unfolding load_entries
load_from_dir r missing = (r, true)
load_from_dir r unlistable = (r, false)
load_from_dir r (listed es) = load_entries r es
