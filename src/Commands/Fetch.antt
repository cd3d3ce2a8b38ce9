-- ===== src/Commands/Fetch.antt =====
-- `handler` of src/commands/ProxyFetchCommand.ts: the variants that are asked for, the tasks that
-- fetch them, and the results.
pub mod Tasks
use node_proxybroker.Prelude.{
  Bool, true, false, not, ◌&&◌, Option, none, some, List, [], ◌∷◌, ◌++◌, map, Str, codes, str_eq,
  is_empty, filter, if◌then◌else◌, length, ◌==◌,
}
use node_proxybroker.Provider.{ProviderDef, find_all}
use node_proxybroker.Commands.Output.{uniq}

-- The arguments; a missing or an empty one is not true.
pub record Argv : Type 0 where
  pub provider : Option Str
  pub variant : Option Str
  pub validate : Bool
  pub store : Bool

-- An argument that is there and not empty.
abbrev pub given : Option Str → Option Str
given none = none
given (some []) = none
given (some (c ∷ s)) = some (c ∷ s)

-- `find.name`: '*' asks for no name.
abbrev pub find_name : Option Str → Option Str
find_name none = none
find_name (some p) = if str_eq p (codes "*") then none else some p

-- `find.type` is asked for with a provider only.
abbrev pub find_type : Option Str → Option Str → Option Str
find_type none variant = none
find_type (some p) variant = variant

-- The variants to fetch: without a provider they are only listed.
unfoldable pub chosen_variants : Argv → List ProviderDef → List ProviderDef
unfolding find_all
chosen_variants argv defs = elim (given argv.provider) [
  | none ↦ []
  | some p ↦ find_all (find_name (some p)) (find_type (some p) (given argv.variant)) defs
]

pub record Task : Type 0 where
  pub provider : Str
  pub variants : List Str

abbrev pub has_name : Str → ProviderDef → Bool
has_name n d = str_eq d.name n

abbrev pub type_of : ProviderDef → Str
type_of d = d.type

unfoldable pub task_for : List ProviderDef → Str → Task
task_for defs n = record { provider = n; variants = map type_of (filter (has_name n) defs) }

-- One task for each provider name.
unfoldable pub fetch_tasks : List ProviderDef → List Task
unfolding task_for uniq
fetch_tasks defs = map (task_for defs) (uniq (map (λ (d : ProviderDef). d.name) defs))

-- The state of a task that has run: its name and its result.
pub record TaskState {ℓ} (R : Type ℓ) : Type ℓ where
  pub name : Str
  pub result : List R

-- The states that are read: those of the validation, if it is asked for.
abbrev pub task_name : Bool → Str
task_name true = codes "proxy_validate"
task_name false = codes "proxy_fetch"

module _ {ℓ} {R : Type ℓ} where
  abbrev concat_results : List (TaskState R) → List R
  concat_results [] = []
  concat_results (t ∷ ts) = t.result ++ concat_results ts

  -- `_.uniqBy(list, x => JSON.stringify(x))`, for the text of a value.
  unfoldable pub uniq_by : (R → Str) → List R → List R
  uniq_by text [] = []
  uniq_by text (x ∷ xs) = x ∷ filter (λ y. not (str_eq (text x) (text y))) (uniq_by text xs)

  unfoldable pub collect : (R → Str) → Bool → List (TaskState R) → List R
  unfolding uniq_by
  collect text validate states =
      uniq_by text
        (concat_results (filter (λ (t : TaskState R). str_eq t.name (task_name validate)) states))

  -- `TasksHelper.exec` runs the tasks, and the validation that they start: their states, if any.
  unfoldable pub fetch_handler :
      (R → Str)
      → (List Task → Bool → Bool → Option (List (TaskState R)))
      → Argv
      → List ProviderDef
      → List R
  unfolding chosen_variants fetch_tasks collect
  fetch_handler text exec argv defs = elim (chosen_variants argv defs) [
    | [] ↦ []
    | d ∷ ds ↦ elim (exec (fetch_tasks (d ∷ ds)) argv.validate argv.store) [
      | none ↦ []
      | some states ↦ collect text argv.validate states
    ]
  ]
