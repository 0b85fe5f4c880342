-- ===== src/EventStore/WriteScopes.antt =====
-- crates/event-store/src/write_scopes.rs: the registry of declared write paths, over the rows of `task_write_scopes`
-- and `tasks`. SQL errors are not modelled.
use Prim.Native.String.{String}
use zmodbit.Prelude.{
  Bool, not, ◌&&◌, ◌||◌, none, some, List, [], ◌∷◌, ◌++◌, map, Text, bytes, text_eq, starts_with,
  any, all, find, retain, push, trim, is_filled, ◌==◌, if◌then◌else◌,
}
use zmodbit.EventStore.Tables.{TaskRow}

pub record ScopeRow : Type 0 where
  pub task_id : Text
  pub repo_key : Text
  pub path : Text

pub data AcquireOutcome : Type 0 where
  acquired : AcquireOutcome
  denied : (holder_task_id path : Text) → AcquireOutcome

unfoldable pub is_terminal_state : String → Bool
is_terminal_state s =
    any (text_eq (bytes s)) (bytes "completed" ∷ bytes "failed" ∷ bytes "cancelled" ∷ [])

unfoldable pub is_active_state : String → Bool
is_active_state s =
    any (text_eq (bytes s))
      (bytes "created" ∷ bytes "queued" ∷ bytes "running" ∷ bytes "ready_for_review" ∷ [])

-- `trim_end_matches('/')`.
abbrev pub trim_slashes : Text → Text
trim_slashes [] = []
trim_slashes (c ∷ t) =
    let rest = trim_slashes t in if all (λ d. d == 47) (c ∷ t) then [] else c ∷ rest

unfoldable pub covers : Text → Text → Bool
covers a b =
    text_eq (trim_slashes a) (trim_slashes b)
    || starts_with (trim_slashes b) (push (trim_slashes a) 47)

-- `split(',')`, with the piece that is being read.
abbrev pub split_commas : Text → Text → List Text
split_commas piece [] = piece ∷ []
split_commas piece (c ∷ t) =
    let next = split_commas [] t in
    let longer = split_commas (push piece c) t in if c == 44 then piece ∷ next else longer

unfoldable pub parse_scope : Text → List Text
parse_scope spec = retain is_filled (map trim (split_commas [] spec))

-- The row's task is in a state that `test` accepts.
abbrev pub task_in : (String → Bool) → List TaskRow → ScopeRow → Bool
task_in test tasks h = any (λ t. text_eq t.task_id h.task_id && test t.state) tasks

unfoldable pub release_terminal : List TaskRow → List ScopeRow → List ScopeRow
unfolding is_terminal_state
release_terminal tasks rows = retain (λ h. not (task_in is_terminal_state tasks h)) rows

unfoldable pub release_scopes : Text → List ScopeRow → List ScopeRow
release_scopes task_id rows = retain (λ h. not (text_eq h.task_id task_id)) rows

abbrev pub is_held : List TaskRow → Text → ScopeRow → Bool
is_held tasks repo_key h = text_eq h.repo_key repo_key && task_in is_active_state tasks h

abbrev pub overlaps : Text → ScopeRow → Bool
overlaps path h = covers h.path path || covers path h.path

-- The loop over the declared paths and the held ones.
unfoldable pub first_overlap : List ScopeRow → List Text → AcquireOutcome
first_overlap held [] = acquired
first_overlap held (p ∷ ps) = elim (find (overlaps p) held) [
  | some h ↦ denied h.task_id p
  | none ↦ first_overlap held ps
]

abbrev pub rows_for : Text → Text → List Text → List ScopeRow
rows_for task_id repo_key ps =
    map (λ p. record { task_id = task_id; repo_key = repo_key; path = p }) ps

unfoldable pub acquire_paths :
    List TaskRow → Text → Text → List Text → List ScopeRow → AcquireOutcome × List ScopeRow
unfolding release_terminal release_scopes first_overlap is_active_state
acquire_paths tasks task_id repo_key ps rows =
    let kept = release_terminal tasks rows in
    elim (first_overlap (retain (is_held tasks repo_key) kept) ps) [
      | denied h p ↦ (denied h p, kept)
      | acquired ↦ (acquired, release_scopes task_id kept ++ rows_for task_id repo_key ps)
    ]

-- What is not declared is neither acquired nor denied.
abbrev pub acquire_declared :
    List TaskRow → Text → Text → List ScopeRow → List Text → AcquireOutcome × List ScopeRow
acquire_declared tasks task_id repo_key rows [] = (acquired, rows)
acquire_declared tasks task_id repo_key rows (p ∷ ps) =
    acquire_paths tasks task_id repo_key (p ∷ ps) rows

unfoldable pub acquire_scopes :
    List TaskRow → Text → Text → Text → List ScopeRow → AcquireOutcome × List ScopeRow
unfolding acquire_paths
acquire_scopes tasks task_id repo_key spec rows =
    acquire_declared tasks task_id repo_key rows (parse_scope spec)
