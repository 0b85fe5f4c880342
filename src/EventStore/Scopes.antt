-- ===== src/EventStore/Scopes.antt =====
-- crates/event-store/src/write_scopes.rs: which scopes can overlap.
use zmodbit.Prelude.{
  ◌≡◌, refl, sym, ap, ◌∙◌, ◌⊎◌, inl, inr, Bool, true, false, not, ◌&&◌, ◌||◌, none, List, [], ◌∷◌,
  ◌++◌, Text, text_eq, text_eq_iff, Any, Mem, find, retain, Bool-cases, Option-cases, arith,
}
use zmodbit.EventStore.Tables.{TaskRow}
use zmodbit.EventStore.WriteScopes.{
  ScopeRow, AcquireOutcome, acquired, denied, is_active_state, is_terminal_state, covers,
  trim_slashes, task_in, release_terminal, release_scopes, is_held, overlaps, first_overlap,
  rows_for, acquire_paths, acquire_declared, parse_scope, acquire_scopes,
}

abbrev pub In : ScopeRow → List ScopeRow → Type 0
In h rows = Any (λ x. x ≡ h) rows

pub In-retain :
    (p : ScopeRow → Bool) (rows : List ScopeRow) (h : ScopeRow) → In h (retain p rows) → In h rows
In-retain p [] h i = i
In-retain p (x ∷ rows) h i = elim (Bool-cases (p x)) [
  | inl q ↦
      let j : (x ≡ h) ⊎ In h (retain p rows) = rw (q) at i in
      elim j [ inl e ↦ inl e | inr k ↦ inr (In-retain p rows h k) ]
  | inr q ↦ let j : In h (retain p rows) = rw (q) at i in inr (In-retain p rows h j)
]

retain-In :
    (p : ScopeRow → Bool) (rows : List ScopeRow) (h : ScopeRow)
    → In h rows
    → p h ≡ true
    → In h (retain p rows)
retain-In p [] h i q = i
retain-In p (x ∷ rows) h (inl e) q = rw (ap p e ∙ q) (inl e)
retain-In p (x ∷ rows) h (inr i) q = elim (Bool-cases (p x)) [
  | inl r ↦ rw (r) (inr (retain-In p rows h i q))
  | inr r ↦ rw (r) (retain-In p rows h i q)
]

In-append : (xs ys : List ScopeRow) (h : ScopeRow) → In h (xs ++ ys) → In h xs ⊎ In h ys
In-append [] ys h i = inr i
In-append (x ∷ xs) ys h (inl e) = inl (inl e)
In-append (x ∷ xs) ys h (inr i) = elim (In-append xs ys h i) [ inl j ↦ inl (inr j) | inr j ↦ inr j ]

In-rows_for :
    (id repo : Text) (ps : List Text) (h : ScopeRow)
    → In h (rows_for id repo ps)
    → (h.task_id ≡ id) × (h.repo_key ≡ repo) × Mem h.path ps
In-rows_for id repo [] h i = absurd i
In-rows_for id repo (p ∷ ps) h (inl e) =
    (sym (ap (λ r. r.task_id) e), sym (ap (λ r. r.repo_key) e), inl (ap (λ r. r.path) e))
In-rows_for id repo (p ∷ ps) h (inr i) = let (t, r, m) = In-rows_for id repo ps h i in (t, r, inr m)

find-none :
    (q : ScopeRow → Bool) (held : List ScopeRow) (h : ScopeRow)
    → find q held ≡ none
    → In h held
    → q h ≡ false
find-none q [] h f i = absurd i
find-none q (x ∷ held) h f (inl e) = elim (Bool-cases (q x)) [
  | inl r ↦ absurd (ground arith)
  | inr r ↦ sym (ap q e) ∙ r
]
find-none q (x ∷ held) h f (inr i) = find-none q held h (ground arith) i

first_overlap-acquired :
    (held : List ScopeRow) (ps : List Text) (h : ScopeRow) (p : Text)
    → first_overlap held ps ≡ acquired
    → Mem p ps
    → In h held
    → overlaps p h ≡ false
unfolding first_overlap
first_overlap-acquired held [] h p f m i = absurd m
first_overlap-acquired held (q ∷ ps) h p f m i = elim (Option-cases (find (overlaps q) held)) [
  | inr (x, e) ↦ absurd (ground arith)
  | inl e ↦
      let rest : first_overlap held ps ≡ acquired = ground arith in
      elim m [
        | inl same ↦ sym (ap (λ t. overlaps t h) same) ∙ find-none (overlaps q) held h e i
        | inr later ↦ first_overlap-acquired held ps h p rest later i
      ]
]

-- Two rows of one repository overlap although their tasks differ and are both active.
abbrev pub clash : List TaskRow → ScopeRow → ScopeRow → Bool
clash tasks h g =
    text_eq h.repo_key g.repo_key
    && not (text_eq h.task_id g.task_id)
    && (task_in is_active_state tasks h && task_in is_active_state tasks g)
    && (covers h.path g.path || covers g.path h.path)

abbrev pub IsDisjoint : List TaskRow → List ScopeRow → Type 0
IsDisjoint tasks rows = (h g : ScopeRow) → In h rows → In g rows → clash tasks h g ≡ false

AcquireOutcome-cases :
    (o : AcquireOutcome) → (o ≡ acquired) ⊎ ((h : Text) × (p : Text) × (o ≡ denied h p))
AcquireOutcome-cases acquired = inl refl
AcquireOutcome-cases (denied h p) = inr (h, p, refl)

-- A row after an acquisition is one that was there or one that the acquisition made.
abbrev IsNew : Text → Text → List Text → ScopeRow → Type 0
IsNew id repo ps h = (h.task_id ≡ id) × (h.repo_key ≡ repo) × Mem h.path ps

In-acquired :
    (id repo : Text) (ps : List Text) (kept : List ScopeRow) (h : ScopeRow)
    → In h (release_scopes id kept ++ rows_for id repo ps)
    → In h kept ⊎ IsNew id repo ps h
unfolding release_scopes
In-acquired id repo ps kept h i =
    elim (In-append (release_scopes id kept) (rows_for id repo ps) h i) [
      | inl j ↦ inl (In-retain (λ r. not (text_eq r.task_id id)) kept h j)
      | inr j ↦ inr (In-rows_for id repo ps h j)
    ]

-- A held row does not clash with a row of paths that overlap no held one.
clash-new :
    (tasks : List TaskRow) (id repo : Text) (ps : List Text) (kept : List ScopeRow) (h g : ScopeRow)
    → first_overlap (retain (is_held tasks repo) kept) ps ≡ acquired
    → In h kept
    → IsNew id repo ps g
    → (clash tasks h g ≡ false) × (clash tasks g h ≡ false)
clash-new tasks id repo ps kept h g f i (t, r, m) = elim (Bool-cases (is_held tasks repo h)) [
  | inl q ↦
      let free =
        first_overlap-acquired (retain (is_held tasks repo) kept) ps h g.path f m
          (retain-In (is_held tasks repo) kept h i q) in
      ground arith
  | inr q ↦ ground (
    arith,
    text_eq_iff h.repo_key g.repo_key,
    text_eq_iff g.repo_key h.repo_key,
    text_eq_iff h.repo_key repo,
  )
]

acquired-IsDisjoint :
    (tasks : List TaskRow) (id repo : Text) (ps : List Text) (kept : List ScopeRow)
    → first_overlap (retain (is_held tasks repo) kept) ps ≡ acquired
    → IsDisjoint tasks kept
    → IsDisjoint tasks (release_scopes id kept ++ rows_for id repo ps)
acquired-IsDisjoint tasks id repo ps kept f d h g i j = elim (In-acquired id repo ps kept h i) [
  | inl old ↦ elim (In-acquired id repo ps kept g j) [
    | inl old' ↦ d h g old old'
    | inr new ↦ (clash-new tasks id repo ps kept h g f old new).0
  ]
  | inr new ↦ elim (In-acquired id repo ps kept g j) [
    | inl old ↦ (clash-new tasks id repo ps kept g h f old new).1
    | inr new' ↦
        let same : text_eq h.task_id g.task_id ≡ true =
          (text_eq_iff h.task_id g.task_id).1 (new.0 ∙ sym new'.0) in
        ground arith
  ]
]

acquire_paths-IsDisjoint :
    (tasks : List TaskRow) (id repo : Text) (ps : List Text) (rows : List ScopeRow)
    → IsDisjoint tasks rows
    → IsDisjoint tasks (acquire_paths tasks id repo ps rows).1
unfolding acquire_paths release_terminal
acquire_paths-IsDisjoint tasks id repo ps rows d =
    let kept = release_terminal tasks rows in
    let still : IsDisjoint tasks kept =
      λ h g i j. d h g (In-retain _ rows h i) (In-retain _ rows g j) in
    elim (AcquireOutcome-cases (first_overlap (retain (is_held tasks repo) kept) ps)) [
      | inl f ↦ rw (acquire_paths, f) (acquired-IsDisjoint tasks id repo ps kept f still)
      | inr (h, p, f) ↦ rw (acquire_paths, f) still
    ]

declared-IsDisjoint :
    (tasks : List TaskRow) (id repo : Text) (ps : List Text) (rows : List ScopeRow)
    → IsDisjoint tasks rows
    → IsDisjoint tasks (acquire_declared tasks id repo rows ps).1
declared-IsDisjoint tasks id repo [] rows d = d
declared-IsDisjoint tasks id repo (p ∷ ps) rows d =
    acquire_paths-IsDisjoint tasks id repo (p ∷ ps) rows d

-- With the tasks as they are, an acquisition keeps the paths of different active tasks apart, in each repository.
pub acquire_scopes-IsDisjoint :
    (tasks : List TaskRow) (id repo spec : Text) (rows : List ScopeRow)
    → IsDisjoint tasks rows
    → IsDisjoint tasks (acquire_scopes tasks id repo spec rows).1
unfolding acquire_scopes
acquire_scopes-IsDisjoint tasks id repo spec rows d =
    declared-IsDisjoint tasks id repo (parse_scope spec) rows d

covers-same : (p q : Text) → p ≡ q → covers p q ≡ true
unfolding covers
covers-same p q e = ground (arith, text_eq_iff (trim_slashes p) (trim_slashes q), ap trim_slashes e)

-- The paths of a task that is neither active nor terminal, such as a waiting one, are not held: where no other row is
-- there, another task acquires the very same path, and when both tasks are active later their rows overlap.
pub waiting_scope_taken :
    (tasks later : List TaskRow) (h g : ScopeRow)
    → task_in is_active_state tasks h ≡ false
    → task_in is_terminal_state tasks h ≡ false
    → text_eq h.task_id g.task_id ≡ false
    → h.repo_key ≡ g.repo_key
    → h.path ≡ g.path
    → task_in is_active_state later h ≡ true
    → task_in is_active_state later g ≡ true
    → (acquire_paths tasks g.task_id g.repo_key (g.path ∷ []) (h ∷ []) ≡ (acquired, h ∷ g ∷ []))
      × (clash later h g ≡ true)
unfolding acquire_paths release_terminal release_scopes first_overlap
waiting_scope_taken tasks later h g waits alive other repo path active active' = (
  ground arith,
  ground (arith, text_eq_iff h.repo_key g.repo_key, covers-same h.path g.path path),
)
