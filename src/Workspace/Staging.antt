-- ===== src/Workspace/Staging.antt =====
-- crates/workspace/src/lib.rs: change_engine::apply_transaction. What a planned transaction writes, and two ways in
-- which it goes wrong.
use zmodbit.Prelude.{
  ◌≡◌, refl, sym, ap, ◌∙◌, inl, inr, false, Bool-cases, Option, some, List, [], ◌∷◌, ℕ, Text,
  text_eq, text_eq_iff, text_eq_refl, map, Map, get, insert, remove, get-insert, get-remove, All,
  All-map, ok, err, Result, Result-cases, subst, ◌==◌, if◌then◌else◌,
}
use zmodbit.Workspace.Paths.{resolve}
use zmodbit.Workspace.Files.{WorkspaceError, Service, read, commit_staged}
use zmodbit.Workspace.Patch.{join_lines}
use zmodbit.Workspace.Engine.{
  EditOp, TransactionError, joined_bytes, plan_read, plan_edit, plan_edits, staging_file, stage_all,
  rename_all, commit_all, apply_transaction,
}

-- The targets of planned edits, with the bytes.
abbrev pub Resolved : List (Text × Text) → List (Text × Text) → Type 0
Resolved [] [] = Unit
Resolved ((p, b) ∷ ps) ((r, c) ∷ ts) = (resolve p ≡ some r) × (b ≡ c) × Resolved ps ts
Resolved _ _ = ⊥

-- The target and the staging file of one are neither of another.
abbrev pub IsApartFrom : Text → Text × Text → Type 0
IsApartFrom r (q, b) =
    (text_eq (staging_file r) (staging_file q) ≡ false)
    × (text_eq (staging_file r) q ≡ false)
    × (text_eq r (staging_file q) ≡ false)

abbrev pub IsApart : List (Text × Text) → Type 0
IsApart [] = Unit
IsApart ((r, b) ∷ ts) = All (λ t. IsApartFrom r t) ts × IsApart ts

-- What a file holds after the writes, from what it held.
abbrev pub written : List (Text × Text) → Text → Option Text → Option Text
written [] k old = old
written ((r, b) ∷ ts) k old = written ts k (if text_eq r k then some b else old)

abbrev pairs : List (Text × Text) → List (Text × Text)
pairs [] = []
pairs ((r, b) ∷ ts) = (staging_file r, r) ∷ pairs ts

abbrev staged : List (Text × Text) → Map Text → Map Text
staged [] tree = tree
staged ((r, b) ∷ ts) tree = staged ts (insert (staging_file r) b tree)

abbrev pub IsNoStaging : Text → List (Text × Text) → Type 0
IsNoStaging k ts = All (λ (t : Text × Text). text_eq (staging_file t.0) k ≡ false) ts

-- Each edit is planned on its own: its path, and the bytes that the match ladder gives for its hunks.
abbrev pub Planned : Service → List EditOp → List (Text × Text) → Type 0
Planned s [] [] = Unit
Planned s (e ∷ es) (p ∷ ps) = (plan_edit e s ≡ ok p) × (p.0 ≡ e.path) × Planned s es ps
Planned s _ _ = ⊥

joined_bytes-path :
    (path : Text) (o : Result TransactionError (List Text)) (p : Text × Text)
    → joined_bytes path o ≡ ok p
    → p.0 ≡ path
joined_bytes-path path (err e) p h = cc
joined_bytes-path path (ok ls) p h =
    let same : (path, join_lines ls) ≡ p = cc in ap (λ q. q.0) (sym same)

plan_read-path :
    (e : EditOp) (o : Result WorkspaceError (Text × ℕ)) (p : Text × Text)
    → plan_read e o ≡ ok p
    → p.0 ≡ e.path
plan_read-path e (err x) p h = cc
plan_read-path e (ok (original, current)) p h = elim (Bool-cases (current == e.expected_revision)) [
  | inl q ↦ joined_bytes-path e.path _ p (rw (q) at h)
  | inr q ↦ cc (rw (q) at h)
]

plan_edit-path : (e : EditOp) (s : Service) (p : Text × Text) → plan_edit e s ≡ ok p → p.0 ≡ e.path
unfolding plan_edit
plan_edit-path e s p h = plan_read-path e (read e.path s) p h

plan_edits-Planned :
    (es : List EditOp) (s : Service) (ps : List (Text × Text))
    → plan_edits es s ≡ ok ps
    → Planned s es ps
unfolding plan_edits
plan_edits-Planned [] s [] h = tt
plan_edits-Planned [] s (p ∷ ps) h = cc
plan_edits-Planned (e ∷ es) s ps h = elim (Result-cases (plan_edit e s)) [
  | inr (x, q) ↦ cc (rw (plan_edits, q) at h)
  | inl (p, q) ↦ elim (Result-cases (plan_edits es s)) [
    | inr (x, r) ↦ cc (rw (plan_edits, q, r) at h)
    | inl (qs, r) ↦
        let same : p ∷ qs ≡ ps = cc (rw (plan_edits, q, r) at h) in
        subst (Planned s (e ∷ es)) same (q, plan_edit-path e s p q, plan_edits-Planned es s qs r)
  ]
]

Planned-paths :
    (s : Service) (es : List EditOp) (ps : List (Text × Text))
    → Planned s es ps
    → map (λ (x : Text × Text). x.0) ps ≡ map (λ e. e.path) es
Planned-paths s [] [] h = refl
Planned-paths s [] (p ∷ ps) h = absurd h
Planned-paths s (e ∷ es) [] h = absurd h
Planned-paths s (e ∷ es) (p ∷ ps) (q, same, h) = rw (same, Planned-paths s es ps h) refl

stage_all-staged :
    (ps ts : List (Text × Text)) (tree : Map Text)
    → Resolved ps ts
    → stage_all ps tree ≡ (ok (pairs ts), staged ts tree)
unfolding stage_all
stage_all-staged [] [] tree h = refl
stage_all-staged [] (t ∷ ts) tree h = absurd h
stage_all-staged (p ∷ ps) [] tree h = absurd h
stage_all-staged ((p, b) ∷ ps) ((r, c) ∷ ts) tree (at, same, h) =
    rw (at, same, stage_all-staged ps ts (insert (staging_file r) c tree) h) refl

get-staged :
    (k : Text) (ts : List (Text × Text)) (tree : Map Text)
    → IsNoStaging k ts
    → get k (staged ts tree) ≡ get k tree
get-staged k [] tree h = refl
get-staged k ((r, b) ∷ ts) tree (n, h) =
    get-staged k ts (insert (staging_file r) b tree) h
    ∙ rw (get-insert k (staging_file r) b tree, n) refl

pub text_eq-swap : (a b : Text) → text_eq a b ≡ false → text_eq b a ≡ false
text_eq-swap a b h = elim (Bool-cases (text_eq b a)) [
  | inl q ↦ absurd (let e = (text_eq_iff a b).1 (sym ((text_eq_iff b a).0 q)) in cc)
  | inr q ↦ q
]

-- Each staging file has its bytes.
abbrev HasStaged : Map Text → List (Text × Text) → Type 0
HasStaged tree ts = All (λ (t : Text × Text). get (staging_file t.0) tree ≡ some t.1) ts

staged-HasStaged :
    (ts : List (Text × Text)) (tree : Map Text) → IsApart ts → HasStaged (staged ts tree) ts
staged-HasStaged [] tree h = tt
staged-HasStaged ((r, b) ∷ ts) tree (apart, h) = (
  get-staged (staging_file r) ts (insert (staging_file r) b tree) (
        All-map (λ t. IsApartFrom r t)
          (λ (t : Text × Text). text_eq (staging_file t.0) (staging_file r) ≡ false)
          (λ t a. text_eq-swap (staging_file r) (staging_file t.0) a.0) ts apart)
      ∙ rw (get-insert (staging_file r) (staging_file r) b tree, text_eq_refl (staging_file r))
          refl,
  staged-HasStaged ts (insert (staging_file r) b tree) h,
)

-- One rename leaves what the later ones need.
renamed-HasStaged :
    (r b : Text) (ts : List (Text × Text)) (tree : Map Text)
    → All (λ t. IsApartFrom r t) ts
    → HasStaged tree ts
    → HasStaged (insert r b (remove (staging_file r) tree)) ts
renamed-HasStaged r b [] tree apart h = tt
renamed-HasStaged r b ((q, c) ∷ ts) tree ((ss, sq, rs), apart) (here, h) = (
  rw
      (
        get-insert (staging_file q) r b (remove (staging_file r) tree),
        rs,
        get-remove (staging_file q) (staging_file r) tree,
        ss,
      )
      here,
  renamed-HasStaged r b ts tree apart h,
)

rename_all-written :
    (ts : List (Text × Text)) (tree : Map Text)
    → IsApart ts
    → HasStaged tree ts
    → (tree' : Map Text) × (rename_all (pairs ts) tree ≡ (ok tt, tree'))
      × ((k : Text) → IsNoStaging k ts → get k tree' ≡ written ts k (get k tree))
unfolding rename_all
rename_all-written [] tree h s = (tree, refl, λ k n. refl)
rename_all-written ((r, b) ∷ ts) tree (apart, h) (here, s) =
    let next = insert r b (remove (staging_file r) tree) in
    let (tree', done, holds) =
      rename_all-written ts next h (renamed-HasStaged r b ts tree apart s) in
    (
      tree',
      rw (here) done,
      λ k n.
          holds k n.1
          ∙ ap (written ts k) (
              rw
                (
                  get-insert k r b (remove (staging_file r) tree),
                  get-remove k (staging_file r) tree,
                  n.0,
                )
                refl),
    )

module _ (sha : Text → Text) where
  commit_all-tree :
      (ps : List (Text × Text)) (s : Service)
      → ((commit_all sha ps s).1.tree ≡ s.tree)
        × (map (λ (x : Text × ℕ). x.0) (commit_all sha ps s).0 ≡ map (λ (x : Text × Text). x.0) ps)
  unfolding commit_all commit_staged
  commit_all-tree [] s = (refl, refl)
  commit_all-tree ((p, b) ∷ ps) s =
      let (tree, names) = commit_all-tree ps (commit_staged sha p b s).1 in
      (tree, ap (λ x. p ∷ x) names)

  -- A transaction whose edits are planned, and whose targets and staging files are all apart, succeeds with a revision
  -- for the path of each edit, in their order; the plan has for each edit its path and the bytes that planning this edit
  -- alone gives; every target holds its new bytes, and every other file that is not at a staging name what it held.
  pub transaction-written :
      (edits : List EditOp) (ps ts : List (Text × Text)) (s : Service)
      → plan_edits edits s ≡ ok ps
      → Resolved ps ts
      → IsApart ts
      → let (result, s') = apply_transaction sha edits s in
        Planned s edits ps
        × ((revs : List (Text × ℕ)) × (result ≡ ok revs)
            × (map (λ (x : Text × ℕ). x.0) revs ≡ map (λ (e : EditOp). e.path) edits))
        × ((k : Text) → IsNoStaging k ts → get k s'.tree ≡ written ts k (get k s.tree))
  unfolding apply_transaction
  transaction-written edits ps ts s planned resolved apart =
      let (tree', done, holds) =
        rename_all-written ts (staged ts s.tree) apart (staged-HasStaged ts s.tree apart) in
      let end = record s { tree = tree' } in
      let (tree, names) = commit_all-tree ps end in
      let each = plan_edits-Planned edits s ps planned in
      rw (planned, stage_all-staged ps ts s.tree resolved, done)
        (
          each,
          ((commit_all sha ps end).0, refl, names ∙ Planned-paths s edits ps each),
          λ k n. ap (λ t. get k t) tree ∙ holds k n ∙ ap (written ts k) (get-staged k ts s.tree n),
        )
