-- ===== src/Automation/Once.antt =====
-- crates/core-runtime/src/automation.rs: a cron automation fires once for a minute.
use zmodbit.Prelude.{
  ◌≡◌, refl, sym, subst, ap, ◌∙◌, inl, inr, true, false, Bool, ◌||◌, Bool-cases, List, [], ◌∷◌, ℕ,
  Text, text_eq, text_eq_iff, is_filled, push, All, any, arith,
}
use zmodbit.EventStore.Envelope.{External}
use zmodbit.EventStore.Tables.{Store}
use zmodbit.Automation.Rows.{Automation, has_id, record_fire}
use zmodbit.Automation.Cron.{minute_key}
use zmodbit.Automation.Rounds.{Rounds, tick_one-Rounds}
use zmodbit.Automation.Engine.{Identifiers, Ticking, tick_one, tick_loop, tick}

-- The fires of an outcome have the id.
abbrev pub has_fired : Text → Ticking → Bool
has_fired id t = any (λ (p : Text × Text). text_eq p.0 id) t.outcome.fired

any-push :
    (ps : List (Text × Text)) (p : Text × Text) (id : Text)
    → any (λ (q : Text × Text). text_eq q.0 id) (push ps p)
      ≡ (any (λ (q : Text × Text). text_eq q.0 id) ps || text_eq p.0 id)
any-push [] p id = ground arith
any-push (q ∷ ps) p id = ground (arith, any-push ps p id)

abbrev pub IsCron : Text → Automation → Type 0
IsCron id a = has_id id a ≡ true → is_filled a.event_pattern ≡ false

abbrev IsRecorded : Text → Text → Automation → Type 0
IsRecorded key id a = has_id id a ≡ true → a.last_fire_key ≡ key

-- No two rows have one id.
abbrev pub IsUnique : List Automation → Type 0
IsUnique [] = Unit
IsUnique (a ∷ as') = All (λ b. has_id a.automation_id b ≡ false) as' × IsUnique as'

record_fire-kept :
    (P : Automation → Type 0) (id boundary : Text)
    → ((a : Automation) → P a → P (record a { last_fire_key = boundary }))
    → (rows : List Automation) → All P rows
    → All P (record_fire id boundary rows)
unfolding record_fire
record_fire-kept P id boundary keep [] h = tt
record_fire-kept P id boundary keep (a ∷ rows) (h, hs) = (
  elim (Bool-cases (has_id id a)) [ inl q ↦ rw (q) (keep a h) | inr q ↦ rw (q) h ],
  record_fire-kept P id boundary keep rows hs,
)

record_fire-own :
    (key id : Text) (rows : List Automation) → All (IsRecorded key id) (record_fire id key rows)
unfolding record_fire
record_fire-own key id [] = tt
record_fire-own key id (a ∷ rows) = (
  (elim (Bool-cases (has_id id a)) [
    | inl q ↦ rw (q) (λ h. refl)
    | inr q ↦ rw (q) (λ h. absurd (let e : true ≡ false = sym h ∙ q in cc))
  ]),
  record_fire-own key id rows,
)

-- A record under another id leaves what is recorded.
record_fire-other :
    (key id other boundary : Text) (rows : List Automation)
    → text_eq other id ≡ false
    → All (IsRecorded key id) rows
    → All (IsRecorded key id) (record_fire other boundary rows)
unfolding record_fire
record_fire-other key id other boundary [] n h = tt
record_fire-other key id other boundary (a ∷ rows) n (h, hs) = (
  (elim (Bool-cases (has_id other a)) [
    | inl q ↦ rw (q) (λ own.
        let e = (text_eq_iff a.automation_id id).0 own in
        let f = (text_eq_iff a.automation_id other).0 q in
        absurd (let g = (text_eq_iff other id).1 (sym f ∙ e) in cc))
    | inr q ↦ rw (q) h
  ]),
  record_fire-other key id other boundary rows n hs,
)

module _ (x : External) (uuids : Text → Identifiers) (now : ℕ) (id : Text) where
  -- What a round does to the fires under the id, by whether its automation has it.
  round-other :
      (a : Automation) (t t' : Ticking)
      → has_id id a ≡ false
      → Rounds x uuids now a t t'
      → (has_fired id t' ≡ has_fired id t)
        × ((key : Text) → All (IsRecorded key id) t.rows → All (IsRecorded key id) t'.rows)
  round-other a t t' n (inl (rows, fired)) = (
    ap (λ f. any (λ (p : Text × Text). text_eq p.0 id) f) fired,
    λ key h. subst (λ r. All (IsRecorded key id) r) (sym rows) h,
  )
  round-other a t t' n (inr (boundary, task, rows, fired, new)) =
      let e = any-push t.outcome.fired (a.automation_id, task) id in
      (
        ap (λ f. any (λ (p : Text × Text). text_eq p.0 id) f) fired ∙ ground (arith, e, n),
        λ key h.
            subst (λ r. All (IsRecorded key id) r) (sym rows)
              (record_fire-other key id a.automation_id boundary t.rows n h),
      )

  loop-others :
      (as' : List Automation) (t : Ticking)
      → All (λ b. has_id id b ≡ false) as'
      → (has_fired id (tick_loop x uuids now as' t) ≡ has_fired id t)
        × ((key : Text)
            → All (IsRecorded key id) t.rows
            → All (IsRecorded key id) (tick_loop x uuids now as' t).rows)
  unfolding tick_loop
  loop-others [] t h = (refl, λ key r. r)
  loop-others (a ∷ as') t (n, h) =
      let next = tick_one x uuids now a t in
      let one = round-other a t next n (tick_one-Rounds x uuids now a t) in
      let rest = loop-others as' next h in (rest.0 ∙ one.0, λ key r. rest.1 key (one.1 key r))

  own-round :
      (a : Automation) (as' : List Automation) (t t' : Ticking)
      → has_id id a ≡ true
      → IsCron id a
      → All (λ b. has_id a.automation_id b ≡ false) as'
      → has_fired id t ≡ false
      → Rounds x uuids now a t t'
      → has_fired id (tick_loop x uuids now as' t') ≡ true
      → All (IsRecorded (minute_key now) id) (tick_loop x uuids now as' t').rows
  own-round a as' t t' own cron others before (inl (rows, fired)) after =
      let same = (text_eq_iff a.automation_id id).0 own in
      let rest = loop-others as' t' (subst (λ i. All (λ b. has_id i b ≡ false) as') same others) in
      let still = ap (λ f. any (λ (p : Text × Text). text_eq p.0 id) f) fired in
      absurd (let e : true ≡ false = sym after ∙ rest.0 ∙ still ∙ before in cc)
  own-round a as' t t' own cron others before (inr (boundary, task, rows, fired, new)) after =
      let same = (text_eq_iff a.automation_id id).0 own in
      let rest = loop-others as' t' (subst (λ i. All (λ b. has_id i b ≡ false) as') same others) in
      let (is, fresh) = new (cron own) in
      rest.1 (minute_key now) (
        subst (λ r. All (IsRecorded (minute_key now) id) r) (sym rows)
          (subst (λ i. All (IsRecorded (minute_key now) id) (record_fire i boundary t.rows))
            (sym same)
            (subst (λ b. All (IsRecorded (minute_key now) id) (record_fire id b t.rows)) (sym is)
              (record_fire-own (minute_key now) id t.rows))))

  -- After a tick that fired the id, all its rows have the minute.
  loop-records :
      (as' : List Automation) (t : Ticking)
      → IsUnique as'
      → All (IsCron id) as'
      → has_fired id t ≡ false
      → has_fired id (tick_loop x uuids now as' t) ≡ true
      → All (IsRecorded (minute_key now) id) (tick_loop x uuids now as' t).rows
  unfolding tick_loop
  loop-records [] t u c before after = absurd (let e : true ≡ false = sym after ∙ before in cc)
  loop-records (a ∷ as') t (others, u) (cron, c) before after =
      let next = tick_one x uuids now a t in
      let round = tick_one-Rounds x uuids now a t in
      elim (Bool-cases (has_id id a)) [
        | inl own ↦ own-round a as' t next own cron others before round after
        | inr n ↦ loop-records as' next u c ((round-other a t next n round).0 ∙ before) after
      ]

  loop-IsCron :
      (as' : List Automation) (t : Ticking)
      → All (IsCron id) t.rows
      → All (IsCron id) (tick_loop x uuids now as' t).rows
  unfolding tick_loop
  loop-IsCron [] t h = h
  loop-IsCron (a ∷ as') t h =
      loop-IsCron as' (tick_one x uuids now a t) (elim (tick_one-Rounds x uuids now a t) [
        | inl (rows, fired) ↦ subst (λ r. All (IsCron id) r) (sym rows) h
        | inr (boundary, task, rows, fired, new) ↦
            subst (λ r. All (IsCron id) r) (sym rows)
              (record_fire-kept (IsCron id) a.automation_id boundary (λ b p. p) t.rows h)
      ])

  -- A tick does not fire the id when all its rows have the minute.
  loop-silent :
      (as' : List Automation) (t : Ticking)
      → All (IsCron id) as'
      → All (IsRecorded (minute_key now) id) as'
      → has_fired id t ≡ false
      → has_fired id (tick_loop x uuids now as' t) ≡ false
  unfolding tick_loop
  loop-silent [] t c r before = before
  loop-silent (a ∷ as') t (cron, c) (recorded, r) before =
      let next = tick_one x uuids now a t in
      let round = tick_one-Rounds x uuids now a t in
      loop-silent as' next c r (elim (Bool-cases (has_id id a)) [
        | inr n ↦ (round-other a t next n round).0 ∙ before
        | inl own ↦ elim round [
          | inl (rows, fired) ↦ ap (λ f. any (λ (p : Text × Text). text_eq p.0 id) f) fired ∙ before
          | inr (boundary, task, rows, fired, new) ↦ absurd (
              let old = (new (cron own)).1 in
              let same = (text_eq_iff a.last_fire_key (minute_key now)).1 (recorded own) in cc)
        ]
      ])

-- In a table without two rows of one id, a cron automation that a tick fires is not fired by a tick over the table that
-- the first leaves whose minute is the same, whatever the store and the identifiers of the second are.
pub tick-once :
    (x : External) (uuids uuids' : Text → Identifiers) (now now' : ℕ) (id : Text)
    (rows : List Automation) (s s' : Store)
    → IsUnique rows
    → All (IsCron id) rows
    → minute_key now' ≡ minute_key now
    → has_fired id (tick x uuids now rows s) ≡ true
    → has_fired id (tick x uuids' now' (tick x uuids now rows s).rows s') ≡ false
unfolding tick
tick-once x uuids uuids' now now' id rows s s' unique cron same fired =
    let start : Ticking = record {
      rows = rows;
      store = s;
      outcome = record { fired = []; errors = [] };
    } in
    let recorded = loop-records x uuids now id rows start unique cron refl fired in
    let still = loop-IsCron x uuids now id rows start cron in
    let after = (tick_loop x uuids now rows start).rows in
    loop-silent x uuids' now' id after
      (record { rows = after; store = s'; outcome = record { fired = []; errors = [] } }) still
      (subst (λ k. All (IsRecorded k id) after) (sym same) recorded) refl
