-- ===== src/EventStore/Resumed.antt =====
-- crates/event-store/src/store.rs: a client that resumes from the offset each page gives.
use zmodbit.Prelude.{
  ◌≡◌, refl, ap, sym, ◌∙◌, true, List, [], ◌∷◌, ◌++◌, map, ℕ, zero, suc, ◌+◌, ◌*◌, ◌≤◌, ◌<◌, Bool,
  Text, text_eq, take, drop, retain, All, All-retain, All-take, map-append, take-append-drop,
  length, ltb, Result, ok, ◌>>=◌, Bool-cases, inl, inr, arith,
}
use zmodbit.EventStore.Envelope.{EventEnvelope}
use zmodbit.EventStore.Append.{StoreError}
use zmodbit.EventStore.Rebuild.{RowReader, reconstruct_envelope}
use zmodbit.EventStore.Paging.{
  Row, numbered, selected, after, forget_object, page_loop, events_since_global,
  session_events_since,
}

-- Rowids above `low`, each above the one before it.
abbrev Ascending : ℕ → List Row → Type 0
Ascending low [] = Unit
Ascending low (r ∷ rows) = (low < r.0) × Ascending (r.0) rows

Ascending-numbered : (low : ℕ) (es : List EventEnvelope) → Ascending low (numbered (suc low) es)
Ascending-numbered low [] = tt
Ascending-numbered low (e ∷ es) = (omega arith, Ascending-numbered (suc low) es)

Ascending-lower :
    (low high : ℕ) (rows : List Row) → low ≤ high → Ascending high rows → Ascending low rows
Ascending-lower low high [] le a = tt
Ascending-lower low high (r ∷ rows) le a = (omega (arith, a.0), a.1)

Ascending-retain :
    (p : Row → Bool) (low : ℕ) (rows : List Row)
    → Ascending low rows
    → Ascending low (retain p rows)
Ascending-retain p low [] a = tt
Ascending-retain p low (r ∷ rows) a = elim (Bool-cases (p r)) [
  | inl q ↦ rw (q) (a.0, Ascending-retain p (r.0) rows (a.1))
  | inr q ↦ rw (q) (
      Ascending-lower low (r.0) (retain p rows) (omega (arith, a.0))
        (Ascending-retain p (r.0) rows (a.1)))
]

Ascending-after : (low o : ℕ) (rows : List Row) → Ascending low rows → Ascending o (after o rows)
Ascending-after low o [] a = tt
Ascending-after low o (r ∷ rows) a = elim (Bool-cases (ltb o (r.0))) [
  | inl q ↦ rw (q) (ground arith, Ascending-retain _ (r.0) rows (a.1))
  | inr q ↦ rw (q) (Ascending-after (r.0) o rows (a.1))
]

abbrev last_offset : ℕ → List Row → ℕ
last_offset o [] = o
last_offset o (r ∷ rows) = last_offset (r.0) rows

last_offset-take_le :
    (n o : ℕ) (rows : List Row) → Ascending o rows → o ≤ last_offset o (take n rows)
last_offset-take_le zero o rows a = omega arith
last_offset-take_le (suc n) o [] a = omega arith
last_offset-take_le (suc n) o (r ∷ rows) a =
    omega (arith, a.0, last_offset-take_le n (r.0) rows (a.1))

after-Ascending : (o : ℕ) (rows : List Row) → Ascending o rows → after o rows ≡ rows
after-Ascending o [] a = refl
after-Ascending o (r ∷ rows) a =
    ground
      (arith, a.0, after-Ascending o rows (Ascending-lower o (r.0) rows (omega (arith, a.0)) (a.1)))

after-last_offset :
    (n o : ℕ) (rows : List Row)
    → Ascending o rows
    → after (last_offset o (take n rows)) rows ≡ drop n rows
after-last_offset zero o rows a = after-Ascending o rows a
after-last_offset (suc n) o [] a = refl
after-last_offset (suc n) o (r ∷ rows) a =
    ground (arith, last_offset-take_le n (r.0) rows (a.1), after-last_offset n (r.0) rows (a.1))

after-after :
    (low high : ℕ) (rows : List Row) → low ≤ high → after high (after low rows) ≡ after high rows
after-after low high [] le = refl
after-after low high (r ∷ rows) le = ground (arith, after-after low high rows le)

length-drop_le : {A : Type 0} (n m : ℕ) (xs : List A) → length xs ≤ n + m → length (drop n xs) ≤ m
length-drop_le zero m xs le = omega (arith, le)
length-drop_le (suc n) m [] le = omega arith
length-drop_le (suc n) m (x ∷ xs) le = length-drop_le n m xs (omega (arith, le))

abbrev Read : Type 0
Read = ℕ → Result StoreError (List EventEnvelope × ℕ)

-- What a client has that reads that many pages, each from the offset that the one before it gave.
unfoldable pub follow : Read → ℕ → ℕ → Result StoreError (List EventEnvelope)
follow read zero offset = ok []
follow read (suc pages) offset = do
  page ← read offset
  rest ← follow read pages (page.1)
  ok (page.0 ++ rest)

module _ (row : RowReader) where
  abbrev IsCanonicalRow : Row → Type 0
  IsCanonicalRow r = reconstruct_envelope row (r.1) ≡ ok (r.1)

  page_loop-IsCanonicalRow :
      (f : EventEnvelope → EventEnvelope) (o : ℕ) (rows : List Row)
      → All IsCanonicalRow rows
      → page_loop row f rows o ≡ ok (map (λ r. f (r.1)) rows, last_offset o rows)
  page_loop-IsCanonicalRow f o [] c = refl
  page_loop-IsCanonicalRow f o (r ∷ rows) c =
      rw (c.0, page_loop-IsCanonicalRow f (r.0) rows (c.1)) refl

  module _ (f : EventEnvelope → EventEnvelope) (rows : List Row) (limit : ℕ)
      (canonical : All IsCanonicalRow rows) (low : ℕ) (sorted : Ascending low rows) where
    abbrev read_rows : Read
    read_rows offset = page_loop row f (take limit (after offset rows)) offset

    follow-rows :
        (pages o : ℕ)
        → length (after o rows) ≤ pages * limit
        → follow read_rows pages o ≡ ok (map (λ r. f (r.1)) (after o rows))
    unfolding follow
    follow-rows zero o le = none_left (after o rows) (omega (arith, le))
      where
        none_left :
            (rs : List Row)
            → length rs ≤ 0
            → ◌≡◌ {A = Result StoreError (List EventEnvelope)} (ok []) (ok (map (λ r. f (r.1)) rs))
        none_left [] h = refl
        none_left (r ∷ rs) h = absurd (omega (arith, h))
    follow-rows (suc pages) o le =
        let remaining = after o rows in
        let above = Ascending-after low o rows sorted in
        let next = last_offset o (take limit remaining) in
        let page =
          page_loop-IsCanonicalRow f o (take limit remaining) (
            All-take IsCanonicalRow limit remaining (All-retain IsCanonicalRow _ rows canonical)) in
        let skip =
          sym (after-after o next rows (last_offset-take_le limit o remaining above))
          ∙ after-last_offset limit o remaining above in
        let shorter = length-drop_le limit (pages * limit) remaining (omega (arith, le)) in
        let rest = follow-rows pages next (rw (skip) shorter) in
        let joined =
          sym (map-append (λ r. f (r.1)) (take limit remaining) (drop limit remaining))
          ∙ ap (map (λ r. f (r.1))) (take-append-drop limit remaining) in
        rw (page, rest, skip) (ap (λ es. ok es) joined)

abbrev pub of_session : Text → List EventEnvelope → List EventEnvelope
of_session id = retain λ e. text_eq e.session_id id

length-retain_le : {A : Type 0} (p : A → Bool) (xs : List A) → length (retain p xs) ≤ length xs
length-retain_le p [] = omega arith
length-retain_le p (x ∷ xs) = ground (arith, length-retain_le p xs)

length-numbered : (k : ℕ) (es : List EventEnvelope) → length (numbered k es) ≡ length es
length-numbered k [] = refl
length-numbered k (e ∷ es) = omega (arith, length-numbered (suc k) es)

map-selected :
    (f : EventEnvelope → EventEnvelope) (p : EventEnvelope → Bool) (k : ℕ) (es : List EventEnvelope)
    → map (λ r. f (r.1)) (retain (λ r. p (r.1)) (numbered k es)) ≡ map f (retain p es)
map-selected f p k [] = refl
map-selected f p k (e ∷ es) = ground (arith, map-selected f p (suc k) es)

All-numbered :
    (P : EventEnvelope → Type 0) (k : ℕ) (es : List EventEnvelope)
    → All P es
    → All (λ r. P (r.1)) (numbered k es)
All-numbered P k [] h = tt
All-numbered P k (e ∷ es) h = (h.0, All-numbered P (suc k) es h.1)

map-all : (es : List EventEnvelope) → map (λ e. e) (retain (λ e. true) es) ≡ es
map-all [] = refl
map-all (e ∷ es) = ap (λ ds. e ∷ ds) (map-all es)

module _ (row : RowReader) (events : List EventEnvelope) (limit pages : ℕ)
    (canonical : All (λ e. reconstruct_envelope row e ≡ ok e) events)
    (enough : length events ≤ pages * limit) where
  follow-selected :
      (f : EventEnvelope → EventEnvelope) (p : EventEnvelope → Bool)
      → follow (λ o. page_loop row f (take limit (after o (selected p events))) o) pages 0
        ≡ ok (map f (retain p events))
  follow-selected f p =
      let sorted =
        Ascending-retain (λ r. p (r.1)) 0 (numbered 1 events) (Ascending-numbered 0 events) in
      let rows =
        All-retain (IsCanonicalRow row) (λ r. p (r.1)) _ (All-numbered _ 1 events canonical) in
      let whole = after-Ascending 0 (selected p events) sorted in
      let short = length-retain_le (λ (r : Row). p (r.1)) (numbered 1 events) in
      follow-rows row f (selected p events) limit rows 0 sorted pages 0
        (omega (arith, short, length-numbered 1 events, enough, ap length whole))
      ∙ ap (λ rs. ok (map (λ r. f (r.1)) rs)) whole
      ∙ ap (λ es. ok es) (map-selected f p 1 events)

  -- A client that reads enough pages from offset 0, each from the offset that the one before it gave, has every
  -- committed event once, in the order of the commits, and for a session exactly the session's.
  pub follow-events :
      (follow (λ o. events_since_global row events o limit) pages 0 ≡ ok events)
      × ((id : Text)
          → follow (λ o. session_events_since row events id o limit) pages 0
            ≡ ok (map forget_object (of_session id events)))
  unfolding events_since_global session_events_since
  follow-events = (
    follow-selected (λ e. e) (λ e. true) ∙ ap (λ es. ok es) (map-all events),
    λ id. follow-selected forget_object (λ e. text_eq e.session_id id),
  )
