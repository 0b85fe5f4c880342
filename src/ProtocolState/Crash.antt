-- ===== src/ProtocolState/Crash.antt =====
-- crates/protocol-state/src/lib.rs: the journal after a crash within an append.
use zmodbit.Prelude.{
  is_utf8, is_utf8-append, is_utf8-cons, if◌then◌else◌, Bool-cases, inl, inr, is_filled, ◌≡◌, refl,
  sym, subst, ap, ◌∙◌, false, true, none, some, List, [], ◌∷◌, ◌++◌, map, ℕ, Text, lines, unlines,
  IsLine, newline, ◌==◌, append_assoc, lines-unlines, lines-fragment, unlines-push, append_nil,
  push, push-append, map-push, All, retain, ok, err,
}
use zmodbit.ProtocolState.Records.{ProtocolRecord}
use zmodbit.ProtocolState.Journal.{
  RecordCodec, ProtocolStateStore, ProtocolStateError, io, read_records, open_store, append_record,
}

-- What the journal relies on of the JSON of a record: it is one line of UTF-8, not empty, and decodes to the record.
abbrev pub IsFaithful : RecordCodec → Type 0
IsFaithful json =
    (r : ProtocolRecord)
    → (json.decode (json.encode r) ≡ some r)
      × IsLine (json.encode r)
      × (is_filled (json.encode r) ≡ true)
      × (is_utf8 (json.encode r) ≡ true)

pub unlines-is_utf8 :
    (ts : List Text) (rest : Text)
    → All (λ t. is_utf8 t ≡ true) ts
    → is_utf8 (unlines ts ++ rest) ≡ is_utf8 rest
unlines-is_utf8 [] rest h = refl
unlines-is_utf8 (t ∷ ts) rest (valid, h) =
    ap is_utf8 (
      append_assoc (t ++ newline ∷ []) (unlines ts) rest
      ∙ append_assoc t (newline ∷ []) (unlines ts ++ rest))
    ∙ is_utf8-append t (newline ∷ (unlines ts ++ rest)) valid
    ∙ is_utf8-cons newline (unlines ts ++ rest) refl
    ∙ unlines-is_utf8 ts rest h

pub unlines-valid : (ts : List Text) → All (λ t. is_utf8 t ≡ true) ts → is_utf8 (unlines ts) ≡ true
unlines-valid ts h =
    ap is_utf8 (sym (append_nil (unlines ts))) ∙ unlines-is_utf8 ts [] h ∙ unfold is_utf8 in refl

module _ (json : RecordCodec) (good : IsFaithful json) where
  encoded-IsLine : (rs : List ProtocolRecord) → All IsLine (map (λ r. json.encode r) rs)
  encoded-IsLine [] = tt
  encoded-IsLine (r ∷ rs) = let (decoded, line, filled, valid) = good r in (line, encoded-IsLine rs)

  retain-encoded :
      (rs : List ProtocolRecord) (ls : List Text)
      → retain is_filled (map (λ r. json.encode r) rs ++ ls)
        ≡ map (λ r. json.encode r) rs ++ retain is_filled ls
  retain-encoded [] ls = refl
  retain-encoded (r ∷ rs) ls =
      let (decoded, line, filled, valid) = good r in
      rw (filled) (ap (λ l. json.encode r ∷ l) (retain-encoded rs ls))

  read_records-ok :
      (rs qs : List ProtocolRecord) (ls : List Text)
      → read_records json ls ≡ ok qs
      → read_records json (map (λ r. json.encode r) rs ++ ls) ≡ ok (rs ++ qs)
  unfolding read_records
  read_records-ok [] qs ls h = h
  read_records-ok (r ∷ rs) qs ls h =
      let (decoded, line, filled, valid) = good r in rw (decoded, read_records-ok rs qs ls h) refl

  read_records-err :
      (rs : List ProtocolRecord) (ls : List Text) (e : ProtocolStateError)
      → read_records json ls ≡ err e
      → read_records json (map (λ r. json.encode r) rs ++ ls) ≡ err e
  unfolding read_records
  read_records-err [] ls e h = h
  read_records-err (r ∷ rs) ls e h =
      let (decoded, line, filled, valid) = good r in rw (decoded, read_records-err rs ls e h) refl

  -- The lines that are read when complete records come before other text.
  lines-encoded :
      (rs : List ProtocolRecord) (rest : Text)
      → retain is_filled (lines (unlines (map (λ r. json.encode r) rs) ++ rest))
        ≡ map (λ r. json.encode r) rs ++ retain is_filled (lines rest)
  lines-encoded rs rest =
      ap (retain is_filled) (lines-unlines (map (λ r. json.encode r) rs) rest (encoded-IsLine rs))
      ∙ retain-encoded rs (lines rest)

  abbrev pub journal : List ProtocolRecord → Text
  journal rs = unlines (map (λ r. json.encode r) rs)

  encoded-is_utf8 :
      (rs : List ProtocolRecord) → All (λ t. is_utf8 t ≡ true) (map (λ r. json.encode r) rs)
  encoded-is_utf8 [] = tt
  encoded-is_utf8 (r ∷ rs) =
      let (decoded, line, filled, valid) = good r in (valid, encoded-is_utf8 rs)

  journal-is_utf8 :
      (rs : List ProtocolRecord) (rest : Text) → is_utf8 (journal rs ++ rest) ≡ is_utf8 rest
  journal-is_utf8 rs rest = unlines-is_utf8 (map (λ r. json.encode r) rs) rest (encoded-is_utf8 rs)

  open_store-ok :
      (rs qs : List ProtocolRecord) (rest : Text)
      → read_records json (retain is_filled (lines rest)) ≡ ok qs
      → open_store json (some (journal rs ++ rest)) ≡ (
          if is_utf8 rest
          then ok (record { file = some (journal rs ++ rest); records = rs ++ qs })
          else err io)
  unfolding open_store
  open_store-ok rs qs rest h =
      rw
        (
          journal-is_utf8 rs rest,
          lines-encoded rs rest,
          read_records-ok rs qs (retain is_filled (lines rest)) h,
        )
        (elim (Bool-cases (is_utf8 rest)) [ inl q ↦ rw (q) refl | inr q ↦ rw (q) refl ])

  pub open_store-valid :
      (rs qs : List ProtocolRecord) (rest : Text)
      → is_utf8 rest ≡ true
      → read_records json (retain is_filled (lines rest)) ≡ ok qs
      → open_store json (some (journal rs ++ rest))
        ≡ ok (record { file = some (journal rs ++ rest); records = rs ++ qs })
  open_store-valid rs qs rest v h = open_store-ok rs qs rest h ∙ rw (v) refl

  pub open_store-err :
      (rs : List ProtocolRecord) (rest : Text) (e : ProtocolStateError)
      → is_utf8 rest ≡ true
      → read_records json (retain is_filled (lines rest)) ≡ err e
      → open_store json (some (journal rs ++ rest)) ≡ err e
  unfolding open_store
  open_store-err rs rest e v h =
      rw
        (
          journal-is_utf8 rs rest,
          v,
          lines-encoded rs rest,
          read_records-err rs (retain is_filled (lines rest)) e h,
        )
        refl

  -- A crash within an append leaves the complete records and a fragment without a line break that does not decode.
  -- The store opens with exactly the complete records, and keeps the fragment in its file, when the fragment is UTF-8;
  -- when the crash was within a character, it does not open.
  pub open_store-torn :
      (rs : List ProtocolRecord) (c : ℕ) (t : Text)
      → All (λ c. (c == newline) ≡ false) (c ∷ t)
      → json.decode (c ∷ t) ≡ none
      → open_store json (some (journal rs ++ c ∷ t)) ≡ (
          if is_utf8 (c ∷ t)
          then ok (record { file = some (journal rs ++ c ∷ t); records = rs })
          else err io)
  unfolding read_records
  open_store-torn rs c t h torn =
      let one : read_records json (retain is_filled (lines (c ∷ t))) ≡ ok [] =
        rw (lines-fragment c t h, torn) refl in
      open_store-ok rs [] (c ∷ t) one ∙ rw (append_nil rs) refl

  journal-push :
      (rs : List ProtocolRecord) (r : ProtocolRecord)
      → journal rs ++ (json.encode r ++ newline ∷ []) ≡ journal (push rs r)
  journal-push rs r =
      sym (unlines-push (map (λ r. json.encode r) rs) (json.encode r))
      ∙ ap unlines (sym (map-push (λ r. json.encode r) rs r))

  abbrev pub append_all : List ProtocolRecord → ProtocolStateStore → ProtocolStateStore
  append_all [] s = s
  append_all (r ∷ rs) s = append_all rs (append_record json r s)

  append_all-journal :
      (rs qs : List ProtocolRecord)
      → append_all rs (record { file = some (journal qs); records = qs })
        ≡ record { file = some (journal (qs ++ rs)); records = qs ++ rs }
  unfolding append_record
  append_all-journal [] qs = rw (append_nil qs) refl
  append_all-journal (r ∷ rs) qs =
      ap (λ t. append_all rs (record { file = some t; records = push qs r })) (journal-push qs r)
      ∙ append_all-journal rs (push qs r)
      ∙ ap (λ l. record { file = some (journal l); records = l }) (push-append qs rs r)

  -- A journal that any records were appended to reopens with exactly these records.
  pub open_store-append_all :
      (rs : List ProtocolRecord)
      → let s = append_all rs (record { file = some []; records = [] }) in
        (s.records ≡ rs) × (open_store json s.file ≡ ok s)
  unfolding read_records lines
  open_store-append_all rs =
      let whole = append_all-journal rs [] in
      let opened : open_store json (some (journal rs))
          ≡ ok (record { file = some (journal rs); records = rs }) =
        subst (λ t. open_store json (some t) ≡ ok (record { file = some t; records = rs }))
          (append_nil (journal rs))
          (open_store-valid rs [] [] (unfold is_utf8 in refl) refl ∙ rw (append_nil rs) refl) in
      rw (whole) (refl, opened)
