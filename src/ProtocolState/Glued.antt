-- ===== src/ProtocolState/Glued.antt =====
-- crates/protocol-state/src/lib.rs: appends to a journal that was opened with a torn last line.
use zmodbit.Prelude.{
  is_utf8, is_utf8-append, is_filled, ◌≡◌, refl, sym, subst, ap, ◌∙◌, false, true, none, some, List,
  [], ◌∷◌, ◌++◌, Text, lines, unlines, IsLine, newline, ◌==◌, append_assoc, append-IsLine,
  lines-unlines, append_nil, All, All-map, retain, ok, err, arith,
}
use zmodbit.ProtocolState.Records.{ProtocolRecord}
use zmodbit.ProtocolState.Journal.{
  RecordCodec, serialization, read_records, undecoded, open_store, append_record,
}
use zmodbit.ProtocolState.Crash.{
  IsFaithful, unlines-valid, journal, open_store-valid, open_store-err,
}

module _ (json : RecordCodec) (good : IsFaithful json) where
  glued-IsLine :
      (line t : Text)
      → All (λ c. (c == newline) ≡ false) line
      → IsLine t
      → is_filled t ≡ true
      → IsLine (line ++ t) × (is_filled (line ++ t) ≡ true)
  glued-IsLine line [] h l f = absurd (ground arith)
  glued-IsLine [] (c ∷ t) h l f = (l, refl)
  glued-IsLine (d ∷ line) (c ∷ t) h l f = (append-IsLine (d ∷ line) t c h l, refl)

  abbrev AreFilled : List Text → Type 0
  AreFilled ts = All (λ t. IsLine t × (is_filled t ≡ true)) ts

  retain-filled : (ts : List Text) → AreFilled ts → retain is_filled (ts ++ lines []) ≡ ts
  unfolding lines
  retain-filled [] h = refl
  retain-filled (t ∷ ts) ((l, f), h) = rw (f) (ap (λ l. t ∷ l) (retain-filled ts h))

  lines-whole : (ts : List Text) → AreFilled ts → retain is_filled (lines (unlines ts)) ≡ ts
  lines-whole ts h =
      ap (λ t. retain is_filled (lines t)) (sym (append_nil (unlines ts)))
      ∙ ap (retain is_filled) (lines-unlines ts [] (All-map _ IsLine (λ t p. p.0) ts h))
      ∙ retain-filled ts h

  read_records-undecoded :
      (l : Text) (ls : List Text)
      → json.decode l ≡ none
      → read_records json (l ∷ ls) ≡ undecoded json ls
  unfolding read_records
  read_records-undecoded l ls torn = rw (read_records, torn) refl

  glue : (j line t : Text) → j ++ line ++ (t ++ newline ∷ []) ≡ j ++ unlines ((line ++ t) ∷ [])
  glue j line t =
      append_assoc j line (t ++ newline ∷ [])
      ∙ ap (λ l. j ++ l) (sym (append_assoc line t (newline ∷ [])))
      ∙ ap (λ l. j ++ l) (sym (append_nil ((line ++ t) ++ newline ∷ [])))

  after : (j t u : Text) → (j ++ (t ++ [])) ++ u ≡ j ++ (t ++ (u ++ []))
  after j t u = rw (append_nil t, append_nil u) (append_assoc j t u)

  -- Appending to a journal json good that was opened with a torn last line in UTF-8 puts the new record on that line. Where the two
  -- together do not decode, the record is not there after a restart, and after one more append the journal json good does not
  -- open.
  pub append_record-after_torn :
      (rs : List ProtocolRecord) (line : Text) (r q : ProtocolRecord)
      → All (λ c. (c == newline) ≡ false) line
      → is_utf8 line ≡ true
      → json.decode (line ++ json.encode r) ≡ none
      → let s =
          append_record json r
            (record { file = some (journal json good rs ++ line); records = rs }) in
        let s' = append_record json q s in
        (open_store json s.file ≡ ok (record { file = s.file; records = rs }))
        × (open_store json s'.file ≡ err serialization)
  unfolding append_record read_records
  append_record-after_torn rs line r q h whole torn =
      let glued = line ++ json.encode r in
      let (decoded, is_line, filled, valid) = good r in
      let (decoded', is_line', filled', valid') = good q in
      let read : is_utf8 glued ≡ true = is_utf8-append line (json.encode r) whole ∙ valid in
      let g = glued-IsLine line (json.encode r) h is_line filled in
      let one : read_records json (retain is_filled (lines (unlines (glued ∷ [])))) ≡ ok [] =
        ap (read_records json) (lines-whole (glued ∷ []) (g, tt))
        ∙ read_records-undecoded glued [] torn in
      let two : read_records json (retain is_filled (lines (unlines (glued ∷ json.encode q ∷ []))))
          ≡ err serialization =
        ap (read_records json)
          (lines-whole (glued ∷ json.encode q ∷ []) (g, ((is_line', filled'), tt)))
        ∙ read_records-undecoded glued (json.encode q ∷ []) torn in
      let text1 : journal json good rs ++ line ++ (json.encode r ++ newline ∷ [])
          ≡ journal json good rs ++ unlines (glued ∷ []) =
        glue (journal json good rs) line (json.encode r) in
      let text2 =
        after (journal json good rs) (glued ++ newline ∷ []) (json.encode q ++ newline ∷ []) in
      (
        subst (λ t. open_store json (some t) ≡ ok (record { file = some t; records = rs }))
            (sym text1)
            (open_store-valid json good rs [] (unlines (glued ∷ []))
                (unlines-valid (glued ∷ []) (read, tt)) one
              ∙ rw (append_nil rs) refl),
        subst (λ t. open_store json (some t) ≡ err serialization)
            (sym (ap (λ t. t ++ (json.encode q ++ newline ∷ [])) text1 ∙ text2))
            (open_store-err json good rs (unlines (glued ∷ json.encode q ∷ [])) serialization
              (unlines-valid (glued ∷ json.encode q ∷ []) (read, (valid', tt))) two),
      )
