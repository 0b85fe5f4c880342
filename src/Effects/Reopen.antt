-- ===== src/Effects/Reopen.antt =====
-- crates/effects/src/lib.rs: a ledger across restarts.
use zmodbit.Prelude.{
  ◌≡◌, ◌≢◌, refl, subst, sym, ap, ◌∙◌, true, false, none, some, List, [], ◌∷◌, ◌++◌, map, Text,
  lines, unlines, IsLine, lines-unlines, is_blank, newline, push, append_nil, last-push, map-push,
  unlines-push, All, length, ok, err,
}
use zmodbit.Effects.Chain.{
  EffectReceipt, ChainError, Bound, genesis, last_hash, chain_hash, verify, broken_link, append,
}
use zmodbit.Effects.Links.{Linked, next, verify_iff, verify-broken}
use zmodbit.Effects.Ledger.{Codec, Ledger, chain, load, open_file, append_receipt, contents}

-- What the ledger relies on of the JSON of a receipt: it is one line, not blank, and decodes to the receipt.
abbrev pub IsRoundTrip : Codec → Type 0
IsRoundTrip json =
    (r : EffectReceipt)
    → (json.decode (json.encode r) ≡ some r)
      × IsLine (json.encode r)
      × (is_blank (json.encode r) ≡ false)

module _ (sha : Text → Text) (json : Codec) (good : IsRoundTrip json) where
  -- The file holds the receipts, one line each, and the receipts verify.
  abbrev IsDurable : Ledger → Type 0
  IsDurable l =
      (contents l.file ≡ unlines (map (λ r. json.encode r) l.receipts))
      × (verify sha l.receipts ≡ ok tt)

  last_hash-push :
      (rs : List EffectReceipt) (r : EffectReceipt) → last_hash (push rs r) ≡ r.chain_hash
  unfolding last_hash
  last_hash-push rs r = ap (λ o. elim o [ none ↦ genesis | some x ↦ x.chain_hash ]) (last-push rs r)

  verify-append :
      (b : Bound) (rs : List EffectReceipt)
      → verify sha rs ≡ ok tt
      → verify sha (append sha b rs).1 ≡ ok tt
  unfolding append last_hash
  verify-append b rs v =
      let r = (append sha b rs).0 in
      let linked : Linked sha (push rs r) (last_hash (push rs r)) =
        rw (last_hash-push rs r) (next rs (last_hash rs) r ((verify_iff sha rs).0 v) refl refl) in
      (verify_iff sha (push rs r)).1 linked

  file-push :
      (l : Ledger) (r : EffectReceipt)
      → contents l.file ≡ unlines (map (λ r. json.encode r) l.receipts)
      → contents l.file ++ (json.encode r ++ newline ∷ [])
        ≡ unlines (map (λ r. json.encode r) (push l.receipts r))
  file-push l r f =
      ap (λ t. t ++ (json.encode r ++ newline ∷ [])) f
      ∙ sym (unlines-push (map (λ r. json.encode r) l.receipts) (json.encode r))
      ∙ ap unlines (sym (map-push (λ r. json.encode r) l.receipts r))

  append_receipt-IsDurable :
      (b : Bound) (l : Ledger) → IsDurable l → IsDurable (append_receipt sha json true b l).1
  unfolding append_receipt append
  append_receipt-IsDurable b l (f, v) =
      (file-push l (append sha b l.receipts).0 f, verify-append b l.receipts v)

  load-encoded : (rs : List EffectReceipt) → load sha json (map (λ r. json.encode r) rs) ≡ ok rs
  unfolding load
  load-encoded [] = refl
  load-encoded (r ∷ rs) =
      let (decoded, line, shown) = good r in rw (shown, decoded, load-encoded rs) refl

  encoded-IsLine : (rs : List EffectReceipt) → All IsLine (map (λ r. json.encode r) rs)
  encoded-IsLine [] = tt
  encoded-IsLine (r ∷ rs) = let (decoded, line, shown) = good r in (line, encoded-IsLine rs)

  lines-encoded :
      (rs : List EffectReceipt)
      → lines (unlines (map (λ r. json.encode r) rs)) ≡ map (λ r. json.encode r) rs
  unfolding lines
  lines-encoded rs =
      let ts = map (λ r. json.encode r) rs in
      ap lines (sym (append_nil (unlines ts)))
      ∙ lines-unlines ts [] (encoded-IsLine rs)
      ∙ append_nil ts

  -- A file that holds the lines of a chain that verifies opens with that chain, and that of another does not open.
  open_file-encoded :
      (t : Text) (rs : List EffectReceipt)
      → t ≡ unlines (map (λ r. json.encode r) rs)
      → verify sha rs ≡ ok tt
      → open_file sha json (some t) ≡ ok (record { file = some t; receipts = rs })
  unfolding open_file
  open_file-encoded t rs e v = rw (ap lines e ∙ lines-encoded rs, load-encoded rs, v) refl

  open_file-refused :
      (t : Text) (rs : List EffectReceipt) (e : ChainError)
      → t ≡ unlines (map (λ r. json.encode r) rs)
      → verify sha rs ≡ err e
      → open_file sha json (some t) ≡ err (chain e)
  unfolding open_file
  open_file-refused t rs e q v = rw (ap lines q ∙ lines-encoded rs, load-encoded rs, v) refl

  -- Appends that the disk takes, from a ledger on.
  abbrev pub append_all : List Bound → Ledger → Ledger
  append_all [] l = l
  append_all (b ∷ bs) l = append_all bs (append_receipt sha json true b l).1

  append_all-IsDurable : (bs : List Bound) (l : Ledger) → IsDurable l → IsDurable (append_all bs l)
  append_all-IsDurable [] l h = h
  append_all-IsDurable (b ∷ bs) l h =
      append_all-IsDurable bs (append_receipt sha json true b l).1 (append_receipt-IsDurable b l h)

  append_all-file :
      (bs : List Bound) (l : Ledger) (t : Text)
      → l.file ≡ some t
      → (u : Text) × ((append_all bs l).file ≡ some u)
  unfolding append_receipt
  append_all-file [] l t q = (t, q)
  append_all-file (b ∷ bs) l t q =
      let l' = (append_receipt sha json true b l).1 in append_all-file bs l' (contents l'.file) refl

  open_file-IsDurable :
      (l : Ledger) (t : Text) → l.file ≡ some t → IsDurable l → open_file sha json l.file ≡ ok l
  open_file-IsDurable l t q (f, v) =
      let e : t ≡ unlines (map (λ r. json.encode r) l.receipts) = ap contents (sym q) ∙ f in
      subst (λ o. open_file sha json o ≡ ok (record { file = o; receipts = l.receipts })) (sym q)
        (open_file-encoded t l.receipts e v)

  -- A ledger that was appended to any number of times reopens with the receipts it has in memory, and these verify.
  pub open_file-append_all :
      (b : Bound) (bs : List Bound)
      → let l = append_all (b ∷ bs) (record { file = none; receipts = [] }) in
        open_file sha json l.file ≡ ok l
  unfolding append_receipt append verify
  open_file-append_all b bs =
      let l = (append_receipt sha json true b (record { file = none; receipts = [] })).1 in
      let (t, q) = append_all-file bs l (contents l.file) refl in
      open_file-IsDurable (append_all bs l) t q (
        append_all-IsDurable bs l
          (append_receipt-IsDurable b (record { file = none; receipts = [] }) (refl, refl)))

  -- When the disk refuses one line and takes the next, the ledger that had `n` receipts can no longer be opened: the
  -- receipt after them is not linked. The receipt that was refused has another hash than the one before it.
  pub open_file-append_after_failure :
      (l : Ledger) (b c : Bound)
      → IsDurable l
      → chain_hash sha (last_hash l.receipts) b ≢ last_hash l.receipts
      → open_file sha json
          (append_receipt sha json true c (append_receipt sha json false b l).1).1.file
        ≡ err (chain (broken_link (length l.receipts)))
  unfolding append_receipt append
  open_file-append_after_failure l b c (f, v) fresh =
      let r = (append sha c (append sha b l.receipts).1).0 in
      let last_is : last_hash (append sha b l.receipts).1 ≡ (append sha b l.receipts).0.chain_hash =
        last_hash-push l.receipts (append sha b l.receipts).0 in
      open_file-refused (contents l.file ++ (json.encode r ++ newline ∷ [])) (push l.receipts r)
        (broken_link (length l.receipts)) (file-push l r f)
        (verify-broken sha l.receipts r v λ e. fresh (sym last_is ∙ e))
