-- ===== src/Effects/Links.antt =====
-- crates/effects/src/lib.rs: what a chain that verifies guarantees.
use zmodbit.Prelude.{
  ◌≡◌, refl, sym, subst, append_nil, ◌∙◌, ◌≢◌, ◌⊎◌, ◌↔◌, Bool, true, ◌&&◌, ◌||◌, none, some, List,
  [], ◌∷◌, ◌++◌, ℕ, suc, Text, text_eq_iff, leb, last, push, push-append, length, All, ok, err, ◌+◌,
  arith,
}
use zmodbit.Effects.Chain.{
  EffectReceipt, bound_of, bound_text, genesis, last_hash, chain_hash, verify_from, verify,
  broken_link,
}

-- The hash that receipts after `prev` end with.
abbrev end_hash : Text → List EffectReceipt → Text
end_hash prev [] = prev
end_hash prev (r ∷ rs) = end_hash r.chain_hash rs

end_hash-last :
    (prev : Text) (r : EffectReceipt) (rs : List EffectReceipt)
    → end_hash r.chain_hash rs ≡ (elim (last (r ∷ rs)) [ none ↦ prev | some x ↦ x.chain_hash ])
end_hash-last prev r [] = refl
end_hash-last prev r (s ∷ rs) = end_hash-last prev s rs

last_hash-end_hash : (rs : List EffectReceipt) → last_hash rs ≡ end_hash genesis rs
unfolding last_hash
last_hash-end_hash [] = refl
last_hash-end_hash (r ∷ rs) = sym (end_hash-last genesis r rs)

end_hash-push :
    (prev : Text) (rs : List EffectReceipt) (r : EffectReceipt)
    → end_hash prev (push rs r) ≡ r.chain_hash
end_hash-push prev [] r = refl
end_hash-push prev (s ∷ rs) r = end_hash-push s.chain_hash rs r

-- The chain as its documentation describes it: each receipt is linked to the hash of the one before it and carries
-- the hash of that link and its own digests.
pub data Linked (sha : Text → Text) : List EffectReceipt → Text → Type 0 where
  start : Linked sha [] genesis
  next :
      (rs : List EffectReceipt) (h : Text) (r : EffectReceipt)
      → Linked sha rs h
      → r.prev_receipt_hash ≡ h
      → r.chain_hash ≡ chain_hash sha h (bound_of r)
      → Linked sha (push rs r) r.chain_hash

-- The chain hash and the digest bytes of a receipt.
abbrev pub bytes_of : EffectReceipt → Text × Text
bytes_of r = (r.chain_hash, bound_text (bound_of r))

module _ (sha : Text → Text) where
  verify_from-Linked :
      (i : ℕ) (before rs : List EffectReceipt) (prev : Text)
      → Linked sha before prev
      → verify_from sha i prev rs ≡ ok tt
      → Linked sha (before ++ rs) (end_hash prev rs)
  unfolding verify_from
  verify_from-Linked i before [] prev d v = rw (append_nil before) d
  verify_from-Linked i before (r ∷ rs) prev d v =
      let link : r.prev_receipt_hash ≡ prev =
        ground (arith, text_eq_iff r.prev_receipt_hash prev) in
      let hash : r.chain_hash ≡ chain_hash sha prev (bound_of r) = ground (
        arith,
        text_eq_iff r.prev_receipt_hash prev,
        text_eq_iff r.chain_hash (chain_hash sha r.prev_receipt_hash (bound_of r)),
      ) in
      let rest : verify_from sha (suc i) r.chain_hash rs ≡ ok tt = ground arith in
      let linked =
        verify_from-Linked (suc i) (push before r) rs r.chain_hash (next before prev r d link hash)
          rest in
      subst (λ l. Linked sha l (end_hash r.chain_hash rs)) (push-append before rs r) linked

  verify_from-push :
      (i : ℕ) (rs : List EffectReceipt) (prev : Text) (r : EffectReceipt)
      → verify_from sha i prev rs ≡ ok tt
      → r.prev_receipt_hash ≡ end_hash prev rs
      → r.chain_hash ≡ chain_hash sha (end_hash prev rs) (bound_of r)
      → verify_from sha i prev (push rs r) ≡ ok tt
  unfolding verify_from
  verify_from-push i [] prev r v l h = ground (
    arith,
    text_eq_iff r.prev_receipt_hash prev,
    text_eq_iff r.chain_hash (chain_hash sha r.prev_receipt_hash (bound_of r)),
  )
  verify_from-push i (s ∷ rs) prev r v l h =
      ground (arith, verify_from-push (suc i) rs s.chain_hash r)

  Linked-verify :
      (rs : List EffectReceipt) (h : Text)
      → Linked sha rs h
      → (verify_from sha 0 genesis rs ≡ ok tt) × (end_hash genesis rs ≡ h)
  unfolding verify_from
  Linked-verify rs h start = (refl, refl)
  Linked-verify rs h (next before g r d link hash) =
      let (v, e) = Linked-verify before g d in
      (verify_from-push 0 before genesis r v (cc) (rw (e) hash), end_hash-push genesis before r)

  -- `verify` accepts exactly the linked chains.
  pub verify_iff :
      (rs : List EffectReceipt) → (verify sha rs ≡ ok tt) ↔ Linked sha rs (last_hash rs)
  unfolding verify
  verify_iff rs = (
    λ v. rw (last_hash-end_hash rs) (verify_from-Linked 0 [] rs genesis start v),
    λ d. (Linked-verify rs (last_hash rs) d).0,
  )

  verify_from-broken :
      (i : ℕ) (rs : List EffectReceipt) (prev : Text) (r : EffectReceipt)
      → verify_from sha i prev rs ≡ ok tt
      → r.prev_receipt_hash ≢ end_hash prev rs
      → verify_from sha i prev (push rs r) ≡ err (broken_link (i + length rs))
  unfolding verify_from
  verify_from-broken i [] prev r v l = ground (arith, text_eq_iff r.prev_receipt_hash prev)
  verify_from-broken i (s ∷ rs) prev r v l =
      ground (arith, verify_from-broken (suc i) rs s.chain_hash r)

  -- A receipt that is not linked to the last one is found at its index.
  pub verify-broken :
      (rs : List EffectReceipt) (r : EffectReceipt)
      → verify sha rs ≡ ok tt
      → r.prev_receipt_hash ≢ last_hash rs
      → verify sha (push rs r) ≡ err (broken_link (length rs))
  unfolding verify
  verify-broken rs r v l =
      let broken = verify_from-broken 0 rs genesis r v λ e. l (e ∙ sym (last_hash-end_hash rs)) in
      ground (arith, broken)

  -- A lowercase hexadecimal digit.
  abbrev pub is_hex : ℕ → Bool
  is_hex c = (leb 48 c && leb c 57) || (leb 97 c && leb c 102)

  -- The text of a SHA-256 digest: 64 hexadecimal digits.
  abbrev pub IsHexDigest : Text → Type 0
  IsHexDigest t = (length t ≡ 64) × All (λ c. is_hex c ≡ true) t

  -- Two texts that a hash does not tell apart.
  abbrev pub Collision : Type 0
  Collision = (a : Text) × (b : Text) × (a ≢ b) × (sha a ≡ sha b)

  module _ (hex : (t : Text) → IsHexDigest (sha t)) where
    -- The links of a chain.
    abbrev IsLink : Text → Type 0
    IsLink h = (h ≡ genesis) ⊎ ((t : Text) × (h ≡ sha t))
