-- ===== src/Workspace/Ladder.antt =====
-- crates/workspace/src/lib.rs: change_engine::match_ladder. What a place that it finds is.
use zmodbit.Prelude.{
  ◌≡◌, refl, sym, ap, ◌∙◌, inl, inr, true, false, Bool-cases, List, [], ◌∷◌, ℕ, zero, suc, ◌+◌, ◌-◌,
  ◌≤◌, ◌==◌, ==_iff, ltb, Text, map, lines, length, ok, whitespace_normalized, arith,
}
use zmodbit.Workspace.Patch.{
  matches_at, matches_from, all_matches, laddered, match_ladder, MatchTier, exact, whitespace_remap,
}

-- `start` is the only place up to `last` where the lines match.
abbrev pub IsOnly : List Text → List Text → ℕ → ℕ → Type 0
IsOnly lines old last start =
    (start ≤ last)
    × (matches_at lines old start ≡ true)
    × ((other : ℕ) → other ≤ last → matches_at lines old other ≡ true → other ≡ start)

module _ (lines old : List Text) where
  -- No match in the list of those from a place: none of the places matches.
  from-nil :
      (n start other : ℕ)
      → matches_from lines old n start ≡ []
      → start ≤ other
      → other ≤ start + n
      → matches_at lines old other ≡ false
  unfolding matches_from
  from-nil zero start other h a b = elim (Bool-cases (matches_at lines old start)) [
    | inl q ↦ absurd (let k = rw (q) at h in cc)
    | inr q ↦ let e : start ≡ other = omega arith in ap (λ x. matches_at lines old x) (sym e) ∙ q
  ]
  from-nil (suc n) start other h a b = elim (Bool-cases (matches_at lines old start)) [
    | inl q ↦ absurd (let k = rw (q) at h in cc)
    | inr q ↦ elim (Bool-cases (start == other)) [
      | inl e ↦ ap (λ x. matches_at lines old x) (sym ((==_iff start other).0 e)) ∙ q
      | inr e ↦
          from-nil n (suc start) other (rw (q) at h) (ground (arith, ==_iff start other))
            (omega arith)
    ]
  ]

  from-one :
      (n start s : ℕ)
      → matches_from lines old n start ≡ s ∷ []
      → (start ≤ s) × (s ≤ start + n) × (matches_at lines old s ≡ true)
  unfolding matches_from
  from-one zero start s h = elim (Bool-cases (matches_at lines old start)) [
    | inl q ↦
        let k = rw (q) at h in
        let e : start ≡ s = ground arith in
        (omega arith, omega arith, ap (λ x. matches_at lines old x) (sym e) ∙ q)
    | inr q ↦ absurd (let k = rw (q) at h in cc)
  ]
  from-one (suc n) start s h = elim (Bool-cases (matches_at lines old start)) [
    | inl q ↦
        let k = rw (q) at h in
        let e : start ≡ s = ground arith in
        (omega arith, omega arith, ap (λ x. matches_at lines old x) (sym e) ∙ q)
    | inr q ↦
        let (low, high, found) = from-one n (suc start) s (rw (q) at h) in
        (omega arith, omega arith, found)
  ]

  from-only :
      (n start s other : ℕ)
      → matches_from lines old n start ≡ s ∷ []
      → start ≤ other
      → other ≤ start + n
      → matches_at lines old other ≡ true
      → other ≡ s
  unfolding matches_from
  from-only zero start s other h a b m = elim (Bool-cases (matches_at lines old start)) [
    | inl q ↦ let k = rw (q) at h in let e : start ≡ s = ground arith in omega arith
    | inr q ↦ absurd (let k = rw (q) at h in cc)
  ]
  from-only (suc n) start s other h a b m = elim (Bool-cases (start == other)) [
    | inl e ↦
        let same = (==_iff start other).0 e in
        let here : matches_at lines old start ≡ true = ap (λ x. matches_at lines old x) same ∙ m in
        let k = rw (here) at h in let first : start ≡ s = ground arith in omega arith
    | inr e ↦
        let next : suc start ≤ other = ground (arith, ==_iff start other) in
        elim (Bool-cases (matches_at lines old start)) [
          | inl q ↦
              let k = rw (q) at h in
              let none_later : matches_from lines old n (suc start) ≡ [] = ground arith in
              absurd (let f = from-nil n (suc start) other none_later next (omega arith) in cc)
          | inr q ↦ from-only n (suc start) s other (rw (q) at h) next (omega arith) m
        ]
  ]

  all_matches-one :
      (s : ℕ) → all_matches lines old ≡ s ∷ [] → IsOnly lines old (length lines - length old) s
  all_matches-one s h =
      let (low, high, found) = from-one (length lines - length old) 0 s h in
      (
        omega arith,
        found,
        λ other le m.
            from-only (length lines - length old) 0 s other h (omega arith) (omega arith) m,
      )

-- What a tier says of the place that it found.
abbrev pub Placed : MatchTier → List Text → List Text → ℕ → Type 0
Placed exact lines old s = IsOnly lines old (length lines - length old) s
Placed whitespace_remap lines old s =
    ((other : ℕ) → other ≤ length lines - length old → matches_at lines old other ≡ false)
    × IsOnly (map whitespace_normalized lines) (map whitespace_normalized old)
        (length (map whitespace_normalized lines) - length (map whitespace_normalized old)) s

laddered-Placed :
    (lines old : List Text) (anchor s : ℕ) (tier : MatchTier) (es rs : List ℕ)
    → all_matches lines old ≡ es
    → all_matches (map whitespace_normalized lines) (map whitespace_normalized old) ≡ rs
    → laddered anchor es rs ≡ ok (s, tier)
    → Placed tier lines old s
laddered-Placed lines old anchor s tier (e ∷ []) rs p q h =
    let same : s ≡ e = ground arith in
    let is : exact ≡ tier = ground arith in
    let only = all_matches-one lines old s (p ∙ ap (λ x. x ∷ []) (sym same)) in rw (sym is) only
laddered-Placed lines old anchor s tier (e ∷ d ∷ es) rs p q h = cc
laddered-Placed lines old anchor s tier [] [] p q h = cc
laddered-Placed lines old anchor s tier [] (r ∷ t ∷ rs) p q h = cc
laddered-Placed lines old anchor s tier [] (r ∷ []) p q h =
    let same : s ≡ r = ground arith in
    let is : whitespace_remap ≡ tier = ground arith in
    let only =
      all_matches-one (map whitespace_normalized lines) (map whitespace_normalized old) s
        (q ∙ ap (λ x. x ∷ []) (sym same)) in
    rw (sym is) (
      λ other le.
          from-nil lines old (length lines - length old) 0 other p (omega arith) (omega arith),
      only,
    )

-- A place that the ladder returns is, at its tier, the only place in the file where the old lines match, and a place
-- of the second tier is returned only where they match nowhere exactly.
pub match_ladder-Placed :
    (lines old : List Text) (anchor s : ℕ) (tier : MatchTier)
    → match_ladder lines anchor old ≡ ok (s, tier)
    → (length old ≤ length lines) × Placed tier lines old s
unfolding match_ladder
match_ladder-Placed lines [] anchor s tier h = cc
match_ladder-Placed lines (o ∷ os) anchor s tier h =
    elim (Bool-cases (ltb (length lines) (length (o ∷ os)))) [
      | inl q ↦ absurd (let k = rw (q) at h in cc)
      | inr q ↦ (
        ground arith,
        laddered-Placed lines (o ∷ os) anchor s tier (all_matches lines (o ∷ os))
            (all_matches (map whitespace_normalized lines) (map whitespace_normalized (o ∷ os)))
            refl refl (rw (q) at h),
      )
    ]
