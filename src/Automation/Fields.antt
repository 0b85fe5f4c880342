-- ===== src/Automation/Fields.antt =====
-- crates/core-runtime/src/automation.rs: which values a cron field has.
use zmodbit.Prelude.{
  ◌≡◌, refl, sym, ap, ◌∙◌, subst, ◌↔◌, ◌⊎◌, inl, inr, Option, none, some, true, false, ◌||◌,
  Bool-cases, Option-cases, List, [], ◌∷◌, ℕ, zero, suc, ◌+◌, ◌-◌, ◌%◌, ◌<◌, ◌≤◌, ◌==◌, ==_iff, leb,
  ltb, Text, text_eq, bytes, Any, All, arith,
}
use native.Mathlib.Nat.{mod-eq_of_lt, mod-eq-sub-mod}
use zmodbit.Automation.Calendar.{u32}
use zmodbit.Automation.Cron.{
  Part, bounded, stepped, part_at, range_of, split_once, parse_u32, insert_value, fill, fill_part,
  parse_part, fill_parts, parse_field, split_all, field_matches,
}

-- What a part stands for: every step-th value from its lower bound to its upper.
abbrev pub Covers : ℕ → Part → Type 0
Covers v p = (p.lo ≤ v) × (v ≤ p.hi) × ((v - p.lo) % p.step ≡ 0)

matches-insert_value :
    (v w : ℕ) (ws : List ℕ) → field_matches (insert_value v ws) w ≡ ((v == w) || field_matches ws w)
matches-insert_value v w [] = refl
matches-insert_value v w (u ∷ ws) = ground (arith, matches-insert_value v w ws)

next_hit :
    (v w step : ℕ)
    → 0 < step
    → v ≤ w
    → (w - v) % step ≡ 0
    → (v ≡ w) ⊎ ((v + step ≤ w) × ((w - (v + step)) % step ≡ 0))
next_hit v w step p le h = elim (Bool-cases (ltb (w - v) step)) [
  | inl q ↦
      let small : w - v < step = ground arith in let e = mod-eq_of_lt small in inl (omega arith)
  | inr q ↦
      let large : step ≤ w - v = ground arith in
      let e = mod-eq-sub-mod large in
      let f : w - (v + step) ≡ w - v - step = omega arith in
      inr (omega arith, ap (λ x. x % step) f ∙ sym e ∙ h)
]

later_hit : (v w step : ℕ) → v + step ≤ w → (w - (v + step)) % step ≡ 0 → (w - v) % step ≡ 0
later_hit v w step le h =
    let large : step ≤ w - v = omega arith in
    let f : w - v - step ≡ w - (v + step) = omega arith in
    mod-eq-sub-mod large ∙ ap (λ x. x % step) f ∙ h

fill_iff :
    (fuel v hi step w : ℕ) (ws : List ℕ)
    → 0 < step
    → hi + step < u32
    → hi < v + fuel
    → (field_matches (fill fuel v hi step ws) w ≡ true)
      ↔ (((v ≤ w) × (w ≤ hi) × ((w - v) % step ≡ 0)) ⊎ (field_matches ws w ≡ true))
unfolding fill
fill_iff zero v hi step w ws p b f =
    (λ h. inr h, λ s. elim s [ inl (low, high, e) ↦ absurd (omega arith) | inr h ↦ h ])
fill_iff (suc fuel) v hi step w ws p b f = elim (Bool-cases (leb v hi)) [
  | inr q ↦
      let above : hi < v = ground arith in
      rw (q) (λ h. inr h, λ s. elim s [ inl (low, high, e) ↦ absurd (omega arith) | inr h ↦ h ])
  | inl q ↦
      let below : v ≤ hi = ground arith in
      let fits : (v + step) % u32 ≡ v + step = omega (arith, below, b) in
      let rest = fill_iff fuel (v + step) hi step w (insert_value v ws) p b (omega arith) in
      let added = matches-insert_value v w ws in
      rw (q, fits)
        (
          λ h. elim (rest.0 h) [
            | inl (low, high, e) ↦ inl (omega arith, high, later_hit v w step low e)
            | inr m ↦ elim (Bool-cases (v == w)) [
              | inl same ↦
                  let e = (==_iff v w).0 same in
                  let z : w - v ≡ 0 = omega (arith, e) in
                  inl (
                    omega (arith, e),
                    omega (arith, e, below),
                    ap (λ x. x % step) z ∙ mod-eq_of_lt p,
                  )
              | inr other ↦ inr (ground (arith, added, m))
            ]
          ],
          λ s. elim s [
            | inl (low, high, e) ↦ elim (next_hit v w step p low e) [
              | inl same ↦ rest.1 (inr (ground (arith, added, (==_iff v w).1 same)))
              | inr (more, hit) ↦ rest.1 (inl (more, high, hit))
            ]
            | inr m ↦ rest.1 (inr (ground (arith, added, m)))
          ],
        )
]

bounded-step :
    (low high step : ℕ) (r : Option (ℕ × ℕ)) (p : Part)
    → bounded low high step r ≡ some p
    → p.step ≡ step
bounded-step low high step none p h = cc
bounded-step low high step (some (lo, hi)) p h =
    elim (Bool-cases (ltb lo low || ltb high hi || ltb hi lo)) [
      | inl q ↦ absurd (let k = rw (q) at h in cc)
      | inr q ↦ let k = rw (q) at h in ground arith
    ]

stepped-pos :
    (low high : ℕ) (range : Text) (step : Option ℕ) (p : Part)
    → stepped low high range step ≡ some p
    → 0 < p.step
stepped-pos low high range none p h = cc
stepped-pos low high range (some step) p h = elim (Bool-cases (step == 0)) [
  | inl z ↦ absurd (let k = rw (z) at h in cc)
  | inr z ↦ elim (Bool-cases (text_eq range (bytes "*"))) [
    | inl q ↦
        let e = bounded-step low high step (some (low, high)) p (rw (z, q) at h) in ground arith
    | inr q ↦
        let e =
          bounded-step low high step (range_of range low high (split_once 45 range)) p
            (rw (z, q) at h) in
        ground arith
  ]
]

part_at-pos :
    (low high : ℕ) (part : Text) (o : Option (Text × Text)) (p : Part)
    → part_at low high part o ≡ some p
    → 0 < p.step
part_at-pos low high part none p h = stepped-pos low high part (some 1) p h
part_at-pos low high part (some (range, step)) p h = stepped-pos low high range (parse_u32 step) p h

parse_part-pos :
    (low high : ℕ) (part : Text) (p : Part) → parse_part low high part ≡ some p → 0 < p.step
unfolding parse_part
parse_part-pos low high part p h = part_at-pos low high part (split_once 47 part) p h

-- The text is a part whose values include the number.
abbrev pub Gives : ℕ → ℕ → ℕ → Text → Type 0
Gives low high w t = (p : Part) × (parse_part low high t ≡ some p) × Covers w p

-- No sum of the loop passes u32.
abbrev pub IsNarrow : ℕ → ℕ → Text → Type 0
IsNarrow low high t = (p : Part) → parse_part low high t ≡ some p → p.hi + p.step < u32

fill_parts_iff :
    (low high w : ℕ) (ts : List Text) (ws vs : List ℕ)
    → fill_parts low high ts ws ≡ some vs
    → All (IsNarrow low high) ts
    → (field_matches vs w ≡ true) ↔ (Any (Gives low high w) ts ⊎ (field_matches ws w ≡ true))
unfolding fill_parts
fill_parts_iff low high w [] ws vs h n =
    let e : ws ≡ vs = ground arith in
    (
      λ m. inr (ap (λ x. field_matches x w) e ∙ m),
      λ s. elim s [ inl a ↦ absurd a | inr m ↦ sym (ap (λ x. field_matches x w) e) ∙ m ],
    )
fill_parts_iff low high w (t ∷ ts) ws vs h (narrow, n) =
    elim (Option-cases (parse_part low high t)) [
      | inl bad ↦ absurd (let k = rw (bad) at h in cc)
      | inr (p, parsed) ↦
          let rest = fill_parts_iff low high w ts (fill_part p ws) vs (rw (parsed) at h) n in
          let one =
            fill_iff (suc p.hi) p.lo p.hi p.step w ws (parse_part-pos low high t p parsed)
              (narrow p parsed) (omega arith) in
          (
            λ m. elim (rest.0 m) [
              | inl a ↦ inl (inr a)
              | inr k ↦ elim (one.0 k) [ inl c ↦ inl (inl (p, parsed, c)) | inr old ↦ inr old ]
            ],
            λ s. elim s [
              | inl a ↦ elim a [
                | inl (p', parsed', c) ↦
                    let e : p' ≡ p = ground arith in
                    rest.1 (inr (one.1 (inl (subst (Covers w) e c))))
                | inr b ↦ rest.1 (inl b)
              ]
              | inr old ↦ rest.1 (inr (one.1 (inr old)))
            ],
          )
    ]

-- A field that parses matches exactly the numbers that one of its parts stands for, every step-th from its lower to its
-- upper bound, when the steps are so far below 2^32 that no sum passes it.
pub parse_field_iff :
    (spec : Text) (low high w : ℕ) (vs : List ℕ)
    → parse_field spec low high ≡ some vs
    → All (IsNarrow low high) (split_all 44 [] spec)
    → (field_matches vs w ≡ true) ↔ Any (Gives low high w) (split_all 44 [] spec)
unfolding parse_field
parse_field_iff spec low high w vs h n =
    let all = fill_parts_iff low high w (split_all 44 [] spec) [] vs h n in
    (
      λ m. elim (all.0 m) [ inl a ↦ a | inr k ↦ absurd (let e : false ≡ true = k in cc) ],
      λ a. all.1 (inl a),
    )
