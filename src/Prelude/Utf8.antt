-- ===== src/Prelude/Utf8.antt =====
-- `str::from_utf8` on bytes: which texts `read_to_string` accepts.
use Prim.Native.Nat.{ℕ, zero, suc}
use mathlib.Core.Path.{◌≡◌, refl}
use mathlib.Core.Bool.{Bool, true, false, ◌&&◌}
use mathlib.Core.Option.{Option, none, some}
use mathlib.Core.List.{[], ◌∷◌, ◌++◌}
use native.Mathlib.Omega.{arith}
use zmodbit.Prelude.Tests.{leb, ◌==◌, if◌then◌else◌}
use zmodbit.Prelude.Texts.{Text}

-- For the first byte of a character, how many bytes follow it and the bounds of the second one.
abbrev pub lead : ℕ → Option (ℕ × ℕ × ℕ)
lead c =
    if leb c 127
    then some (0, 0, 0)
    else if leb c 193
    then none
    else if leb c 223
    then some (1, 128, 191)
    else if c == 224
    then some (2, 160, 191)
    else if c == 237
    then some (2, 128, 159)
    else if leb c 239
    then some (2, 128, 191)
    else if c == 240
    then some (3, 144, 191)
    else if leb c 243
    then some (3, 128, 191)
    else if c == 244
    then some (3, 128, 143)
    else none

-- The rest of a text when so many bytes of a character are still to come, the next one within the bounds.
unfoldable pub utf8_from : (missing low high : ℕ) → Text → Bool
utf8_from zero low high [] = true
utf8_from zero low high (c ∷ t) = elim (lead c) [
  | none ↦ false
  | some (n, l, h) ↦ utf8_from n l h t
]
utf8_from (suc n) low high [] = false
utf8_from (suc n) low high (c ∷ t) = (leb low c && leb c high) && utf8_from n 128 191 t

unfoldable pub is_utf8 : Text → Bool
unfolding utf8_from
is_utf8 t = utf8_from 0 0 0 t

utf8_from-whole : (l h : ℕ) (t : Text) → utf8_from 0 l h t ≡ utf8_from 0 0 0 t
unfolding utf8_from
utf8_from-whole l h [] = refl
utf8_from-whole l h (c ∷ t) = refl

utf8_from-append :
    (n l h : ℕ) (s t : Text)
    → utf8_from n l h s ≡ true
    → utf8_from n l h (s ++ t) ≡ utf8_from 0 0 0 t
unfolding utf8_from
utf8_from-append zero l h [] t e = utf8_from-whole l h t
utf8_from-append zero l h (c ∷ s) t e =
    elim (lead c)
        as (λ o.
          (elim o [ none ↦ false | some (n, l, h) ↦ utf8_from n l h s ]) ≡ true
          → (elim o [ none ↦ false | some (n, l, h) ↦ utf8_from n l h (s ++ t) ])
            ≡ utf8_from 0 0 0 t) [
              | none ↦ λ f. cc
              | some (n, l, h) ↦ λ f. utf8_from-append n l h s t f
            ]
      e
utf8_from-append (suc n) l h [] t e = cc
utf8_from-append (suc n) l h (c ∷ s) t e = ground (arith, utf8_from-append n 128 191 s t)

-- After whole characters, the rest decides.
pub is_utf8-append : (s t : Text) → is_utf8 s ≡ true → is_utf8 (s ++ t) ≡ is_utf8 t
unfolding is_utf8
is_utf8-append s t h = utf8_from-append 0 0 0 s t h

pub is_utf8-cons : (c : ℕ) (t : Text) → leb c 127 ≡ true → is_utf8 (c ∷ t) ≡ is_utf8 t
unfolding is_utf8 utf8_from
is_utf8-cons c t h = rw (is_utf8, utf8_from, h) (utf8_from-whole 0 0 t)
