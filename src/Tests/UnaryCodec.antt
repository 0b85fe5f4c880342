-- ===== src/Tests/UnaryCodec.antt =====
-- An encoding of lists of texts in the letters a to d that decodes, to instantiate the JSON parameters with.
use zmodbit.Prelude.{
  ◌≡◌, refl, sym, subst, ap, ◌∙◌, true, false, List, [], ◌∷◌, ◌++◌, ℕ, zero, suc, ◌+◌, Text, push,
  push-append, append_nil, ◌==◌, leb, ◌&&◌, if◌then◌else◌, All, strip_cr, IsLine, is_blank, is_utf8,
  is_utf8-cons, arith,
}

abbrev unary : ℕ → Text → Text
unary zero t = 98 ∷ t
unary (suc n) t = 97 ∷ unary n t

abbrev one_text : Text → Text → Text
one_text [] t = 99 ∷ t
one_text (n ∷ ns) t = unary n (one_text ns t)

abbrev pub encode_texts : List Text → Text
encode_texts [] = 100 ∷ []
encode_texts (s ∷ ss) = one_text s (encode_texts ss)

abbrev decode_from : ℕ → Text → Text → List Text
decode_from n line [] = []
decode_from n line (c ∷ t) =
    if c == 97
    then decode_from (suc n) line t
    else if c == 98
    then decode_from 0 (push line n) t
    else if c == 99
    then line ∷ decode_from 0 [] t
    else []

abbrev pub decode_texts : Text → List Text
decode_texts t = decode_from 0 [] t

decode-unary :
    (m n : ℕ) (line t : Text) → decode_from m line (unary n t) ≡ decode_from 0 (push line (m + n)) t
decode-unary m zero line t = ap (λ k. decode_from 0 (push line k) t) (omega arith)
decode-unary m (suc n) line t =
    decode-unary (suc m) n line t ∙ ap (λ k. decode_from 0 (push line k) t) (omega arith)

decode-one_text :
    (line s t : Text) → decode_from 0 line (one_text s t) ≡ (line ++ s) ∷ decode_from 0 [] t
decode-one_text line [] t = ap (λ l. l ∷ decode_from 0 [] t) (sym (append_nil line))
decode-one_text line (n ∷ ns) t =
    decode-unary 0 n line (one_text ns t)
    ∙ ap (λ k. decode_from 0 (push line k) (one_text ns t)) (omega arith)
    ∙ decode-one_text (push line n) ns t
    ∙ ap (λ l. l ∷ decode_from 0 [] t) (push-append line ns n)

pub decode_texts-encode_texts : (ss : List Text) → decode_texts (encode_texts ss) ≡ ss
decode_texts-encode_texts [] = refl
decode_texts-encode_texts (s ∷ ss) =
    decode-one_text [] s (encode_texts ss) ∙ ap (λ l. s ∷ l) (decode_texts-encode_texts ss)

-- All letters are among a to d.
abbrev IsPlain : Text → Type 0
IsPlain t = All (λ c. (leb 97 c && leb c 100) ≡ true) t

unary-IsPlain : (n : ℕ) (t : Text) → IsPlain t → IsPlain (unary n t)
unary-IsPlain zero t h = (refl, h)
unary-IsPlain (suc n) t h = (refl, unary-IsPlain n t h)

one_text-IsPlain : (s t : Text) → IsPlain t → IsPlain (one_text s t)
one_text-IsPlain [] t h = (refl, h)
one_text-IsPlain (n ∷ ns) t h = unary-IsPlain n (one_text ns t) (one_text-IsPlain ns t h)

encode_texts-IsPlain : (ss : List Text) → IsPlain (encode_texts ss)
encode_texts-IsPlain [] = (refl, tt)
encode_texts-IsPlain (s ∷ ss) = one_text-IsPlain s (encode_texts ss) (encode_texts-IsPlain ss)

plain-IsLine : (t : Text) → IsPlain t → IsLine t
unfolding strip_cr
plain-IsLine [] h = (tt, refl)
plain-IsLine (c ∷ []) (p, h) = ((ground arith, tt), ground arith)
plain-IsLine (c ∷ d ∷ t) (p, h) =
    let (lines, rest) = plain-IsLine (d ∷ t) h in ((ground arith, lines), ap (λ l. c ∷ l) rest)

plain-not_blank : (c : ℕ) (t : Text) → IsPlain (c ∷ t) → is_blank (c ∷ t) ≡ false
unfolding is_blank
plain-not_blank c [] (p, h) = ground arith
plain-not_blank c (d ∷ []) (p, h) = ground arith
plain-not_blank c (d ∷ e ∷ t) (p, h) = ground arith

pub encode_texts-IsLine : (ss : List Text) → IsLine (encode_texts ss)
encode_texts-IsLine ss = plain-IsLine (encode_texts ss) (encode_texts-IsPlain ss)

one_text-cons : (s t : Text) → (c : ℕ) × (u : Text) × (one_text s t ≡ c ∷ u)
one_text-cons [] t = (99, t, refl)
one_text-cons (zero ∷ ns) t = (98, one_text ns t, refl)
one_text-cons (suc n ∷ ns) t = (97, unary n (one_text ns t), refl)

pub encode_texts-cons : (ss : List Text) → (c : ℕ) × (u : Text) × (encode_texts ss ≡ c ∷ u)
encode_texts-cons [] = (100, [], refl)
encode_texts-cons (s ∷ ss) = one_text-cons s (encode_texts ss)

pub encode_texts-not_blank : (ss : List Text) → is_blank (encode_texts ss) ≡ false
encode_texts-not_blank ss =
    let (c, u, e) = encode_texts-cons ss in
    rw (e) (plain-not_blank c u (subst IsPlain e (encode_texts-IsPlain ss)))

plain-is_utf8 : (t : Text) → IsPlain t → is_utf8 t ≡ true
plain-is_utf8 [] h = unfold is_utf8 in refl
plain-is_utf8 (c ∷ t) (p, h) = is_utf8-cons c t (ground arith) ∙ plain-is_utf8 t h

pub encode_texts-is_utf8 : (ss : List Text) → is_utf8 (encode_texts ss) ≡ true
encode_texts-is_utf8 ss = plain-is_utf8 (encode_texts ss) (encode_texts-IsPlain ss)
