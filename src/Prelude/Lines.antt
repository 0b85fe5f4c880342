-- ===== src/Prelude/Lines.antt =====
-- `str::lines` and `BufRead::lines` on the bytes of a text: a line ends at "\n", which is dropped with a "\r" before
-- it; what follows the last "\n" is a line when it is not empty.
use Prim.Native.Nat.{ℕ}
use mathlib.Core.Path.{◌≡◌, refl, sym, ◌∙◌, ap}
use mathlib.Core.Bool.{Bool, true, false, ◌&&◌, ◌||◌}
use mathlib.Core.List.{List, [], ◌∷◌, ◌++◌}
use zmodbit.Prelude.Tests.{leb, if◌then◌else◌, ◌==◌}
use zmodbit.Prelude.Texts.{Text}
use zmodbit.Prelude.Lists.{append_nil, push-append, push, All}

abbrev pub newline : ℕ
newline = 10

unfoldable pub strip_cr : Text → Text
strip_cr [] = []
strip_cr (c ∷ []) = if c == 13 then [] else c ∷ []
strip_cr (c ∷ d ∷ t) = c ∷ strip_cr (d ∷ t)

abbrev unfinished : Text → List Text
unfinished [] = []
unfinished (c ∷ t) = (c ∷ t) ∷ []

lines_from : Text → Text → List Text
unfolding strip_cr
lines_from line [] = unfinished line
lines_from line (c ∷ t) =
    if c == newline then strip_cr line ∷ lines_from [] t else lines_from (push line c) t

unfoldable pub lines : Text → List Text
unfolding lines_from
lines t = lines_from [] t

white1 : ℕ → Bool
white1 c = (leb 9 c && leb c 13) || c == 32

white2 : ℕ → ℕ → Bool
white2 c d = c == 194 && (d == 133 || d == 160)

white3 : ℕ → ℕ → ℕ → Bool
white3 c d e =
    (c == 225 && d == 154 && e == 128)
    || (c == 226 && d == 128 && ((leb 128 e && leb e 138) || e == 168 || e == 169 || e == 175))
    || (c == 226 && d == 129 && e == 159)
    || (c == 227 && d == 128 && e == 128)

-- `line.trim().is_empty()`, with the white space of Unicode in its UTF-8 bytes.
unfoldable pub is_blank : Text → Bool
unfolding white1 white2 white3
is_blank [] = true
is_blank (c ∷ []) = white1 c
is_blank (c ∷ d ∷ []) = (white1 c && white1 d) || white2 c d
is_blank (c ∷ d ∷ e ∷ t) =
    (white1 c && is_blank (d ∷ e ∷ t))
    || (white2 c d && is_blank (e ∷ t))
    || (white3 c d e && is_blank t)

trim_start : Text → Text
unfolding white1 white2 white3
trim_start [] = []
trim_start (c ∷ []) = if white1 c then [] else c ∷ []
trim_start (c ∷ d ∷ []) =
    let one = trim_start (d ∷ []) in if white1 c then one else if white2 c d then [] else c ∷ d ∷ []
trim_start (c ∷ d ∷ e ∷ t) =
    let one = trim_start (d ∷ e ∷ t) in
    let two = trim_start (e ∷ t) in
    let three = trim_start t in
    if white1 c
    then one
    else if white2 c d
    then two
    else if white3 c d e
    then three
    else c ∷ d ∷ e ∷ t

trim_end : Text → Text
unfolding is_blank
trim_end [] = []
trim_end (c ∷ t) = let rest = trim_end t in if is_blank (c ∷ t) then [] else c ∷ rest

-- `str::trim`.
unfoldable pub trim : Text → Text
unfolding trim_start trim_end
trim t = trim_end (trim_start t)

abbrev due : Bool → Text → Text
due true t = 32 ∷ t
due false t = t

-- The rest of a text whose words are set apart by one space: whether there was a word, and white space after it.
words_from : Bool → Bool → Text → Text
unfolding white1 white2 white3
words_from s g [] = []
words_from s g (c ∷ []) = if white1 c then [] else due (s && g) (c ∷ [])
words_from s g (c ∷ d ∷ []) =
    let one = words_from s true (d ∷ []) in
    let word = due (s && g) (c ∷ words_from true false (d ∷ [])) in
    if white1 c then one else if white2 c d then [] else word
words_from s g (c ∷ d ∷ e ∷ t) =
    let one = words_from s true (d ∷ e ∷ t) in
    let two = words_from s true (e ∷ t) in
    let three = words_from s true t in
    let word = due (s && g) (c ∷ words_from true false (d ∷ e ∷ t)) in
    if white1 c then one else if white2 c d then two else if white3 c d e then three else word

-- `line.split_whitespace().collect::<Vec<_>>().join(" ")`.
unfoldable pub whitespace_normalized : Text → Text
unfolding words_from
whitespace_normalized t = words_from false false t

-- What a line that is written to a journal must be: no line break within it, and no "\r" at its end.
abbrev pub IsLine : Text → Type 0
IsLine t = All (λ c. (c == newline) ≡ false) t × (strip_cr t ≡ t)

-- The text of complete lines.
abbrev pub unlines : List Text → Text
unlines [] = []
unlines (t ∷ ts) = (t ++ newline ∷ []) ++ unlines ts

pub append_assoc : (a b c : Text) → (a ++ b) ++ c ≡ a ++ (b ++ c)
append_assoc [] b c = refl
append_assoc (x ∷ a) b c = ap (λ t. x ∷ t) (append_assoc a b c)

lines_from-line :
    (line t rest : Text)
    → All (λ c. (c == newline) ≡ false) t
    → lines_from line ((t ++ newline ∷ []) ++ rest) ≡ strip_cr (line ++ t) ∷ lines_from [] rest
unfolding lines_from
lines_from-line line [] rest h = rw (append_nil line) refl
lines_from-line line (c ∷ t) rest (n, h) =
    let later = lines_from-line (push line c) t rest h in rw (n, sym (push-append line t c)) later

lines_from-fragment :
    (line t : Text)
    → All (λ c. (c == newline) ≡ false) t
    → lines_from line t ≡ unfinished (line ++ t)
unfolding lines_from
lines_from-fragment line [] h = rw (append_nil line) refl
lines_from-fragment line (c ∷ t) (n, h) =
    rw (n, sym (push-append line t c)) (lines_from-fragment (push line c) t h)

strip_cr-append : (line t : Text) (c : ℕ) → strip_cr (line ++ c ∷ t) ≡ line ++ strip_cr (c ∷ t)
unfolding strip_cr
strip_cr-append [] t c = refl
strip_cr-append (x ∷ []) t c = refl
strip_cr-append (x ∷ y ∷ line) t c = ap (λ l. x ∷ l) (strip_cr-append (y ∷ line) t c)

All-append : (P : ℕ → Type 0) (line t : Text) → All P line → All P t → All P (line ++ t)
All-append P [] t h k = k
All-append P (x ∷ line) t (p, h) k = (p, All-append P line t h k)

-- A fragment in front of a line gives a line.
pub append-IsLine :
    (line t : Text) (c : ℕ)
    → All (λ c. (c == newline) ≡ false) line
    → IsLine (c ∷ t)
    → IsLine (line ++ c ∷ t)
append-IsLine line t c h (k, e) = (
  All-append (λ c. (c == newline) ≡ false) line (c ∷ t) h k,
  strip_cr-append line t c ∙ ap (λ l. line ++ l) e,
)

pub unlines-push :
    (ts : List Text) (t : Text) → unlines (push ts t) ≡ unlines ts ++ (t ++ newline ∷ [])
unlines-push [] t = append_nil (t ++ newline ∷ [])
unlines-push (u ∷ ts) t =
    ap (λ l. (u ++ newline ∷ []) ++ l) (unlines-push ts t)
    ∙ sym (append_assoc (u ++ newline ∷ []) (unlines ts) (t ++ newline ∷ []))

-- Complete lines are read back, and what follows them is read on its own.
pub lines-unlines :
    (ts : List Text) (rest : Text) → All IsLine ts → lines (unlines ts ++ rest) ≡ ts ++ lines rest
unfolding lines
lines-unlines [] rest h = refl
lines-unlines (t ∷ ts) rest ((b, e), h) =
    let now = lines_from-line [] t (unlines ts ++ rest) b in
    let later : lines_from [] (unlines ts ++ rest) ≡ ts ++ lines_from [] rest =
      lines-unlines ts rest h in
    ap (lines_from []) (append_assoc (t ++ newline ∷ []) (unlines ts) rest)
    ∙ now
    ∙ ap (λ l. l ∷ lines_from [] (unlines ts ++ rest)) e
    ∙ ap (λ l. t ∷ l) later

-- A fragment without a line break is one line.
pub lines-fragment :
    (c : ℕ) (t : Text) → All (λ c. (c == newline) ≡ false) (c ∷ t) → lines (c ∷ t) ≡ (c ∷ t) ∷ []
unfolding lines
lines-fragment c t h = lines_from-fragment [] (c ∷ t) h
