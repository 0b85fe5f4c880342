-- ===== src/Tools/Pages.antt =====
-- crates/tools/src/output_pagination.rs. SHA-256 and the lossy decoding of a preview are parameters.
use zmodbit.Prelude.{
  ◌≡◌, refl, ap, sym, ◌∙◌, Option, none, some, [], ◌∷◌, ◌++◌, ℕ, zero, suc, ◌+◌, ◌-◌, ◌*◌, ◌≤◌, ◌<◌,
  min, Bool, not, ◌||◌, Text, text_eq, take, drop, length, take-append-drop, length-take, leb, ◌==◌,
  Result, ok, err, if◌then◌else◌, Bool-cases, inl, inr, arith,
}

abbrev pub page_max_bytes : ℕ
page_max_bytes = 256 * 1024

pub record OutputRef : Type 0 where
  pub output_id : Text
  pub total_sha256 : Text
  pub total_bytes : ℕ
  pub preview : Text
  pub preview_bytes : ℕ

pub record OutputPage : Type 0 where
  pub output_id : Text
  pub offset : ℕ
  -- The source's `data`.
  pub contents : Text
  pub page_sha256 : Text
  pub is_final : Bool

pub data PageError : Type 0 where
  out_of_range : (offset total : ℕ) → PageError
  page_digest_mismatch : (output_id : Text) (offset : ℕ) → PageError

-- Where the page that starts at `start` ends.
abbrev pub page_end : Text → ℕ → ℕ → ℕ
page_end raw start max_bytes = min (length raw) (start + min max_bytes page_max_bytes)

abbrev pub page_data : Text → ℕ → ℕ → Text
page_data raw start max_bytes = take (page_end raw start max_bytes - start) (drop start raw)

module _ (sha256_hex from_utf8_lossy : Text → Text) where
  unfoldable pub make_output_ref : Text → Text → ℕ → OutputRef
  make_output_ref output_id raw preview_cap = record {
    output_id = output_id;
    total_sha256 = sha256_hex raw;
    total_bytes = length raw;
    preview = from_utf8_lossy (take (min preview_cap (length raw)) raw);
    preview_bytes = min preview_cap (length raw);
  }

  unfoldable pub next_page : Text → Text → ℕ → ℕ → Result PageError OutputPage
  next_page output_id raw offset max_bytes =
      if leb (length raw) offset
      then err (out_of_range offset (length raw))
      else ok (record {
        output_id = output_id;
        offset = offset;
        contents = page_data raw offset max_bytes;
        page_sha256 = sha256_hex (page_data raw offset max_bytes);
        is_final = page_end raw offset max_bytes == length raw;
      })

  unfoldable pub verify_page : OutputPage → Text → Result PageError (Unit {0})
  verify_page page expected_bytes =
      if not (text_eq (sha256_hex page.contents) page.page_sha256)
        || not (text_eq page.contents expected_bytes)
      then err (page_digest_mismatch page.output_id page.offset)
      else ok tt

  -- A reader that asks for page after page, each from the end of the one before it, up to the final one; none when
  -- the fuel does not reach it.
  unfoldable pub read_pages : ℕ → Text → Text → ℕ → ℕ → Option (Result PageError Text)
  unfolding next_page
  read_pages zero output_id raw offset max_bytes = none
  read_pages (suc fuel) output_id raw offset max_bytes =
      elim (next_page output_id raw offset max_bytes) [
        | err e ↦ some (err e)
        | ok page ↦
            let rest = read_pages fuel output_id raw (offset + length page.contents) max_bytes in
            if page.is_final then some (ok page.contents) else prepend page.contents rest
      ]
    where
      prepend : Text → Option (Result PageError Text) → Option (Result PageError Text)
      prepend page none = none
      prepend page (some (ok later)) = some (ok (page ++ later))
      prepend page (some (err e)) = some (err e)

length-drop : (n : ℕ) (xs : Text) → length (drop n xs) ≡ length xs - n
length-drop zero xs = omega arith
length-drop (suc n) [] = omega arith
length-drop (suc n) (x ∷ xs) = omega (arith, length-drop n xs)

drop-drop : (n m k : ℕ) (xs : Text) → n + m ≡ k → drop m (drop n xs) ≡ drop k xs
drop-drop zero m k xs h = ap (λ i. drop i xs) (omega (arith, h))
drop-drop (suc n) m zero xs h = absurd (omega (arith, h))
drop-drop (suc n) zero (suc k) [] h = refl
drop-drop (suc n) (suc m) (suc k) [] h = refl
drop-drop (suc n) m (suc k) (x ∷ xs) h = drop-drop n m k xs (omega (arith, h))

length-page_data :
    (raw : Text) (start max_bytes : ℕ)
    → start < length raw
    → length (page_data raw start max_bytes) ≡ page_end raw start max_bytes - start
length-page_data raw start max_bytes h = omega (
  arith,
  h,
  length-take (page_end raw start max_bytes - start) (drop start raw),
  length-drop start raw,
)

take-whole : (n : ℕ) (xs : Text) → length xs ≤ n → take n xs ≡ xs
take-whole zero [] h = refl
take-whole zero (x ∷ xs) h = absurd (omega (arith, h))
take-whole (suc n) [] h = refl
take-whole (suc n) (x ∷ xs) h = ap (λ ys. x ∷ ys) (take-whole n xs (omega (arith, h)))

module _ (sha256_hex from_utf8_lossy : Text → Text) (output_id raw : Text) (max_bytes : ℕ)
    (progress : 0 < max_bytes) where
  -- A reader that is given as much fuel as there are bytes left reaches the final page, and has read the output from
  -- its offset to the end.
  pub read_pages-drop :
      (fuel offset : ℕ)
      → offset < length raw
      → length raw ≤ fuel + offset
      → read_pages sha256_hex from_utf8_lossy fuel output_id raw offset max_bytes
        ≡ some (ok (drop offset raw))
  unfolding read_pages next_page
  read_pages-drop zero offset below enough = absurd (omega (arith, below, enough))
  read_pages-drop (suc fuel) offset below enough =
      let size = length-page_data raw offset max_bytes below in
      elim (Bool-cases (page_end raw offset max_bytes == length raw)) [
        | inl final ↦
            let same : page_end raw offset max_bytes ≡ length raw = ground arith in
            let whole =
              take-whole (page_end raw offset max_bytes - offset) (drop offset raw)
                (omega (arith, same, length-drop offset raw)) in
            ground (arith, whole)
        | inr more ↦
            let before : page_end raw offset max_bytes < length raw = ground arith in
            let rest =
              read_pages-drop fuel (offset + length (page_data raw offset max_bytes))
                (omega (arith, size, before, below))
                (omega (arith, size, before, below, enough, progress)) in
            let later =
              drop-drop offset (page_end raw offset max_bytes - offset)
                (offset + length (page_data raw offset max_bytes)) raw (omega (arith, size)) in
            let joined =
              ap (λ r. page_data raw offset max_bytes ++ r) (sym later)
              ∙ take-append-drop (page_end raw offset max_bytes - offset) (drop offset raw) in
            ground (arith, rest, joined)
      ]
