-- ===== src/Payload/Whitespace/Idempotent.antt =====
-- Collapsed text has no runs left, so that `_collapse_text` changes nothing a second time.
use varsten.Prelude.{
  ℕ, ◌+◌, String, ◌≡◌, refl, ◌⊎◌, inl, inr, Bool, true, false, not, ◌&&◌, arith, leb, if◌then◌else◌,
}
use Prim.Native.Char.{Char}
use varsten.Payload.Whitespace.{
  is_blank, is_newline, BlankRun, no_blank, one_blank, more_blanks, collapse_blanks,
  collapse_newlines, collapse_text,
}

-- No two blanks stand together, also with the character before.
abbrev pub no_two_blanks : Bool → String → Bool
no_two_blanks before String.[] = true
no_two_blanks before (String.◌∷◌ c s) = not (before && is_blank c) && no_two_blanks (is_blank c) s

-- No three newlines stand together, also with the `n` before.
abbrev pub no_three_newlines : ℕ → String → Bool
no_three_newlines n String.[] = true
no_three_newlines n (String.◌∷◌ c s) =
    not (is_newline c && leb 2 n) && no_three_newlines (if is_newline c then n + 1 else 0) s

collapse_blanks_none :
    (r : BlankRun) (s : String) → no_two_blanks false (collapse_blanks r s) ≡ true
unfolding collapse_blanks
collapse_blanks_none no_blank String.[] = refl
collapse_blanks_none (one_blank d) String.[] = ground arith
collapse_blanks_none more_blanks String.[] = refl
collapse_blanks_none no_blank (String.◌∷◌ c s) =
    ground (arith, collapse_blanks_none no_blank s, collapse_blanks_none (one_blank c) s)
collapse_blanks_none (one_blank d) (String.◌∷◌ c s) =
    ground (arith, collapse_blanks_none no_blank s, collapse_blanks_none more_blanks s)
collapse_blanks_none more_blanks (String.◌∷◌ c s) =
    ground (arith, collapse_blanks_none no_blank s, collapse_blanks_none more_blanks s)

collapse_blanks_id :
    (s : String)
    → ((no_two_blanks false s ≡ false) ⊎ (collapse_blanks no_blank s ≡ s))
      × ((d : Char)
          → (no_two_blanks true s ≡ false) ⊎ (collapse_blanks (one_blank d) s ≡ String.◌∷◌ d s))
unfolding collapse_blanks
collapse_blanks_id String.[] = (inr refl, λ d. inr refl)
collapse_blanks_id (String.◌∷◌ c s) =
    let (apart, after_blank) = collapse_blanks_id s in
    (ground (arith, after_blank c), λ d. ground (arith, apart))

collapse_newlines_none : (n : ℕ) (s : String) → no_three_newlines n (collapse_newlines n s) ≡ true
unfolding collapse_newlines
collapse_newlines_none n String.[] = refl
collapse_newlines_none n (String.◌∷◌ c s) = ground (
  arith,
  collapse_newlines_none n s,
  collapse_newlines_none (n + 1) s,
  collapse_newlines_none 0 s,
)

collapse_newlines_id :
    (n : ℕ) (s : String) → no_three_newlines n s ≡ true → collapse_newlines n s ≡ s
unfolding collapse_newlines
collapse_newlines_id n String.[] h = refl
collapse_newlines_id n (String.◌∷◌ c s) h =
    ground (arith, collapse_newlines_id (n + 1) s, collapse_newlines_id 0 s)

-- Dropping newlines brings no blanks together: a newline is dropped after another.
collapse_newlines_blanks :
    (b : Bool) (n : ℕ) (s : String)
    → (n ≡ 0) ⊎ (b ≡ false)
    → no_two_blanks b s ≡ true
    → no_two_blanks b (collapse_newlines n s) ≡ true
unfolding collapse_newlines
collapse_newlines_blanks b n String.[] k h = refl
collapse_newlines_blanks b n (String.◌∷◌ c s) k h = ground (
  arith,
  collapse_newlines_blanks false n s,
  collapse_newlines_blanks false (n + 1) s,
  collapse_newlines_blanks (is_blank c) 0 s,
)

-- Collapsed text has no two blanks together and no three newlines.
pub collapse_text_none :
    (s : String)
    → (no_two_blanks false (collapse_text s) ≡ true)
      × (no_three_newlines 0 (collapse_text s) ≡ true)
unfolding collapse_text
collapse_text_none s = (
  collapse_newlines_blanks false 0 (collapse_blanks no_blank s) (inl refl)
      (collapse_blanks_none no_blank s),
  collapse_newlines_none 0 (collapse_blanks no_blank s),
)

-- Collapsing a collapsed text changes nothing.
pub collapse_text_idem : (s : String) → collapse_text (collapse_text s) ≡ collapse_text s
unfolding collapse_text
collapse_text_idem s =
    let t = collapse_text s in
    let (blanks, newlines) = collapse_text_none s in
    ground (arith, (collapse_blanks_id t).0, collapse_newlines_id 0 t newlines)
