-- ===== src/Payload/Whitespace.antt =====
-- `_collapse_text` of backend/app/proxy/trim.py, with the two regular expressions that it substitutes.
pub mod Idempotent
use varsten.Prelude.{ℕ, ◌+◌, String, Bool, ◌&&◌, ◌||◌, [], ◌∷◌, leb, ◌==◌, if◌then◌else◌}
use Prim.Native.Char.{Char, code}

abbrev pub is_blank : Char → Bool
is_blank c = (code c == b' ') || (code c == 9)

abbrev pub is_newline : Char → Bool
is_newline c = code c == 10

-- The blanks that stand just before, and are not written yet.
pub data BlankRun : Type 0 where
  no_blank : BlankRun
  one_blank : Char → BlankRun
  more_blanks : BlankRun

abbrev pub longer : BlankRun → Char → BlankRun
longer no_blank c = one_blank c
longer (one_blank d) c = more_blanks
longer more_blanks c = more_blanks

-- A single blank stays as it is; more of them become a space.
abbrev pub flush : BlankRun → String → String
flush no_blank s = s
flush (one_blank d) s = String.◌∷◌ d s
flush more_blanks s = String.◌∷◌ " " s

-- `_WHITESPACE.sub(" ", text)`
unfoldable pub collapse_blanks : BlankRun → String → String
collapse_blanks r String.[] = flush r ""
collapse_blanks r (String.◌∷◌ c s) =
    let rest = collapse_blanks (if is_blank c then longer r c else no_blank) s in
    if is_blank c then rest else flush r (String.◌∷◌ c rest)

-- The newlines that are written in a row, up to two.
abbrev pub newlines_after : ℕ → Char → ℕ
newlines_after n c = if is_newline c then (if leb 2 n then n else n + 1) else 0

-- `_BLANKLINES.sub("\n\n", text)`, after `n` newlines.
unfoldable pub collapse_newlines : ℕ → String → String
collapse_newlines n String.[] = ""
collapse_newlines n (String.◌∷◌ c s) =
    let rest = collapse_newlines (newlines_after n c) s in
    if is_newline c && leb 2 n then rest else String.◌∷◌ c rest

-- `_collapse_text`
unfoldable pub collapse_text : String → String
unfolding collapse_blanks collapse_newlines
collapse_text text = collapse_newlines 0 (collapse_blanks no_blank text)
