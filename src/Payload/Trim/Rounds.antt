-- ===== src/Payload/Trim/Rounds.antt =====
-- One round of the loop of `trim_messages`, and the whole loop, on messages that it has written.
use varsten.Prelude.{
  String, ◌≡◌, refl, sym, ap, ◌∙◌, ◌⊎◌, inl, inr, Bool, true, false, ◌||◌, List, [], ◌∷◌, ◌++◌,
  arith, str_eq, eq_iff, if◌then◌else◌, Bool-cases, str_eq_self,
}
use mathlib.Core.Path.{subst}
use varsten.Payload.Json.{Value, Fields, get, has_key}
use varsten.Payload.Whitespace.Idempotent.{collapse_text_idem}
use varsten.Payload.Trim.{Key, get_or, put, seen_before, rewritten, appended, text_of, round, emit}

get-put :
    (j k : String) (v : Value) (d : Fields)
    → get j (put k v d) ≡ (if str_eq k j then v else get j d)
unfolding get put
get-put j k v Fields.end = refl
get-put j k v (Fields.field i w d) =
    ground (arith, eq_iff k j, eq_iff i k, eq_iff i j, get-put j k v d)

has_key-put :
    (j k : String) (v : Value) (d : Fields) → has_key j (put k v d) ≡ (str_eq k j || has_key j d)
unfolding has_key put
has_key-put j k v Fields.end = ground arith
has_key-put j k v (Fields.field i w d) =
    ground (arith, eq_iff k j, eq_iff i k, eq_iff i j, has_key-put j k v d)

text_of_idem :
    (collapse : Bool) (s : String) → text_of collapse (text_of collapse s) ≡ text_of collapse s
text_of_idem true s = collapse_text_idem s
text_of_idem false s = refl

-- A message that is rewritten has the new text, and the same role.
module _ (m : Fields) (content text : String) (has : get "content" m ≡ Value.text content) where
  rewritten-content : get "content" (rewritten m content text) ≡ Value.text text
  rewritten-content = elim (Bool-cases (str_eq text content)) [
    | inl e ↦ rw e (has ∙ ap Value.text (sym ((eq_iff text content).0 e)))
    | inr e ↦ rw e (get-put "content" "content" (Value.text text) m)
  ]

  pub rewritten-role : get "role" (rewritten m content text) ≡ get "role" m
  rewritten-role = elim (Bool-cases (str_eq text content)) [
    | inl e ↦ rw e refl
    | inr e ↦ rw e (get-put "role" "content" (Value.text text) m)
  ]

  rewritten-get_or : (d : Value) → get_or "role" d (rewritten m content text) ≡ get_or "role" d m
  unfolding get_or
  rewritten-get_or d = elim (Bool-cases (str_eq text content)) [
    | inl e ↦ rw e refl
    | inr e ↦
        rw
          (
            e,
            has_key-put "role" "content" (Value.text text) m,
            get-put "role" "content" (Value.text text) m,
          )
          refl
  ]

-- The same round on the message that it wrote writes it again.
rewritten_twice :
    (m : Fields) (content text : String)
    → rewritten (rewritten m content text) text text ≡ rewritten m content text
rewritten_twice m content text = rw (str_eq_self text) refl

module _ (dedupe collapse : Bool) (seen : List Key) where
  -- What the round does with the text of a message.
  abbrev pub round_of : Fields → String → List Fields × List Key
  round_of m content =
      let text = text_of collapse content in
      let key : Key = (get_or "role" (Value.text "") m, text) in
      appended dedupe (seen_before key seen) seen key (rewritten m content text)

  pub round-text :
      (m : Fields) (content : String)
      → get "content" m ≡ Value.text content
      → round dedupe collapse seen m ≡ round_of m content
  unfolding round
  round-text m content e = rw (e, round) refl

  round-rewritten :
      (m : Fields) (content : String)
      → get "content" m ≡ Value.text content
      → let text = text_of collapse content in
        let key : Key = (get_or "role" (Value.text "") m, text) in
        let m' = rewritten m content text in
        round dedupe collapse seen m' ≡ appended dedupe (seen_before key seen) seen key m'
  round-rewritten m content e =
      let text = text_of collapse content in
      round-text (rewritten m content text) text (rewritten-content m content text e)
      ∙ rw
          (
            text_of_idem collapse content,
            rewritten-get_or m content text e (Value.text ""),
            str_eq_self text,
          )
          refl

  -- A list that the loop leaves as it is, message by message, with the keys that it has then seen.
  abbrev WritesAgain : List Fields × List Key → Type 0
  WritesAgain ([], next) = next ≡ seen
  WritesAgain (m ∷ [], next) = round dedupe collapse seen m ≡ (m ∷ [], next)
  WritesAgain (m ∷ n ∷ ms, next) = ⊥

appended_again :
    (dedupe collapse known : Bool) (seen : List Key) (key : Key) (m : Fields)
    → round dedupe collapse seen m ≡ appended dedupe known seen key m
    → WritesAgain dedupe collapse seen (appended dedupe known seen key m)
appended_again true collapse true seen key m h = refl
appended_again true collapse false seen key m h = h
appended_again false collapse known seen key m h = h

-- Content that is no text is passed on whatever it is.
pub content_cases :
    (dedupe collapse : Bool) (seen : List Key) (m : Fields) (v : Value)
    → get "content" m ≡ v
    → ((s : String) × (get "content" m ≡ Value.text s))
      ⊎ (round dedupe collapse seen m ≡ (m ∷ [], seen))
unfolding round
content_cases dedupe collapse seen m (Value.text s) e = inl (s, e)
content_cases dedupe collapse seen m Value.null e = inr (rw (e, round) refl)
content_cases dedupe collapse seen m (Value.bool b) e = inr (rw (e, round) refl)
content_cases dedupe collapse seen m (Value.int n) e = inr (rw (e, round) refl)
content_cases dedupe collapse seen m (Value.float x) e = inr (rw (e, round) refl)
content_cases dedupe collapse seen m (Value.array xs) e = inr (rw (e, round) refl)
content_cases dedupe collapse seen m (Value.object fs) e = inr (rw (e, round) refl)

-- What a round writes is written unchanged from the same keys, which then grow as before.
round-WritesAgain :
    (dedupe collapse : Bool) (seen : List Key) (m : Fields)
    → WritesAgain dedupe collapse seen (round dedupe collapse seen m)
round-WritesAgain dedupe collapse seen m =
    elim (content_cases dedupe collapse seen m (get "content" m) refl) [
      | inl (s, e) ↦
          rw (round-text dedupe collapse seen m s e)
            (appended_again dedupe collapse _ seen _ _ (round-rewritten dedupe collapse seen m s e))
      | inr other ↦ rw other other
    ]

-- A list that the loop writes from some keys, and the keys that it has then seen, are the same when
-- the loop goes over it again.
write_again :
    (dedupe collapse : Bool) (seen : List Key) (out : List Fields × List Key)
    (next : List Key → List Fields)
    → WritesAgain dedupe collapse seen out
    → ((keys : List Key) → emit dedupe collapse keys (next keys) ≡ next keys)
    → emit dedupe collapse seen (out.0 ++ next out.1) ≡ out.0 ++ next out.1
unfolding emit
write_again dedupe collapse seen ([], keys) next h again =
    subst (λ (k : List Key). emit dedupe collapse k (next keys) ≡ next keys) h (again keys)
write_again dedupe collapse seen (m ∷ [], keys) next h again = rw h (ap (λ ms. m ∷ ms) (again keys))
write_again dedupe collapse seen (m ∷ n ∷ ms, keys) next h again = absurd h

pub emit_idem :
    (dedupe collapse : Bool) (seen : List Key) (ms : List Fields)
    → emit dedupe collapse seen (emit dedupe collapse seen ms) ≡ emit dedupe collapse seen ms
unfolding emit
emit_idem dedupe collapse seen [] = refl
emit_idem dedupe collapse seen (m ∷ ms) =
    write_again dedupe collapse seen (round dedupe collapse seen m)
      (λ keys. emit dedupe collapse keys ms) (round-WritesAgain dedupe collapse seen m)
      (λ keys. emit_idem dedupe collapse keys ms)
