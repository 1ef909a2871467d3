-- ===== src/Chat/Prompts.antt =====
-- Which buffers formatAggregatedPrompt of internal/api/ws_chat_aggregate.go gives a text for.
use Prim.Native.Char.{Char, code}
use Prim.Native.String.append
use nukara.Base.{
  String, Bool, true, false, not, ◌==◌, ◌≡◌, refl, sym, subst, ap, List, [], ◌∷◌, ◌++◌, arith, trim,
  trim_idem, is_blank, is_space, trim_left, trim_right, close_right, ◌<>◌, Bool-cases, inl, inr,
  absurd_bool, eq_iff, pos, length,
}
use nukara.Store.Notifications.{itoa}
use nukara.Chat.Aggregate.{numbered, format_aggregated_prompt}

-- There is a prompt, and a single one is not blank.
abbrev pub says : List String → Bool
says [] = false
says (p ∷ []) = not (is_blank p)
says (p ∷ q ∷ ps) = true

negated_true : (b : Bool) → not b ≡ true → b ≡ false
negated_true true h = sym h
negated_true false h = refl

is_cons : String → Bool
is_cons String.[] = false
is_cons (String.◌∷◌ c t) = true

cons-full : (c : Char) (t : String) → (String.◌∷◌ c t == "") ≡ false
unfolding is_cons
cons-full c t = elim (Bool-cases (String.◌∷◌ c t == "")) [
  | inl e ↦ absurd_bool (ap is_cons ((eq_iff (String.◌∷◌ c t) "").0 e))
  | inr e ↦ e
]

close_right-full :
    (c : Char) (r : String) → is_space (code c) ≡ false → (close_right c r == "") ≡ false
close_right-full c String.[] h = rw h (cons-full c "")
close_right-full c (String.◌∷◌ d t) h = cons-full c (String.◌∷◌ d t)

-- A text that starts with a rune other than space is not blank.
full : (c : Char) (s : String) → is_space (code c) ≡ false → is_blank (String.◌∷◌ c s) ≡ false
unfolding trim trim_left trim_right
full c s h = rw h (close_right-full c (trim_right s) h)

heading-full : (s : String) → is_blank ("[用户连续发送了" <> s) ≡ false
unfolding is_space
heading-full s =
    subst (λ t. is_blank t ≡ false) (sym (append.cons "[" "用户连续发送了" s))
      (full "[" ("用户连续发送了" <> s) refl)

pub format-says :
    (ps : List String) → says ps ≡ true → is_blank (format_aggregated_prompt ps) ≡ false
unfolding format_aggregated_prompt
format-says [] h = ground arith
format-says (p ∷ []) h = rw (trim_idem p) (negated_true (is_blank p) h)
format-says (p ∷ q ∷ ps) h =
    let s = itoa (pos (length (p ∷ q ∷ ps))) <> ("条消息]\n" <> numbered 1 (p ∷ q ∷ ps)) in
    rw (trim_idem ("[用户连续发送了" <> s)) (heading-full s)

pub says-append : (ps : List String) (q : String) → says ps ≡ true → says (ps ++ q ∷ []) ≡ true
says-append [] q h = ground arith
says-append (p ∷ []) q h = refl
says-append (p ∷ r ∷ ps) q h = refl
