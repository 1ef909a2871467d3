-- ===== src/Reply/Visible.antt =====
-- The runes of a text that are no space: what trimming and cutting keep.
use Prim.Native.Char.{Char, code}
use Prim.Native.String.append
use nukara.Base.{
  append_assoc, ℕ, zero, suc, String, Bool, true, false, ◌==◌, eq_iff, if◌then◌else◌, is_space,
  trim, trim_left, trim_right, close_right, take_runes, rune_count, ◌<>◌, List, [], ◌∷◌, ◌++◌, ◌≡◌,
  refl, ap, ap₂, ◌∙◌, sym, arith, Bool-cases, inl, inr,
}
use nukara.Reply.Split.{drop_runes, compact_segments}

unfoldable pub visible : String → List ℕ
visible String.[] = []
visible (String.◌∷◌ c s) = let rest = visible s in if is_space (code c) then rest else code c ∷ rest

pub visible-append : (s t : String) → visible (s <> t) ≡ visible s ++ visible t
unfolding visible
visible-append String.[] t = ap visible (append.nil t)
visible-append (String.◌∷◌ c s) t =
    ap visible (append.cons c s t) ∙ go (is_space (code c)) (visible-append s t)
  where
    go :
        (b : Bool)
        → visible (s <> t) ≡ visible s ++ visible t
        → (if b then visible (s <> t) else code c ∷ visible (s <> t))
          ≡ (if b then visible s else code c ∷ visible s) ++ visible t
    go true e = e
    go false e = ap (◌∷◌ (code c)) e

visible-solid :
    (c : Char) (s : String)
    → is_space (code c) ≡ false
    → visible (String.◌∷◌ c s) ≡ code c ∷ visible s
unfolding visible
visible-solid c s e = rw e refl

visible-trim_left : (s : String) → visible (trim_left s) ≡ visible s
unfolding visible trim_left
visible-trim_left String.[] = refl
visible-trim_left (String.◌∷◌ c s) = elim (Bool-cases (is_space (code c))) [
  | inl e ↦ rw e (visible-trim_left s)
  | inr e ↦ rw e (visible-solid c s e)
]

visible-close_right : (c : Char) (r : String) → visible (close_right c r) ≡ visible (String.◌∷◌ c r)
unfolding visible
visible-close_right c String.[] = elim (Bool-cases (is_space (code c))) [
  | inl e ↦ rw e refl
  | inr e ↦ rw e (visible-solid c "" e)
]
visible-close_right c (String.◌∷◌ d s) = refl

visible-trim_right : (s : String) → visible (trim_right s) ≡ visible s
unfolding visible trim_right
visible-trim_right String.[] = refl
visible-trim_right (String.◌∷◌ c s) =
    visible-close_right c (trim_right s)
    ∙ ap (λ r. if is_space (code c) then r else code c ∷ r) (visible-trim_right s)

pub visible-trim : (s : String) → visible (trim s) ≡ visible s
unfolding trim
visible-trim s = visible-trim_right (trim_left s) ∙ visible-trim_left s

pub visible-cut :
    (n : ℕ) (s : String) → visible (take_runes n s) ++ visible (drop_runes n s) ≡ visible s
unfolding visible take_runes drop_runes
visible-cut zero s = refl
visible-cut (suc n) String.[] = refl
visible-cut (suc n) (String.◌∷◌ c s) = elim (Bool-cases (is_space (code c))) [
  | inl e ↦ rw e (visible-cut n s)
  | inr e ↦ rw e (ap (◌∷◌ (code c)) (visible-cut n s))
]

unfoldable pub all_visible : List String → List ℕ
unfolding visible
all_visible [] = []
all_visible (s ∷ segments) = visible s ++ all_visible segments

pub all_visible-append :
    (xs ys : List String) → all_visible (xs ++ ys) ≡ all_visible xs ++ all_visible ys
unfolding all_visible
all_visible-append [] ys = refl
all_visible-append (x ∷ xs) ys =
    ap (◌++◌ (visible x)) (all_visible-append xs ys)
    ∙ sym (append_assoc (visible x) (all_visible xs) (all_visible ys))

-- A text that trims to nothing shows nothing.
pub visible-blank : (s : String) → (trim s == "") ≡ true → visible s ≡ []
unfolding visible
visible-blank s e = sym (visible-trim s) ∙ ap visible ((eq_iff (trim s) "").0 e)

pub all_visible-compact_segments :
    (xs : List String) → all_visible (compact_segments xs) ≡ all_visible xs
unfolding all_visible compact_segments
all_visible-compact_segments [] = refl
all_visible-compact_segments (x ∷ xs) = elim (Bool-cases (trim x == "")) [
  | inl e ↦ rw (compact_segments, e, visible-blank x e) (all_visible-compact_segments xs)
  | inr e ↦ rw (compact_segments, e) (ap₂ (◌++◌) (visible-trim x) (all_visible-compact_segments xs))
]

pub visible-empty : (s : String) → rune_count s ≡ 0 → visible s ≡ []
unfolding visible rune_count
visible-empty String.[] h = refl
visible-empty (String.◌∷◌ c s) h = absurd (omega (arith, h))

-- Moving a rune from the front of one text to the end of another
pub visible-move :
    (buf : String) (c : Char) (text : String)
    → visible (buf <> String.◌∷◌ c "") ++ visible text ≡ visible buf ++ visible (String.◌∷◌ c text)
unfolding visible
visible-move buf c text =
    ap (λ l. l ++ visible text) (visible-append buf (String.◌∷◌ c ""))
    ∙ append_assoc (visible buf) (visible (String.◌∷◌ c "")) (visible text)
    ∙ ap (◌++◌ (visible buf)) (go (is_space (code c)))
  where
    go :
        (b : Bool)
        → (if b then [] else code c ∷ []) ++ visible text
          ≡ (if b then visible text else code c ∷ visible text)
    go true = refl
    go false = refl
