-- ===== src/Provider/Order.antt =====
-- The order of sortedProviders in internal/agentx/provider/router.go, and the first active provider.
use nukara.Base.{
  String, Bool, true, false, ◌||◌, any, ◌≡◌, refl, sym, ◌∙◌, some, arith, if◌then◌else◌, ℤ, pos,
  negsuc, ltb_int, eqb_int, List, [], ◌∷◌, absurd_bool, All, IsOrdered,
}
use nukara.Store.AgentTypes.{Provider}
use nukara.Provider.Router.{text_less, precedes, first_active}

int_trans : (a b c : ℤ) → ltb_int b a ≡ false → ltb_int c b ≡ false → ltb_int c a ≡ false
int_trans (pos a) (pos b) (pos c) h k = ground arith
int_trans (pos a) (pos b) (negsuc c) h k = ground arith
int_trans (pos a) (negsuc b) c h k = ground arith
int_trans (negsuc a) (pos b) (pos c) h k = refl
int_trans (negsuc a) (pos b) (negsuc c) h k = ground arith
int_trans (negsuc a) (negsuc b) (pos c) h k = refl
int_trans (negsuc a) (negsuc b) (negsuc c) h k = ground arith

int_precedes :
    (a b : ℤ) (rest : Bool)
    → (if eqb_int a b then rest else ltb_int a b) ≡ false
    → ltb_int a b ≡ false
int_precedes (pos a) (pos b) rest h = ground arith
int_precedes (pos a) (negsuc b) rest h = refl
int_precedes (negsuc a) (pos b) rest h = h
int_precedes (negsuc a) (negsuc b) rest h = ground arith

-- No provider of the list comes before the first in priority.
abbrev pub NotBefore : Provider → Provider → Type 0
NotBefore q p = ltb_int q.priority p.priority ≡ false

NotBefore-trans : (x y z : Provider) → NotBefore y x → NotBefore z y → NotBefore z x
NotBefore-trans x y z h k = int_trans x.priority y.priority z.priority h k

precedes-NotBefore : (x y : Provider) → precedes y x ≡ false → NotBefore y x
unfolding precedes
precedes-NotBefore x y h = int_precedes y.priority x.priority (text_less y.id x.id) h

weaken :
    (x y : Provider) (ps : List Provider)
    → NotBefore y x
    → All (λ z. NotBefore z y) ps
    → All (λ z. NotBefore z x) ps
weaken x y [] h k = tt
weaken x y (z ∷ zs) h k = (NotBefore-trans x y z h k.0, weaken x y zs h k.1)

ordered-least :
    (x : Provider) (ps : List Provider) → IsOrdered precedes (x ∷ ps) → All (λ z. NotBefore z x) ps
ordered-least x [] h = tt
ordered-least x (y ∷ ps) h =
    let first = precedes-NotBefore x y h.0 in (first, weaken x y ps first (ordered-least y ps h.1))

tail-IsOrdered :
    (x : Provider) (ps : List Provider) → IsOrdered precedes (x ∷ ps) → IsOrdered precedes ps
tail-IsOrdered x [] h = tt
tail-IsOrdered x (y ∷ ps) h = h.1

-- An active provider that no active provider of the list comes before in priority.
abbrev pub IsFirstActive : List Provider → Provider → Type 0
IsFirstActive ps p = (p.is_active ≡ true) × All (λ q. q.is_active ≡ true → NotBefore q p) ps

after-All :
    (x : Provider) (ps : List Provider)
    → All (λ z. NotBefore z x) ps
    → All (λ q. q.is_active ≡ true → NotBefore q x) ps
after-All x [] h = tt
after-All x (y ∷ ps) h = ((λ _. h.0), after-All x ps h.1)

int_irrefl : (a : ℤ) → ltb_int a a ≡ false
int_irrefl (pos n) = ground arith
int_irrefl (negsuc n) = ground arith

later_active : (x rest : Bool) → (x || rest) ≡ true → x ≡ false → rest ≡ true
later_active x rest h e = ground arith

text_less-asymm : (s t : String) → text_less s t ≡ true → text_less t s ≡ false
unfolding text_less
text_less-asymm String.[] String.[] h = refl
text_less-asymm String.[] (String.◌∷◌ d t) h = refl
text_less-asymm (String.◌∷◌ c s) String.[] h = ground arith
text_less-asymm (String.◌∷◌ c s) (String.◌∷◌ d t) h = ground (arith, text_less-asymm s t)

int_text_asymm :
    (a b : ℤ) (l r : Bool)
    → (l ≡ true → r ≡ false)
    → (if eqb_int a b then l else ltb_int a b) ≡ true
    → (if eqb_int b a then r else ltb_int b a) ≡ false
int_text_asymm (pos a) (pos b) l r k h = ground arith
int_text_asymm (pos a) (negsuc b) l r k h = ground arith
int_text_asymm (negsuc a) (pos b) l r k h = refl
int_text_asymm (negsuc a) (negsuc b) l r k h = ground arith

pub first_active-least :
    (ps : List Provider)
    → IsOrdered precedes ps
    → any (λ p. p.is_active) ps ≡ true
    → (p : Provider) × (first_active ps ≡ some p) × IsFirstActive ps p
unfolding first_active
first_active-least [] o h = ground arith
first_active-least (x ∷ ps) o h =
    go x.is_active refl (first_active-least ps (tail-IsOrdered x ps o))
  where
    go :
        (b : Bool)
        → x.is_active ≡ b
        → (any (λ p. p.is_active) ps ≡ true
            → (p : Provider) × (first_active ps ≡ some p) × IsFirstActive ps p)
        → (p : Provider) × ((if b then some x else first_active ps) ≡ some p)
          × IsFirstActive (x ∷ ps) p
    go true e ih =
        (x, refl, (e, ((λ _. int_irrefl x.priority), after-All x ps (ordered-least x ps o))))
    go false e ih =
        let (p, f, (a, k)) = ih (later_active x.is_active (any (λ q. q.is_active) ps) h e) in
        (p, f, (a, ((λ on. absurd_bool (sym on ∙ e)), k)))

pub precedes-asymm : (x y : Provider) → precedes x y ≡ true → precedes y x ≡ false
unfolding precedes
precedes-asymm x y h =
    int_text_asymm x.priority y.priority (text_less x.id y.id) (text_less y.id x.id)
      (text_less-asymm x.id y.id) h
