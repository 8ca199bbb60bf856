-- ===== src/Base/Text/Chars.antt =====
-- Which characters a text still holds after `strip`, `replace` and `split`.
use mathlib.Core.List.{reverse, reverse-cons}
use patrol_x.Base.Lists.{All}
use patrol_x.Base.Text.{Text, has_char, lstrip, strip, replace_char, split_char, onto_head}
use Prim.Native.Nat.{ℕ}
use mathlib.Core.Path.{◌≡◌, refl}
use mathlib.Core.Logic.{◌≢◌}
use mathlib.Core.Bool.{false}
use mathlib.Core.List.{List, [], ◌∷◌, ◌++◌}
use native.Mathlib.Omega.{arith}

-- The text does not hold the character.
abbrev pub Lacks : ℕ → Text → Type 0
Lacks c s = has_char c s ≡ false

Lacks-append : (c : ℕ) (s t : Text) → Lacks c s → Lacks c t → Lacks c (s ++ t)
Lacks-append c [] t h k = k
Lacks-append c (d ∷ s) t h k = ground (arith, Lacks-append c s t)

Lacks-reverse : (c : ℕ) (s : Text) → Lacks c s → Lacks c (reverse s)
Lacks-reverse c [] h = h
Lacks-reverse c (d ∷ s) h =
    rw reverse-cons
      (Lacks-append c (reverse s) (d ∷ []) (Lacks-reverse c s (ground arith)) (ground arith))

Lacks-lstrip : (c : ℕ) (s : Text) → Lacks c s → Lacks c (lstrip s)
unfolding lstrip
Lacks-lstrip c [] h = h
Lacks-lstrip c (d ∷ s) h = ground (arith, Lacks-lstrip c s)

pub Lacks-strip : (c : ℕ) (s : Text) → Lacks c s → Lacks c (strip s)
unfolding strip
Lacks-strip c s h =
    Lacks-reverse c _ (unfold lstrip in Lacks-lstrip c _ (Lacks-reverse c _ (Lacks-lstrip c s h)))

pub Lacks-replace_char_self : (a b : ℕ) (s : Text) → a ≢ b → Lacks a (replace_char a b s)
unfolding replace_char
Lacks-replace_char_self a b [] h = refl
Lacks-replace_char_self a b (c ∷ s) h = ground (arith, Lacks-replace_char_self a b s h)

pub Lacks-replace_char : (c a b : ℕ) (s : Text) → c ≢ b → Lacks c s → Lacks c (replace_char a b s)
unfolding replace_char
Lacks-replace_char c a b [] h k = k
Lacks-replace_char c a b (d ∷ s) h k = ground (arith, Lacks-replace_char c a b s h)

All-onto_head :
    (c d : ℕ) (ps : List Text) → c ≢ d → All (Lacks c) ps → All (Lacks c) (onto_head d ps)
All-onto_head c d [] h k = (ground arith, tt)
All-onto_head c d (p ∷ ps) h k = (ground arith, k.1)

pub Lacks-split_char_self : (sep : ℕ) (s : Text) → All (Lacks sep) (split_char sep s)
unfolding split_char
Lacks-split_char_self sep [] = (refl, tt)
Lacks-split_char_self sep (c ∷ s) =
    ground (arith, Lacks-split_char_self sep s, All-onto_head sep c (split_char sep s))

pub Lacks-split_char : (c sep : ℕ) (s : Text) → Lacks c s → All (Lacks c) (split_char sep s)
unfolding split_char
Lacks-split_char c sep [] h = (refl, tt)
Lacks-split_char c sep (d ∷ s) h =
    ground (arith, Lacks-split_char c sep s, All-onto_head c d (split_char sep s))
