-- ===== src/Extraction/Selection/Outputs.antt =====
-- The name that the output of a GZIP member gets (_gzip_output_relative).
use patrol_x.Base.{
  ℕ, zero, suc, ◌-◌, ◌<◌, ◌≡◌, refl, sym, ◌∙◌, arith, true, false, not, List, [], ◌∷◌, ◌++◌, ok,
  >>=-eq-ok, ok_injective, raise_if, raise_if-eq-ok,
}
use mathlib.Core.Path.{ap}
use patrol_x.Base.Lists.{length, take, drop, is_nil}
use patrol_x.Base.Text.{Text, join_char}
use patrol_x.Archive.Errors.{archive_corrupt, unsafe_path}
use patrol_x.Archive.MemberPath.{slash, normalize_member_path}
use patrol_x.Extraction.Patterns.{Names}
use patrol_x.Extraction.Selection.{
  last_of, with_last, is_gzip_name, without_suffix, gzip_output_relative,
}

cut : (n : ℕ) (text : Text) → text ≡ take n text ++ drop n text
cut zero text = refl
cut (suc n) [] = refl
cut (suc n) (c ∷ text) = ap (λ t. c ∷ t) (cut n text)

length-drop : (n : ℕ) (text : Text) → length (drop n text) ≡ length text - n
length-drop zero text = omega arith
length-drop (suc n) [] = omega arith
length-drop (suc n) (c ∷ text) = omega (arith, length-drop n text)

take-filled : (n : ℕ) (text : Text) → is_nil (take n text) ≡ false → 0 < n
take-filled zero text h = absurd (clash h)
  where
    clash : true ≡ false → ⊥
    clash e = cc
take-filled (suc n) text h = omega arith

-- A list that is not empty ends with its last text, which `with_last` replaces.
with_last_lem :
    (final : Text) (parts : List Text)
    → ¬ (parts ≡ [])
    → (dirs : List Text) × (parts ≡ dirs ++ last_of parts ∷ [])
      × (with_last final parts ≡ dirs ++ final ∷ [])
with_last_lem final [] filled = absurd (filled refl)
with_last_lem final (p ∷ []) filled = ([], refl, refl)
with_last_lem final (p ∷ q ∷ ps) filled =
    let (dirs, split, put_) = with_last_lem final (q ∷ ps) more in
    (p ∷ dirs, ap (λ l. p ∷ l) split, ap (λ l. p ∷ l) put_)
  where
    more : q ∷ ps ≡ [] → ⊥
    more e = cc

-- The name of the output: the member's normalized path, its last segment without its last three
-- characters.
abbrev pub IsOutputOf : Text → Text → Type 0
IsOutputOf member output =
    (canonical : Text) × (dirs : List Text) × (name : Text) × (suffix : Text)
    × (normalize_member_path member ≡ ok (dirs ++ (name ++ suffix) ∷ [], canonical))
    × (length suffix ≡ 3)
    × (output ≡ join_char slash (dirs ++ name ∷ []))

pub gzip_output_relative-IsOutputOf :
    (names : Names) (member output : Text)
    → gzip_output_relative names member ≡ ok output
    → IsOutputOf member output
unfolding gzip_output_relative
gzip_output_relative-IsOutputOf names member output h =
    let ((parts, canonical), read, h') = >>=-eq-ok (normalize_member_path member) _ h in
    let (u, zipped, h2) =
      >>=-eq-ok (raise_if (not (is_gzip_name names canonical)) archive_corrupt) _ h' in
    let (u', named, h3) =
      >>=-eq-ok (raise_if (is_nil (without_suffix (last_of parts))) unsafe_path) _ h2 in
    go parts canonical read (raise_if-eq-ok _ unsafe_path named) (ok_injective h3)
  where
    go :
        (parts : List Text) (canonical : Text)
        → normalize_member_path member ≡ ok (parts, canonical)
        → is_nil (without_suffix (last_of parts)) ≡ false
        → join_char slash (with_last (without_suffix (last_of parts)) parts) ≡ output
        → IsOutputOf member output
    go parts canonical read named made =
        let last : Text = last_of parts in
        let long : 0 < length last - 3 = take-filled (length last - 3) last named in
        let (dirs, split, put_) = with_last_lem (without_suffix last) parts (filled parts named) in
        (
          canonical,
          dirs,
          without_suffix last,
          drop (length last - 3) last,
          read
              ∙ ap (λ (l : List Text). ok (l, canonical))
                  (split ∙ ap (λ (t : Text). dirs ++ t ∷ []) (cut (length last - 3) last)),
          omega (arith, length-drop (length last - 3) last),
          sym made ∙ ap (join_char slash) put_,
        )
      where
        filled : (l : List Text) → is_nil (without_suffix (last_of l)) ≡ false → ¬ (l ≡ [])
        filled [] h e = clash h
          where
            clash : true ≡ false → ⊥
            clash k = cc
        filled (p ∷ l) h e = cc
