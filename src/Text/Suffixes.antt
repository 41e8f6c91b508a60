-- ===== src/Text/Suffixes.antt =====
-- Laws of the functions on fronts and ends of texts.
use mathlib.Core.List.{reverse, reverse-append, reverse-reverse}
use mesh_vpn.Text.{Text, drop_prefix, has_prefix, trim_suffix}
use mesh_vpn.Base.{[], ap, arith, drop, length, refl, sym, true, ◌++◌, ◌∙◌, ◌∷◌, ◌≡◌}

has_prefix-front : (p s : Text) → has_prefix p s ≡ true → s ≡ p ++ drop (length p) s
unfolding has_prefix
has_prefix-front [] s h = refl
has_prefix-front (c ∷ p) [] h = cc
has_prefix-front (c ∷ p) (d ∷ s) h = ground (arith, has_prefix-front p s)

pub has_prefix-append : (p s : Text) → has_prefix p (p ++ s) ≡ true
unfolding has_prefix
has_prefix-append [] s = refl
has_prefix-append (c ∷ p) s = ground (arith, has_prefix-append p s)

pub drop-append : (p s : Text) → drop (length p) (p ++ s) ≡ s
drop-append [] s = refl
drop-append (c ∷ p) s = drop-append p s

-- A text with an ending is what is left without it, and the ending.
pub trim_suffix-append :
    (suffix s : Text)
    → has_prefix (reverse suffix) (reverse s) ≡ true
    → s ≡ trim_suffix suffix s ++ suffix
unfolding trim_suffix drop_prefix
trim_suffix-append suffix s h =
    let front = has_prefix-front (reverse suffix) (reverse s) h in
    sym (reverse-reverse s)
    ∙ ap (λ (t : Text). reverse t) front
    ∙ rw h (simp (reverse-append, reverse-reverse))

pub has_suffix-append :
    (s suffix : Text) → has_prefix (reverse suffix) (reverse (s ++ suffix)) ≡ true
has_suffix-append s suffix = rw reverse-append (has_prefix-append (reverse suffix) (reverse s))

pub trim_suffix_lem : (s suffix : Text) → trim_suffix suffix (s ++ suffix) ≡ s
unfolding trim_suffix drop_prefix
trim_suffix_lem s suffix = rw (has_suffix-append s suffix) (
    ap (λ (t : Text). reverse (drop (length (reverse suffix)) t)) (reverse-append s suffix)
    ∙ ap (λ (t : Text). reverse t) (drop-append (reverse suffix) (reverse s))
    ∙ reverse-reverse s)
