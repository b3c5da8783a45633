-- ===== src/Base/TextOrder.antt =====
-- The order of texts by code points, in which Python compares strings.
use Prim.Native.Nat.{ℕ, Ordering, compare as compare_ℕ}
use Prim.Native.Char.{code}
use Prim.Native.String.compare
use Prim.Native.String.{String, [], ◌∷◌, compare, then}
use mathlib.Core.Path.{◌≡◌, refl}
use mathlib.Core.Bool.{Bool, true, false}
use native.Mathlib.Omega.{arith}
use text.Mathlib.TextEquality.{path_by_compare}

abbrev pub not_gt : Ordering → Bool
not_gt Ordering.gt = false
not_gt _ = true

-- `s <= t`
abbrev pub text_leb : String → String → Bool
text_leb s t = not_gt (compare s t)

abbrev flip : Ordering → Ordering
flip Ordering.lt = Ordering.gt
flip Ordering.eq = Ordering.eq
flip Ordering.gt = Ordering.lt

then-flip :
    (m n : ℕ) (o p : Ordering) → p ≡ flip o → then (compare_ℕ n m) p ≡ flip (then (compare_ℕ m n) o)
then-flip m n o p h = ground arith

compare-flip : (s t : String) → compare t s ≡ flip (compare s t)
compare-flip [] [] = refl
compare-flip [] (d ∷ t) = rw (compare.nil-cons, compare.cons-nil) refl
compare-flip (c ∷ s) [] = rw (compare.nil-cons, compare.cons-nil) refl
compare-flip (c ∷ s) (d ∷ t) =
    rw (compare.cons-cons d c t s, compare.cons-cons c d s t)
      (then-flip (code c) (code d) (compare s t) (compare t s) (compare-flip s t))

pub text_leb-total : (s t : String) → text_leb s t ≡ false → text_leb t s ≡ true
text_leb-total s t h = ground (arith, compare-flip s t)

then_trans :
    (l m n : ℕ) (o p q : Ordering)
    → (not_gt o ≡ true → not_gt p ≡ true → not_gt q ≡ true)
    → not_gt (then (compare_ℕ l m) o) ≡ true
    → not_gt (then (compare_ℕ m n) p) ≡ true
    → not_gt (then (compare_ℕ l n) q) ≡ true
then_trans l m n o p q ih h k = ground arith

pub text_leb_trans :
    (s t u : String) → text_leb s t ≡ true → text_leb t u ≡ true → text_leb s u ≡ true
text_leb_trans [] t [] h k = refl
text_leb_trans [] t (e ∷ u) h k = rw (compare.nil-cons e u) refl
text_leb_trans (c ∷ s) [] u h k = cc (compare.cons-nil c s)
text_leb_trans (c ∷ s) (d ∷ t) [] h k = cc (compare.cons-nil d t)
text_leb_trans (c ∷ s) (d ∷ t) (e ∷ u) h k = rw (compare.cons-cons c e s u) (
    then_trans (code c) (code d) (code e) (compare s t) (compare t u) (compare s u)
      (text_leb_trans s t u) (rw (compare.cons-cons c d s t) at h)
      (rw (compare.cons-cons d e t u) at k))

pub text_leb-antisym : (s t : String) → text_leb s t ≡ true → text_leb t s ≡ true → s ≡ t
text_leb-antisym s t h k = path_by_compare s t (ground (arith, compare-flip s t))
