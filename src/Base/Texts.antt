-- ===== src/Base/Texts.antt =====
-- The Boolean equality of texts decides their equality.
use Prim.Native.Nat.{Ordering}
use Prim.Native.String.{String, compare as compare_string}
use text.Mathlib.TextEquality.{path_by_compare}
use text.Mathlib.TextPositions.{compare_refl}
use mathlib.Core.Path.{◌≡◌, refl, subst, sym, ◌∙◌}
use mathlib.Core.Logic.{inl, inr}
use mathlib.Core.Bool.{true, false, false≢true}
use memecoin_bot.Base.Tests.{eq_string, Bool-cases}

-- The test of `eq_string`.
ordering_eq : (o : Ordering) → (elim o [ Ordering.eq ↦ true | _ ↦ false ]) ≡ true → o ≡ Ordering.eq
ordering_eq Ordering.lt h = cc
ordering_eq Ordering.eq h = refl
ordering_eq Ordering.gt h = cc

pub eq_string→eq : (s t : String) → eq_string s t ≡ true → s ≡ t
unfolding eq_string
eq_string→eq s t h = path_by_compare s t (ordering_eq (compare_string s t) h)

pub eq_string_self : (s : String) → eq_string s s ≡ true
unfolding eq_string
eq_string_self s = rw (compare_refl s, eq_string) refl

-- A text that equals `k` does not equal what `k` is told apart from.
pub eq_string_apart :
    (k t s : String) → eq_string k t ≡ false → eq_string k s ≡ true → eq_string t s ≡ false
eq_string_apart k t s e f = elim (Bool-cases (eq_string t s)) [
  | inl g ↦
      let same : k ≡ t = eq_string→eq k s f ∙ sym (eq_string→eq t s g) in
      absurd (false≢true (sym e ∙ subst (λ x. eq_string k x ≡ true) same (eq_string_self k)))
  | inr g ↦ g
]

pub eq_string_sym : (s t : String) → eq_string s t ≡ eq_string t s
eq_string_sym s t = elim (Bool-cases (eq_string s t)) [
  | inl e ↦
      let same : s ≡ t = eq_string→eq s t e in
      e ∙ sym (subst (λ x. eq_string t x ≡ true) (sym same) (eq_string_self t))
  | inr e ↦ elim (Bool-cases (eq_string t s)) [
    | inl f ↦
        let same : t ≡ s = eq_string→eq t s f in
        absurd
          (false≢true (sym e ∙ subst (λ x. eq_string s x ≡ true) (sym same) (eq_string_self s)))
    | inr f ↦ e ∙ sym f
  ]
]
