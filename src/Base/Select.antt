-- ===== src/Base/Select.antt =====
-- The iterator chains `filter` and `max_by_key` of the Rust library, over lists.
use mathlib.Core.Path.{◌≡◌, refl, subst, sym, ◌∙◌}
use mathlib.Core.Logic.{◌⊎◌, inl, inr}
use mathlib.Core.Bool.{Bool, true, false, false≢true}
use mathlib.Core.Option.{Option, none, some, some-injective}
use mathlib.Core.List.{List, [], ◌∷◌, Memᴰ}
use native.Mathlib.Omega.{arith}
use memecoin_bot.Base.Tests.{if◌then◌else◌, Bool-cases, Option-cases, leb→le, leb→lt}
use memecoin_bot.Base.Lists.{All}
use memecoin_bot.Base.Int.{ℤ, ◌≤ℤ◌, leb_ℤ}

not-true : (b : Bool) → (b ≡ true → ⊥) → b ≡ false
not-true true h = absurd (h refl)
not-true false h = refl

module _ {ℓ} {A : Type ℓ} where
  pub All-map {κ} : {P Q : A → Type κ} → ((x : A) → P x → Q x) → (xs : List A) → All P xs → All Q xs
  All-map f [] h = tt
  All-map f (x ∷ xs) h = (f x h.0, All-map f xs h.1)

  abbrev pub filter_by : (A → Bool) → List A → List A
  filter_by keep [] = []
  filter_by keep (x ∷ xs) = if keep x then x ∷ filter_by keep xs else filter_by keep xs

  -- On a tie the later element wins.
  abbrev max_from : (A → ℤ) → A → List A → A
  max_from key best [] = best
  max_from key best (x ∷ xs) = max_from key (if leb_ℤ (key best) (key x) then x else best) xs

  unfoldable pub max_by_key : (A → ℤ) → List A → Option A
  max_by_key key [] = none
  max_by_key key (x ∷ xs) = some (max_from key x xs)

  module _ (keep : A → Bool) where
    mem-cons_kept :
        (a x : A) (xs ys : List A)
        → keep x ≡ true
        → (Memᴰ a ys → Memᴰ a xs × (keep a ≡ true))
        → Memᴰ a (x ∷ ys)
        → Memᴰ a (x ∷ xs) × (keep a ≡ true)
    mem-cons_kept a x xs ys e ih (Memᴰ.head p) = (Memᴰ.head p, subst (λ y. keep y ≡ true) (sym p) e)
    mem-cons_kept a x xs ys e ih (Memᴰ.tail q) = let (m, k) = ih q in (Memᴰ.tail m, k)

    mem-filter_by : (a : A) (xs : List A) → Memᴰ a (filter_by keep xs) → Memᴰ a xs × (keep a ≡ true)
    mem-filter_by a [] m = elim m [ ]
    mem-filter_by a (x ∷ xs) m = elim (Bool-cases (keep x)) [
      | inl e ↦ mem-cons_kept a x xs (filter_by keep xs) e (mem-filter_by a xs) (rw e at m)
      | inr e ↦ let (m', k) = mem-filter_by a xs (rw e at m) in (Memᴰ.tail m', k)
    ]

    All-filter_by {κ} :
        (P : A → Type κ) (xs : List A)
        → All P (filter_by keep xs)
        → All (λ x. keep x ≡ true → P x) xs
    All-filter_by P [] h = tt
    All-filter_by P (x ∷ xs) h = elim (Bool-cases (keep x)) [
      | inl e ↦
          let k : P x × All P (filter_by keep xs) = rw e at h in (λ _. k.0, All-filter_by P xs k.1)
      | inr e ↦ (λ e'. absurd (false≢true (sym e ∙ e')), All-filter_by P xs (rw e at h))
    ]

  -- A filter that keeps only what a first one keeps does not see what the first one drops.
  pub filter_by-filter_by :
      (keep seen : A → Bool)
      → ((x : A) → keep x ≡ true → seen x ≡ true)
      → (xs : List A) → filter_by keep (filter_by seen xs) ≡ filter_by keep xs
  filter_by-filter_by keep seen sub [] = refl
  filter_by-filter_by keep seen sub (x ∷ xs) = elim (Bool-cases (seen x)) [
    | inl e ↦ rw (e, filter_by-filter_by keep seen sub xs) refl
    | inr e ↦
        let dropped : keep x ≡ false = not-true (keep x) (λ k. false≢true (sym e ∙ sub x k)) in
        rw (e, filter_by-filter_by keep seen sub xs, dropped) refl
  ]

  abbrev pick : (A → ℤ) → A → A → A
  pick key best x = if leb_ℤ (key best) (key x) then x else best

  pick_greatest :
      (key : A → ℤ) (best x : A)
      → ((pick key best x ≡ x) ⊎ (pick key best x ≡ best))
        × (key best ≤ℤ key (pick key best x))
        × (key x ≤ℤ key (pick key best x))
  pick_greatest key best x = elim (Bool-cases (leb_ℤ (key best) (key x))) [
    | inl e ↦ rw e (inl refl, omega (arith, leb→le _ _ e), omega arith)
    | inr e ↦ rw e (inr refl, omega arith, omega (arith, leb→lt _ _ e))
  ]

  mem-cons_either :
      (r p x best : A) (xs : List A)
      → (p ≡ x) ⊎ (p ≡ best)
      → (r ≡ p) ⊎ Memᴰ r xs
      → (r ≡ best) ⊎ Memᴰ r (x ∷ xs)
  mem-cons_either r p x best xs c (inr q) = inr (Memᴰ.tail q)
  mem-cons_either r p x best xs (inl e) (inl q) = inr (Memᴰ.head (q ∙ e))
  mem-cons_either r p x best xs (inr e) (inl q) = inl (q ∙ e)

  max_from_greatest :
      (key : A → ℤ) (best : A) (xs : List A)
      → let r = max_from key best xs in
        ((r ≡ best) ⊎ Memᴰ r xs) × (key best ≤ℤ key r) × All (λ x. key x ≤ℤ key r) xs
  max_from_greatest key best [] = (inl refl, omega arith, tt)
  max_from_greatest key best (x ∷ xs) =
      let p : A = pick key best x in
      let (one, above, below) = pick_greatest key best x in
      let (m, up, rest) = max_from_greatest key p xs in
      (mem-cons_either (max_from key p xs) p x best xs one m, omega arith, (omega arith, rest))

  pub max_by_key_greatest :
      (key : A → ℤ) (xs : List A) (b : A)
      → max_by_key key xs ≡ some b
      → Memᴰ b xs × All (λ x. key x ≤ℤ key b) xs
  unfolding max_by_key
  max_by_key_greatest key [] b h = cc
  max_by_key_greatest key (x ∷ xs) b h =
      let (m, up, rest) = max_from_greatest key x xs in
      subst (λ b. Memᴰ b (x ∷ xs) × All (λ y. key y ≤ℤ key b) (x ∷ xs)) (some-injective _ _ h)
        (elim m [ inl p ↦ Memᴰ.head p | inr q ↦ Memᴰ.tail q ], (up, rest))

  -- What `filter(keep).max_by_key(key)` finds in a list.
  abbrev pub IsGreatest : (A → Bool) → (A → ℤ) → List A → Option A → Type ℓ
  IsGreatest keep key xs none = All (λ x. keep x ≡ true → ⊥) xs × Unit {ℓ}
  IsGreatest keep key xs (some b) =
      Memᴰ b xs × (keep b ≡ true) × All (λ x. keep x ≡ true → key x ≤ℤ key b) xs

  max_by_key-none :
      (keep : A → Bool) (key : A → ℤ) (xs : List A)
      → max_by_key key (filter_by keep xs) ≡ none
      → All (λ x. keep x ≡ true → ⊥) xs
  unfolding max_by_key
  max_by_key-none keep key [] h = tt
  max_by_key-none keep key (x ∷ xs) h = elim (Bool-cases (keep x)) [
    | inl e ↦ let h' : some (max_from key x (filter_by keep xs)) ≡ none = rw e at h in cc
    | inr e ↦ (λ e'. absurd (false≢true (sym e ∙ e')), max_by_key-none keep key xs (rw e at h))
  ]

  pub max_by_key-IsGreatest :
      (keep : A → Bool) (key : A → ℤ) (xs : List A)
      → IsGreatest keep key xs (max_by_key key (filter_by keep xs))
  max_by_key-IsGreatest keep key xs = elim (Option-cases (max_by_key key (filter_by keep xs))) [
    | inl e ↦ rw e (max_by_key-none keep key xs e, tt)
    | inr (b, e) ↦
        let (m, up) = max_by_key_greatest key (filter_by keep xs) b e in
        let (m', k) = mem-filter_by keep b xs m in
        rw e (m', k, All-filter_by keep (λ x. key x ≤ℤ key b) xs up)
  ]
