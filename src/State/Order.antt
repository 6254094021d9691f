-- ===== src/State/Order.antt =====
-- The order of events of apps/engine/src/state/order.rs. The derived order compares the fields one
-- after the other, which is the order of the lists of their numbers.
use Prim.Native.Char.{code}
use mathlib.Core.Logic.{◌⊎◌, inl, inr}
use memecoin_bot.Base.{
  ℕ, ◌+◌, ◌≡◌, refl, String, Bool, true, false, Option, none, some, List, [], ◌∷◌, arith, ltb, ◌==◌,
  if◌then◌else◌, ◌<◌, ◌≤◌, Bool-cases, ltb→lt, ltb→le,
}
use memecoin_bot.Domain.{Chain, chain_index}
use memecoin_bot.Domain.Events.{
  TokenDiscovered, TradeObserved, LifecycleObserved, CanonicalEvent, discovery, trade, lifecycle,
}

pub record StateOrder : Type 0 where
  pub chain : Chain
  pub block_or_slot : ℕ
  pub transaction_index : ℕ
  pub log_or_ix : ℕ
  pub inner : ℕ
  pub event_index : ℕ
  pub event_id : String

abbrev unwrap_or : ℕ → Option ℕ → ℕ
unwrap_or d none = d
unwrap_or d (some n) = n

-- `block_number.or(slot)`.
abbrev or_else : Option ℕ → Option ℕ → Option ℕ
or_else none b = b
or_else (some n) b = some n

-- `inner_instruction_index.map(|v| v as u64 + 1).unwrap_or(0)`.
abbrev inner_of : Option ℕ → ℕ
inner_of none = 0
inner_of (some n) = n + 1

unfoldable pub from_trade : TradeObserved → ℕ → StateOrder
from_trade t event_index = record {
  chain = t.chain;
  block_or_slot = unwrap_or 0 (or_else t.block_number t.slot);
  transaction_index = unwrap_or 0 t.transaction_index;
  log_or_ix = unwrap_or (unwrap_or 0 t.instruction_index) t.log_index;
  inner = inner_of t.inner_instruction_index;
  event_index = event_index;
  event_id = t.event_id;
}

unfoldable pub from_life : LifecycleObserved → ℕ → StateOrder
from_life l event_index = record {
  chain = l.chain;
  block_or_slot = unwrap_or 0 (or_else l.block_number l.slot);
  transaction_index = unwrap_or 0 l.transaction_index;
  log_or_ix = unwrap_or (unwrap_or 0 l.instruction_index) l.log_index;
  inner = inner_of l.inner_instruction_index;
  event_index = event_index;
  event_id = l.event_id;
}

unfoldable pub from_token : TokenDiscovered → ℕ → StateOrder
from_token t event_index = record {
  chain = t.chain;
  block_or_slot = unwrap_or 0 (or_else t.block_number t.slot);
  transaction_index = 0;
  log_or_ix = unwrap_or (unwrap_or 0 t.instruction_index) t.log_index;
  inner = inner_of t.inner_instruction_index;
  event_index = event_index;
  event_id = t.raw_event_id;
}

unfoldable pub from_canonical : CanonicalEvent → ℕ → StateOrder
from_canonical (discovery t) n = from_token t n
from_canonical (trade t) n = from_trade t n
from_canonical (lifecycle l) n = from_life l n

abbrev codes : String → List ℕ
codes String.[] = []
codes (String.◌∷◌ c s) = code c ∷ codes s

abbrev pub fields : StateOrder → List ℕ
fields o =
    chain_index o.chain
    ∷ o.block_or_slot
    ∷ o.transaction_index
    ∷ o.log_or_ix
    ∷ o.inner
    ∷ o.event_index
    ∷ codes o.event_id

abbrev pub ltb_list : List ℕ → List ℕ → Bool
ltb_list xs [] = false
ltb_list [] (y ∷ ys) = true
ltb_list (x ∷ xs) (y ∷ ys) = if ltb x y then true else if x == y then ltb_list xs ys else false

-- `<` of the derived `Ord`.
unfoldable pub ltb_order : StateOrder → StateOrder → Bool
ltb_order a b = ltb_list (fields a) (fields b)

ltb_list_irrefl : (xs : List ℕ) → ltb_list xs xs ≡ false
ltb_list_irrefl [] = refl
ltb_list_irrefl (x ∷ xs) = ground (arith, ltb_list_irrefl xs)

ltb_list-cons :
    (x y : ℕ) (xs ys : List ℕ)
    → ltb_list (x ∷ xs) (y ∷ ys) ≡ true
    → (x < y) ⊎ ((x ≡ y) × (ltb_list xs ys ≡ true))
ltb_list-cons x y xs ys h = elim (Bool-cases (ltb x y)) [
  | inl e ↦ inl (ltb→lt x y e)
  | inr e ↦ inr (ground arith, ground arith)
]

cons-lt : (x y : ℕ) (xs ys : List ℕ) → x < y → ltb_list (x ∷ xs) (y ∷ ys) ≡ true
cons-lt x y xs ys h = ground arith

cons-tail :
    (x y : ℕ) (xs ys : List ℕ) → x ≤ y → ltb_list xs ys ≡ true → ltb_list (x ∷ xs) (y ∷ ys) ≡ true
cons-tail x y xs ys h k = ground arith

-- What lies between two ordered lists is above the first or below the second.
ltb_list_between :
    (xs ys zs : List ℕ) → ltb_list xs zs ≡ true → (ltb_list xs ys ≡ true) ⊎ (ltb_list ys zs ≡ true)
ltb_list_between xs ys [] h = cc
ltb_list_between [] [] (z ∷ zs) h = inr refl
ltb_list_between [] (y ∷ ys) (z ∷ zs) h = inl refl
ltb_list_between (x ∷ xs) [] (z ∷ zs) h = inr refl
ltb_list_between (x ∷ xs) (y ∷ ys) (z ∷ zs) h = elim (Bool-cases (ltb x y)) [
  | inl e ↦ inl (cons-lt x y xs ys (ltb→lt x y e))
  | inr e ↦ elim (Bool-cases (ltb y z)) [
    | inl f ↦ inr (cons-lt y z ys zs (ltb→lt y z f))
    | inr f ↦ elim (ltb_list-cons x z xs zs h) [
      | inl g ↦ absurd (omega (arith, ltb→le x y e, ltb→le y z f))
      | inr g ↦ elim (ltb_list_between xs ys zs g.1) [
        | inl k ↦ inl (cons-tail x y xs ys (omega (arith, g.0, ltb→le x y e, ltb→le y z f)) k)
        | inr k ↦ inr (cons-tail y z ys zs (omega (arith, g.0, ltb→le x y e, ltb→le y z f)) k)
      ]
    ]
  ]
]

pub ltb_order_irrefl : (a : StateOrder) → ltb_order a a ≡ false
unfolding ltb_order
ltb_order_irrefl a = ltb_list_irrefl (fields a)

pub ltb_order_between :
    (a b c : StateOrder) → ltb_order a c ≡ true → (ltb_order a b ≡ true) ⊎ (ltb_order b c ≡ true)
unfolding ltb_order
ltb_order_between a b c h = ltb_list_between (fields a) (fields b) (fields c) h
