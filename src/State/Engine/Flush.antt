-- ===== src/State/Engine/Flush.antt =====
-- The flush of unresolved trades of apps/engine/src/state/engine.rs calls itself through the trades that
-- it applies. It ends, and the depth that the model allows is enough.
use native.Mathlib.Nat.{add-zero}
use memecoin_bot.Base.{
  ℕ, zero, suc, ◌+◌, ◌-◌, ◌≤◌, ◌≡◌, refl, ◌∙◌, sym, ap, String, Bool, true, false, Option, none,
  some, List, [], ◌∷◌, ◌++◌, arith, if◌then◌else◌, length, length-append, Bool-cases, Option-cases,
  inl, inr,
}
use memecoin_bot.Base.Int.{ℤ}
use memecoin_bot.Domain.Events.{TokenDiscovered, TradeObserved}
use memecoin_bot.State.Order.{StateOrder}
use memecoin_bot.State.Clock.{clock_now}
use memecoin_bot.State.Snapshot.{SnapshotKind, lifecycle}
use memecoin_bot.State.Engine.{
  TokenKey, TokenState, StateEngine, find_token, new_key, is_empty_text,
}
use memecoin_bot.State.Engine.Market.{is_some}
use memecoin_bot.State.Engine.Emit.{
  push_snapshot_on, push_snapshot, is_overdue, emit_lifecycle_snapshot,
}
use memecoin_bot.State.Engine.Trade.{is_first_amm, count_trade}
use memecoin_bot.State.Engine.Apply.{
  write_back, note_discovery, new_token, known_state, apply_discovered, trade_on, known_or,
  trade_at, apply_trade, flush_one, flush_each, flush_nested, flush_unresolved_trades,
  resolve_trade, token_of_trade,
}

abbrev pub waiting : StateEngine → ℕ
waiting e = length e.unresolved_trades

abbrev Pending : Type 0
Pending = List (StateOrder × TradeObserved × ℤ)

if_waiting :
    (b : Bool) (n : ℕ) (x y : StateEngine)
    → waiting x ≡ n
    → waiting y ≡ n
    → waiting (if b then x else y) ≡ n
if_waiting true n x y h k = h
if_waiting false n x y h k = k

none_of_length : (us : Pending) → length us ≡ 0 → us ≡ []
none_of_length [] h = refl
none_of_length (x ∷ us) h = absurd (omega arith)

is_some_of : {o : Option TokenKey} {key : TokenKey} → o ≡ some key → is_some o ≡ true
is_some_of r = rw r refl

is_none_of : {o : Option TokenKey} → o ≡ none → is_some o ≡ false
is_none_of r = rw r refl

push_snapshot_on-waiting :
    (e : StateEngine) (key : TokenKey) (at : ℤ) (kind : SnapshotKind) (trigger : Option String)
    (o : Option TokenState)
    → waiting (push_snapshot_on e key at kind trigger o) ≡ waiting e
push_snapshot_on-waiting e key at kind trigger none = refl
push_snapshot_on-waiting e key at kind trigger (some st) =
    if_waiting (is_overdue kind at st) (waiting e) e _ refl refl

module _ (wall : ℤ) where
  emit-waiting :
      (e : StateEngine) (key : TokenKey) (trigger : String)
      → waiting (emit_lifecycle_snapshot wall e key trigger) ≡ waiting e
  unfolding emit_lifecycle_snapshot push_snapshot
  emit-waiting e key trigger =
      push_snapshot_on-waiting e key (clock_now wall e.clock) lifecycle (some trigger)
        (find_token key e.tokens)

  trade_on-waiting :
      (e : StateEngine) (key : TokenKey) (deal : TradeObserved) (order : StateOrder) (t : ℤ)
      (o : Option TokenState)
      → waiting (trade_on wall e key deal order t o) ≡ waiting e
  unfolding trade_on
  trade_on-waiting e key deal order t none = refl
  trade_on-waiting e key deal order t (some st) =
      let first =
        if_waiting (is_some st.first_trade_at) (waiting e) _ _ refl
          (emit-waiting _ key "FIRST_TRADE") in
      if_waiting (is_first_amm (count_trade st deal order t)) (waiting e) _ _
        (emit-waiting _ key "AMM_FIRST_TRADE" ∙ first) first

  -- The state on which a discovery ends with a flush.
  abbrev discovered : StateEngine → TokenDiscovered → StateOrder → ℤ → TokenKey → StateEngine
  discovered e tok order t key =
      let known = find_token key e.tokens in
      let st = known_state (new_token e key tok order t) known in
      let written = write_back e (note_discovery st tok order t) key in
      if is_some known then written else emit_lifecycle_snapshot wall written key "TOKEN_CREATED"

  discovered-waiting :
      (e : StateEngine) (tok : TokenDiscovered) (order : StateOrder) (t : ℤ) (key : TokenKey)
      → waiting (discovered e tok order t key) ≡ waiting e
  unfolding write_back
  discovered-waiting e tok order t key =
      if_waiting (is_some (find_token key e.tokens)) (waiting e) _ _ refl
        (emit-waiting _ key "TOKEN_CREATED")

  module _ (flush : StateEngine → StateEngine)
      (falls : (e : StateEngine) → waiting (flush e) ≤ waiting e) where
    known_or-waiting :
        (e : StateEngine) (key : TokenKey) (tok : TokenDiscovered) (order : StateOrder) (t : ℤ)
        → waiting (known_or wall flush e key tok order t) ≤ waiting e
    unfolding known_or apply_discovered
    known_or-waiting e key tok order t =
        let k = new_key tok.chain tok.token_address in
        elim (Bool-cases (is_some (find_token key e.tokens))) [
          | inl f ↦ rw f (omega arith)
          | inr f ↦ elim (Bool-cases (is_empty_text tok.token_address)) [
            | inl g ↦ rw (f, g) (omega arith)
            | inr g ↦
                rw (f, g)
                  (omega
                    (arith, falls (discovered e tok order t k), discovered-waiting e tok order t k))
          ]
        ]

    apply_trade-waiting :
        (e : StateEngine) (deal : TradeObserved) (order : StateOrder) (t : ℤ) (key : TokenKey)
        → resolve_trade e deal ≡ some key
        → waiting (apply_trade wall flush e deal order t) ≤ waiting e
    unfolding apply_trade trade_at
    apply_trade-waiting e deal order t key r =
        let known = known_or wall flush e key (token_of_trade deal key) order t in
        rw r (
          omega (
            arith,
            trade_on-waiting known key deal order t (find_token key known.tokens),
            known_or-waiting e key (token_of_trade deal key) order t,
          ))

    flush_one-waiting :
        (e : StateEngine) (x : StateOrder × TradeObserved × ℤ)
        → waiting (flush_one wall flush e x) ≤ waiting e + 1
    unfolding flush_one
    flush_one-waiting e (order, deal, t) = elim (Option-cases (resolve_trade e deal)) [
      | inl r ↦
          rw (is_none_of r)
            (omega (arith, length-append {0} e.unresolved_trades ((order, deal, t) ∷ [])))
      | inr (key, r) ↦ rw (is_some_of r) (omega (arith, apply_trade-waiting e deal order t key r))
    ]

    flush_each-waiting :
        (pending : Pending) (e : StateEngine)
        → waiting (flush_each wall flush e pending) ≤ waiting e + length pending
    flush_each-waiting [] e = omega arith
    flush_each-waiting (x ∷ pending) e =
        omega (arith, flush_each-waiting pending (flush_one wall flush e x), flush_one-waiting e x)

  flush_nested-waiting : (n : ℕ) (e : StateEngine) → waiting (flush_nested wall n e) ≤ waiting e
  unfolding flush_nested
  flush_nested-waiting zero e = omega arith
  flush_nested-waiting (suc n) e = omega (
    arith,
    flush_each-waiting (flush_nested wall n) (flush_nested-waiting n) e.unresolved_trades
        (record e { unresolved_trades = [] }),
  )

  -- Two flushes that agree where at most `m` trades wait.
  module _ (f g : StateEngine → StateEngine) (m : ℕ)
      (agree : (e : StateEngine) → waiting e ≤ m → f e ≡ g e)
      (falls : (e : StateEngine) → waiting (f e) ≤ waiting e) where
    known_or-agree :
        (e : StateEngine) (key : TokenKey) (tok : TokenDiscovered) (order : StateOrder) (t : ℤ)
        → waiting e ≤ m
        → known_or wall f e key tok order t ≡ known_or wall g e key tok order t
    unfolding known_or apply_discovered
    known_or-agree e key tok order t h =
        let k = new_key tok.chain tok.token_address in
        ap
          (λ (x : StateEngine).
            if is_some (find_token key e.tokens)
            then e
            else if is_empty_text tok.token_address
            then e
            else x)
          (agree (discovered e tok order t k) (omega (arith, discovered-waiting e tok order t k)))

    apply_trade-agree :
        (e : StateEngine) (deal : TradeObserved) (order : StateOrder) (t : ℤ)
        → waiting e ≤ m
        → apply_trade wall f e deal order t ≡ apply_trade wall g e deal order t
    unfolding apply_trade trade_at
    apply_trade-agree e deal order t h = elim (Option-cases (resolve_trade e deal)) [
      | inl r ↦ rw r refl
      | inr (key, r) ↦ rw r (
          ap (λ (x : StateEngine). trade_on wall x key deal order t (find_token key x.tokens))
            (known_or-agree e key (token_of_trade deal key) order t h))
    ]

    flush_one-agree :
        (e : StateEngine) (x : StateOrder × TradeObserved × ℤ)
        → waiting e ≤ m
        → flush_one wall f e x ≡ flush_one wall g e x
    unfolding flush_one
    flush_one-agree e (order, deal, t) h =
        ap
          (λ (y : StateEngine).
            if is_some (resolve_trade e deal)
            then y
            else record e { unresolved_trades = e.unresolved_trades ++ (order, deal, t) ∷ [] })
          (apply_trade-agree e deal order t h)

    flush_each-agree :
        (pending : Pending) (e : StateEngine)
        → waiting e + length pending ≤ suc m
        → flush_each wall f e pending ≡ flush_each wall g e pending
    flush_each-agree [] e h = refl
    flush_each-agree (x ∷ pending) e h =
        flush_each-agree pending (flush_one wall f e x)
          (omega (arith, flush_one-waiting f falls e x))
        ∙ ap (λ (y : StateEngine). flush_each wall g y pending) (flush_one-agree e x (omega arith))

  flush_none : (e : StateEngine) → waiting e ≡ 0 → flush_nested wall 1 e ≡ e
  unfolding flush_nested
  flush_none e h =
      let p = none_of_length e.unresolved_trades h in
      ap (flush_each wall (flush_nested wall 0) (record e { unresolved_trades = [] })) p
      ∙ ap (λ (us : Pending). record e { unresolved_trades = us }) (sym p)

  flush_nested-suc :
      (n : ℕ) (e : StateEngine)
      → waiting e ≤ n
      → flush_nested wall n e ≡ flush_nested wall (suc n) e
  unfolding flush_nested
  flush_nested-suc zero e h = sym (flush_none e (omega arith))
  flush_nested-suc (suc n) e h =
      flush_each-agree (flush_nested wall n) (flush_nested wall (suc n)) n (flush_nested-suc n)
        (flush_nested-waiting n) e.unresolved_trades (record e { unresolved_trades = [] })
        (omega arith)

  flush_nested-add :
      (k n : ℕ) (e : StateEngine)
      → waiting e ≤ n
      → flush_nested wall n e ≡ flush_nested wall (n + k) e
  flush_nested-add zero n e h = rw (add-zero n) refl
  flush_nested-add (suc k) n e h =
      flush_nested-add k n e h
      ∙ flush_nested-suc (n + k) e (omega arith)
      ∙ ap (λ (d : ℕ). flush_nested wall d e) (omega arith)

  -- Any depth that is at least the number of waiting trades flushes as that number does.
  flush_nested-enough :
      (n : ℕ) (e : StateEngine)
      → waiting e ≤ n
      → flush_nested wall n e ≡ flush_unresolved_trades wall e
  unfolding flush_unresolved_trades
  flush_nested-enough n e h = sym (
      flush_nested-add (n - waiting e) (waiting e) e (omega arith)
      ∙ ap (λ (d : ℕ). flush_nested wall d e) (omega arith))

  flush_nested_step :
      (e : StateEngine)
      → flush_nested wall (suc (waiting e)) e
        ≡ flush_each wall
            (flush_unresolved_trades wall)
            (record e { unresolved_trades = [] })
            e.unresolved_trades
  unfolding flush_nested
  flush_nested_step e =
      flush_each-agree (flush_nested wall (waiting e)) (flush_unresolved_trades wall) (waiting e)
        (flush_nested-enough (waiting e)) (flush_nested-waiting (waiting e)) e.unresolved_trades
        (record e { unresolved_trades = [] }) (omega arith)

  -- The flush satisfies the equation of its recursion in the code: it takes the waiting trades and
  -- applies each that resolves, where the discoveries that they cause flush again, and keeps the rest. So
  -- the recursion ends, and no depth is missing. Never more trades wait after it than before.
  pub flush_unresolved_trades_lem :
      (e : StateEngine)
      → (flush_unresolved_trades wall e
          ≡ flush_each wall
              (flush_unresolved_trades wall)
              (record e { unresolved_trades = [] })
              e.unresolved_trades)
        × (waiting (flush_unresolved_trades wall e) ≤ waiting e)
  flush_unresolved_trades_lem e = (
    sym (flush_nested-enough (suc (waiting e)) e (omega arith)) ∙ flush_nested_step e,
    unfold flush_unresolved_trades in flush_nested-waiting (waiting e) e,
  )
