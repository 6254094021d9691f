-- ===== src/State/Engine/Emission.antt =====
-- The snapshots that become due are emitted, each once and in order: `emit_due_snapshots` of
-- apps/engine/src/state/engine.rs.
use mathlib.Core.Path.{subst}
use mathlib.Core.Bool.{false≢true}
use mathlib.Core.List.{append-nil, append_assoc}
use memecoin_bot.Base.{
  ℕ, ◌≡◌, ◌↔◌, ◌⊎◌, refl, ◌∙◌, sym, ap, String, Bool, true, false, not, ◌&&◌, ◌||◌, none, some,
  List, [], ◌∷◌, ◌++◌, map, arith, All, eq_string→eq, eq_string_self, Bool-cases, inl, inr,
}
use memecoin_bot.Base.Int.{ℤ, pos, ◌-ℤ◌, ◌<ℤ◌, leb_ℤ, eq_ℤ, max_ℤ, negsuc}
use memecoin_bot.Domain.{Chain, solana, base, robinhood, eq_chain}
use memecoin_bot.State.Schedule.{SnapshotSchedule, contains_time}
use memecoin_bot.State.Schedule.Grid.{is_due_at}
use memecoin_bot.State.Schedule.Due.{IsIncreasing, FitsInI64, on_schedule, due_times_lem}
use memecoin_bot.State.Snapshot.{TokenStateSnapshot, SnapshotKind, milestone, periodic}
use memecoin_bot.State.Engine.{TokenKey, TokenState, StateEngine, eq_key, find_token, put_token}
use memecoin_bot.State.Engine.Emit.{
  is_lifecycle, is_milestone, snapshot_of, mark_emitted, push_snapshot, push_snapshot_on, due_kind,
  push_due, emit_due_on, emit_due_snapshots,
}

and_left : (a b : Bool) → (a && b) ≡ true → a ≡ true
and_left true b h = refl
and_left false b h = h

and_right : (a b : Bool) → (a && b) ≡ true → b ≡ true
and_right true b h = h
and_right false b h = cc

eq_chain→eq : (a b : Chain) → eq_chain a b ≡ true → a ≡ b
eq_chain→eq solana solana h = refl
eq_chain→eq solana base h = cc
eq_chain→eq solana robinhood h = cc
eq_chain→eq base solana h = cc
eq_chain→eq base base h = refl
eq_chain→eq base robinhood h = cc
eq_chain→eq robinhood solana h = cc
eq_chain→eq robinhood base h = cc
eq_chain→eq robinhood robinhood h = refl

eq_chain_self : (a : Chain) → eq_chain a a ≡ true
eq_chain_self solana = refl
eq_chain_self base = refl
eq_chain_self robinhood = refl

abbrev key_of : Chain → String → TokenKey
key_of chain token = record { chain = chain; token = token }

pub eq_key→eq : (a b : TokenKey) → eq_key a b ≡ true → a ≡ b
eq_key→eq a b h =
    let chains = eq_chain→eq a.chain b.chain (and_left (eq_chain a.chain b.chain) _ h) in
    let texts = eq_string→eq a.token b.token (and_right (eq_chain a.chain b.chain) _ h) in
    ap (λ (c : Chain). key_of c a.token) chains ∙ ap (λ (t : String). key_of b.chain t) texts

pub eq_key_self : (a : TokenKey) → eq_key a a ≡ true
eq_key_self a = rw (eq_chain_self a.chain, eq_string_self a.token) refl

-- What is found under a key has it.
find_token-key :
    (key : TokenKey) (tokens : List TokenState) (st : TokenState)
    → find_token key tokens ≡ some st
    → st.key ≡ key
find_token-key key [] st h = cc
find_token-key key (x ∷ rest) st h = elim (Bool-cases (eq_key x.key key)) [
  | inl e ↦
      let same : x ≡ st = cc in subst (λ (s : TokenState). s.key ≡ key) same (eq_key→eq x.key key e)
  | inr e ↦ find_token-key key rest st (rw e at h)
]

find_token-put_token :
    (st : TokenState) (tokens : List TokenState) → find_token st.key (put_token st tokens) ≡ some st
find_token-put_token st [] = rw (eq_key_self st.key) refl
find_token-put_token st (x ∷ rest) = elim (Bool-cases (eq_key x.key st.key)) [
  | inl e ↦ rw (e, eq_key_self st.key) refl
  | inr e ↦ rw (e, e) (find_token-put_token st rest)
]

due_kind-lifecycle :
    (s : SnapshotSchedule) (already : List ℤ) (age : ℤ)
    → is_lifecycle (due_kind s already age) ≡ false
unfolding due_kind
due_kind-lifecycle s already age =
    elim (Bool-cases (is_milestone s age && not (contains_time age already))) [
      | inl e ↦ rw e refl
      | inr e ↦ rw e refl
    ]

-- The engine after a snapshot that is due.
abbrev emitted : StateEngine → TokenKey → TokenState → ℤ → SnapshotKind → StateEngine
emitted e key st t kind =
    let snap = snapshot_of e key st t kind none in
    record e {
      tokens = put_token (mark_emitted e.schedule kind t st) e.tokens;
      history = e.history ++ snap ∷ [];
      snapshot_buffer = e.snapshot_buffer ++ snap ∷ [];
    }

push_snapshot-emitted :
    (e : StateEngine) (key : TokenKey) (st : TokenState) (t : ℤ) (kind : SnapshotKind)
    → find_token key e.tokens ≡ some st
    → is_lifecycle kind ≡ false
    → st.last_emitted_snapshot_ms <ℤ t
    → push_snapshot e key t kind none ≡ emitted e key st t kind
unfolding push_snapshot
push_snapshot-emitted e key st t kind f k h =
    let late : leb_ℤ t st.last_emitted_snapshot_ms ≡ false = ground arith in
    rw (f, push_snapshot_on, k, late) refl

mark_emitted_lem :
    (s : SnapshotSchedule) (kind : SnapshotKind) (t : ℤ) (st : TokenState)
    → is_lifecycle kind ≡ false
    → st.last_emitted_snapshot_ms <ℤ t
    → ((mark_emitted s kind t st).key ≡ st.key)
      × ((mark_emitted s kind t st).discovered_at ≡ st.discovered_at)
      × ((mark_emitted s kind t st).last_emitted_snapshot_ms ≡ t)
unfolding mark_emitted
mark_emitted_lem s kind t st k h =
    let later : max_ℤ t st.last_emitted_snapshot_ms ≡ t = ground arith in rw k (refl, refl, later)

-- A milestone exactly where the age is one of the schedule's and has not been emitted; else periodic.
abbrev pub IsKindFor : SnapshotSchedule → List ℤ → ℤ → SnapshotKind → Type 0
IsKindFor s already age kind =
    ((kind ≡ milestone) ↔ (
      (contains_time age (map pos s.milestones_ms) ≡ true) × (contains_time age already ≡ false)))
    × ((kind ≡ milestone) ⊎ (kind ≡ periodic))

due_kind-IsKindFor :
    (s : SnapshotSchedule) (already : List ℤ) (age : ℤ)
    → IsKindFor s already age (due_kind s already age)
unfolding due_kind
due_kind-IsKindFor s already age = elim (Bool-cases (contains_time age (map pos s.milestones_ms))) [
  | inl on ↦ elim (Bool-cases (contains_time age already)) [
    | inl done ↦ rw (on, done) ((λ h. cc, λ h. cc (h.1)), inr refl)
    | inr fresh ↦ rw (on, fresh) ((λ h. (refl, refl), λ h. refl), inl refl)
  ]
  | inr off ↦ rw off ((λ h. cc, λ h. cc (h.0)), inr refl)
]

-- A snapshot of the token at one of the due instants, of the kind that its age asks for.
pub record IsDueSnapshot (s : SnapshotSchedule) (key : TokenKey) (discovered : ℤ) (already : List ℤ)
    (snap : TokenStateSnapshot) : Type 0 where
  pub of_chain : snap.chain ≡ key.chain
  pub of_token : snap.token_address ≡ key.token
  pub of_age : snap.age_ms ≡ snap.snapshot_time -ℤ discovered
  pub of_kind : IsKindFor s already snap.age_ms snap.snapshot_kind

abbrev pub times_of : List TokenStateSnapshot → List ℤ
times_of snaps = map (λ (s : TokenStateSnapshot). s.snapshot_time) snaps

-- What a walk over due instants adds to an engine.
pub record IsEmitted (key : TokenKey) (discovered : ℤ) (already : List ℤ) (ts : List ℤ)
    (e e' : StateEngine) : Type 0 where
  pub snaps : List TokenStateSnapshot
  pub added : e'.history ≡ e.history ++ snaps
  pub at_times : times_of snaps ≡ ts
  pub all_due : All (IsDueSnapshot e.schedule key discovered already) snaps

snapshot_of-IsDueSnapshot :
    (e : StateEngine) (key : TokenKey) (st : TokenState) (t d : ℤ) (already : List ℤ)
    → st.discovered_at ≡ d
    → IsDueSnapshot e.schedule key d already
        (snapshot_of e key st t (due_kind e.schedule already (t -ℤ d)) none)
unfolding snapshot_of
snapshot_of-IsDueSnapshot e key st t d already p = record {
  of_chain = refl;
  of_token = refl;
  of_age = ap (λ (x : ℤ). t -ℤ x) p;
  of_kind =
      subst
        (λ (x : ℤ). IsKindFor e.schedule already (t -ℤ x) (due_kind e.schedule already (t -ℤ d)))
        (sym p) (due_kind-IsKindFor e.schedule already (t -ℤ d));
}

snapshot_of-time :
    (e : StateEngine) (key : TokenKey) (st : TokenState) (t : ℤ) (kind : SnapshotKind)
    → (snapshot_of e key st t kind none).snapshot_time ≡ t
unfolding snapshot_of
snapshot_of-time e key st t kind = refl

push_due_lem :
    (key : TokenKey) (d : ℤ) (already : List ℤ) (ts : List ℤ) (e : StateEngine) (st : TokenState)
    → find_token key e.tokens ≡ some st
    → st.discovered_at ≡ d
    → All (λ t. st.last_emitted_snapshot_ms <ℤ t) ts
    → IsIncreasing ts
    → IsEmitted key d already ts e (push_due key d already e ts)
push_due_lem key d already [] e st f p h i = record {
  snaps = [];
  added = sym (append-nil e.history);
  at_times = refl;
  all_due = tt;
}
push_due_lem key d already (t ∷ ts) e st f p h i =
    let kind = due_kind e.schedule already (t -ℤ d) in
    let plain = due_kind-lifecycle e.schedule already (t -ℤ d) in
    let next = emitted e key st t kind in
    let st' = mark_emitted e.schedule kind t st in
    let marks = mark_emitted_lem e.schedule kind t st plain h.0 in
    let same : st'.key ≡ key = marks.0 ∙ find_token-key key e.tokens st f in
    let found : find_token key next.tokens ≡ some st' =
      subst (λ (k : TokenKey). find_token k (put_token st' e.tokens) ≡ some st') same
        (find_token-put_token st' e.tokens) in
    let ih =
      push_due_lem key d already ts next st' found (marks.1 ∙ p)
        (subst (λ (x : ℤ). All (λ y. x <ℤ y) ts) (sym marks.2) i.0) i.1 in
    let snap = snapshot_of e key st t kind none in
    subst (λ (x : StateEngine). IsEmitted key d already (t ∷ ts) e (push_due key d already x ts))
      (sym (push_snapshot-emitted e key st t kind f plain h.0))
      (record {
        snaps = snap ∷ ih.snaps;
        added = ih.added ∙ append_assoc e.history (snap ∷ []) ih.snaps;
        at_times =
            ap (λ (x : ℤ). x ∷ times_of ih.snaps) (snapshot_of-time e key st t kind)
            ∙ ap (λ (xs : List ℤ). t ∷ xs) ih.at_times;
        all_due = (snapshot_of-IsDueSnapshot e key st t d already p, ih.all_due);
      })

eq_ℤ_self : (t : ℤ) → eq_ℤ t t ≡ true
eq_ℤ_self t = ground arith

or_right : (a b : Bool) → b ≡ true → (a || b) ≡ true
or_right true b h = refl
or_right false b h = h

All-after :
    (from until : ℕ) (due : ℕ → Bool) (ts : List ℤ)
    → ((n : ℕ) → contains_time (pos n) ts ≡ (is_due_at from until n && due n))
    → ((n : ℕ) → contains_time (negsuc n) ts ≡ false)
    → (xs : List ℤ) → ((t : ℤ) → contains_time t xs ≡ true → contains_time t ts ≡ true)
    → All (λ t. pos from <ℤ t) xs
All-after from until due ts has has_not [] sub = tt
All-after from until due ts has has_not (negsuc n ∷ xs) sub =
    absurd (false≢true (sym (has_not n) ∙ sub (negsuc n) (rw (eq_ℤ_self (negsuc n)) refl)))
All-after from until due ts has has_not (pos n ∷ xs) sub =
    let mine : contains_time (pos n) ts ≡ true = sub (pos n) (rw (eq_ℤ_self (pos n)) refl) in
    (
      ground (arith, has n, mine),
      All-after from until due ts has has_not xs
          (λ t h. sub t (or_right (eq_ℤ t (pos n)) (contains_time t xs) h)),
    )

-- For a token that the engine knows, with every band of a period and no instant past the greatest
-- `i64`: one snapshot is added to the history for each due instant, in increasing order and each once.
-- An instant is due exactly where it is after the last emission, not after `until`, and its age is a
-- milestone or on the grid of a band. Each snapshot is of the token; it is a milestone where its age is a
-- milestone of the schedule that has not been emitted, and periodic otherwise.
pub emit_due_snapshots-IsEmitted :
    (e : StateEngine) (key : TokenKey) (st : TokenState) (discovered from until : ℕ)
    → find_token key e.tokens ≡ some st
    → st.discovered_at ≡ pos discovered
    → st.last_emitted_snapshot_ms ≡ pos from
    → FitsInI64 e.schedule discovered from
    → (ts : List ℤ) × IsEmitted key
        (pos discovered)
        st.emitted_milestones
        ts
        e
        (emit_due_snapshots e key (pos until))
      × IsIncreasing ts
      × ((n : ℕ)
          → contains_time (pos n) ts
            ≡ (is_due_at from until n && on_schedule e.schedule discovered n))
      × ((n : ℕ) → contains_time (negsuc n) ts ≡ false)
unfolding emit_due_snapshots
emit_due_snapshots-IsEmitted e key st discovered from until f p q fits =
    let (ts, runs, ordered, has, has_not) = due_times_lem e.schedule discovered from until fits in
    let after =
      All-after from until (λ n. on_schedule e.schedule discovered n) ts has has_not ts
        (λ t h. h) in
    (
      ts,
      rw (f, emit_due_on, p, q, runs)
          (push_due_lem key (pos discovered) st.emitted_milestones ts e st f p
            (subst (λ (x : ℤ). All (λ y. x <ℤ y) ts) (sym q) after) ordered),
      ordered,
      has,
      has_not,
    )
