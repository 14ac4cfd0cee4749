-- ===== src/Domain/Snapshot/Severity.antt =====
-- domain/model.rs: the overall state is the worst severity.
use mathlib.Core.List.{Perm, Permᴰ}
use mathlib.Core.Logic.{∥∥₁_elim}
use mathlib.Core.Path.{subst}
use salmon.Base.{
  ℕ, ◌≢◌, ◌≤◌, ◌≡◌, ◌⊎◌, List, [], ◌∷◌, refl, arith, All, inl, inr, ◌∙◌, sym, ◌<◌, ◌↔◌, Instant,
}
use salmon.Domain.Model.{Incident, OverallState, AppState}
use salmon.Domain.Snapshot.{rank, severity, worse, overall_from, overall_state, alerting, snapshot}

worse_comm : (o a b : OverallState) → worse (worse o a) b ≡ worse (worse o b) a
unfolding worse
worse_comm o a b = ground arith

worse_bound : (o a : OverallState) → (rank o ≤ rank (worse o a)) × (rank a ≤ rank (worse o a))
unfolding worse
worse_bound o a = ground arith

overall_from-ge : (o : OverallState) (items : List Incident) → rank o ≤ rank (overall_from o items)
unfolding overall_from
overall_from-ge o [] = omega arith
overall_from-ge o (item ∷ items) =
    omega (arith, worse_bound o (severity item), overall_from-ge (worse o (severity item)) items)

overall_from-bounds :
    (o : OverallState) (items : List Incident)
    → All (λ item. rank (severity item) ≤ rank (overall_from o items)) items
unfolding overall_from
overall_from-bounds o [] = tt
overall_from-bounds o (item ∷ items) = (
  omega (arith, worse_bound o (severity item), overall_from-ge (worse o (severity item)) items),
  overall_from-bounds (worse o (severity item)) items,
)

-- some incident of the list has this severity
abbrev pub Has : OverallState → List Incident → Type 0
Has o [] = ⊥
Has o (item ∷ items) = (severity item ≡ o) ⊎ Has o items

worse_choice : (o a : OverallState) → (worse o a ≡ o) ⊎ (a ≡ worse o a)
unfolding worse
worse_choice o a = ground arith

overall_from-attained :
    (o : OverallState) (items : List Incident)
    → (overall_from o items ≡ o) ⊎ Has (overall_from o items) items
unfolding overall_from
overall_from-attained o [] = inl refl
overall_from-attained o (item ∷ items) =
    elim (overall_from-attained (worse o (severity item)) items) [
      | inl same ↦ elim (worse_choice o (severity item)) [
        | inl old ↦ inl (same ∙ old)
        | inr new ↦ inr (inl (new ∙ sym same))
      ]
      | inr later ↦ inr (inr later)
    ]

overall_from-permᴰ :
    (o : OverallState) {xs ys : List Incident} → Permᴰ xs ys → overall_from o xs ≡ overall_from o ys
unfolding overall_from
overall_from-permᴰ o Permᴰ.nil = refl
overall_from-permᴰ o (Permᴰ.cons {a = x} {l₁ = xs} e p) =
    rw (← e) (overall_from-permᴰ (worse o (severity x)) p)
overall_from-permᴰ o (Permᴰ.swap {a = x} {b = y} {l = l} e f) =
    rw (← e, ← f) (rw (worse_comm o (severity x) (severity y)))
overall_from-permᴰ o (Permᴰ.trans p q) = overall_from-permᴰ o p ∙ overall_from-permᴰ o q

-- The overall state ranks at least as high as each incident's severity, and it is `ok` or the
-- severity of one of them: it is the worst one.
pub overall_state_worst :
    (items : List Incident)
    → All (λ item. rank (severity item) ≤ rank (overall_state items)) items
      × ((overall_state items ≡ OverallState.ok) ⊎ Has (overall_state items) items)
unfolding overall_state
overall_state_worst items =
    (overall_from-bounds OverallState.ok items, overall_from-attained OverallState.ok items)

severity_known : (item : Incident) → severity item ≢ OverallState.unknown
unfolding severity
severity_known item = ground arith

OverallState-set : IsSet OverallState
OverallState-set = hlevel

-- The order in which incidents are listed has no effect on the overall state.
pub overall_state-perm : {xs ys : List Incident} → Perm xs ys → overall_state xs ≡ overall_state ys
unfolding overall_state
overall_state-perm p = ∥∥₁_elim p (OverallState-set _ _) (overall_from-permᴰ OverallState.ok)

Has-known : (items : List Incident) → ¬ Has OverallState.unknown items
Has-known [] h = h
Has-known (item ∷ items) (inl e) = severity_known item e
Has-known (item ∷ items) (inr h) = Has-known items h

overall_state-ne-unknown : (items : List Incident) → overall_state items ≢ OverallState.unknown
overall_state-ne-unknown items e = elim ((overall_state_worst items).1) [
  | inl k ↦ cc
  | inr h ↦ Has-known items (subst (λ o. Has o items) e h)
]

alerting-unknown :
    (o : OverallState) (n : ℕ)
    → o ≢ OverallState.unknown
    → (alerting o n ≡ OverallState.unknown) ↔ ((o ≡ OverallState.ok) × (0 < n))
unfolding alerting
alerting-unknown o n h = (λ k. ground arith, λ k. ground arith)

-- The tray shows `unknown` exactly when every active incident has severity `ok` and some
-- configured server has reported nothing yet.
pub unknown_iff :
    (s : AppState) (now : Instant)
    → ((snapshot s now).alerting_state ≡ OverallState.unknown) ↔ (
        (overall_state (snapshot s now).active ≡ OverallState.ok)
        × (0 < (snapshot s now).unknown_server_count))
unfolding snapshot
unknown_iff s now =
    alerting-unknown (overall_state (snapshot s now).active) (snapshot s now).unknown_server_count
      (overall_state-ne-unknown (snapshot s now).active)
