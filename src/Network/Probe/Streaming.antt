-- ===== src/Network/Probe/Streaming.antt =====
-- network/tunnel.rs: the matcher finds the probe in the stream, wherever the pieces are cut.
use salmon.Base.{
  joined_pieces, leb→le, leb→gt, ℕ, ◌+◌, ◌-◌, ◌≤◌, ◌<◌, min, Bool, true, false, ◌||◌, List, [], ◌∷◌,
  ◌++◌, ◌≡◌, ◌⊎◌, refl, sym, ap, ◌∙◌, arith, Text, text_eq, starts_with, leb, if◌then◌else◌, length,
  any, take, drop, Bool-cases, inl, inr, length-append, length-drop, take-append-drop, append_assoc,
  append-nil,
}
use salmon.Network.Probe.{ProbeMatcher, new, windows, push}

-- the probe occurs in the text
unfoldable pub contains : Text → Text → Bool
contains [] probe = starts_with [] probe
contains (c ∷ cs) probe = starts_with (c ∷ cs) probe || contains cs probe

take_window :
    (text probe : Text)
    → length probe ≤ length text
    → text_eq (take (length probe) text) probe ≡ starts_with text probe
unfolding text_eq starts_with
take_window text [] h = refl
take_window [] (p ∷ ps) h = absurd (omega arith)
take_window (c ∷ cs) (p ∷ ps) h = ground (arith, take_window cs ps)

starts_with_short :
    (text probe : Text) → length text < length probe → starts_with text probe ≡ false
unfolding starts_with
starts_with_short text [] h = absurd (omega arith)
starts_with_short [] (p ∷ ps) h = refl
starts_with_short (c ∷ cs) (p ∷ ps) h = ground (arith, starts_with_short cs ps)

starts_with_front :
    (a b probe : Text) → length probe ≤ length a → starts_with (a ++ b) probe ≡ starts_with a probe
unfolding starts_with
starts_with_front a b [] h = refl
starts_with_front [] b (p ∷ ps) h = absurd (omega arith)
starts_with_front (c ∷ cs) b (p ∷ ps) h = ground (arith, starts_with_front cs b ps)

any-windows :
    (text : Text) (p : ℕ) (ps : Text)
    → any (λ window. text_eq window (p ∷ ps)) (windows (length (p ∷ ps)) text)
      ≡ contains text (p ∷ ps)
unfolding windows contains starts_with
any-windows [] p ps = refl
any-windows (c ∷ cs) p ps = elim (Bool-cases (leb (length (p ∷ ps)) (length (c ∷ cs)))) [
  | inl fits ↦ rw fits (ground (arith, take_window (c ∷ cs) (p ∷ ps), any-windows cs p ps))
  | inr short ↦ rw short (ground (arith, starts_with_short (c ∷ cs) (p ∷ ps), any-windows cs p ps))
]

-- what starts in `front` ends before `rest`, if the tail is one byte shorter than the probe
contains-behind :
    (front tail rest probe : Text)
    → length tail + 1 ≡ length probe
    → contains (front ++ tail) probe ≡ false
    → contains (front ++ (tail ++ rest)) probe ≡ contains (tail ++ rest) probe
unfolding contains
contains-behind [] tail rest probe h none = refl
contains-behind (c ∷ front) tail rest probe h none = ground (
  arith,
  contains-behind front tail rest probe h,
  starts_with_front (c ∷ (front ++ tail)) rest probe,
  length-append front tail,
  append_assoc front tail rest,
)

-- what the matcher has seen, and what it keeps of it
record Kept (m : ProbeMatcher) (seen : Text) : Type 0 where
  front : Text
  split : seen ≡ front ++ m.tail
  enough : (front ≡ []) ⊎ (length m.tail + 1 ≡ length m.probe)
  absent : contains seen m.probe ≡ false

contains-Kept :
    (m : ProbeMatcher) (seen bytes : Text)
    → Kept m seen
    → contains (seen ++ bytes) m.probe ≡ contains (m.tail ++ bytes) m.probe
contains-Kept m seen bytes k = elim k.enough [
  | inl e ↦ ap (λ t. contains (t ++ bytes) m.probe) (k.split ∙ ap (λ f. f ++ m.tail) e)
  | inr e ↦
      ap (λ t. contains (t ++ bytes) m.probe) k.split
      ∙ ap (λ t. contains t m.probe) (append_assoc k.front m.tail bytes)
      ∙ contains-behind k.front m.tail bytes m.probe e
          (sym (ap (λ t. contains t m.probe) k.split) ∙ k.absent)
]

-- the bytes that go and those that stay after a round without a match
module _ (m : ProbeMatcher) (seen bytes : Text) (k : Kept m seen) where
  joined : Text
  joined = m.tail ++ bytes

  gone : ℕ
  gone = length joined - min (length m.probe - 1) (length joined)

  kept_enough :
      0 < length m.probe
      → (k.front ++ take gone joined ≡ []) ⊎ (length (drop gone joined) + 1 ≡ length m.probe)
  unfolding gone joined
  kept_enough some_probe = elim (Bool-cases (leb (length m.probe - 1) (length joined))) [
    | inl long ↦
        inr
          (omega (arith, leb→le (length m.probe - 1) (length joined) long, length-drop gone joined))
    | inr short ↦ elim k.enough [
      | inl e ↦
          inl (nothing_gone e (omega (arith, leb→gt (length m.probe - 1) (length joined) short)))
      | inr e ↦ absurd (
          omega
            (arith, leb→gt (length m.probe - 1) (length joined) short, length-append m.tail bytes))
    ]
  ]
    where
      nothing_gone : k.front ≡ [] → gone ≡ 0 → k.front ++ take gone joined ≡ []
      nothing_gone e z = rw (e, z)

  Kept-push :
      contains joined m.probe ≡ false
      → 0 < length m.probe
      → Kept (record m { tail = drop gone joined }) (seen ++ bytes)
  unfolding gone joined
  Kept-push none some_probe = record {
    front = k.front ++ take gone joined;
    split =
        ap (λ t. t ++ bytes) k.split
        ∙ append_assoc k.front m.tail bytes
        ∙ ap (λ t. k.front ++ t) (sym (take-append-drop gone joined))
        ∙ sym (append_assoc k.front (take gone joined) (drop gone joined));
    enough = kept_enough some_probe;
    absent = contains-Kept m seen bytes k ∙ none;
  }

-- the matcher waits for the probe, or has met it
abbrev Tracks : ProbeMatcher → Text → Type 0
Tracks m seen =
    ((m.complete ≡ false) × Kept m seen) ⊎ ((m.complete ≡ true) × (contains seen m.probe ≡ true))

starts_with-more :
    (a b probe : Text) → starts_with a probe ≡ true → starts_with (a ++ b) probe ≡ true
unfolding starts_with
starts_with-more a b [] h = refl
starts_with-more [] b (p ∷ ps) h = cc
starts_with-more (c ∷ cs) b (p ∷ ps) h = ground (arith, starts_with-more cs b ps)

contains-more :
    (a b : Text) (p : ℕ) (ps : Text)
    → contains a (p ∷ ps) ≡ true
    → contains (a ++ b) (p ∷ ps) ≡ true
unfolding contains starts_with
contains-more [] b p ps h = cc
contains-more (c ∷ cs) b p ps h =
    ground (arith, contains-more cs b p ps, starts_with-more (c ∷ cs) b (p ∷ ps))

-- one round, in the three cases that it has
abbrev waiting : ℕ → Text → Text → ProbeMatcher
waiting p ps tail = record { probe = p ∷ ps; tail = tail; complete = false }

module _ (p : ℕ) (ps : Text) (tail bytes seen : Text) where
  push-hit :
      contains (tail ++ bytes) (p ∷ ps) ≡ true
      → push (waiting p ps tail) bytes
        ≡ (record { probe = p ∷ ps; tail = []; complete = true }, true)
  unfolding push
  push-hit h = rw (any-windows (tail ++ bytes) p ps) (rw h)

  push-miss :
      (k : Kept (waiting p ps tail) seen)
      → contains (tail ++ bytes) (p ∷ ps) ≡ false
      → push (waiting p ps tail) bytes ≡ (
        record (waiting p ps tail) {
          tail = drop (gone (waiting p ps tail) seen bytes k) (tail ++ bytes);
        },
        false,
      )
  unfolding push gone joined
  push-miss k h = rw (any-windows (tail ++ bytes) p ps) (rw h)

-- all pieces in turn, and which of them the matcher answered by `true`
unfoldable pub push_all : ProbeMatcher → List Text → ProbeMatcher × List Bool
push_all m [] = (m, [])
push_all m (bytes ∷ pieces) =
    let (m', hit) = push m bytes in let (m'', hits) = push_all m' pieces in (m'', hit ∷ hits)

abbrev pub count_true : List Bool → ℕ
count_true [] = 0
count_true (b ∷ bs) = if b then count_true bs + 1 else count_true bs

abbrev pub indicator : Bool → ℕ
indicator true = 1
indicator false = 0

push_all-complete :
    (m : ProbeMatcher) (pieces : List Text)
    → m.complete ≡ true
    → ((push_all m pieces).0.complete ≡ true) × (count_true (push_all m pieces).1 ≡ 0)
unfolding push_all push
push_all-complete m [] h = (h, refl)
push_all-complete m (bytes ∷ pieces) h = ground (arith, push_all-complete m pieces h)

contains-all :
    (seen : Text) (pieces : List Text) (p : ℕ) (ps : Text)
    → contains seen (p ∷ ps) ≡ true
    → contains (seen ++ joined_pieces pieces) (p ∷ ps) ≡ true
contains-all seen pieces p ps h = contains-more seen (joined_pieces pieces) p ps h

Answers : ProbeMatcher → Text → List Text → Type 0
Answers m seen pieces =
    ((push_all m pieces).0.complete ≡ contains (seen ++ joined_pieces pieces) m.probe)
    × (count_true (push_all m pieces).1
        ≡ indicator (contains (seen ++ joined_pieces pieces) m.probe))

push_all-waiting :
    (p : ℕ) (ps tail seen : Text) (pieces : List Text)
    → Kept (waiting p ps tail) seen
    → Answers (waiting p ps tail) seen pieces
unfolding Answers push_all
push_all-waiting p ps tail seen [] k = rw (append-nil, k.absent) (refl, refl)
push_all-waiting p ps tail seen (bytes ∷ pieces) k =
    elim (Bool-cases (contains (tail ++ bytes) (p ∷ ps))) [
      | inl hit ↦
          let found = contains-Kept (waiting p ps tail) seen bytes k ∙ hit in
          let all = contains-all (seen ++ bytes) pieces p ps found in
          let done =
            push_all-complete (record { probe = p ∷ ps; tail = []; complete = true }) pieces refl in
          rw (push-hit p ps tail bytes seen hit)
            (rw (← append_assoc) (rw all (done.0, ap (λ n. n + 1) done.1)))
      | inr miss ↦
          let m : ProbeMatcher = waiting p ps tail in
          rw (push-miss p ps tail bytes seen k miss) (
            rw (← append_assoc) (
              push_all-waiting p ps (drop (gone m seen bytes k) (tail ++ bytes)) (seen ++ bytes)
                pieces (unfold joined in Kept-push m seen bytes k miss (omega arith))))
    ]

-- Streaming search is exact: after any pieces of output, a matcher for a text that is not empty
-- is complete exactly when the text occurs in the joined pieces, also where it is split between
-- them, and it has answered `true` exactly once then, and never before.
pub probe_found_once :
    (p : ℕ) (ps : Text) (pieces : List Text)
    → ((push_all (new (p ∷ ps)) pieces).0.complete ≡ contains (joined_pieces pieces) (p ∷ ps))
      × (count_true (push_all (new (p ∷ ps)) pieces).1
          ≡ indicator (contains (joined_pieces pieces) (p ∷ ps)))
unfolding Answers new
probe_found_once p ps pieces = push_all-waiting p ps [] [] pieces (record {
  front = [];
  split = refl;
  enough = inl refl;
  absent = unfold contains starts_with in refl;
})
