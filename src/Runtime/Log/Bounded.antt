-- ===== src/Runtime/Log/Bounded.antt =====
-- runtime.rs: `log_details` keeps one incident on one bounded line.
use salmon.Base.{
  ℕ, zero, suc, ◌+◌, ◌≤◌, ◌≡◌, refl, false, List, [], ◌∷◌, ◌++◌, map, length, All, take, drop,
  is_empty, if◌then◌else◌, Bool-cases, inl, inr, arith,
}
use salmon.Runtime.Log.{max_log_details_chars, breaks_line, log_details}

-- the character that stands for another on the line
abbrev flat : ℕ → ℕ
flat c = if breaks_line c then 32 else c

flat_stays : (c : ℕ) → breaks_line (flat c) ≡ false
unfolding breaks_line
flat_stays c = elim (Bool-cases (breaks_line c)) [ inl e ↦ rw e refl | inr e ↦ rw (e) e ]

map-flat : (cs : List ℕ) → All (λ c. breaks_line c ≡ false) (map flat cs)
map-flat [] = tt
map-flat (c ∷ cs) = (flat_stays c, map-flat cs)

All-take : (P : ℕ → Type 0) (n : ℕ) (cs : List ℕ) → All P cs → All P (take n cs)
All-take P zero cs h = tt
All-take P (suc n) [] h = tt
All-take P (suc n) (c ∷ cs) h = (h.0, All-take P n cs h.1)

All-append : (P : ℕ → Type 0) (cs : List ℕ) (c : ℕ) → All P cs → P c → All P (cs ++ (c ∷ []))
All-append P [] c h k = (k, tt)
All-append P (d ∷ cs) c h k = (h.0, All-append P cs c h.1 k)

length-take : (n : ℕ) (cs : List ℕ) → length (take n cs) ≤ n
length-take zero cs = ground arith
length-take (suc n) [] = ground arith
length-take (suc n) (c ∷ cs) = ground (arith, length-take n cs)

length-last : (cs : List ℕ) (c : ℕ) → length (cs ++ (c ∷ [])) ≡ length cs + 1
length-last [] c = refl
length-last (d ∷ cs) c = ground (arith, length-last cs c)

-- However long the details of an incident are and whatever is in them, what is logged has at most
-- 1000 characters and an ellipsis, and none of them breaks or controls the line.
pub log_details_line :
    (details : List ℕ)
    → (length (log_details details) ≤ 1001) × All (λ c. breaks_line c ≡ false) (log_details details)
unfolding log_details
log_details_line details =
    let clean = All-take (λ c. breaks_line c ≡ false) 1000 (map flat details) (map-flat details) in
    elim (Bool-cases (is_empty (drop max_log_details_chars (map flat details)))) [
      | inl e ↦ rw (e, log_details) (ground (arith, length-take 1000 (map flat details)), clean)
      | inr e ↦
          rw (e, log_details)
            (
              ground (
                arith,
                length-take 1000 (map flat details),
                length-last (take 1000 (map flat details)) 8230,
              ),
              All-append (λ c. breaks_line c ≡ false) _ 8230 clean (unfold breaks_line in refl),
            )
    ]
