-- ===== src/Config/Validate/Namespaces.antt =====
-- Why `validate_server_id` refuses dots and the name `internal`: qualified keys cannot collide.
use salmon.Base.{
  ℕ, true, false, [], ◌∷◌, ◌++◌, ◌≡◌, ◌≢◌, refl, arith, Text, codes, text_eq, text_eq_iff,
  starts_with, all, Bool-cases, inl, inr,
}
use salmon.Domain.Model.{Incident}
use salmon.Domain.Snapshot.{is_internal}
use salmon.Domain.Reducer.{prefixed}
use salmon.Config.Validate.{is_id_byte}
use salmon.Config.Validate.Server.{IsServerId}

dot_is_no_id_byte : (c : ℕ) → c ≡ b'.' → is_id_byte c ≡ false
unfolding is_id_byte
dot_is_no_id_byte c e = rw e

-- a text without dots is read off its qualified form
eq_of_qualified :
    (a b r s : Text)
    → all is_id_byte a ≡ true
    → all is_id_byte b ≡ true
    → a ++ (b'.' ∷ r) ≡ b ++ (b'.' ∷ s)
    → a ≡ b
eq_of_qualified [] [] r s ha hb e = refl
eq_of_qualified [] (d ∷ b) r s ha hb e = ground (arith, dot_is_no_id_byte d)
eq_of_qualified (c ∷ a) [] r s ha hb e = ground (arith, dot_is_no_id_byte c)
eq_of_qualified (c ∷ a) (d ∷ b) r s ha hb e = ground (arith, eq_of_qualified a b r s)

eq_of_namespace :
    (a b r : Text)
    → all is_id_byte a ≡ true
    → all is_id_byte b ≡ true
    → starts_with (a ++ (b'.' ∷ r)) (b ++ (b'.' ∷ [])) ≡ true
    → a ≡ b
unfolding starts_with
eq_of_namespace [] [] r ha hb e = refl
eq_of_namespace [] (d ∷ b) r ha hb e = ground (arith, dot_is_no_id_byte d)
eq_of_namespace (c ∷ a) [] r ha hb e = ground (arith, dot_is_no_id_byte c)
eq_of_namespace (c ∷ a) (d ∷ b) r ha hb e = ground (arith, eq_of_namespace a b r)

-- Incidents of two servers with different accepted ids never have the same qualified key.
pub qualified_keys_distinct :
    (a b : Text) (x y : Incident)
    → IsServerId a
    → IsServerId b
    → text_eq a b ≡ false
    → (prefixed x a).key ≢ (prefixed y b).key
unfolding prefixed
qualified_keys_distinct a b x y va vb other e =
    let same = eq_of_qualified a b x.key y.key va.plain vb.plain e in
    ground (arith, text_eq_iff a b)

-- The key of an incident of a server with an accepted id is never in the namespace of the
-- client's own incidents.
pub qualified_key_external :
    (id : Text) (item : Incident) → IsServerId id → is_internal (prefixed item id).key ≡ false
unfolding is_internal prefixed
qualified_key_external id item v = elim (Bool-cases (is_internal (prefixed item id).key)) [
  | inr external ↦ external
  | inl internal ↦
      let same : id ≡ codes "internal" =
        eq_of_namespace id (codes "internal") item.key v.plain (unfold is_id_byte in refl)
          internal in
      ground (arith, text_eq_iff id (codes "internal"), v.unreserved)
]
