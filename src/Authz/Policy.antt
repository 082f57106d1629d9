-- ===== src/Authz/Policy.antt =====
-- The access policy of internal/authz/doc.go as a relation, and that Resolve decides it.
use linea_server.Prelude.{
  ◌≡◌, ◌≢◌, ◌↔◌, ◌⊎◌, inl, inr, String, str_eq, eq_iff, eq_of_str_eq, true, false, arith,
  Bool-cases,
}
use linea_server.Result.{ok, err, not_found, Result-cases}
use linea_server.Platform.Types.{
  role_viewer, role_contributor, visibility_public, visibility_unlisted, Genealogy, Membership,
}
use linea_server.Platform.Badger.{Badger, Db}
use linea_server.Platform.Store.{get_genealogy, get_membership}
use linea_server.Authz.{Decision, resolve_uncached}

-- An explicit membership wins; else who is logged in contributes to what is public or unlisted,
-- and anybody views what is public.
pub data Grants ⦃B : Badger⦄ (db : Db) (sub gid : String) (d : Decision) : Type 0 where
  member :
      (g : Genealogy) (m : Membership)
      → get_genealogy gid db ≡ ok g
      → sub ≢ ""
      → get_membership g.id sub db ≡ ok m
      → d ≡ record { genealogy_id = g.id; role = m.role; implicit = false }
      → Grants db sub gid d
  visitor :
      (g : Genealogy)
      → get_genealogy gid db ≡ ok g
      → sub ≢ ""
      → get_membership g.id sub db ≡ err not_found
      → (g.visibility ≡ visibility_public) ⊎ (g.visibility ≡ visibility_unlisted)
      → d ≡ record { genealogy_id = g.id; role = role_contributor; implicit = true }
      → Grants db sub gid d
  anonymous :
      (g : Genealogy)
      → get_genealogy gid db ≡ ok g
      → sub ≡ ""
      → g.visibility ≡ visibility_public
      → d ≡ record { genealogy_id = g.id; role = role_viewer; implicit = true }
      → Grants db sub gid d

module _ ⦃B : Badger⦄ (db : Db) (sub gid : String) (d : Decision) where
  resolved-Grants : resolve_uncached sub gid db ≡ ok d → Grants db sub gid d
  unfolding resolve_uncached
  resolved-Grants h = elim (Result-cases (get_genealogy gid db)) [
    | inr (e, p) ↦ absurd (ground arith)
    | inl (g, p) ↦ elim (Bool-cases (str_eq sub "")) [
      | inl anon ↦ anonymous g p (eq_of_str_eq sub "" anon) (ground arith) (ground arith)
      | inr named ↦ elim (Result-cases (get_membership g.id sub db)) [
        | inl (m, q) ↦ member g m p (ground (arith, eq_iff sub "")) q (ground arith)
        | inr (e, q) ↦
            visitor g p (ground (arith, eq_iff sub "")) (ground arith) (ground arith) (ground arith)
      ]
    ]
  ]

  Grants-resolved : Grants db sub gid d → resolve_uncached sub gid db ≡ ok d
  unfolding resolve_uncached
  Grants-resolved (member g m p named q e) = ground (arith, eq_iff sub "")
  Grants-resolved (visitor g p named q v e) = ground (arith, eq_iff sub "")
  Grants-resolved (anonymous g p anon v e) = ground (arith, eq_iff sub "")

  -- Resolve, behind its cache, succeeds with exactly the decision that the policy grants: an
  -- explicit membership, else Contributor for who is logged in on what is public or unlisted, and
  -- Viewer for anybody on what is public.
  pub resolve_uncached_iff : (resolve_uncached sub gid db ≡ ok d) ↔ Grants db sub gid d
  resolve_uncached_iff = (resolved-Grants, Grants-resolved)
