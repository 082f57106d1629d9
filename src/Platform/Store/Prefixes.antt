-- ===== src/Platform/Store/Prefixes.antt =====
-- IterateMembershipsForUser takes a subject for a prefix: other subjects may begin with it and "/".
use linea_server.Prelude.{
  ◌≡◌, refl, ◌≢◌, subst, ap, sym, ◌∙◌, inl, inr, String, eq_refl, true, some, List, [], ◌∷◌, Elem,
  ◌⧺◌, ⧺_assoc, has_prefix, has_prefix-⧺, Bool, arith,
}
use linea_server.Result.{Result, ok, err, ok-inj, Error, Result-cases}
use linea_server.Platform.Types.{ℤ, Membership}
use linea_server.Platform.Json.{marshal_membership, unmarshal_membership}
use linea_server.Platform.Json.RoundTrip.{unmarshal-marshal_membership}
use linea_server.Platform.Badger.{Badger, Db, Blob, json}
use linea_server.Platform.Keys.{reverse_membership_key, memberships_prefix}
use linea_server.Platform.Store.{
  decode_blob, iterate, scan_prefix, yield_record, put_both, put_membership, stamp_membership,
  iterate_memberships_for_user,
}
use linea_server.Platform.Store.Lookup.{role_in_range}
use linea_server.Platform.Store.Inversion.{put_membership-DidPut}

-- A callback that gathers every record.
abbrev pub gather : Membership → List Membership → List Membership × Bool
gather m l = (m ∷ l, true)

foreign_prefix :
    (sub rest gid : String)
    → has_prefix (memberships_prefix sub) (reverse_membership_key (sub ⧺ "/" ⧺ rest) gid) ≡ true
unfolding memberships_prefix reverse_membership_key has_prefix
foreign_prefix sub rest gid =
    rw (⧺_assoc sub ("/" ⧺ rest) ("/" ⧺ gid), ← ⧺_assoc sub "/" (rest ⧺ "/" ⧺ gid))
      (has_prefix-⧺ (sub ⧺ "/") (rest ⧺ "/" ⧺ gid))

abbrev gathering : Blob → List Membership → Result (List Membership × Bool)
gathering = yield_record unmarshal_membership gather

gather_done : (acc out : List Membership) → iterate gathering [] acc ≡ ok out → acc ≡ out
unfolding iterate
gather_done acc out h = ok-inj h

gather_rest :
    (k : String) (v : Blob) (kvs : List (String × Blob)) (acc out : List Membership)
    (m : Membership)
    → decode_blob unmarshal_membership v ≡ ok m
    → iterate gathering ((k, v) ∷ kvs) acc ≡ ok out
    → iterate gathering kvs (m ∷ acc) ≡ ok out
unfolding iterate yield_record
gather_rest k v kvs acc out m d h = ground arith

gather_fails :
    (k : String) (v : Blob) (kvs : List (String × Blob)) (acc out : List Membership) (e : Error)
    → decode_blob unmarshal_membership v ≡ err e
    → iterate gathering ((k, v) ∷ kvs) acc ≢ ok out
unfolding iterate yield_record
gather_fails k v kvs acc out e d h = ground arith

gathered_before :
    (kvs : List (String × Blob)) (acc out : List Membership) (m : Membership)
    → iterate gathering kvs acc ≡ ok out
    → Elem m acc
    → Elem m out
gathered_before [] acc out m h e = subst (λ l. Elem m l) (gather_done acc out h) e
gathered_before ((k, v) ∷ kvs) acc out m h e =
    elim (Result-cases (decode_blob unmarshal_membership v)) [
      | inr (x, d) ↦ absurd (gather_fails k v kvs acc out x d h)
      | inl (x, d) ↦ gathered_before kvs (x ∷ acc) out m (gather_rest k v kvs acc out x d h) (inr e)
    ]

gathered :
    (kvs : List (String × Blob)) (acc out : List Membership) (k : String) (v : Blob)
    (m : Membership)
    → iterate gathering kvs acc ≡ ok out
    → Elem (k, v) kvs
    → decode_blob unmarshal_membership v ≡ ok m
    → Elem m out
gathered [] acc out k v m h e d = absurd e
gathered ((j, w) ∷ kvs) acc out k v m h e d =
    elim (Result-cases (decode_blob unmarshal_membership w)) [
      | inr (x, p) ↦ absurd (gather_fails j w kvs acc out x p h)
      | inl (x, p) ↦
          let rest = gather_rest j w kvs acc out x p h in
          elim e [
            | inr later ↦ gathered kvs (x ∷ acc) out k v m rest later d
            | inl same ↦
                let ev : v ≡ w = ap (λ (y : String × Blob). y.1) same in
                gathered_before kvs (x ∷ acc) out m rest
                  (inl (ok-inj (sym d ∙ ap (decode_blob unmarshal_membership) ev ∙ p)))
          ]
    ]

module _ ⦃B : Badger⦄ where
  stored_reverse :
      (now : ℤ) (m : Membership) (db : Db) {db' : Db}
      → put_both (stamp_membership now m) db ≡ ok db'
      → B.get db' (reverse_membership_key m.subject m.genealogy_id)
        ≡ ok (some (json (marshal_membership (stamp_membership now m))))
  unfolding put_both stamp_membership
  stored_reverse now m db c =
      rw (B.get_commit _ db (reverse_membership_key m.subject m.genealogy_id) c)
        (rw (eq_refl (reverse_membership_key m.subject m.genealogy_id)) refl)

  -- Once a membership of a subject that begins with another subject and "/" is stored, an
  -- iteration of IterateMembershipsForUser for that other subject that gathers every record, and
  -- does not fail, also gathers that one.
  pub foreign_membership :
      (now : ℤ) (m : Membership) (db : Db) {db' : Db} (sub rest : String) {out : List Membership}
      → m.subject ≡ sub ⧺ "/" ⧺ rest
      → put_membership now m db ≡ ok db'
      → iterate_memberships_for_user sub gather db' [] ≡ ok out
      → Elem (stamp_membership now m) out
  unfolding iterate_memberships_for_user scan_prefix
  foreign_membership now m db {db'} sub rest {out} named h all =
      elim (Result-cases (B.scan db' (memberships_prefix sub))) [
        | inr (e, p) ↦ absurd (cc (rw p at all))
        | inl (kvs, p) ↦
            let did = put_membership-DidPut now m db h in
            let key = reverse_membership_key m.subject m.genealogy_id in
            gathered kvs [] out key (json (marshal_membership (stamp_membership now m)))
              (stamp_membership now m) (rw p at all)
              (B.scan_complete db' (memberships_prefix sub) key _ p
                (rw named (foreign_prefix sub rest m.genealogy_id))
                (stored_reverse now m db did.commit))
              (unmarshal-marshal_membership (stamp_membership now m)
                (unfold stamp_membership in role_in_range m.role did.role))
      ]
