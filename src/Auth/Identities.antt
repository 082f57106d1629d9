-- ===== src/Auth/Identities.antt =====
-- What the identity of a verified token is.
use linea_server.Prelude.{
  ◌≤◌, ◌≡◌, ◌≢◌, refl, ap, sym, ◌∙◌, ◌⊎◌, inl, inr, String, str_eq, eq_iff, Option, none, some,
  List, [], ◌∷◌, Elem, ltb, ◌==◌, ◌⧺◌, trim_space, arith, Bool-cases,
}
use linea_server.Result.{ok-inj, ok, Error, Result-cases}
use linea_server.Auth.{
  Role, role_viewer, role_none, Claims, Token, Identity, IssuerVerifier, Verifier, find_role,
  better, best_role, or_viewer, role_values, resolve_role, claimed_subject, identity_of, accepted,
  refused, verify_with, verify_token,
}

-- The role that a value of the claim stands for.
abbrev pub mapped : Verifier → String → Option Role
mapped v val = find_role (v.to_lower (trim_space val)) v.role_map

-- The largest of `best` and what the values stand for.
record IsBest (v : Verifier) (vals : List String) (best r : Role) : Type 0 where
  above : best ≤ r
  bound : (val : String) (q : Role) → Elem val vals → mapped v val ≡ some q → q ≤ r
  reached : (r ≡ best) ⊎ ((val : String) × Elem val vals × (mapped v val ≡ some r))

better_lem :
    (o : Option Role) (best : Role)
    → (best ≤ better o best)
      × ((q : Role) → o ≡ some q → q ≤ better o best)
      × ((better o best ≡ best) ⊎ (o ≡ some (better o best)))
unfolding better
better_lem none best = (omega arith, λ q e. cc (e), inl refl)
better_lem (some r) best = elim (Bool-cases (ltb best r)) [
  | inl less ↦ rw less (ground arith, λ q e. ground arith, inr refl)
  | inr more ↦ rw more (ground arith, λ q e. ground arith, inl refl)
]

best_role-IsBest :
    (v : Verifier) (vals : List String) (best : Role) → IsBest v vals best (best_role v vals best)
unfolding best_role
best_role-IsBest v [] best = record {
  above = omega arith;
  bound = λ val q m. absurd m;
  reached = inl refl;
}
best_role-IsBest v (x ∷ vals) best =
    let (above, bound, reached) = better_lem (mapped v x) best in
    let ih = best_role-IsBest v vals (better (mapped v x) best) in
    record {
      above = omega (arith, ih.above);
      bound = λ val q m e. elim m [
        | inl same ↦ omega (arith, ih.above, bound q (ap (mapped v) (sym same) ∙ e))
        | inr later ↦ ih.bound val q later e
      ];
      reached = elim ih.reached [
        | inr (val, m, e) ↦ inr (val, inr m, e)
        | inl same ↦ elim reached [
          | inl kept ↦ inl (same ∙ kept)
          | inr new ↦ inr (x, inl refl, new ∙ ap some (sym same))
        ]
      ];
    }

-- For a value of the role claim that stands for a role, the resolved role is at least that role
-- and at least Viewer, and it is Viewer or what some value of the claim stands for.
pub resolve_role_lem :
    (v : Verifier) (claims : Claims) (val : String) (q : Role)
    → Elem val (role_values v claims)
    → mapped v val ≡ some q
    → (q ≤ resolve_role v claims)
      × (role_viewer ≤ resolve_role v claims)
      × ((resolve_role v claims ≡ role_viewer)
          ⊎ ((best : String) × Elem best (role_values v claims)
              × (mapped v best ≡ some (resolve_role v claims))))
unfolding resolve_role or_viewer
resolve_role_lem v claims val q m e =
    let vals = role_values v claims in
    let best = best_role-IsBest v vals role_none in
    elim (Bool-cases (best_role v vals role_none == role_none)) [
      | inl nothing ↦ rw nothing (grind (arith, best.bound val q m e), omega arith, inl refl)
      | inr some_role ↦ rw some_role (
        best.bound val q m e,
        ground arith,
        elim best.reached [ inl zero ↦ absurd (ground arith) | inr found ↦ inr found ],
      )
    ]

-- A token that one of the verifiers accepts, and the identity that its claims give.
pub record Verified (v : Verifier) (ivs : List IssuerVerifier) (raw : String) (id : Identity)
    : Type 0 where
  pub iv : IssuerVerifier
  pub tok : Token
  pub claims : Claims
  pub trusted : Elem iv ivs
  pub verified : iv.verify raw ≡ ok tok
  pub decoded : tok.claims ≡ ok claims
  pub named : claimed_subject claims ≢ ""
  pub subject : id.subject ≡ tok.issuer ⧺ "|" ⧺ claimed_subject claims
  pub issuer : id.issuer ≡ tok.issuer
  pub role : id.role ≡ resolve_role v claims

identity_of_lem :
    (v : Verifier) (issuer : String) (claims : Claims) (id : Identity)
    → identity_of v issuer claims ≡ ok id
    → (claimed_subject claims ≢ "")
      × (id.subject ≡ issuer ⧺ "|" ⧺ claimed_subject claims)
      × (id.issuer ≡ issuer)
      × (id.role ≡ resolve_role v claims)
unfolding identity_of
identity_of_lem v issuer claims id h = elim (Bool-cases (str_eq (claimed_subject claims) "")) [
  | inl unnamed ↦ absurd (cc (rw unnamed at h))
  | inr named ↦
      let e = ok-inj (rw named at h) in
      (
        λ same. ground (arith, eq_iff (claimed_subject claims) ""),
        ap (λ (i : Identity). i.subject) (sym e),
        ap (λ (i : Identity). i.issuer) (sym e),
        ap (λ (i : Identity). i.role) (sym e),
      )
]

accepted-Verified :
    (v : Verifier) (iv : IssuerVerifier) (ivs : List IssuerVerifier) (raw : String) (tok : Token)
    (id : Identity)
    → iv.verify raw ≡ ok tok
    → accepted v tok.issuer tok.claims ≡ ok id
    → Verified v (iv ∷ ivs) raw id
unfolding accepted
accepted-Verified v iv ivs raw tok id p h = elim (Result-cases tok.claims) [
  | inr (e, d) ↦ absurd (cc (rw d at h))
  | inl (claims, d) ↦
      let (named, subject, issuer, role) = identity_of_lem v tok.issuer claims id (rw d at h) in
      record {
        iv = iv;
        tok = tok;
        claims = claims;
        trusted = inl refl;
        verified = p;
        decoded = d;
        named = named;
        subject = subject;
        issuer = issuer;
        role = role;
      }
]

verify_with-Verified :
    (v : Verifier) (last : Option Error) (ivs : List IssuerVerifier) (raw : String) (id : Identity)
    → verify_with v last ivs raw ≡ ok id
    → Verified v ivs raw id
unfolding verify_with refused
verify_with-Verified v none [] raw id h = absurd (cc (h))
verify_with-Verified v (some e) [] raw id h = absurd (cc (h))
verify_with-Verified v last (iv ∷ ivs) raw id h = elim (Result-cases (iv.verify raw)) [
  | inl (tok, p) ↦ accepted-Verified v iv ivs raw tok id p (rw p at h)
  | inr (e, p) ↦
      let ih = verify_with-Verified v (some e) ivs raw id (rw p at h) in
      record {
        iv = ih.iv;
        tok = ih.tok;
        claims = ih.claims;
        trusted = inr ih.trusted;
        verified = ih.verified;
        decoded = ih.decoded;
        named = ih.named;
        subject = ih.subject;
        issuer = ih.issuer;
        role = ih.role;
      }
]

-- An identity that VerifyToken gives is that of a token which a configured issuer's verifier
-- accepts: its subject is the claimed one, which is not empty, behind the token's issuer, and its
-- role that of its claims.
pub verify_token-Verified :
    (v : Verifier) (raw : String) (id : Identity)
    → verify_token v raw ≡ ok id
    → Verified v v.verifiers raw id
unfolding verify_token
verify_token-Verified v raw id h = verify_with-Verified v none v.verifiers raw id h
