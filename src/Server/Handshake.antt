-- ===== src/Server/Handshake.antt =====
-- Who is let in as a runner.
use network_skill_lab.Prelude.{
  Bool, Bool-cases, Option, String, ap, arith, false, inl, inr, none, ok, refl, some, subst, true,
  ◌==◌, ◌↔◌, ◌≡◌,
}
use network_skill_lab.Content.Lab.{Bytes}
use network_skill_lab.Server.Hub.{
  unless_revoked, proto_version, bearer_token, verified, admit, authenticate, handshake, Runner,
  Hello,
}

module _ (by_name : String → Option Runner) (verify : Bytes → Bytes → Option Bool) where
  -- The hello speaks this version, and the header has the token of the runner that it names, which
  -- is not revoked.
  pub record IsAdmitted (header : Bytes) (hello : Hello) (r : Runner) : Type 0 where
    pub speaks : hello.proto ≡ proto_version
    pub token : Bytes
    pub bears : bearer_token header ≡ some token
    pub known : by_name hello.name ≡ some r
    pub in_force : r.revoked ≡ false
    pub matches : verify r.token_hash token ≡ some true

  verified_ok :
      (o : Option Bool) (r r' : Runner)
      → verified by_name verify o r ≡ ok r'
      → (o ≡ some true) × (r ≡ r')
  verified_ok (some true) r r' h = (refl, cc)
  verified_ok (some false) r r' h = absurd cc
  verified_ok none r r' h = absurd cc

  admit_ok :
      (o : Option Runner) (token : Bytes) (r : Runner)
      → admit by_name verify o token ≡ ok r
      → (o ≡ some r) × (r.revoked ≡ false) × (verify r.token_hash token ≡ some true)
  admit_ok none token r h = absurd cc
  admit_ok (some s) token r h = in_force s.revoked refl h
    where
      in_force :
          (b : Bool)
          → s.revoked ≡ b
          → unless_revoked by_name verify b s token ≡ ok r
          → (some s ≡ some r) × (r.revoked ≡ false) × (verify r.token_hash token ≡ some true)
      in_force true e k = absurd cc
      in_force false e k =
          let (m, same) = verified_ok (verify s.token_hash token) s r k in
          (
            ap (λ (x : Runner). some x) same,
            subst (λ x. x.revoked ≡ false) same e,
            subst (λ x. verify x.token_hash token ≡ some true) same m,
          )

  -- `ServeHTTP` registers a connection as the runner `r` if and only if the first message is a hello
  -- of this protocol version, the header has a bearer token, and the database has `r` under the name
  -- in the hello, not revoked, with a hash that the token verifies.
  pub handshake_iff :
      (header : Bytes) (first : Option Hello) (r : Runner)
      → (handshake by_name verify header first ≡ ok r)
        ↔ ((hello : Hello) × (first ≡ some hello) × IsAdmitted header hello r)
  unfolding handshake
  handshake_iff header first r = (forth first, back)
    where
      allowed :
          (hello : Hello) (o : Option Bytes)
          → hello.proto ≡ proto_version
          → bearer_token header ≡ o
          → authenticate by_name verify hello.name o ≡ ok r
          → IsAdmitted header hello r
      allowed hello none p b h = absurd cc
      allowed hello (some token) p b h =
          let (known, live, m) = admit_ok (by_name hello.name) token r h in
          record {
            speaks = p;
            token = token;
            bears = b;
            known = known;
            in_force = live;
            matches = m;
          }

      forth :
          (o : Option Hello)
          → handshake by_name verify header o ≡ ok r
          → (hello : Hello) × (o ≡ some hello) × IsAdmitted header hello r
      forth none h = absurd cc
      forth (some hello) h = elim (Bool-cases (hello.proto == proto_version)) [
        | inl e ↦
            (hello, refl, allowed hello (bearer_token header) (ground (arith, e)) refl (rw e at h))
        | inr e ↦ absurd (let h' = rw e at h in cc)
      ]

      back :
          (hello : Hello) × (first ≡ some hello) × IsAdmitted header hello r
          → handshake by_name verify header first ≡ ok r
      back (hello, e, a) =
          let same : (hello.proto == proto_version) ≡ true = ground (arith, a.speaks) in
          rw (e, same, a.bears, a.known, a.in_force, a.matches) refl
