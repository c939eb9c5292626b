-- ===== src/Security/Browser.antt =====
-- What a browser's session cookie needs beside it.
use innoprog_fastapi_deliver.Prelude.{
  ℕ, ◌≡◌, String, true, false, none, some, text_eq, arith, ok, Option-cases, Result-cases,
  Bool-cases, inl, inr,
}
use innoprog_fastapi_deliver.Access.{Actor}
use innoprog_fastapi_deliver.Security.{
  Claims, Library, TokenSettings, Credentials, decode_token, actor_from_claims, current_actor,
  verify_csrf_token, csrf_signature, signed, is_safe,
}

module _ (py : Library) (settings : TokenSettings) where
  -- What an accepted token of the header says.
  pub record IsProof (c : Credentials) (session_jti : String) : Type 0 where
    pub header : String
    pub nonce : String
    pub sent : c.csrf_header ≡ some header
    pub in_cookie : c.csrf_cookie ≡ some header
    pub bound : py.partition header "." ≡ some (csrf_signature py settings session_jti nonce, nonce)

  parted_signed :
      (session_jti header : String)
      → signed py settings session_jti (py.partition header ".") ≡ true
      → (nonce : String) × (py.partition header "."
          ≡ some (csrf_signature py settings session_jti nonce, nonce))
  parted_signed session_jti header accepted = elim (Option-cases (py.partition header ".")) [
    | inl none_there ↦ absurd (ground (arith, none_there, accepted))
    | inr ((signature, nonce), parts) ↦ (
      nonce,
      ground (
        arith,
        parts,
        accepted,
        text_eq.same_iff signature (csrf_signature py settings session_jti nonce),
      ),
    )
  ]

  verify-IsProof :
      (c : Credentials) (session_jti : String)
      → verify_csrf_token py settings c.csrf_cookie c.csrf_header session_jti ≡ true
      → IsProof c session_jti
  unfolding verify_csrf_token
  verify-IsProof c session_jti accepted = elim (Option-cases c.csrf_header) [
    | inl none_sent ↦ absurd (ground (arith, none_sent, accepted))
    | inr (header, sent) ↦ elim (Option-cases c.csrf_cookie) [
      | inl no_cookie ↦ absurd (ground (arith, no_cookie, accepted))
      | inr (cookie, in_cookie) ↦
          let (nonce, bound) =
            parted_signed session_jti header (ground (arith, sent, in_cookie, accepted)) in
          record {
            header = header;
            nonce = nonce;
            sent = sent;
            in_cookie = ground (arith, sent, in_cookie, accepted, text_eq.same_iff cookie header);
            bound = bound;
          }
    ]
  ]

  -- A request without a bearer token and with a method that can change something is the actor of its
  -- session cookie only with a token in its header that equals the cookie's and whose signature binds
  -- its nonce to that session.
  pub unsafe_cookie-IsProof :
      (now : ℕ) (c : Credentials) (actor : Actor)
      → c.token ≡ none
      → is_safe py settings c.method ≡ false
      → current_actor py settings now c ≡ ok actor
      → (session : String) × (claims : Claims) × (c.session_cookie ≡ some session)
        × (decode_token py settings now session "access" ≡ ok claims)
        × (actor_from_claims py settings claims ≡ ok actor)
        × IsProof c claims.jti
  unfolding current_actor
  unsafe_cookie-IsProof now c actor no_token unsafe accepted =
      elim (Option-cases c.session_cookie) [
        | inl no_cookie ↦ absurd (ground (arith, no_token, no_cookie, accepted))
        | inr (session, stored) ↦
            elim (Result-cases (decode_token py settings now session "access")) [
              | inr (e, refused) ↦ absurd (ground (arith, no_token, stored, refused, accepted))
              | inl (claims, read) ↦
                  elim (Bool-cases
                    (verify_csrf_token py settings c.csrf_cookie c.csrf_header claims.jti)) [
                      | inr unproved ↦
                          absurd
                            (ground (arith, no_token, stored, read, unproved, unsafe, accepted))
                      | inl proved ↦ (
                        session,
                        claims,
                        stored,
                        read,
                        ground (arith, no_token, stored, read, proved, unsafe, accepted),
                        verify-IsProof c claims.jti proved,
                      )
                    ]
            ]
      ]
