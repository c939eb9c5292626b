-- ===== src/AuthApi/Outcomes.antt =====
-- What a login leaves, accepted or refused.
use innoprog_fastapi_deliver.Prelude.{
  ℕ, ◌≡◌, refl, String, true, false, none, some, number_eq, text_eq, List, arith, ok, is_none,
  Option-cases, Result-cases, inl, inr,
}
use innoprog_fastapi_deliver.Dict
use innoprog_fastapi_deliver.Identity
use innoprog_fastapi_deliver.Identity.{Identities}
use innoprog_fastapi_deliver.RateLimiter.{check_many}
use innoprog_fastapi_deliver.RefreshSessions.Views.{register_lem}
use innoprog_fastapi_deliver.Security.{Library, TokenSettings, parse_subject}
use innoprog_fastapi_deliver.AuthApi.{
  Passwords, AuthState, LoginRequest, Draw, IssuedTokenPair, authenticate, issue_token,
  login_subject, login_limit_keys, login_limit, login_window, issue_token_pair, new_session,
  migrate, password_check, too_long,
}

module _ (py : Library) (pw : Passwords) (settings : TokenSettings) where
  -- Checking a password changes the budgets and the audit trail only.
  authenticate_keeps :
      (action : String) (r : LoginRequest) (keys : List String) (subject : String) (d : Draw)
      (s : AuthState)
      → let t = (authenticate py pw settings action r keys subject d s).1 in
        (t.identities ≡ s.identities) × (t.sessions ≡ s.sessions)
  unfolding authenticate
  authenticate_keeps action r keys subject d s =
      elim (Result-cases (check_many login_limit login_window keys d.now s.requests).0) [
        | inr (e, refused) ↦ rw refused (refl, refl)
        | inl (limit, checked) ↦ ground (arith, checked)
      ]

  -- It succeeds only with the stored hash of the subject.
  authenticate_proves :
      (action : String) (r : LoginRequest) (keys : List String) (subject : String) (d : Draw)
      (s : AuthState)
      → (authenticate py pw settings action r keys subject d s).0 ≡ ok tt
      → let stored = Identity.password_hash subject s.identities in
        (is_none stored ≡ false)
        × ((password_check py pw settings r stored).verified ≡ true)
        × (too_long py pw settings r ≡ false)
  unfolding authenticate
  authenticate_proves action r keys subject d s accepted =
      elim (Result-cases (check_many login_limit login_window keys d.now s.requests).0) [
        | inr (e, refused) ↦ absurd (ground (arith, refused, accepted))
        | inl (limit, checked) ↦ ground (arith, checked, accepted)
      ]

  -- What follows from an accepted login: the password was right, the tokens were issued for the
  -- subject's tenant, and one session was added.
  pub record IsLogin (r : LoginRequest) (d : Draw) (pair : IssuedTokenPair) (s t : AuthState)
      : Type 0 where
    pub subject_known :
        is_none (Identity.password_hash (login_subject py pw settings r) s.identities) ≡ false
    pub password_right :
        (password_check py pw settings r
          (Identity.password_hash (login_subject py pw settings r) s.identities)).verified
        ≡ true
    pub tenant_id : ℕ
    pub issued :
        issue_token_pair py pw settings d (login_subject py pw settings r) d.family_id tenant_id
        ≡ ok pair
    pub new : Dict.get pair.refresh_jti s.sessions ≡ none
    pub stored :
        t.sessions
        ≡ Dict.put pair.refresh_jti
            (new_session py pw settings pair (login_subject py pw settings r))
            s.sessions

  module _ (r : LoginRequest) (d : Draw) (s : AuthState) where
    abbrev checked_state : AuthState
    checked_state =
        (authenticate py pw settings "auth.login" r
          (login_limit_keys py pw settings r.network_key (login_subject py pw settings r))
          (login_subject py pw settings r) d s).1

    abbrev migrated : Identities
    migrated =
        let hash =
          Identity.password_hash (login_subject py pw settings r) checked_state.identities in
        migrate py pw settings (login_subject py pw settings r) hash
          (password_check py pw settings r hash).replacement_hash checked_state.identities

    registered-IsLogin :
        (pair : IssuedTokenPair) (t : AuthState) (tenant_id : ℕ)
        → (authenticate py pw settings "auth.login" r
            (login_limit_keys py pw settings r.network_key (login_subject py pw settings r))
            (login_subject py pw settings r)
            d
            s).0
          ≡ ok tt
        → Identity.tenant_id (login_subject py pw settings r) migrated ≡ some tenant_id
        → issue_token py pw settings r d s ≡ (ok pair, t)
        → IsLogin r d pair s t
    unfolding issue_token
    registered-IsLogin pair t tenant_id passed in_tenant accepted =
        let subject : String = login_subject py pw settings r in
        let keeps =
          authenticate_keeps "auth.login" r (login_limit_keys py pw settings r.network_key subject)
            subject d s in
        let proves =
          authenticate_proves "auth.login" r (login_limit_keys py pw settings r.network_key subject)
            subject d s passed in
        elim (Result-cases (parse_subject py settings subject)) [
          | inr (e, refused) ↦ absurd (ground (arith, passed, refused, accepted))
          | inl (named, parsed) ↦
              elim (Result-cases
                (issue_token_pair py pw settings d subject d.family_id tenant_id)) [
                  | inr (e, refused) ↦
                      absurd (ground (arith, passed, parsed, in_tenant, refused, accepted))
                  | inl (made, issued) ↦
                      let reg =
                        register_lem (new_session py pw settings made subject)
                          checked_state.sessions in
                      elim (Option-cases (Dict.get made.refresh_jti s.sessions)) [
                        | inr (old, found) ↦ absurd (
                            ground (
                              arith, passed, parsed, in_tenant, issued, accepted, reg, keeps, found,
                            ))
                        | inl new ↦
                            let same : made ≡ pair = ground (
                              arith, passed, parsed, in_tenant, issued, accepted, reg, keeps, new,
                            ) in
                            record {
                              subject_known = proves.0;
                              password_right = proves.1;
                              tenant_id = tenant_id;
                              issued = rw (← same) issued;
                              new = rw (← same) new;
                              stored = rw (← same) (
                                  ground (
                                    arith, passed, parsed, in_tenant, issued, accepted, reg, keeps,
                                    new,
                                  ));
                            }
                      ]
                ]
        ]

    -- Every accepted login is one.
    pub issue_token-IsLogin :
        (pair : IssuedTokenPair) (t : AuthState)
        → issue_token py pw settings r d s ≡ (ok pair, t)
        → IsLogin r d pair s t
    unfolding issue_token
    issue_token-IsLogin pair t accepted =
        let subject : String = login_subject py pw settings r in
        elim (Result-cases
          (authenticate py pw settings "auth.login" r
            (login_limit_keys py pw settings r.network_key subject) subject d s).0) [
              | inr (e, refused) ↦ absurd (ground (arith, refused, accepted))
              | inl (_, passed) ↦ elim (Option-cases (Identity.tenant_id subject migrated)) [
                | inl nowhere ↦ elim (Result-cases (parse_subject py settings subject)) [
                  | inr (e, refused) ↦ absurd (ground (arith, passed, refused, accepted))
                  | inl (named, parsed) ↦ absurd (ground (arith, passed, parsed, nowhere, accepted))
                ]
                | inr (tenant_id, in_tenant) ↦
                    registered-IsLogin pair t tenant_id passed in_tenant accepted
              ]
            ]
