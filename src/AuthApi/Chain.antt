-- ===== src/AuthApi/Chain.antt =====
-- The chain of refresh tokens that a login starts, through the handlers.
use innoprog_fastapi_deliver.Prelude.{
  ℕ, ◌+◌, ◌≤◌, ◌<◌, ◌≡◌, refl, sym, ap, ◌∙◌, subst, String, false, none, some, number_eq, text_eq,
  if◌then◌else◌, arith, Result, ok, err,
}
use innoprog_fastapi_deliver.Dict
use innoprog_fastapi_deliver.Dict.{get-put_self}
use innoprog_fastapi_deliver.Errors.{Error}
use innoprog_fastapi_deliver.RefreshSessions.{
  RefreshSession, Sessions, Rotation, RotationResult, rotated, reused, invalid, rotate,
  rotate_found,
}
use innoprog_fastapi_deliver.RefreshSessions.Family.{Later}
use innoprog_fastapi_deliver.RefreshSessions.Reuse.{reuse_ends_family}
use innoprog_fastapi_deliver.Security.{
  Library, TokenSettings, create_token, unauthorized, seven_days, fifteen_minutes,
}
use innoprog_fastapi_deliver.Security.Tokens.{IsLibrary, claims_of, decode_refresh}
use innoprog_fastapi_deliver.AuthApi.{
  Passwords, AuthState, LoginRequest, Draw, IssuedTokenPair, issue_token, login_subject,
  issue_token_pair, new_session, rotate_refresh_token, is_rotated,
}
use innoprog_fastapi_deliver.AuthApi.Outcomes.{IsLogin, issue_token-IsLogin}

module _ (py : Library) (pw : Passwords) (settings : TokenSettings) where
  -- The pair that is issued.
  abbrev pub pair_of : Draw → String → ℕ → ℕ → IssuedTokenPair
  pair_of d subject family_id tenant_id = record {
    access_token =
        py.jwt_encode
          (claims_of py settings subject "access" fifteen_minutes d.access_jti family_id d.now
            tenant_id)
          settings.jwt_secret "at+jwt";
    refresh_token =
        py.jwt_encode
          (claims_of py settings subject "refresh" seven_days d.refresh_jti family_id d.now
            tenant_id)
          settings.jwt_secret "rt+jwt";
    access_expires_in = 900;
    refresh_jti = d.refresh_jti;
    family_id = family_id;
    refresh_expires_at = d.now + seven_days;
  }

  issue_token_pair_lem :
      (d : Draw) (subject : String) (family_id tenant_id : ℕ)
      → issue_token_pair py pw settings d subject family_id tenant_id
        ≡ ok (pair_of d subject family_id tenant_id)
  unfolding issue_token_pair create_token
  issue_token_pair_lem d subject family_id tenant_id = refl

  -- the rotation that a refresh of that pair's token asks for
  abbrev pub rotation : Draw → Draw → String → ℕ → ℕ → Rotation
  rotation d later subject family_id tenant_id = record {
    presented_jti = d.refresh_jti;
    family_id = family_id;
    subject = subject;
    replacement = new_session py pw settings (pair_of later subject family_id tenant_id) subject;
    now = later.now;
  }

  abbrev pub answer : IssuedTokenPair → RotationResult → Result Error IssuedTokenPair
  answer pair result =
      if is_rotated py pw settings result
      then ok pair
      else err (unauthorized "invalid refresh token")

  -- A refresh with the token of an issued pair is a rotation of its session.
  refresh_rotates :
      (laws : IsLibrary py) (d later : Draw) (subject : String) (family_id tenant_id : ℕ)
      (network_key correlation_id : String) (s : AuthState)
      → d.now ≤ later.now
      → later.now ≤ d.now + seven_days
      → let o = rotate (rotation d later subject family_id tenant_id) s.sessions in
        let u =
          rotate_refresh_token py pw settings
            (pair_of d subject family_id tenant_id).refresh_token
            network_key
            correlation_id
            later
            s in
        (u.0 ≡ answer (pair_of later subject family_id tenant_id) o.0) × (u.1.sessions ≡ o.1)
  unfolding rotate_refresh_token
  refresh_rotates laws d later subject family_id tenant_id network_key correlation_id s order
        alive =
      let o : RotationResult × Sessions =
        rotate (rotation d later subject family_id tenant_id) s.sessions in
      ground (
        arith,
        decode_refresh py settings laws subject seven_days d.refresh_jti family_id d.now tenant_id
            later.now order alive,
        laws.uuid_read family_id,
        laws.uuid_read d.refresh_jti,
        laws.uuid_read tenant_id,
        issue_token_pair_lem later subject family_id tenant_id,
      )

  first_rotates :
      (d first : Draw) (subject : String) (family_id tenant_id : ℕ) (s t : Sessions)
      → t
        ≡ Dict.put d.refresh_jti
            (new_session py pw settings (pair_of d subject family_id tenant_id) subject)
            s
      → first.now < d.now + seven_days
      → Dict.get first.refresh_jti t ≡ none
      → (rotate (rotation d first subject family_id tenant_id) t).0 ≡ rotated
  unfolding rotate rotate_found
  first_rotates d first subject family_id tenant_id s t stored alive new =
      let session : RefreshSession =
        new_session py pw settings (pair_of d subject family_id tenant_id) subject in
      let found : Dict.get d.refresh_jti t ≡ some session =
        rw stored (get-put_self d.refresh_jti session s) in
      rw found (ground (arith, new, text_eq.same_iff subject subject))

  -- what an accepted login leaves, in terms of the pair
  pair_facts :
      (r : LoginRequest) (d : Draw) (pair : IssuedTokenPair) (s t : AuthState)
      → (l : IsLogin py pw settings r d pair s t)
      → pair_of d (login_subject py pw settings r) d.family_id l.tenant_id ≡ pair
  pair_facts r d pair s t l = ground (
    arith,
    l.issued,
    issue_token_pair_lem d (login_subject py pw settings r) d.family_id l.tenant_id,
  )

  not_rotated : (o : RotationResult) → ¬ (o ≡ rotated) → is_rotated py pw settings o ≡ false
  not_rotated rotated h = absurd (h refl)
  not_rotated reused h = refl
  not_rotated invalid h = refl

  abbrev pub refreshed : String → Draw → AuthState → Result Error IssuedTokenPair × AuthState
  refreshed token later s =
      rotate_refresh_token py pw settings token "network" "correlation" later s

  pair_caught :
      (laws : IsLibrary py) (d first again last : Draw) (subject : String) (family_id tenant_id : ℕ)
      (s : Sessions) (t v x : AuthState)
      → t.sessions
        ≡ Dict.put d.refresh_jti
            (new_session py pw settings (pair_of d subject family_id tenant_id) subject)
            s
      → d.now ≤ first.now
      → first.now < d.now + seven_days
      → d.now ≤ again.now
      → again.now ≤ d.now + seven_days
      → first.now ≤ last.now
      → last.now ≤ first.now + seven_days
      → Dict.get first.refresh_jti t.sessions ≡ none
      → let token = (pair_of d subject family_id tenant_id).refresh_token in
        Later (refreshed token first t).1.sessions v.sessions
        → Later (refreshed token again v).1.sessions x.sessions
        → let pair' = pair_of first subject family_id tenant_id in
          ((refreshed token first t).0 ≡ ok pair')
          × ((refreshed token again v).0 ≡ err (unauthorized "invalid refresh token"))
          × ((refreshed pair'.refresh_token last x).0 ≡ err (unauthorized "invalid refresh token"))
  pair_caught laws d first again last subject family_id tenant_id s t v x stored o1 o2 o3 o4 o5 o6
        new later later' =
      let r1 : Rotation = rotation d first subject family_id tenant_id in
      let r2 : Rotation = rotation d again subject family_id tenant_id in
      let r3 : Rotation = rotation first last subject family_id tenant_id in
      let done = first_rotates d first subject family_id tenant_id s t.sessions stored o2 new in
      let (answer1, state1) =
        refresh_rotates laws d first subject family_id tenant_id "network" "correlation" t o1
          (ground (arith, o2)) in
      let (answer2, state2) =
        refresh_rotates laws d again subject family_id tenant_id "network" "correlation" v o3 o4 in
      let (answer3, state3) =
        refresh_rotates laws first last subject family_id tenant_id "network" "correlation" x o5
          o6 in
      let (detected, dead) =
        reuse_ends_family r1 t.sessions done v.sessions
          (subst (λ u. Later u v.sessions) state1 later) r2 refl refl refl in
      let never = dead x.sessions (subst (λ u. Later u x.sessions) state2 later') r3 refl in
      (
        answer1 ∙ (ap (answer (pair_of first subject family_id tenant_id)) done),
        answer2 ∙ (ap (answer (pair_of again subject family_id tenant_id)) detected),
        ground (arith, answer3, not_rotated (rotate r3 x.sessions).0 never),
      )

  -- After an accepted login, the first refresh with its refresh token, under a new identifier and while
  -- the token lives, succeeds. Presenting that token again within its lifetime is refused, whatever
  -- registrations and rotations came between, and from then on the replacement pair's refresh token
  -- is refused too while it lives. This holds if the libraries behave as documented.
  pub stolen_token_is_caught :
      IsLibrary py
      → (r : LoginRequest) (d first again last : Draw) (pair : IssuedTokenPair)
        (s t v x : AuthState)
      → issue_token py pw settings r d s ≡ (ok pair, t)
      → d.now ≤ first.now
      → first.now < d.now + seven_days
      → d.now ≤ again.now
      → again.now ≤ d.now + seven_days
      → first.now ≤ last.now
      → last.now ≤ first.now + seven_days
      → Dict.get first.refresh_jti t.sessions ≡ none
      → Later (refreshed pair.refresh_token first t).1.sessions v.sessions
      → Later (refreshed pair.refresh_token again v).1.sessions x.sessions
      → (pair' : IssuedTokenPair) × ((refreshed pair.refresh_token first t).0 ≡ ok pair')
        × ((refreshed pair.refresh_token again v).0 ≡ err (unauthorized "invalid refresh token"))
        × ((refreshed pair'.refresh_token last x).0 ≡ err (unauthorized "invalid refresh token"))
  stolen_token_is_caught laws r d first again last pair s t v x accepted o1 o2 o3 o4 o5 o6 new later
        later' =
      let l : IsLogin py pw settings r d pair s t =
        issue_token-IsLogin py pw settings r d s pair t accepted in
      let subject : String = login_subject py pw settings r in
      let e : pair_of d subject d.family_id l.tenant_id ≡ pair = pair_facts r d pair s t l in
      let token : (pair_of d subject d.family_id l.tenant_id).refresh_token ≡ pair.refresh_token =
        ap (λ p. p.refresh_token) e in
      let rebased : (token' : String)
          → token' ≡ pair.refresh_token
          → Later (refreshed token' first t).1.sessions v.sessions
            × Later (refreshed token' again v).1.sessions x.sessions =
        λ token' same.
          subst
            (λ k.
              Later (refreshed k first t).1.sessions v.sessions
              × Later (refreshed k again v).1.sessions x.sessions)
            (sym same) (later, later') in
      let (l1, l2) = rebased (pair_of d subject d.family_id l.tenant_id).refresh_token token in
      let (a1, a2, a3) =
        pair_caught laws d first again last subject d.family_id l.tenant_id s.sessions t v x
          (subst
            (λ p.
              t.sessions ≡ Dict.put p.refresh_jti (new_session py pw settings p subject) s.sessions)
            (sym e) l.stored)
          o1 o2 o3 o4 o5 o6 new l1 l2 in
      (
        pair_of first subject d.family_id l.tenant_id,
        subst (λ k. (refreshed k first t).0 ≡ ok (pair_of first subject d.family_id l.tenant_id))
            token a1,
        subst (λ k. (refreshed k again v).0 ≡ err (unauthorized "invalid refresh token")) token a2,
        a3,
      )
