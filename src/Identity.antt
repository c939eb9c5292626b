-- ===== src/Identity.antt =====
-- src/delivery_service/identity.py: `InMemoryIdentityRepository`, and `AuditTrail` of
-- src/delivery_service/policy.py.
use innoprog_fastapi_deliver.Prelude.{
  ℕ, String, Bool, true, false, Option, List, [], ◌∷◌, ◌++◌, text_eq, is_none, is_value,
  if◌then◌else◌,
}
use innoprog_fastapi_deliver.Dict
use innoprog_fastapi_deliver.Dict.{Dict}

pub record Identities : Type 0 where
  pub passwords : Dict String String
  pub tenants : Dict String ℕ

unfoldable pub password_hash : String → Identities → Option String
password_hash subject s = Dict.get subject s.passwords

unfoldable pub tenant_id : String → Identities → Option ℕ
tenant_id subject s = Dict.get subject s.tenants

unfoldable pub add : String → String → ℕ → Identities → Bool × Identities
add subject hash tenant s =
    if is_none (Dict.get subject s.passwords)
    then (
      true,
      record {
        passwords = Dict.put subject hash s.passwords;
        tenants = Dict.put subject tenant s.tenants;
      },
    )
    else (false, s)

unfoldable pub replace_password_hash : String → String → String → Identities → Bool × Identities
replace_password_hash subject expected replacement s =
    if is_value (Dict.get subject s.passwords) expected
    then (true, record s { passwords = Dict.put subject replacement s.passwords })
    else (false, s)

-- policy.AuditEvent without the identifier and the time that it draws
pub record AuditEvent : Type 0 where
  pub actor_id : Option String
  pub subject_fingerprint : String
  pub action : String
  pub resource_id : Option String
  pub outcome : String
  pub reason_code : String
  pub client_network_key : String
  pub correlation_id : String

-- AuditTrail.record on the attribute `_events`
abbrev pub record_event : AuditEvent → List AuditEvent → List AuditEvent
record_event event events = events ++ event ∷ []
