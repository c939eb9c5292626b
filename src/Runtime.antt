-- ===== src/Runtime.antt =====
-- What the service takes from Python's runtime and its standard library: text forms and digests.
-- They are parameters of the definitions that use them.
use innoprog_fastapi_deliver.Prelude.{ℕ, String, List}

-- A value of a JSON object with no nested object or list in it.
pub data Json : Type 0 where
  text : String → Json
  number : ℕ → Json
  null : Json

abbrev pub Payload : Type 0
Payload = List (String × Json)

-- A UUID is its 128-bit integer, and a point of time its number of microseconds.
pub record Runtime : Type 0 where
  pub uuid_str : ℕ → String  -- `str(u)` of a UUID
  pub isoformat : ℕ → String  -- `t.isoformat()` of a datetime
  pub casefold : String → String  -- `s.casefold()`
  pub json_dumps : Payload → String  -- `json.dumps`, keys sorted, compact
  pub sha256_hexdigest : String → String  -- `sha256(s.encode("utf-8")).hexdigest()`
