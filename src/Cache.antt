-- ===== src/Cache.antt =====
-- src/delivery_service/cache.py: `InMemoryTTLCache`, the cache-aside query `DeliveryZoneCacheAside` over
-- any cache. JSON is a parameter.
pub mod Staleness
use Prim.Native.String.{◌++◌ as append}
use innoprog_fastapi_deliver.Prelude.{
  ℕ, ◌+◌, String, Bool, true, false, not, ◌&&◌, Option, none, some, text_eq, ◌==◌, leb,
  if◌then◌else◌, Exec, Result, ok, err, pure, lift, ◌>>=◌, ◌>>◌, is_value,
}
use innoprog_fastapi_deliver.Runtime.{Runtime}
use innoprog_fastapi_deliver.Dict
use innoprog_fastapi_deliver.Dict.{Dict}
use innoprog_fastapi_deliver.Errors.{Error, value_error}

pub record CacheEntry : Type 0 where
  pub value : String
  pub expires_at : ℕ

-- InMemoryTTLCache._entries
abbrev pub Entries : Type 0
Entries = Dict String CacheEntry

-- a cache: the times are those of `datetime.now` inside the call
pub record Port (S : Type 0) : Type 0 where
  pub get : ℕ → String → Exec S Error (Option String)
  pub set : ℕ → String → String → ℕ → Exec S Error (Unit {0})
  pub delete : String → Exec S Error (Unit {0})

abbrev pub get_found : ℕ → String → Option CacheEntry → Exec Entries Error (Option String)
get_found now key none s = (ok none, s)
get_found now key (some entry) s =
    if leb entry.expires_at now then (ok none, Dict.remove key s) else (ok (some entry.value), s)

unfoldable pub get : ℕ → String → Exec Entries Error (Option String)
get now key s = get_found now key (Dict.get key s) s

unfoldable pub set : ℕ → String → String → ℕ → Exec Entries Error (Unit {0})
set now key value ttl s =
    if leb ttl 0
    then (err (value_error "cache TTL must be positive"), s)
    else (ok tt, Dict.put key (record { value = value; expires_at = now + ttl }) s)

unfoldable pub delete : String → Exec Entries Error (Unit {0})
delete key s = (ok tt, Dict.remove key s)

abbrev pub ttl_cache : Port Entries
ttl_cache = record { get = get; set = set; delete = delete }

pub record DeliveryZoneRead : Type 0 where
  pub id : ℕ
  pub name : String
  pub version : ℕ

-- What the query takes from pydantic and redis-py.
pub record ZoneLibrary : Type 0 where
  pub model_validate_json : String → Option DeliveryZoneRead  -- `none` is ValidationError
  pub model_dump_json : DeliveryZoneRead → String
  pub is_redis_error : Error → Bool

module _ {S : Type 0} (py : Runtime) (lib : ZoneLibrary) (cache : Port S) (ttl : ℕ) where
  abbrev pub zone_key : ℕ → String
  zone_key zone_id = append "delivery:cache:v1:zone:" (py.uuid_str zone_id)

  -- `except RedisError`, with a value to go on with
  abbrev pub or_else : {A : Type 0} → A → Result Error A × S → Result Error A × S
  or_else a (ok b, s) = (ok b, s)
  or_else a (err e, s) = if lib.is_redis_error e then (ok a, s) else (err e, s)

  abbrev pub best_effort : {A : Type 0} → A → Exec S Error A → Exec S Error A
  best_effort a m s = or_else a (m s)

  abbrev pub delete_best_effort : String → Exec S Error (Unit {0})
  delete_best_effort key = best_effort tt (cache.delete key)

  -- from the source of truth into the cache
  abbrev pub reload : ℕ → ℕ → Result Error DeliveryZoneRead → Exec S Error DeliveryZoneRead
  reload written_at zone_id loaded = do
    zone ← lift loaded
    best_effort tt (cache.set written_at (zone_key zone_id) (lib.model_dump_json zone) ttl)
    pure zone

  abbrev pub validated :
      ℕ
      → ℕ
      → Result Error DeliveryZoneRead
      → Option DeliveryZoneRead
      → Exec S Error DeliveryZoneRead
  validated written_at zone_id loaded (some zone) = pure zone
  validated written_at zone_id loaded none = do
    delete_best_effort (zone_key zone_id)
    reload written_at zone_id loaded

  abbrev pub from_cache :
      ℕ → ℕ → Result Error DeliveryZoneRead → Option String → Exec S Error DeliveryZoneRead
  from_cache written_at zone_id loaded none = reload written_at zone_id loaded
  from_cache written_at zone_id loaded (some cached) =
      validated written_at zone_id loaded (lib.model_validate_json cached)

  -- `loaded` is what the loader would answer now
  unfoldable pub get_zone :
      ℕ → ℕ → ℕ → Result Error DeliveryZoneRead → Exec S Error DeliveryZoneRead
  get_zone read_at written_at zone_id loaded = do
    cached ← best_effort none (cache.get read_at (zone_key zone_id))
    from_cache written_at zone_id loaded cached

  unfoldable pub invalidate : ℕ → Exec S Error (Unit {0})
  invalidate zone_id = delete_best_effort (zone_key zone_id)
