-- ===== src/Tests/Zones.antt =====
-- The cache-aside query at concrete inputs.
use innoprog_fastapi_deliver.Prelude.{
  ℕ, ◌≡◌, refl, ap, String, false, some, none, List, [], ◌∷◌, Option, sym, ◌∙◌, arith, ok, leb,
  if◌then◌else◌,
}
use innoprog_fastapi_deliver.Runtime.{Runtime}
use innoprog_fastapi_deliver.Dict
use innoprog_fastapi_deliver.Cache
use innoprog_fastapi_deliver.Cache.{Entries, DeliveryZoneRead, ZoneLibrary, ttl_cache, get_zone}
use innoprog_fastapi_deliver.Cache.Staleness.{
  Query, Source, IsFaithful, Run, starts, asks, ask, IsRecent, stale_within_ttl,
}
use innoprog_fastapi_deliver.Tests.Data.{plain}
use innoprog_fastapi_deliver.Tests.Doubles.{
  unary, size, size-unary, read, escape, read_all, write_all, read_all-write_all,
}

opened : Unit {0}
unfolding get_zone Cache.get Cache.set Cache.delete Dict.get Dict.put Dict.remove unary size read
    escape read_all write_all
opened = tt

abbrev py : Runtime
py = record plain { uuid_str = unary }

abbrev zone_of : ℕ → DeliveryZoneRead
zone_of n = record { id = 1; name = "centre"; version = n }

abbrev three : List String
three = "" ∷ "" ∷ "" ∷ []

abbrev zone_read : List String → Option DeliveryZoneRead
zone_read (i ∷ name ∷ version ∷ []) =
    some (record { id = size i; name = name; version = size version })
zone_read _ = none

abbrev zones : ZoneLibrary
zones = record {
  model_validate_json = λ t. zone_read (read_all three t);
  model_dump_json = λ zone. write_all (unary zone.id ∷ zone.name ∷ unary zone.version ∷ []);
  is_redis_error = λ e. false;
}

fields_read :
    (zone : DeliveryZoneRead)
    → read_all three (zones.model_dump_json zone)
      ≡ unary zone.id ∷ zone.name ∷ unary zone.version ∷ []
unfolding read_all
fields_read zone = read_all-write_all (unary zone.id ∷ zone.name ∷ unary zone.version ∷ [])

zones-IsFaithful : IsFaithful py zones
zones-IsFaithful = record {
  uuid_str_injective = λ m n e. sym (size-unary m) ∙ (ap size e ∙ size-unary n);
  reads_back =
      λ zone. rw (fields_read zone) (rw (size-unary zone.id, size-unary zone.version) refl);
}

-- The version of the zone changes at time 50.
abbrev source : Source
source now zone_id = ok (if leb now 50 then zone_of 1 else zone_of 2)

abbrev first : Query
first = record { zone_id = 1; read_at = 40; loaded_at = 41; written_at = 42 }

abbrev second : Query
second = record { zone_id = 1; read_at = 100; loaded_at = 101; written_at = 102 }

abbrev third : Query
third = record { zone_id = 1; read_at = 102; loaded_at = 103; written_at = 104 }

abbrev warm : Entries
warm = (ask py zones 60 source first []).1

-- Within the lifetime the old version is served, after it the new one.
served : (ask py zones 60 source second warm).0 ≡ ok (zone_of 1)
unfolding opened
served = refl

refreshed : (ask py zones 60 source third warm).0 ≡ ok (zone_of 2)
unfolding opened
refreshed = refl

warm-Run : Run py zones 60 source (first ∷ []) warm
warm-Run = asks first [] [] starts

stale_within_ttl_example : IsRecent py zones 60 source (first ∷ []) second (zone_of 1)
stale_within_ttl_example =
    stale_within_ttl py zones 60 source second (first ∷ []) warm (zone_of 1) (omega arith)
      zones-IsFaithful warm-Run served
