-- ===== src/Cache/Staleness.antt =====
-- How old an answer of the cache-aside query can be, over the in-memory cache.
use text.Mathlib.TextLemmas.{append_cancel_left}
use innoprog_fastapi_deliver.Prelude.{
  List, ◌∷◌, keep_if, Among, Among-keep_if, not, number_eq, false, ℕ, ◌+◌, ◌<◌, ◌≡◌, ◌⊎◌, refl, sym,
  ap, subst, ◌∙◌, String, some, text_eq, ◌==◌, leb, arith, Result, ok, err, inl, inr, Option-cases,
  Bool-cases, Result-cases, [],
}
use innoprog_fastapi_deliver.Runtime.{Runtime}
use innoprog_fastapi_deliver.Dict
use innoprog_fastapi_deliver.Dict.{get-put, get-remove}
use innoprog_fastapi_deliver.Errors.{Error}
use innoprog_fastapi_deliver.Cache.{
  CacheEntry, Entries, DeliveryZoneRead, ZoneLibrary, ttl_cache, get, set, delete, zone_key, reload,
  get_zone, invalidate,
}

-- a query, with the times of its three steps
pub record Query : Type 0 where
  pub zone_id : ℕ
  pub read_at : ℕ
  pub loaded_at : ℕ
  pub written_at : ℕ

-- What the source of truth answers at a time about a zone.
abbrev pub Source : Type 0
Source = ℕ → ℕ → Result Error DeliveryZoneRead

-- The documented behaviour of the libraries: texts of identities differ, and JSON reads back.
pub record IsFaithful (py : Runtime) (lib : ZoneLibrary) : Type 0 where
  pub uuid_str_injective : (m n : ℕ) → py.uuid_str m ≡ py.uuid_str n → m ≡ n
  pub reads_back :
      (zone : DeliveryZoneRead) → lib.model_validate_json (lib.model_dump_json zone) ≡ some zone

module _ (py : Runtime) (lib : ZoneLibrary) (ttl : ℕ) (source : Source) where
  abbrev key : ℕ → String
  key zone_id = zone_key py lib ttl_cache ttl zone_id

  abbrev pub ask : Query → Entries → Result Error DeliveryZoneRead × Entries
  ask q =
      get_zone py lib ttl_cache ttl q.read_at q.written_at q.zone_id (source q.loaded_at q.zone_id)

  -- the queries about other zones
  abbrev pub about_others : ℕ → List Query → List Query
  about_others zone_id ps = keep_if (λ p. not (p.zone_id == zone_id)) ps

  -- Queries and invalidations, in any order, with the queries of each zone since it was last
  -- invalidated.
  pub data Run : List Query → Entries → Type 0 where
    starts : Run [] []
    asks : (q : Query) (ps : List Query) (s : Entries) → Run ps s → Run (q ∷ ps) (ask q s).1
    invalidates :
        (zone_id : ℕ) (ps : List Query) (s : Entries)
        → Run ps s
        → Run (about_others zone_id ps) (invalidate py lib ttl_cache ttl zone_id s).1

  -- An entry holds what the source answered to one of these queries, which wrote it.
  IsSourced : List Query → String → CacheEntry → Type 0
  IsSourced ps k entry =
      (p : Query) × (zone : DeliveryZoneRead) × Among p ps
      × (k ≡ key p.zone_id)
      × (entry.value ≡ lib.model_dump_json zone)
      × (entry.expires_at ≡ p.written_at + ttl)
      × (source p.loaded_at p.zone_id ≡ ok zone)

  HoldsSource : List Query → Entries → Type 0
  HoldsSource ps s =
      (k : String) (entry : CacheEntry) → Dict.get k s ≡ some entry → IsSourced ps k entry

  HoldsSource-more :
      (q : Query) (ps : List Query) (s : Entries) → HoldsSource ps s → HoldsSource (q ∷ ps) s
  unfolding HoldsSource IsSourced
  HoldsSource-more q ps s h k entry found =
      let (p, zone, among, named, dumped, expiry, done) = h k entry found in
      (p, zone, inr among, named, dumped, expiry, done)

  HoldsSource-invalidated :
      (zone_id : ℕ) (ps : List Query) (s : Entries)
      → HoldsSource ps s
      → HoldsSource (about_others zone_id ps) (Dict.remove (key zone_id) s)
  unfolding HoldsSource IsSourced
  HoldsSource-invalidated zone_id ps s h k entry found =
      let (p, zone, among, named, dumped, expiry, done) =
        h k entry (ground (arith, found, get-remove (key zone_id) k s)) in
      let other : (p.zone_id == zone_id) ≡ false = elim (Bool-cases (p.zone_id == zone_id)) [
        | inr e ↦ e
        | inl e ↦
            let same : key zone_id ≡ k =
              ap key (sym ((number_eq.same_iff p.zone_id zone_id).0 e)) ∙ sym named in
            absurd (
              ground (
                arith,
                found,
                get-remove (key zone_id) k s,
                (text_eq.same_iff (key zone_id) k).1 same,
              ))
      ] in
      (
        p,
        zone,
        (Among-keep_if (λ x. not (x.zone_id == zone_id)) ps p).1 (among, ground (arith, other)),
        named,
        dumped,
        expiry,
        done,
      )

  HoldsSource-remove :
      (ps : List Query) (k : String) (s : Entries)
      → HoldsSource ps s
      → HoldsSource ps (Dict.remove k s)
  unfolding HoldsSource
  HoldsSource-remove ps k s h j entry found = h j entry (ground (arith, found, get-remove k j s))

  HoldsSource-put :
      (ps : List Query) (k : String) (new : CacheEntry) (s : Entries)
      → IsSourced ps k new
      → HoldsSource ps s
      → HoldsSource ps (Dict.put k new s)
  unfolding HoldsSource
  HoldsSource-put ps k new s sourced h j entry found = elim (Bool-cases (k == j)) [
    | inl same ↦
        subst (λ x. IsSourced ps x entry) ((text_eq.same_iff k j).0 same)
          (subst (λ x. IsSourced ps k x) (ground (arith, found, same, get-put k j new s)) sourced)
    | inr other ↦ h j entry (ground (arith, found, other, get-put k j new s))
  ]

  reload_lem :
      (q : Query) (zone : DeliveryZoneRead) (s : Entries)
      → 0 < ttl
      → source q.loaded_at q.zone_id ≡ ok zone
      → reload py lib ttl_cache ttl q.written_at q.zone_id (source q.loaded_at q.zone_id) s ≡ (
        ok zone,
        Dict.put
            (key q.zone_id)
            (record { value = lib.model_dump_json zone; expires_at = q.written_at + ttl })
            s,
      )
  unfolding set
  reload_lem q zone s positive loaded = ground (arith, loaded)

  -- A query answers from a live entry, or from the source with or without an entry that has run out.
  data Answer (q : Query) (s : Entries) : Result Error DeliveryZoneRead × Entries → Type 0 where
    hit :
        (entry : CacheEntry) (zone : DeliveryZoneRead)
        → Dict.get (key q.zone_id) s ≡ some entry
        → q.read_at < entry.expires_at
        → lib.model_validate_json entry.value ≡ some zone
        → Answer q s (ok zone, s)
    failed :
        (e : Error) (t : Entries)
        → (t ≡ s) ⊎ (t ≡ Dict.remove (key q.zone_id) s)
        → Answer q s (err e, t)
    loaded :
        (zone : DeliveryZoneRead) (t : Entries)
        → source q.loaded_at q.zone_id ≡ ok zone
        → (t ≡ s) ⊎ (t ≡ Dict.remove (key q.zone_id) s)
        → Answer q s (
          ok zone,
          Dict.put
              (key q.zone_id)
              (record { value = lib.model_dump_json zone; expires_at = q.written_at + ttl })
              t,
        )

  reloads :
      (q : Query) (s t : Entries)
      → 0 < ttl
      → (t ≡ s) ⊎ (t ≡ Dict.remove (key q.zone_id) s)
      → ask q s
        ≡ reload py lib ttl_cache ttl q.written_at q.zone_id (source q.loaded_at q.zone_id) t
      → Answer q s (ask q s)
  reloads q s t positive from e = elim (Result-cases (source q.loaded_at q.zone_id)) [
    | inl (zone, done) ↦
        subst (Answer q s) (sym (e ∙ reload_lem q zone t positive done)) (loaded zone t done from)
    | inr (error, raised) ↦
        let failed_now : ask q s ≡ (err error, t) = ground (arith, e, raised) in
        subst (Answer q s) (sym failed_now) (failed error t from)
  ]

  ask-Answer :
      (q : Query) (ps : List Query) (s : Entries)
      → 0 < ttl
      → IsFaithful py lib
      → HoldsSource ps s
      → Answer q s (ask q s)
  unfolding get_zone get HoldsSource IsSourced
  ask-Answer q ps s positive laws h = elim (Option-cases (Dict.get (key q.zone_id) s)) [
    | inl missing ↦ reloads q s s positive (inl refl) (ground (arith, missing))
    | inr (entry, found) ↦ elim (Bool-cases (leb entry.expires_at q.read_at)) [
      | inl run_out ↦
          reloads q s (Dict.remove (key q.zone_id) s) positive (inr refl)
            (ground (arith, found, run_out))
      | inr live ↦
          let (_, zone, _, _, dumped, _, _) = h (key q.zone_id) entry found in
          let valid : lib.model_validate_json entry.value ≡ some zone =
            rw dumped (laws.reads_back zone) in
          let answered : ask q s ≡ (ok zone, s) = ground (arith, found, live, valid) in
          subst (Answer q s) (sym answered) (hit entry zone found (ground (arith, live)) valid)
    ]
  ]

  kept_or_removed :
      (ps : List Query) (k : String) (s t : Entries)
      → (t ≡ s) ⊎ (t ≡ Dict.remove k s)
      → HoldsSource ps s
      → HoldsSource ps t
  kept_or_removed ps k s t (inl e) h = subst (HoldsSource ps) (sym e) h
  kept_or_removed ps k s t (inr e) h = subst (HoldsSource ps) (sym e) (HoldsSource-remove ps k s h)

  HoldsSource-Answer :
      (q : Query) (ps : List Query) (s : Entries) (o : Result Error DeliveryZoneRead × Entries)
      → Answer q s o
      → HoldsSource ps s
      → HoldsSource (q ∷ ps) o.1
  unfolding IsSourced
  HoldsSource-Answer q ps s _ (hit entry zone found live valid) h = HoldsSource-more q ps s h
  HoldsSource-Answer q ps s _ (failed e t from) h =
      HoldsSource-more q ps t (kept_or_removed ps (key q.zone_id) s t from h)
  HoldsSource-Answer q ps s _ (loaded zone t done from) h =
      HoldsSource-put (q ∷ ps) (key q.zone_id)
        (record { value = lib.model_dump_json zone; expires_at = q.written_at + ttl }) t
        (q, zone, inl refl, refl, refl, refl, done)
        (HoldsSource-more q ps t (kept_or_removed ps (key q.zone_id) s t from h))

  invalidate_lem :
      (zone_id : ℕ) (s : Entries)
      → (invalidate py lib ttl_cache ttl zone_id s).1 ≡ Dict.remove (key zone_id) s
  unfolding invalidate delete
  invalidate_lem zone_id s = refl

  Run-HoldsSource :
      (ps : List Query) (s : Entries) → 0 < ttl → IsFaithful py lib → Run ps s → HoldsSource ps s
  unfolding HoldsSource Dict.get
  Run-HoldsSource _ _ positive laws starts = λ k entry found. absurd (ground (arith, found))
  Run-HoldsSource _ _ positive laws (asks q ps s r) =
      let h = Run-HoldsSource ps s positive laws r in
      HoldsSource-Answer q ps s (ask q s) (ask-Answer q ps s positive laws h) h
  Run-HoldsSource _ _ positive laws (invalidates zone_id ps s r) =
      subst (HoldsSource (about_others zone_id ps)) (sym (invalidate_lem zone_id s))
        (HoldsSource-invalidated zone_id ps s (Run-HoldsSource ps s positive laws r))

  -- What an answer is worth: the source gave it for this zone to this query, or to one of those
  -- queries, which wrote it less than the lifetime before this one read it.
  abbrev pub IsRecent : List Query → Query → DeliveryZoneRead → Type 0
  IsRecent ps q zone =
      (source q.loaded_at q.zone_id ≡ ok zone)
      ⊎ ((p : Query) × Among p ps
          × (p.zone_id ≡ q.zone_id)
          × (source p.loaded_at p.zone_id ≡ ok zone)
          × (q.read_at < p.written_at + ttl))

  Answer-IsRecent :
      (q : Query) (ps : List Query) (s : Entries) (o : Result Error DeliveryZoneRead × Entries)
      (zone : DeliveryZoneRead)
      → Answer q s o
      → IsFaithful py lib
      → HoldsSource ps s
      → o.0 ≡ ok zone
      → IsRecent ps q zone
  unfolding HoldsSource IsSourced
  Answer-IsRecent q ps s _ zone (failed e t from) laws h answered =
      absurd (ground (arith, answered))
  Answer-IsRecent q ps s _ zone (loaded zone' t done from) laws h answered =
      inl (ground (arith, done, answered))
  Answer-IsRecent q ps s _ zone (hit entry zone' found live valid) laws h answered =
      let (p, stored, among, named, dumped, expiry, done) = h (key q.zone_id) entry found in
      let same_zone : p.zone_id ≡ q.zone_id = sym (
        laws.uuid_str_injective q.zone_id p.zone_id (
          append_cancel_left "delivery:cache:v1:zone:" (py.uuid_str q.zone_id)
            (py.uuid_str p.zone_id) named)) in
      let same : stored ≡ zone = ground (arith, answered, valid, dumped, laws.reads_back stored) in
      inr (p, among, same_zone, done ∙ ap ok same, omega (arith, live, expiry))

  pub stale_within_ttl :
      (q : Query) (ps : List Query) (s : Entries) (zone : DeliveryZoneRead)
      → 0 < ttl
      → IsFaithful py lib
      → Run ps s
      → (ask q s).0 ≡ ok zone
      → IsRecent ps q zone
  stale_within_ttl q ps s zone positive laws r answered =
      let h = Run-HoldsSource ps s positive laws r in
      Answer-IsRecent q ps s (ask q s) zone (ask-Answer q ps s positive laws h) laws h answered
