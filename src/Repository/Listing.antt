-- ===== src/Repository/Listing.antt =====
-- `list_visible` of the in-memory repository against the access decision of access.py.
use innoprog_fastapi_deliver.Prelude.{
  ℕ, ◌≤◌, String, ◌≡◌, ◌≢◌, ◌⊎◌, ◌↔◌, refl, sym, subst, Bool, true, Option, List, arith, ok, err,
  inl, inr, Among, Among-take, Among-drop, Among-keep_if, length, length-take, length-keep_if,
  length-sort_by, IsOrdered-take, IsOrdered-drop, first_page, drop, take, keep_if-same, ap, ◌∙◌,
  keep_if, Bool-cases, sort_by, Among-sort_by, IsTotalOrder, IsOrdered, IsOrdered-sort_by,
  if◌then◌else◌, text_eq, number_eq, text_ltb, ltb, ◌==◌, ◌||◌, not,
}
use text.Mathlib.TextEquality.{eq_iff}
use innoprog_fastapi_deliver.Dict.{values}
use innoprog_fastapi_deliver.Access.{
  Role, customer, courier, dispatcher, role_eq, role_value, Actor, can_access_order,
}
use innoprog_fastapi_deliver.Status.{
  OrderStatus, created, assigned, picked_up, delivered, cancelled, status_value,
}
use innoprog_fastapi_deliver.Errors.{value_error}
use innoprog_fastapi_deliver.Domain.{DeliveryOrder}
use innoprog_fastapi_deliver.Ports.{VisibleQuery}
use innoprog_fastapi_deliver.Repository.{
  Memory, by_created, by_status, shown, has_status, sort_visible, page, list_visible,
}
use innoprog_fastapi_deliver.Repository.Claims.{by_created_total}

-- The query that an actor's request makes.
abbrev pub query_of : Actor → ℕ → ℕ → String → Option String → VisibleQuery
query_of a limit offset sort status_filter = record {
  role = role_value a.role;
  actor_id = a.user_id;
  tenant_id = a.tenant_id;
  limit = limit;
  offset = offset;
  sort = sort;
  status_filter = status_filter;
}

abbrev pub may_see : Actor → DeliveryOrder → Bool
may_see a o = can_access_order a o.tenant_id o.customer_id o.courier_id

-- The texts of the roles tell them apart.
role_texts :
    (r : Role)
    → ((role_value r == "dispatcher") ≡ (r == dispatcher))
      × ((role_value r == "customer") ≡ (r == customer))
      × ((role_value r == "courier") ≡ (r == courier))
role_texts customer = (refl, refl, refl)
role_texts courier = (refl, refl, refl)
role_texts dispatcher = (refl, refl, refl)

-- The condition of the comprehension is the access decision.
shown-eq-may_see :
    (a : Actor) (limit offset : ℕ) (sort : String) (status_filter : Option String)
    (o : DeliveryOrder)
    → shown (query_of a limit offset sort status_filter) o ≡ may_see a o
unfolding shown can_access_order
shown-eq-may_see a limit offset sort status_filter o = ground (arith, role_texts a.role)

-- The alphabetical order of the statuses.
abbrev rank : OrderStatus → ℕ
rank assigned = 0
rank cancelled = 1
rank created = 2
rank delivered = 3
rank picked_up = 4

alphabetical :
    (s t : OrderStatus)
    → ((status_value s == status_value t) ≡ (rank s == rank t))
      × (text_ltb (status_value s) (status_value t) ≡ ltb (rank s) (rank t))
alphabetical created created = (refl, refl)
alphabetical created _ = (refl, refl)
alphabetical assigned created = (refl, refl)
alphabetical assigned _ = (refl, refl)
alphabetical picked_up created = (refl, refl)
alphabetical picked_up _ = (refl, refl)
alphabetical delivered created = (refl, refl)
alphabetical delivered _ = (refl, refl)
alphabetical cancelled created = (refl, refl)
alphabetical cancelled _ = (refl, refl)

by_rank :
    (a b : DeliveryOrder)
    → by_status a b
      ≡ not (
          if rank b.status == rank a.status
          then ltb b.id a.id
          else ltb (rank b.status) (rank a.status))
unfolding by_status
by_rank a b = rw ((alphabetical b.status a.status).0, (alphabetical b.status a.status).1)

by_status_total : IsTotalOrder by_status
by_status_total = record {
  either_way = λ x y h. ground (arith, by_rank x y, by_rank y x);
  through = λ x y z h k. ground (arith, by_rank x y, by_rank y z, by_rank x z);
}

abbrev valid_sort : String → Bool
valid_sort sort = sort == "created_at" || sort == "status"

-- The orders that a query selects, before sorting and paging.
abbrev selected : Actor → String → Option String → ℕ → ℕ → Memory → List DeliveryOrder
selected a sort status_filter limit offset s =
    keep_if (has_status status_filter)
      (keep_if (shown (query_of a limit offset sort status_filter)) (values s.orders))

-- An order that the actor may see and that has the status asked for.
pub record Fits (a : Actor) (status_filter : Option String) (s : Memory) (o : DeliveryOrder)
    : Type 0 where
  pub among : Among o (values s.orders)
  pub seen : may_see a o ≡ true
  pub status : has_status status_filter o ≡ true

module _ (a : Actor) (sort : String) (status_filter : Option String) (limit offset : ℕ)
    (s : Memory) where
  selected-Fits :
      (o : DeliveryOrder)
      → Among o (selected a sort status_filter limit offset s) ↔ Fits a status_filter s o
  selected-Fits o =
      let q = query_of a limit offset sort status_filter in
      ground (
        arith,
        Among-keep_if (has_status status_filter) (keep_if (shown q) (values s.orders)) o,
        Among-keep_if (shown q) (values s.orders) o,
        shown-eq-may_see a limit offset sort status_filter o,
      )

  abbrev sorted : List DeliveryOrder
  sorted = sort_visible sort (selected a sort status_filter limit offset s)

  by_sort-Fits :
      (before : DeliveryOrder → DeliveryOrder → Bool) (o : DeliveryOrder)
      → Among o (sort_by before (selected a sort status_filter limit offset s))
        ↔ Fits a status_filter s o
  by_sort-Fits before o =
      let iff = Among-sort_by before (selected a sort status_filter limit offset s) o in
      ((λ m. (selected-Fits o).0 (iff.0 m)), λ f. iff.1 ((selected-Fits o).1 f))

  sorted-Fits : (o : DeliveryOrder) → Among o sorted ↔ Fits a status_filter s o
  sorted-Fits o = elim (Bool-cases (sort == "status")) [
    | inl by ↦ rw by (by_sort-Fits by_status o)
    | inr other ↦ rw other (by_sort-Fits by_created o)
  ]

  -- The order of the keys that `sort` names.
  abbrev pub key_order : DeliveryOrder → DeliveryOrder → Bool
  key_order = if sort == "status" then by_status else by_created

  sorted-IsOrdered : IsOrdered key_order sorted
  sorted-IsOrdered = elim (Bool-cases (sort == "status")) [
    | inl by ↦
        rw by (
          IsOrdered-sort_by by_status by_status_total
            (selected a sort status_filter limit offset s))
    | inr other ↦ rw other (
        IsOrdered-sort_by by_created by_created_total
          (selected a sort status_filter limit offset s))
  ]

  length-sorted : length sorted ≤ length (values s.orders)
  length-sorted = elim (Bool-cases (sort == "status")) [
    | inl by ↦ rw by (
        omega (
          arith,
          length-sort_by by_status (selected a sort status_filter limit offset s),
          length-selected,
        ))
    | inr other ↦ rw other (
        omega (
          arith,
          length-sort_by by_created (selected a sort status_filter limit offset s),
          length-selected,
        ))
  ]
    where
      length-selected :
          length (selected a sort status_filter limit offset s) ≤ length (values s.orders)
      length-selected =
          let q = query_of a limit offset sort status_filter in
          omega (
            arith,
            length-keep_if (has_status status_filter) (keep_if (shown q) (values s.orders)),
            length-keep_if (shown q) (values s.orders),
          )

  -- The store holds as many orders that fit as the query selects.
  count-sorted :
      length sorted
      ≡ length (keep_if (has_status status_filter) (keep_if (may_see a) (values s.orders)))
  count-sorted = elim (Bool-cases (sort == "status")) [
    | inl by ↦
        rw by
          (length-sort_by by_status (selected a sort status_filter limit offset s) ∙ count-selected)
    | inr other ↦
        rw other (
          length-sort_by by_created (selected a sort status_filter limit offset s) ∙ count-selected)
  ]
    where
      count-selected :
          length (selected a sort status_filter limit offset s)
          ≡ length (keep_if (has_status status_filter) (keep_if (may_see a) (values s.orders)))
      count-selected =
          ap (λ xs. length (keep_if (has_status status_filter) xs))
            (keep_if-same (shown (query_of a limit offset sort status_filter)) (may_see a)
              (shown-eq-may_see a limit offset sort status_filter) (values s.orders))

  -- The whole listing, of which an answer is a page.
  pub record IsWhole (all : List DeliveryOrder) : Type 0 where
    pub exactly : (o : DeliveryOrder) → Among o all ↔ Fits a status_filter s o
    pub each_once :
        length all
        ≡ length (keep_if (has_status status_filter) (keep_if (may_see a) (values s.orders)))
    pub in_order : IsOrdered key_order all

  list_visible_lem : list_visible (query_of a limit offset sort status_filter) s ≡ (
      if valid_sort sort
      then (ok (page limit offset sorted), s)
      else (err (value_error "unsupported sort field"), s))
  unfolding list_visible
  list_visible_lem = ground arith

  -- What a page of the listing is.
  pub record IsListing (xs : List DeliveryOrder) : Type 0 where
    pub fits : (o : DeliveryOrder) → Among o xs → Fits a status_filter s o
    pub bounded : length xs ≤ limit
    pub ordered : IsOrdered key_order xs
    pub complete :
        offset ≡ 0
        → length (values s.orders) ≤ limit
        → (o : DeliveryOrder) → Fits a status_filter s o
        → Among o xs
    pub paged : (all : List DeliveryOrder) × IsWhole all × (xs ≡ take limit (drop offset all))

  page-IsListing : IsListing (page limit offset sorted)
  page-IsListing = record {
    fits = λ o m.
        (sorted-Fits o).0 (Among-drop offset sorted o (Among-take limit (drop offset sorted) o m));
    bounded = length-take limit (drop offset sorted);
    ordered =
        IsOrdered-take key_order limit (drop offset sorted)
          (IsOrdered-drop key_order offset sorted sorted-IsOrdered);
    complete = λ first room o f.
        subst (Among o) (sym (first_page limit offset sorted first (omega (arith, length-sorted))))
          ((sorted-Fits o).1 f);
    paged = (
      sorted,
      record { exactly = sorted-Fits; each_once = count-sorted; in_order = sorted-IsOrdered },
      refl,
    );
  }

-- A listing by an actor, whatever the sort, the filter and the page: an unsupported sort field is
-- refused. Otherwise there is a list of exactly the orders of the store that access.py lets the actor
-- see and that have the status asked for, as many as the store holds, in the order of the sort keys, and
-- the answer is what is left of it after the first `offset` orders, cut to `limit` orders. So the answer
-- holds only such orders, at most `limit` of them, in that order; the first page holds all of them if
-- the store has no more than `limit` orders. Nothing is written.
pub list_visible_respects_access :
    (a : Actor) (sort : String) (status_filter : Option String) (limit offset : ℕ) (s : Memory)
    → ((xs : List DeliveryOrder) × (list_visible (query_of a limit offset sort status_filter) s
          ≡ (ok xs, s))
        × IsListing a sort status_filter limit offset s xs)
      ⊎ ((list_visible (query_of a limit offset sort status_filter) s
            ≡ (err (value_error "unsupported sort field"), s))
          × (sort ≢ "created_at")
          × (sort ≢ "status"))
list_visible_respects_access a sort status_filter limit offset s =
    elim (Bool-cases (valid_sort sort)) [
      | inl valid ↦ inl (
        page limit offset (sorted a sort status_filter limit offset s),
        rw (list_visible_lem, valid),
        page-IsListing a sort status_filter limit offset s,
      )
      | inr not_valid ↦ inr (
        rw (list_visible_lem, not_valid),
        ground (arith, eq_iff sort "created_at", eq_iff sort "status"),
        ground (arith, eq_iff sort "created_at", eq_iff sort "status"),
      )
    ]
