-- ===== src/Transactions.antt =====
-- src/delivery_service/transactions.py: the SQLSTATE of an exception and the retries of a serializable
-- transaction. Exceptions are objects that name each other by identity, so their chains may be cyclic.
pub mod Walk
pub mod Attempts
use innoprog_fastapi_deliver.Prelude.{
  ℕ, zero, suc, ◌+◌, ◌*◌, ◌^◌, String, Bool, true, false, not, ◌&&◌, ◌||◌, Option, none, some, List,
  [], ◌∷◌, any_of, length, number_eq, text_eq, ◌==◌, is_value, ltb, if◌then◌else◌, Exec, Result, ok,
  err,
}
use innoprog_fastapi_deliver.Dict
use innoprog_fastapi_deliver.Dict.{Dict}
use innoprog_fastapi_deliver.Errors.{Error, value_error, assertion_error}

-- what `postgres_sqlstate` reads of an exception
pub record Raised : Type 0 where
  pub sqlstate : Option String
  pub pgcode : Option String
  pub orig : Option ℕ
  pub cause : Option ℕ
  pub context : Option ℕ

-- The exceptions by `id(e)`. An identity that names none is an object without these attributes.
abbrev pub Heap : Type 0
Heap = Dict ℕ Raised

abbrev pub plain_object : Raised
plain_object = record { sqlstate = none; pgcode = none; orig = none; cause = none; context = none }

unfoldable pub object : Heap → ℕ → Raised
object heap x = elim (Dict.get x heap) [ none ↦ plain_object | some e ↦ e ]

-- `getattr(current, "sqlstate", None) or getattr(current, "pgcode", None)`
abbrev pub code_of : Raised → Option String
code_of e = elim e.sqlstate [ none ↦ e.pgcode | some s ↦ if s == "" then e.pgcode else some s ]

abbrev pub push : Option ℕ → List ℕ → List ℕ
push none pending = pending
push (some x) pending = x ∷ pending

-- the loop over the three links; `pending.pop()` takes the last that was appended
abbrev pub nested : Raised → List ℕ → List ℕ
nested e pending = push e.context (push e.cause (push e.orig pending))

abbrev pub seen_in : List ℕ → ℕ → Bool
seen_in seen x = any_of (λ y. y == x) seen

pub record Visit : Type 0 where
  pub answer : Option String
  pub seen : List ℕ
  pub pending : List ℕ

-- the body of the loop for the popped exception
abbrev pub unless_coded : ℕ → Raised → List ℕ → List ℕ → Visit
unless_coded current e seen pending = elim (code_of e) [
  | none ↦ record { answer = none; seen = current ∷ seen; pending = nested e pending }
  | some value ↦ record { answer = some value; seen = current ∷ seen; pending = pending }
]

unfoldable pub visit : Heap → ℕ → List ℕ → List ℕ → Visit
visit heap current seen pending =
    if seen_in seen current
    then record { answer = none; seen = seen; pending = pending }
    else unless_coded current (object heap current) seen pending

-- `while pending: ...`; `none` is a loop that has not ended after that many passes
unfoldable pub walk : Heap → ℕ → List ℕ → List ℕ → Option (Option String)
walk heap passes seen [] = some none
walk heap zero seen (current ∷ pending) = none
walk heap (suc passes) seen (current ∷ pending) =
    let v = visit heap current seen pending in
    let rest = walk heap passes v.seen v.pending in
    elim v.answer [ none ↦ rest | some value ↦ some (some value) ]

-- Three links for each exception, and the first one.
abbrev pub enough_passes : Heap → ℕ
enough_passes heap = 3 * length heap + 1

unfoldable pub postgres_sqlstate : Heap → ℕ → Option (Option String)
postgres_sqlstate heap error = walk heap (enough_passes heap) [] (error ∷ [])

-- RETRYABLE_SQLSTATES
abbrev pub is_conflict : String → Bool
is_conflict code = code == "40001" || code == "40P01"

-- What `run_serializable` works with: the use case with the commit of its transaction, the exceptions
-- that the database driver raised, the random jitter of each pause, and what others do to the data
-- while it sleeps. Delays are microseconds.
pub record Setting (D A : Type 0) : Type 1 where
  pub operation : Exec D Error A
  pub dbapi_error : Error → Option ℕ  -- the identity of a `DBAPIError`
  pub heap : Heap
  pub base_delay : ℕ
  pub jitter : ℕ → ℕ
  pub sleep : ℕ → D → D

module _ {D A : Type 0} (w : Setting D A) where
  -- `async with session.begin()`: an exception rolls back
  abbrev pub rolled_back : D → Result Error A × D → Result Error A × D
  rolled_back s (ok a, t) = (ok a, t)
  rolled_back s (err e, t) = (err e, s)

  abbrev pub found_conflict : Option (Option String) → Bool
  found_conflict (some (some code)) = is_conflict code
  found_conflict _ = false

  unfoldable pub is_retryable : Error → Bool
  is_retryable e = elim (w.dbapi_error e) [
    | none ↦ false
    | some x ↦ found_conflict (postgres_sqlstate w.heap x)
  ]

  abbrev pub is_last : ℕ → Bool
  is_last left = left == 0

  -- the passes of the loop from an attempt on, by how many are left
  unfoldable pub attempts_from : ℕ → ℕ → Exec D Error A
  attempts_from attempt zero s = (err assertion_error, s)
  attempts_from attempt (suc left) s =
      let (r, t) = rolled_back s (w.operation s) in
      let rest =
        attempts_from (suc attempt) left
          (w.sleep (w.base_delay * 2 ^ attempt + w.jitter attempt) t) in
      elim r [
        | ok a ↦ (ok a, t)
        | err e ↦ if not (is_retryable e) || is_last left then (err e, t) else rest
      ]

  unfoldable pub run_serializable : ℕ → Exec D Error A
  run_serializable attempts s =
      if ltb attempts 1
      then (err (value_error "attempts must be positive"), s)
      else attempts_from 0 attempts s
