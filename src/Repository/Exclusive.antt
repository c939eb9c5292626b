-- ===== src/Repository/Exclusive.antt =====
-- What a claim of the in-memory repository hands over, and that it keeps the invariant.
use innoprog_fastapi_deliver.Prelude.{◌≡◌, inl, inr, refl, Option, some, arith, ok, number_eq}
use innoprog_fastapi_deliver.Runtime.{Runtime}
use innoprog_fastapi_deliver.Domain.{DeliveryOrder}
use innoprog_fastapi_deliver.Ports.{Claim}
use innoprog_fastapi_deliver.Repository.{Memory, publish, claim_next_created_order}
use innoprog_fastapi_deliver.Repository.Invariant.{IsConsistent, stored_of_Among}
use innoprog_fastapi_deliver.Repository.Writes.{stored, given_to, published-IsConsistent}
use innoprog_fastapi_deliver.Repository.Claims.{
  claim_event, Waits, IsOldest, Claimed, nothing, handed_over, Answers, claim_takes_oldest,
}

-- The order handed over, and the state after it.
abbrev pub Handed : Runtime → Claim → Memory → DeliveryOrder → Memory → Type 0
Handed py c s o s' =
    (candidate : DeliveryOrder) × IsOldest c s candidate
    × (o ≡ given_to candidate c.courier_id)
    × (s' ≡ publish py (claim_event c candidate) (stored o s))

Claimed-Handed :
    {py : Runtime} {c : Claim} {s s' : Memory} {r : Option DeliveryOrder} (o : DeliveryOrder)
    → Claimed py c s r s'
    → r ≡ some o
    → Handed py c s o s'
Claimed-Handed o (nothing none_waits) e = cc
Claimed-Handed o (handed_over candidate old) e = (candidate, old, ground arith, ground arith)

pub Answers-Handed :
    (py : Runtime) (c : Claim) (s : Memory) (o : DeliveryOrder)
    → Answers py c s (claim_next_created_order py c s)
    → (claim_next_created_order py c s).0 ≡ ok (some o)
    → Handed py c s o (claim_next_created_order py c s).1
Answers-Handed py c s o (inl (r, e, claimed, _)) h = Claimed-Handed o claimed (ground arith)
Answers-Handed py c s o (inr (e, _, _)) h = cc

pub Handed-IsConsistent :
    {py : Runtime} (c : Claim) (s : Memory) (candidate : DeliveryOrder)
    → Waits c s candidate
    → IsConsistent py s
    → IsConsistent py
        (publish py (claim_event c candidate) (stored (given_to candidate c.courier_id) s))
Handed-IsConsistent {py} c s candidate w h =
    let found = stored_of_Among s candidate h w.among in
    published-IsConsistent candidate (given_to candidate c.courier_id) s (claim_event c candidate)
      found
      (record {
        id = refl;
        tenant_id = refl;
        grows = omega arith;
        weight = ground (arith, h.weights candidate.id candidate found);
      })
      (omega arith)
      (record {
        order_id = refl;
        version = refl;
        tenant_id = refl;
        leaves = refl;
        enters = refl;
        legal = rw w.status;
      })
      h

-- A claim keeps the invariant.
pub claim-IsConsistent :
    {py : Runtime} (c : Claim) (s : Memory)
    → IsConsistent py s
    → IsConsistent py (claim_next_created_order py c s).1
claim-IsConsistent {py} c s h = from_answer (claim_takes_oldest py c s)
  where
    kept : {r : Option DeliveryOrder} {s' : Memory} → Claimed py c s r s' → IsConsistent py s'
    kept (nothing _) = h
    kept (handed_over candidate old) = Handed-IsConsistent c s candidate old.waits h

    from_answer :
        Answers py c s (claim_next_created_order py c s)
        → IsConsistent py (claim_next_created_order py c s).1
    from_answer (inl (_, _, claimed, _)) = kept claimed
    from_answer (inr (_, same, _)) = rw same h
