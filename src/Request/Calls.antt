-- ===== src/Request/Calls.antt =====
-- Which calls of the handler belong to which state of a request.
use ozo_pg.Base.{
  ◌≤◌, ◌<◌, ◌≡◌, refl, sym, ◌⊎◌, inl, inr, List, [], ◌∷◌, ◌++◌, Option, none, some, Bool, true,
  false, true≢false, length, arith,
}
use ozo_pg.Error.{ErrorCode}
use ozo_pg.Request.{QueryState, error, send_finish, send_in_progress}

abbrev pub IsLive : QueryState → Type 0
IsLive error = ⊥
IsLive send_finish = Unit
IsLive send_in_progress = Unit

-- Whether the reader has returned, the state of the query, and the calls of the handler, as they belong
-- together.
pub data Calls : Bool → QueryState → List (Option ErrorCode) → Type 0 where
  going : (q : QueryState) → IsLive q → Calls false q []
  failed : (has_returned : Bool) (ec : ErrorCode) → Calls has_returned error (some ec ∷ [])
  succeeded : (q : QueryState) → IsLive q → Calls true q (none ∷ [])
  failed_after : (ec : ErrorCode) → Calls true error (none ∷ some ec ∷ [])

pub fail-Calls :
    (w : Bool) (q : QueryState) (cs : List (Option ErrorCode)) (ec : ErrorCode)
    → IsLive q
    → Calls w q cs
    → Calls w error (cs ++ (some ec ∷ []))
fail-Calls w q cs ec live (going q' l) = failed false ec
fail-Calls w q cs ec live (failed w' ec') = absurd live
fail-Calls w q cs ec live (succeeded q' l) = failed_after ec
fail-Calls w q cs ec live (failed_after ec') = absurd live

pub return_failed-Calls :
    (q : QueryState) (cs : List (Option ErrorCode)) (ec : ErrorCode)
    → IsLive q
    → Calls false q cs
    → Calls true error (cs ++ (some ec ∷ []))
return_failed-Calls q cs ec live (going q' l) = failed true ec
return_failed-Calls q cs ec live (failed w' ec') = absurd live

pub return_done-Calls :
    (q : QueryState) (cs : List (Option ErrorCode))
    → IsLive q
    → Calls false q cs
    → Calls true q (cs ++ (none ∷ []))
return_done-Calls q cs live (going q' l) = succeeded q l
return_done-Calls q cs live (failed w' ec') = absurd live

pub return-Calls :
    (w : Bool) (q : QueryState) (cs : List (Option ErrorCode))
    → q ≡ error
    → Calls w q cs
    → Calls true q cs
return-Calls w q cs e (going q' l) = absurd (rw e at l)
return-Calls w q cs e (failed w' ec) = failed true ec
return-Calls w q cs e (succeeded q' l) = succeeded q l
return-Calls w q cs e (failed_after ec) = failed_after ec

pub relive-Calls :
    (w : Bool) (q q' : QueryState) (cs : List (Option ErrorCode))
    → IsLive q
    → IsLive q'
    → Calls w q cs
    → Calls w q' cs
relive-Calls w q q' cs live live' (going _ l) = going q' live'
relive-Calls w q q' cs live live' (failed w' ec') = absurd live
relive-Calls w q q' cs live live' (succeeded _ l) = succeeded q' live'
relive-Calls w q q' cs live live' (failed_after ec') = absurd live

abbrev pub IsCalledOnce : List (Option ErrorCode) → Type 0
IsCalledOnce cs = (c : Option ErrorCode) × (cs ≡ c ∷ [])

pub Calls-shape :
    (w : Bool) (q : QueryState) (cs : List (Option ErrorCode))
    → Calls w q cs
    → (cs ≡ []) ⊎ (IsCalledOnce cs ⊎ ((ec : ErrorCode) × (cs ≡ none ∷ some ec ∷ []) × (q ≡ error)))
Calls-shape w q cs (going q' l) = inl refl
Calls-shape w q cs (failed w' ec) = inr (inl (some ec, refl))
Calls-shape w q cs (succeeded q' l) = inr (inl (none, refl))
Calls-shape w q cs (failed_after ec) = inr (inr (ec, refl, refl))

pub Calls-live :
    (w : Bool) (q : QueryState) (cs : List (Option ErrorCode))
    → IsLive q
    → Calls w q cs
    → length cs ≤ 1
Calls-live w q cs live (going q' l) = omega arith
Calls-live w q cs live (failed w' ec) = absurd live
Calls-live w q cs live (succeeded q' l) = omega arith
Calls-live w q cs live (failed_after ec) = absurd live

pub Calls-returned :
    (w : Bool) (q : QueryState) (cs : List (Option ErrorCode))
    → w ≡ true
    → Calls w q cs
    → 0 < length cs
Calls-returned w q cs e (going q' l) = absurd (true≢false (sym e))
Calls-returned w q cs e (failed w' ec) = omega arith
Calls-returned w q cs e (succeeded q' l) = omega arith
Calls-returned w q cs e (failed_after ec) = omega arith
