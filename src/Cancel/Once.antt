-- ===== src/Cancel/Once.antt =====
-- impl/cancel.h: the handler is called once, by the end that comes first.
use ozo_pg.Base.{◌≡◌, refl, ◌≤◌, List, [], ◌∷◌, none, some, true, false, length, arith}
use ozo_pg.Error.{OzoError, ozo_error, Boost, timed_out}
use ozo_pg.Connection.Message.{IsCut, cut-IsCut}
use ozo_pg.Cancel.{
  CancelCall, dispatch_cancel, initial, on_cancelled, on_timer_expired, CancelEnd, cancelled, timer,
  end_with, end_all, timed_out_message,
}

-- What an end says to the handler: no error and no message when `PQcancel` succeeded, its message without
-- the null characters behind it when it failed, and the time-out.
abbrev pub IsCall : Boost → CancelEnd → CancelCall → Type 0
IsCall b (cancelled (true, buffer)) (ec, message) = (ec ≡ none) × (message ≡ [])
IsCall b (cancelled (false, buffer)) (ec, message) =
    (ec ≡ some (ozo_error OzoError.pq_cancel_failed)) × IsCut 0 buffer message
IsCall b timer (ec, message) = (ec ≡ some (b.asio timed_out)) × (message ≡ timed_out_message)

call_of : Boost → CancelEnd → CancelCall
call_of b (cancelled pq) = dispatch_cancel pq
call_of b timer = (some (b.asio timed_out), timed_out_message)

call_of-IsCall : (b : Boost) (e : CancelEnd) → IsCall b e (call_of b e)
unfolding call_of dispatch_cancel
call_of-IsCall b (cancelled (true, buffer)) = (refl, refl)
call_of-IsCall b (cancelled (false, buffer)) = (refl, cut-IsCut 0 buffer)
call_of-IsCall b timer = (refl, refl)

end_all-calls :
    (b : Boost) (e : CancelEnd) (es : List CancelEnd)
    → length es ≤ 1
    → (end_all b (e ∷ es) initial).calls ≡ call_of b e ∷ []
unfolding end_all end_with initial on_cancelled on_timer_expired call_of
end_all-calls b (cancelled p) [] h = refl
end_all-calls b (cancelled p) (cancelled q ∷ []) h = refl
end_all-calls b (cancelled p) (timer ∷ []) h = refl
end_all-calls b timer [] h = refl
end_all-calls b timer (cancelled q ∷ []) h = refl
end_all-calls b timer (timer ∷ []) h = refl
end_all-calls b (cancelled p) (f ∷ g ∷ es) h = absurd (omega (arith, h))
end_all-calls b timer (f ∷ g ∷ es) h = absurd (omega (arith, h))

-- Where the operation of cancelling and the timer end in any order, or one of them alone, the handler is
-- called once, with what the first of them says.
pub end_all-once :
    (b : Boost) (e : CancelEnd) (es : List CancelEnd)
    → length es ≤ 1
    → (call : CancelCall) × ((end_all b (e ∷ es) initial).calls ≡ call ∷ []) × IsCall b e call
end_all-once b e es h = (call_of b e, end_all-calls b e es h, call_of-IsCall b e)
