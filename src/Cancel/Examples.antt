-- ===== src/Cancel/Examples.antt =====
-- A cancel that fails before its time is up.
use ozo_pg.Base.{◌≡◌, refl, [], ◌∷◌, false, some, arith}
use ozo_pg.Error.{OzoError, ozo_error}
use ozo_pg.Error.Examples.{linux}
use ozo_pg.Cancel.{CancelCall, CancelEnd, cancelled, timer, initial, end_all}
use ozo_pg.Cancel.Once.{IsCall, end_all-once}

abbrev refused : CancelEnd
refused = cancelled (false, 110 ∷ 111 ∷ 0 ∷ 0 ∷ [])

refused_call :
    (end_all linux (refused ∷ timer ∷ []) initial).calls
    ≡ (some (ozo_error OzoError.pq_cancel_failed), 110 ∷ 111 ∷ []) ∷ []
unfolding end_all initial
refused_call = refl

end_all-once_example :
    (call : CancelCall) × ((end_all linux (refused ∷ timer ∷ []) initial).calls ≡ call ∷ [])
    × IsCall linux refused call
end_all-once_example = end_all-once linux refused (timer ∷ []) (omega arith)
