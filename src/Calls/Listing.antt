-- ===== src/Calls/Listing.antt =====
-- `list` of src/calls/calls.service.ts against `callDirection` of calls.constants.ts.
use chatwave_backend.Base.{ℕ, ◌≡◌, Bool, true, false, arith}
use chatwave_backend.Schema.Call.{Call}
use chatwave_backend.Calls.Rows.{
  ViewerDirection, missed_call, call_direction, CallFilter, passes_filter,
}

abbrev pub is_missed_call : ViewerDirection → Bool
is_missed_call missed_call = true
is_missed_call _ = false

-- The calls that the query of the "missed" filter finds are the ones that the list shows as missed.
passes_filter-missed :
    (viewer : ℕ) (row : Call)
    → passes_filter CallFilter.missed viewer row
      ≡ is_missed_call (call_direction row.status row.initiated_by viewer)
unfolding passes_filter call_direction
passes_filter-missed viewer row = ground arith
