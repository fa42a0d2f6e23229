-- ===== src/Calls/Handlers.antt =====
-- Every handler of src/calls/calls.service.ts keeps the invariant of the calls and moves each call along
-- its diagram.
use chatwave_backend.Base.{
  ℕ, ◌≡◌, sym, subst, ◌∙◌, ◌≢◌, Bool, false, not, Option, none, some, List, [], ◌∷◌, arith, All,
  All-filter, filter,
}
use chatwave_backend.Base.Rows.{
  find_row, IsStored, Unique, Unique-filter, All-IsStored, save_row-IsStored, find_row-All,
  key-find_row,
}
use chatwave_backend.Env.{Env}
use chatwave_backend.Schema.User.{AuthViewer}
use chatwave_backend.Schema.Call.{Call, CallStatus, ringing, IcePath}
use chatwave_backend.World.State.{World, Action, for_each}
use chatwave_backend.World.Effects.{save_call, call_id, load_call}
use chatwave_backend.World.Keeps.{Keeps, pure-Keeps, seq-Keeps}
use chatwave_backend.World.Hoare.{
  Hoare, Always, framed, with_fact, pure-Hoare, gets-Hoare, or_throw-Hoare, branch-Hoare,
  bind-Hoare, seq-Hoare, weaken, strengthen, throw_if-Hoare, modify-Hoare,
}
use chatwave_backend.Calls.Rows.{
  is_live, is_ringing, FinalStatus, finish_status, Conclusion, conclude_row, answer_row,
  decline_row, join_row,
}
use chatwave_backend.Calls.Service.{
  is_live_with, is_overdue, conclude, conclude_each, hangup_of, hangup_all_for_user, expiry,
  expire_rings, require_participant, require_callee, accept, store_declined, decline, hang_up,
  mark_joined,
}
use chatwave_backend.Calls.Lifecycle.{
  RowStep, RowStep-refl, RowStep-trans, IsValid, Fits, conclude_row-RowStep, conclude_row-IsValid,
  answer_row-RowStep, answer_row-IsValid, decline_row-RowStep, decline_row-IsValid,
  join_row-RowStep, join_row-IsValid,
}
use chatwave_backend.Calls.Frame.{
  Framed, emit-Keeps, clear_call_ring-Keeps, clear_call_busy-Keeps, get_by_id-Keeps,
  notify_ended-Keeps, settle-Keeps,
}
use chatwave_backend.Calls.Tracks.{Tracks, Tracks-Framed, calls-Framed, save-Tracks}

-- The row as it was loaded is the row that is stored.
abbrev pub Loaded : Call → World → Type 0
Loaded row w = IsStored call_id w.calls row

-- The rows that a loop has still to visit.
abbrev pub AllLoaded : List Call → World → Type 0
AllLoaded rows w = All (IsStored call_id w.calls) rows

module _ (env : Env) (v : World) where
  pub framed_step :
      (F : List Call → Type 0) {A : Type 0} {m : Action A}
      → ((P : World → Type 0) → Framed P → Keeps P m)
      → Hoare (Tracks v) (λ w. F w.calls) m (λ _ w. F w.calls)
  framed_step F h =
      framed (Tracks v) (h (Tracks v) (Tracks-Framed v)) (h (λ w. F w.calls) (calls-Framed F))

  save_call-Hoare :
      (r s : Call) (rest : List Call)
      → RowStep r s
      → (IsValid r → IsValid s)
      → All (λ y. call_id y ≢ r.id) rest
      → Hoare (Tracks v) (λ w. Loaded r w × AllLoaded rest w) (save_call s) (λ _. AllLoaded rest)
  unfolding save_call
  save_call-Hoare r s rest st keep ne = modify-Hoare (Tracks v) _ λ w t p. (
    save-Tracks v w r s t p.0 st
        (keep (find_row-All call_id IsValid r.id w.calls r t.good.valid p.0)),
    save_row-IsStored call_id s w.calls rest
        (subst (λ n. All (λ y. call_id y ≢ n) rest) (sym st.id) ne) p.1,
  )

  -- `row` is the loaded `r` with what the handler has changed on it.
  conclude-Hoare :
      (input : Conclusion) (r row : Call) (rest : List Call)
      → RowStep r row
      → (IsValid r → IsValid row)
      → Fits input row
      → All (λ y. call_id y ≢ r.id) rest
      → Hoare
          (Tracks v)
          (λ w. Loaded r w × AllLoaded rest w)
          (conclude env input row)
          (λ _. AllLoaded rest)
  unfolding conclude
  conclude-Hoare input r row rest st keep fits ne =
      branch-Hoare (Tracks v) (not (is_live row.status))
        (λ dead. pure-Hoare (Tracks v) row (λ w t p. p.1))
        (λ live. bind-Hoare (Tracks v) (gets-Hoare (Tracks v) _) λ now.
          strengthen (Tracks v)
            (seq-Hoare (Tracks v)
              (save_call-Hoare r (conclude_row now input row) rest
                (RowStep-trans st (conclude_row-RowStep now input row (ground arith) fits))
                (λ valid. conclude_row-IsValid now input row (ground arith) fits (keep valid)) ne)
              (framed_step (λ cs. All (IsStored call_id cs) rest)
                (λ P fr. settle-Keeps P fr env input (conclude_row now input row))))
            (λ w t p. p.0))

  -- The loop over the rows that a query found.
  conclude_each-Hoare :
      (input : Call → Conclusion) (rows : List Call)
      → ((row : Call) → Fits (input row) row)
      → Unique call_id rows
      → Hoare (Tracks v) (AllLoaded rows) (conclude_each env input rows) (λ _ w. Always w)
  unfolding conclude_each for_each
  conclude_each-Hoare input [] fits u = pure-Hoare (Tracks v) tt (λ w t p. tt)
  conclude_each-Hoare input (row ∷ rows) fits u =
      seq-Hoare (Tracks v)
        (seq-Hoare (Tracks v)
          (conclude-Hoare (input row) row row rows (RowStep-refl row) (λ h. h) (fits row) u.0)
          (pure-Hoare (Tracks v) tt (λ w t p. p)))
        (conclude_each-Hoare input rows fits u.1)

  -- The rows that a query finds are loaded, and no two of them share an id.
  found_rows :
      (p : Call → Bool) (rows : List Call) (w : World)
      → Tracks v w
      → rows ≡ filter p w.calls
      → AllLoaded rows w × Unique call_id rows
  found_rows p rows w t e = (
    subst (λ rs. All (IsStored call_id w.calls) rs) (sym e)
        (All-filter (IsStored call_id w.calls) p w.calls
          (All-IsStored call_id w.calls t.good.unique)),
    subst (Unique call_id) (sym e) (Unique-filter call_id p w.calls t.good.unique),
  )

  hangup_of-Fits : (user : ℕ) (row : Call) → Fits (hangup_of env user row) row
  unfolding finish_status
  hangup_of-Fits user row e = ground arith

  expiry-Fits : (row : Call) → Fits (expiry env row) row
  expiry-Fits row e = cc

  pub hangup_all-Hoare :
      (user : ℕ) → Hoare (Tracks v) Always (hangup_all_for_user env user) (λ _ w. Always w)
  unfolding hangup_all_for_user
  hangup_all-Hoare user =
      branch-Hoare (Tracks v) _ (λ _. pure-Hoare (Tracks v) tt (λ w t p. tt))
        (λ _. bind-Hoare (Tracks v) (gets-Hoare (Tracks v) _) λ rows.
          strengthen (Tracks v)
            (with_fact (Tracks v)
              (conclude_each-Hoare (hangup_of env user) rows (hangup_of-Fits user)))
            (λ w t p. found_rows (is_live_with user) rows w t p.1))

  pub expire_rings-Hoare : Hoare (Tracks v) Always (expire_rings env) (λ _ w. Always w)
  unfolding expire_rings
  expire_rings-Hoare = bind-Hoare (Tracks v) (gets-Hoare (Tracks v) _) λ rows.
      seq-Hoare (Tracks v)
        (strengthen (Tracks v)
          (with_fact (Tracks v) (conclude_each-Hoare (expiry env) rows expiry-Fits))
          (λ w t p. found_rows (is_overdue w.now env.ring_timeout_ms) rows w t p.1))
        (pure-Hoare (Tracks v) _ (λ w t p. tt))

  Loaded-of_found :
      (id : ℕ) (found : Option Call) (row : Call) (w : World)
      → found ≡ find_row call_id id w.calls
      → found ≡ some row
      → Loaded row w
  Loaded-of_found id found row w e f =
      let here : find_row call_id id w.calls ≡ some row = sym e ∙ f in
      subst (λ n. find_row call_id n w.calls ≡ some row)
        (sym (key-find_row call_id id w.calls row here)) here

  require_participant-Hoare :
      (id user : ℕ) → Hoare (Tracks v) Always (require_participant env id user) Loaded
  unfolding require_participant load_call
  require_participant-Hoare id user = seq-Hoare (Tracks v) (throw_if-Hoare (Tracks v) _ _) (
      bind-Hoare (Tracks v) (gets-Hoare (Tracks v) _) λ found.
        bind-Hoare (Tracks v) (or_throw-Hoare (Tracks v) found _) λ row.
          seq-Hoare (Tracks v) (throw_if-Hoare (Tracks v) _ _)
            (pure-Hoare (Tracks v) row (λ w t p. Loaded-of_found id found row w p.0.0.1 p.0.1)))

  require_callee-Hoare : (id user : ℕ) → Hoare (Tracks v) Always (require_callee env id user) Loaded
  unfolding require_callee
  require_callee-Hoare id user = bind-Hoare (Tracks v) (require_participant-Hoare id user) λ row.
      seq-Hoare (Tracks v) (throw_if-Hoare (Tracks v) _ _)
        (pure-Hoare (Tracks v) row (λ w t p. p.0))

  ringing_of : (s : CallStatus) → not (is_ringing s) ≡ false → s ≡ ringing
  ringing_of s h = ground arith

  pub accept-Hoare :
      (viewer : AuthViewer) (id : ℕ)
      → Hoare (Tracks v) Always (accept env viewer id) (λ _ w. Always w)
  unfolding accept
  accept-Hoare viewer id = bind-Hoare (Tracks v) (require_callee-Hoare id viewer.id) λ row.
      seq-Hoare (Tracks v) (throw_if-Hoare (Tracks v) _ _) (
        with_fact (Tracks v) λ rings. bind-Hoare (Tracks v) (gets-Hoare (Tracks v) _) λ now.
          seq-Hoare (Tracks v)
            (strengthen (Tracks v)
              (save_call-Hoare row (answer_row now viewer.id row) []
                (answer_row-RowStep now viewer.id row (ringing_of row.status rings))
                (answer_row-IsValid now viewer.id row (ringing_of row.status rings)) tt)
              (λ w t p. (p.0, tt)))
            (framed_step (λ cs. Unit)
              (λ P fr. seq-Keeps P (clear_call_ring-Keeps P fr _) (
                seq-Keeps P (emit-Keeps P fr _)
                  (seq-Keeps P (emit-Keeps P fr _) (pure-Keeps P _))))))

  store_declined-Hoare :
      (user : ℕ) (group : Bool) (r s : Call)
      → RowStep r s
      → (IsValid r → IsValid s)
      → Hoare (Tracks v) (Loaded r) (store_declined env user group s) (λ _ w. Always w)
  unfolding store_declined
  store_declined-Hoare user group r s st keep =
      branch-Hoare (Tracks v) _
        (λ _.
          seq-Hoare (Tracks v)
            (strengthen (Tracks v)
              (conclude-Hoare
                (record { status = FinalStatus.declined; ended_by = some user; ice = none }) r s []
                st keep (λ e d. cc) tt)
              (λ w t p. (p, tt)))
            (pure-Hoare (Tracks v) tt (λ w t p. tt)))
        (λ _.
          seq-Hoare (Tracks v)
            (strengthen (Tracks v) (save_call-Hoare r s [] st keep tt) (λ w t p. (p, tt)))
            (framed_step (λ cs. Unit) (λ P fr. emit-Keeps P fr _)))

  pub decline-Hoare :
      (viewer : AuthViewer) (id : ℕ)
      → Hoare (Tracks v) Always (decline env viewer id) (λ _ w. Always w)
  unfolding decline
  decline-Hoare viewer id = bind-Hoare (Tracks v) (require_callee-Hoare id viewer.id) λ row.
      seq-Hoare (Tracks v) (throw_if-Hoare (Tracks v) _ _) (
        with_fact (Tracks v) λ rings. bind-Hoare (Tracks v) (gets-Hoare (Tracks v) _) λ now.
          seq-Hoare (Tracks v)
            (strengthen (Tracks v)
              (framed_step (λ cs. IsStored call_id cs row) (λ P fr. clear_call_busy-Keeps P fr _))
              (λ w t p. p.0))
            (bind-Hoare (Tracks v)
              (framed_step (λ cs. IsStored call_id cs row) (λ P fr. get_by_id-Keeps P fr env _))
              λ conversation.
                store_declined-Hoare viewer.id _ row (decline_row now viewer.id row)
                  (decline_row-RowStep now viewer.id row (ringing_of row.status rings))
                  (decline_row-IsValid now viewer.id row (ringing_of row.status rings))))

  pub hang_up-Hoare :
      (viewer : AuthViewer) (id : ℕ) (ice : Option IcePath)
      → Hoare (Tracks v) Always (hang_up env viewer id ice) (λ _ w. Always w)
  unfolding hang_up
  hang_up-Hoare viewer id ice =
      bind-Hoare (Tracks v) (require_participant-Hoare id viewer.id) λ row.
        branch-Hoare (Tracks v) _
          (λ _.
            strengthen (Tracks v)
              (framed_step (λ cs. Unit)
                (λ P fr. seq-Keeps P (notify_ended-Keeps P fr row) (pure-Keeps P row)))
              (λ w t p. tt))
          (λ _.
            weaken (Tracks v)
              (strengthen (Tracks v)
                (conclude-Hoare
                  (record {
                    status = finish_status row viewer.id;
                    ended_by = some viewer.id;
                    ice = ice;
                  })
                  row row [] (RowStep-refl row) (λ h. h) (hangup_of-Fits viewer.id row) tt)
                (λ w t p. (p, tt)))
              (λ a w t p. tt))

  pub mark_joined-Hoare :
      (id user : ℕ) → Hoare (Tracks v) Always (mark_joined env id user) (λ _ w. Always w)
  unfolding mark_joined
  mark_joined-Hoare id user = bind-Hoare (Tracks v) (require_participant-Hoare id user) λ row.
      bind-Hoare (Tracks v) (gets-Hoare (Tracks v) _) λ now.
        branch-Hoare (Tracks v) _ (λ _. pure-Hoare (Tracks v) row (λ w t p. tt))
          (λ _.
            seq-Hoare (Tracks v)
              (strengthen (Tracks v)
                (save_call-Hoare row (join_row now user row) [] (join_row-RowStep now user row)
                  (join_row-IsValid now user row) tt)
                (λ w t p. (p.0, tt)))
              (pure-Hoare (Tracks v) _ (λ w t p. tt)))
