-- ===== src/Calls/Tracks.antt =====
-- The invariant of the collection of calls, how the collection may change, and that saving a row and
-- adding a new call keep both.
use chatwave_backend.Base.{
  ℕ, ◌≤◌, ◌<◌, ◌≡◌, sym, subst, ◌∙◌, ◌≢◌, some, List, [], ◌∷◌, ◌++◌, arith, ◌==◌, All, All-append,
  Bool-cases, inl, inr, ==→eq, ==→ne,
}
use chatwave_backend.Base.Rows.{
  find_row, save_row, Unique, save_row-Unique, save_row-All, find_row-save_self, find_row-save_ne,
  find_row-append, find_row-All, Unique-snoc, IsStored,
}
use chatwave_backend.Schema.Call.{Call}
use chatwave_backend.World.State.{World}
use chatwave_backend.World.Effects.{call_id}
use chatwave_backend.Calls.Lifecycle.{RowStep, RowStep-refl, RowStep-trans, IsValid, HoldsSeat}
use chatwave_backend.Calls.Frame.{Framed}

-- No one has a seat that is not marked as left in both calls, each of them live.
abbrev pub Apart : Call → Call → Type 0
Apart c d = (user : ℕ) → HoldsSeat user c → ¬ HoldsSeat user d

-- No one has a seat that is not marked as left in two live calls.
abbrev pub Exclusive : List Call → Type 0
Exclusive [] = Unit
Exclusive (c ∷ cs) = All (Apart c) cs × Exclusive cs

pub record IsGood (w : World) : Type 0 where
  pub unique : Unique call_id w.calls
  pub bounded : All (λ r. r.id < w.next_id) w.calls
  pub valid : All IsValid w.calls
  pub exclusive : Exclusive w.calls

-- Every call of the first world is in the second, in a state to which its row could step.
abbrev pub Evolves : List Call → List Call → Type 0
Evolves before after =
    (k : ℕ) (r : Call)
    → find_row call_id k before ≡ some r
    → (s : Call) × (find_row call_id k after ≡ some s) × RowStep r s

pub record Tracks (v w : World) : Type 0 where
  pub good : IsGood w
  pub evolves : Evolves v.calls w.calls

pub Evolves-refl : (cs : List Call) → Evolves cs cs
Evolves-refl cs k r e = (r, e, RowStep-refl r)

pub Evolves-trans : (bs cs ds : List Call) → Evolves bs cs → Evolves cs ds → Evolves bs ds
Evolves-trans bs cs ds h j k r e =
    let (s, es, st) = h k r e in let (t, et, tt') = j k s es in (t, et, RowStep-trans st tt')

All-weaken : (n m : ℕ) (cs : List Call) → n ≤ m → All (λ r. r.id < n) cs → All (λ r. r.id < m) cs
All-weaken n m [] h k = tt
All-weaken n m (c ∷ cs) h k = (omega arith, All-weaken n m cs h k.1)

pub Tracks-Framed : (u : World) → Framed (Tracks u)
Tracks-Framed u = record {
  apply = λ v w e le same t. record {
    good = record {
      unique = subst (Unique call_id) (sym e) t.good.unique;
      bounded =
          subst (All (λ r. r.id < w.next_id)) (sym e)
            (All-weaken v.next_id w.next_id v.calls le t.good.bounded);
      valid = subst (All IsValid) (sym e) t.good.valid;
      exclusive = subst Exclusive (sym e) t.good.exclusive;
    };
    evolves = subst (Evolves u.calls) (sym e) t.evolves;
  };
}

-- A predicate that reads only the calls is framed.
pub calls-Framed : (F : List Call → Type 0) → Framed (λ w. F w.calls)
calls-Framed F = record { apply = λ v w e le same p. subst F (sym e) p }

Apart-shrink :
    (r s : Call) (cs : List Call)
    → ((user : ℕ) → HoldsSeat user s → HoldsSeat user r)
    → All (Apart r) cs
    → All (Apart s) cs
Apart-shrink r s [] h k = tt
Apart-shrink r s (c ∷ cs) h k = ((λ u hs. k.0 u (h u hs)), Apart-shrink r s cs h k.1)

Exclusive-save :
    (r s : Call) (cs : List Call)
    → find_row call_id s.id cs ≡ some r
    → ((user : ℕ) → HoldsSeat user s → HoldsSeat user r)
    → Exclusive cs
    → Exclusive (save_row call_id s cs)
Exclusive-save r s [] e h x = tt
Exclusive-save r s (c ∷ cs) e h x = elim (Bool-cases (c.id == s.id)) [
  | inl t ↦
      let same : c ≡ r = ground arith in
      rw t (Apart-shrink r s cs h (subst (λ y. All (Apart y) cs) same x.0), x.1)
  | inr t ↦
      let found : find_row call_id s.id cs ≡ some r = ground arith in
      let apart = find_row-All call_id (Apart c) s.id cs r x.0 found in
      rw t (
        save_row-All call_id (Apart c) s cs (λ u hc hs. apart u hc (h u hs)) x.0,
        Exclusive-save r s cs found h x.1,
      )
]

Evolves-save :
    (r s : Call) (cs : List Call)
    → IsStored call_id cs r
    → RowStep r s
    → Evolves cs (save_row call_id s cs)
Evolves-save r s cs stored st k q e = elim (Bool-cases (k == s.id)) [
  | inl t ↦
      let same : k ≡ s.id = ==→eq k s.id t in
      let at_r : k ≡ r.id = same ∙ st.id in
      let is_r : q ≡ r = ground arith in
      (
        s,
        subst (λ n. find_row call_id n (save_row call_id s cs) ≡ some s) (sym same)
            (find_row-save_self call_id s cs r
              (subst (λ n. find_row call_id n cs ≡ some r) (sym st.id) stored)),
        subst (λ y. RowStep y s) (sym is_r) st,
      )
  | inr t ↦ (q, find_row-save_ne call_id k s cs (==→ne k s.id t) ∙ e, RowStep-refl q)
]

-- Saving a later row of a stored call.
pub save-Tracks :
    (v w : World) (r s : Call)
    → Tracks v w
    → IsStored call_id w.calls r
    → RowStep r s
    → IsValid s
    → Tracks v (record w { calls = save_row call_id s w.calls })
save-Tracks v w r s t stored st valid = record {
  good = record {
    unique = save_row-Unique call_id s w.calls t.good.unique;
    bounded =
        save_row-All call_id (λ x. x.id < w.next_id) s w.calls
          (subst (λ n. n < w.next_id) (sym st.id)
            (find_row-All call_id (λ x. x.id < w.next_id) r.id w.calls r t.good.bounded stored))
          t.good.bounded;
    valid = save_row-All call_id IsValid s w.calls valid t.good.valid;
    exclusive =
        Exclusive-save r s w.calls
          (subst (λ n. find_row call_id n w.calls ≡ some r) (sym st.id) stored) st.seats
          t.good.exclusive;
  };
  evolves =
      Evolves-trans v.calls w.calls (save_row call_id s w.calls) t.evolves
        (Evolves-save r s w.calls stored st);
}

Exclusive-snoc :
    (cs : List Call) (c : Call) → Exclusive cs → All (λ d. Apart d c) cs → Exclusive (cs ++ c ∷ [])
Exclusive-snoc [] c x h = (tt, tt)
Exclusive-snoc (d ∷ cs) c x h =
    (All-append (Apart d) cs (c ∷ []) x.0 (h.0, tt), Exclusive-snoc cs c x.1 h.1)

fresh_of_bound : (n : ℕ) (cs : List Call) → All (λ r. r.id < n) cs → All (λ y. call_id y ≢ n) cs
fresh_of_bound n [] h = tt
fresh_of_bound n (c ∷ cs) h = ((λ e. absurd (omega arith)), fresh_of_bound n cs h.1)

-- Adding a call under a new id in which no one holds a seat who holds one in another call.
pub create-Tracks :
    (v w : World) (c : Call)
    → Tracks v w
    → All (λ r. r.id < c.id) w.calls
    → c.id < w.next_id
    → IsValid c
    → All (λ d. Apart d c) w.calls
    → Tracks v (record w { calls = w.calls ++ c ∷ [] })
create-Tracks v w c t new lt valid apart = record {
  good = record {
    unique = Unique-snoc call_id w.calls c t.good.unique (fresh_of_bound c.id w.calls new);
    bounded = All-append (λ r. r.id < w.next_id) w.calls (c ∷ []) t.good.bounded (lt, tt);
    valid = All-append IsValid w.calls (c ∷ []) t.good.valid (valid, tt);
    exclusive = Exclusive-snoc w.calls c t.good.exclusive apart;
  };
  evolves = λ k r e.
      let (s, es, st) = t.evolves k r e in (s, find_row-append call_id k w.calls (c ∷ []) s es, st);
}
