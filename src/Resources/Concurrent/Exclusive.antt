-- ===== src/Resources/Concurrent/Exclusive.antt =====
-- Concurrent calls that do not touch one ID at a time: the list of managed resources is the bag that
-- the calls one after the other would leave.
use csi_test.Prelude.{ℕ, ◌+◌, ◌-◌, ◌≤◌, String, ◌≡◌, refl, ap, ◌∙◌, List, [], ◌∷◌, ◌++◌, arith}
use csi_test.Csi.Client.{Event}
use csi_test.Spec.{Env, State}
use csi_test.Resources.Refinement.{
  Change, nothing, adds, takes, change, change_count, count, replay, Refines,
}
use csi_test.Resources.Cleanup.{cleanup}
use csi_test.Resources.Cleanup.Order.{deletions, CanClean}
use csi_test.Resources.Cleanup.Counted.{deletions_of, cleanup-Refines}
use csi_test.Resources.Concurrent.{Call, event_of, Locked, locked, System, started, fresh_system}
use csi_test.Resources.Concurrent.Balance.{
  adding, taking, change_of, to_add, to_take, to_add-insert, to_take-insert, to_add-enlist,
  to_take-enlist, count-locked, history-locked,
}

-- Nothing about an ID that the change touches waits for the mutex.
abbrev pub Alone : Change → List Locked → Type 0
Alone c waiting =
    (v : String) → adding c v + taking c v ≡ 1 → to_add v waiting + to_take v waiting ≡ 0

-- Concurrent calls, of which none starts while another about the same ID waits.
pub data Exclusive (e : Env) (s : State) : System → Type 0 where
  start : Exclusive e s (fresh_system s)
  begin :
      {x : System}
      → Exclusive e s x
      → (c : Call) → Alone (change (event_of c e x.state.history)) x.waiting
      → Exclusive e s (started c e x)
  commit :
      {x : System}
      → Exclusive e s x
      → (before : List Locked) (l : Locked) (after : List Locked) → x.waiting ≡ before ++ l ∷ after
      → Exclusive e s (record { state = (locked l e x.state).1; waiting = before ++ after })

-- The entries and what waits make the bag, and of each ID at most one part waits.
record Agrees (base : List Event) (x : System) : Type 0 where
  recent : List Event
  since : x.state.history ≡ recent ++ base
  same :
      (v : String)
      → count x.state.managed v + to_add v x.waiting - to_take v x.waiting ≡ replay recent v
  single : (v : String) → to_add v x.waiting + to_take v x.waiting ≤ 1

begin_same :
    (c : Change) (v : String) (n a t r : ℕ)
    → n + a - t ≡ r
    → (adding c v + taking c v ≡ 1 → a + t ≡ 0)
    → n + (adding c v + a) - (taking c v + t) ≡ change_count c v r
begin_same nothing v n a t r h k = omega arith
begin_same (adds id) v n a t r h k = ground (arith, k)
begin_same (takes id) v n a t r h k = ground (arith, k)

begin_single :
    (c : Change) (v : String) (a t : ℕ)
    → a + t ≤ 1
    → (adding c v + taking c v ≡ 1 → a + t ≡ 0)
    → (adding c v + a) + (taking c v + t) ≤ 1
begin_single nothing v a t h k = omega arith
begin_single (adds id) v a t h k = ground (arith, k)
begin_single (takes id) v a t h k = ground (arith, k)

commit_same :
    (c : Change) (v : String) (n a t r : ℕ)
    → n + (adding c v + a) - (taking c v + t) ≡ r
    → (adding c v + a) + (taking c v + t) ≤ 1
    → change_count c v n + a - t ≡ r
commit_same nothing v n a t r h k = omega arith
commit_same (adds id) v n a t r h k = ground arith
commit_same (takes id) v n a t r h k = ground arith

begin-Agrees :
    (base : List Event) (c : Call) (e : Env) (x : System)
    → Alone (change (event_of c e x.state.history)) x.waiting
    → Agrees base x
    → Agrees base (started c e x)
unfolding replay
begin-Agrees base c e x alone g =
    let h = x.state.history in
    let ev = event_of c e h in
    let w = x.waiting in
    record {
      recent = ev ∷ g.recent;
      since = ap (λ t. ev ∷ t) g.since;
      same = λ v. omega (
        arith,
        begin_same (change ev) v (count x.state.managed v) (to_add v w) (to_take v w)
            (replay g.recent v) (g.same v) (alone v),
        to_add-enlist v c e h w,
        to_take-enlist v c e h w,
      );
      single = λ v. omega (
        arith,
        begin_single (change ev) v (to_add v w) (to_take v w) (g.single v) (alone v),
        to_add-enlist v c e h w,
        to_take-enlist v c e h w,
      );
    }

commit-Agrees :
    (base : List Event) (e : Env) (x : System) (before : List Locked) (l : Locked)
    (after : List Locked)
    → x.waiting ≡ before ++ l ∷ after
    → Agrees base x
    → Agrees base (record { state = (locked l e x.state).1; waiting = before ++ after })
commit-Agrees base e x before l after at g =
    let rest = before ++ after in
    let adds_one = λ (v : String). ap (to_add v) at ∙ to_add-insert v before l after in
    let takes_one = λ (v : String). ap (to_take v) at ∙ to_take-insert v before l after in
    record {
      recent = g.recent;
      since = history-locked l e x.state ∙ g.since;
      same = λ v. omega (
        arith,
        commit_same (change_of l) v (count x.state.managed v) (to_add v rest) (to_take v rest)
            (replay g.recent v) (omega (arith, g.same v, adds_one v, takes_one v))
            (omega (arith, g.single v, adds_one v, takes_one v)),
        count-locked v l e x.state,
      );
      single = λ v. omega (arith, g.single v, adds_one v, takes_one v);
    }

Exclusive-Agrees : {e : Env} {s : State} {y : System} → Exclusive e s y → Agrees s.history y
unfolding count to_add to_take replay
Exclusive-Agrees start = record {
  recent = [];
  since = refl;
  same = λ v. refl;
  single = λ v. omega arith;
}
Exclusive-Agrees {e = e} {s = s} (begin {x = x} r c alone) =
    begin-Agrees s.history c e x alone (Exclusive-Agrees r)
Exclusive-Agrees {e = e} {s = s} (commit {x = x} r before l after at) =
    commit-Agrees s.history e x before l after at (Exclusive-Agrees r)

exclusive-Refines :
    (e : Env) (s : State) (y : System)
    → Exclusive e s y
    → y.waiting ≡ []
    → Refines s.history y.state
unfolding to_add to_take
exclusive-Refines e s y r quiet =
    let g = Exclusive-Agrees r in
    record {
      recent = g.recent;
      since = g.since;
      same = λ v. omega (arith, g.same v, ap (to_add v) quiet, ap (to_take v) quiet);
    }

-- Concurrent methods of which no two are about one ID at a time, when all have come to their end, have
-- left a list of resources with each ID as often as the bag has it that their remote calls one after
-- the other stand for, and Cleanup then asks for as many deletions of it. The context has secrets, and
-- the driver answers NodeGetCapabilities where there is a NodeClient.
pub exclusive-cleanup :
    (e : Env) (s : State) (y : System) (v : String)
    → CanClean e
    → Exclusive e s y
    → y.waiting ≡ []
    → (recent : List Event) × (y.state.history ≡ recent ++ s.history)
      × (count y.state.managed v ≡ replay recent v)
      × (deletions_of v (deletions (cleanup e y.state).1.history)
          ≡ replay recent v + deletions_of v (deletions y.state.history))
exclusive-cleanup e s y v can r quiet =
    let h = exclusive-Refines e s y r quiet in
    (h.recent, h.since, h.same v, cleanup-Refines e y.state s.history v can h)
