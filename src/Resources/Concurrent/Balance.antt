-- ===== src/Resources/Concurrent/Balance.antt =====
-- How many entries the resource manager has at least and at most, in whatever order the parts of
-- concurrent calls happen.
use csi_test.Prelude.{
  ℕ, ◌+◌, ◌≤◌, String, Bool, ◌≡◌, refl, ap, ◌∙◌, List, [], ◌∷◌, ◌++◌, arith, ◌==◌, if◌then◌else◌,
}
use csi_test.Csi.Client.{Event}
use csi_test.Spec.{Env, State, ◌>>=◌, volume_info, snapshot_info}
use csi_test.Resources
use csi_test.Resources.{add_resource, remove_first}
use csi_test.Resources.Refinement.{
  Change, nothing, adds, takes, change, change_count, count, count-add_resource, count-remove_first,
}
use csi_test.Resources.Concurrent.{
  Call, create_volume, delete_volume, controller_publish_volume, create_snapshot, delete_snapshot,
  event_of, Locked, register_volume, register_snapshot, unregister_resource, locked, rest_of,
  System, enlist, started, Step, begin, commit, Reach, start, next,
}

abbrev pub one_if : Bool → ℕ
one_if b = if b then 1 else 0

abbrev pub adding : Change → String → ℕ
adding (adds id) v = one_if (id == v)
adding _ v = 0

abbrev pub taking : Change → String → ℕ
taking (takes id) v = one_if (id == v)
taking _ v = 0

-- The successful creations and publications of `v`, and its successful deletions.
unfoldable pub made : String → List Event → ℕ
made v [] = 0
made v (ev ∷ history) = adding (change ev) v + made v history

unfoldable pub freed : String → List Event → ℕ
freed v [] = 0
freed v (ev ∷ history) = taking (change ev) v + freed v history

-- What a locked part means for the bag of IDs.
abbrev pub change_of : Locked → Change
change_of (register_volume id node_id) = if id == "" then nothing else adds id
change_of (register_snapshot id) = if id == "" then nothing else adds id
change_of (unregister_resource id) = if id == "" then nothing else takes id

-- The registrations and the removals of `v` that wait for the mutex.
unfoldable pub to_add : String → List Locked → ℕ
to_add v [] = 0
to_add v (l ∷ ls) = adding (change_of l) v + to_add v ls

unfoldable pub to_take : String → List Locked → ℕ
to_take v [] = 0
to_take v (l ∷ ls) = taking (change_of l) v + to_take v ls

pub to_add-insert :
    (v : String) (before : List Locked) (l : Locked) (after : List Locked)
    → to_add v (before ++ l ∷ after) ≡ adding (change_of l) v + to_add v (before ++ after)
unfolding to_add
to_add-insert v [] l after = refl
to_add-insert v (k ∷ before) l after = omega (arith, to_add-insert v before l after)

pub to_take-insert :
    (v : String) (before : List Locked) (l : Locked) (after : List Locked)
    → to_take v (before ++ l ∷ after) ≡ taking (change_of l) v + to_take v (before ++ after)
unfolding to_take
to_take-insert v [] l after = refl
to_take-insert v (k ∷ before) l after = omega (arith, to_take-insert v before l after)

pub to_add-enlist :
    (v : String) (c : Call) (e : Env) (h : List Event) (ls : List Locked)
    → let ev = event_of c e h in
      to_add v (enlist (rest_of ev) ls) ≡ adding (change ev) v + to_add v ls
unfolding to_add
to_add-enlist v (create_volume req) e h ls = ground arith
to_add-enlist v (delete_volume req) e h ls = ground arith
to_add-enlist v (controller_publish_volume req) e h ls = ground arith
to_add-enlist v (create_snapshot req) e h ls = ground arith
to_add-enlist v (delete_snapshot req) e h ls = ground arith

pub to_take-enlist :
    (v : String) (c : Call) (e : Env) (h : List Event) (ls : List Locked)
    → let ev = event_of c e h in
      to_take v (enlist (rest_of ev) ls) ≡ taking (change ev) v + to_take v ls
unfolding to_take
to_take-enlist v (create_volume req) e h ls = ground arith
to_take-enlist v (delete_volume req) e h ls = ground arith
to_take-enlist v (controller_publish_volume req) e h ls = ground arith
to_take-enlist v (create_snapshot req) e h ls = ground arith
to_take-enlist v (delete_snapshot req) e h ls = ground arith

-- A locked part makes its change to the list, and makes no call.
pub count-locked :
    (v : String) (l : Locked) (e : Env) (s : State)
    → count (locked l e s).1.managed v ≡ change_count (change_of l) v (count s.managed v)
unfolding Resources.register_volume Resources.register_snapshot Resources.unregister_resource ◌>>=◌
count-locked v (register_volume id node_id) e s =
    ground (arith, count-add_resource v id (volume_info node_id) s.managed)
count-locked v (register_snapshot id) e s =
    ground (arith, count-add_resource v id snapshot_info s.managed)
count-locked v (unregister_resource id) e s = ground (arith, count-remove_first v id s.managed)

pub history-locked : (l : Locked) (e : Env) (s : State) → (locked l e s).1.history ≡ s.history
unfolding Resources.register_volume Resources.register_snapshot Resources.unregister_resource ◌>>=◌
history-locked (register_volume id node_id) e s = ground arith
history-locked (register_snapshot id) e s = ground arith
history-locked (unregister_resource id) e s = ground arith

-- The calls since `base` bound the entries of `v`, with what is still to be done taken into account.
pub record Bounded (base : List Event) (v : String) (x : System) : Type 0 where
  pub recent : List Event
  pub since : x.state.history ≡ recent ++ base
  pub enough :
      made v recent + to_take v x.waiting
      ≤ count x.state.managed v + to_add v x.waiting + freed v recent
  pub not_more : count x.state.managed v + to_add v x.waiting ≤ made v recent

begin-Bounded :
    (base : List Event) (v : String) (c : Call) (e : Env) (x : System)
    → Bounded base v x
    → Bounded base v (started c e x)
unfolding made freed
begin-Bounded base v c e x b =
    let h = x.state.history in
    record {
      recent = event_of c e h ∷ b.recent;
      since = ap (λ t. event_of c e h ∷ t) b.since;
      enough =
          omega
            (arith, b.enough, to_add-enlist v c e h x.waiting, to_take-enlist v c e h x.waiting);
      not_more = omega (arith, b.not_more, to_add-enlist v c e h x.waiting);
    }

-- A change adds at most what it is to add, and takes at most what it is to take.
change_bounds :
    (c : Change) (v : String) (n : ℕ)
    → (n + adding c v ≤ change_count c v n + taking c v) × (change_count c v n ≤ n + adding c v)
change_bounds nothing v n = omega arith
change_bounds (adds id) v n = ground arith
change_bounds (takes id) v n = ground arith

Step-Bounded :
    {e : Env} {x y : System} (base : List Event) (v : String)
    → Step e x y
    → Bounded base v x
    → Bounded base v y
Step-Bounded {e = e} {x = x} base v (begin c) b = begin-Bounded base v c e x b
Step-Bounded {e = e} {x = x} base v (commit before l after at) b =
    let adds_one = ap (to_add v) at ∙ to_add-insert v before l after in
    let takes_one = ap (to_take v) at ∙ to_take-insert v before l after in
    let bounds = change_bounds (change_of l) v (count x.state.managed v) in
    let counted = count-locked v l e x.state in
    record {
      recent = b.recent;
      since = history-locked l e x.state ∙ b.since;
      enough = omega (arith, b.enough, adds_one, takes_one, bounds, counted);
      not_more = omega (arith, b.not_more, adds_one, takes_one, bounds, counted);
    }

Reach-Bounded :
    {e : Env} {s : State} {y : System} (v : String) → Reach e s y → Bounded s.history v y
unfolding made freed to_add to_take count
Reach-Bounded v start = record {
  recent = [];
  since = refl;
  enough = omega arith;
  not_more = omega arith;
}
Reach-Bounded {s = s} v (next r st) = Step-Bounded s.history v st (Reach-Bounded v r)

-- In whatever order the remote calls and the locked parts of concurrent methods happen, when all have
-- come to their end an ID has at most as many entries as it has been created or published, and at
-- least as many as that less its deletions.
pub interleaved-count :
    (e : Env) (s : State) (y : System) (v : String)
    → Reach e s y
    → y.waiting ≡ []
    → (recent : List Event) × (y.state.history ≡ recent ++ s.history)
      × (made v recent ≤ count y.state.managed v + freed v recent)
      × (count y.state.managed v ≤ made v recent)
unfolding to_add to_take
interleaved-count e s y v r quiet =
    let b = Reach-Bounded v r in
    let adds_none = ap (to_add v) quiet in
    let takes_none = ap (to_take v) quiet in
    (
      b.recent,
      b.since,
      omega (arith, b.enough, adds_none, takes_none),
      omega (arith, b.not_more, adds_none, takes_none),
    )
