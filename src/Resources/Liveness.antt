-- ===== src/Resources/Liveness.antt =====
-- Which volumes and snapshots exist after the calls made so far, and where the IDs of the two kinds get
-- mixed up.
use csi_test.Prelude.{
  String, Bool, true, false, ◌&&◌, ◌||◌, ◌≡◌, refl, List, [], ◌∷◌, is_none, arith, ◌==◌,
  if◌then◌else◌,
}
use csi_test.Csi.Client.{
  Event, on_create_volume, on_delete_volume, on_controller_publish, on_create_snapshot,
  on_delete_snapshot,
}
use csi_test.Resources.Tracking.{Kind, volume, snapshot, makes, is_known}

-- A successful deletion of the volume or the snapshot `v`.
abbrev pub deletes : Kind → String → Event → Bool
deletes volume v (on_delete_volume req r) = is_none r.error && req.volume_id == v
deletes snapshot v (on_delete_snapshot req r) = is_none r.error && req.snapshot_id == v
deletes _ v _ = false

abbrev pub other : Kind → Kind
other volume = snapshot
other snapshot = volume

-- A volume or snapshot `v` is still there: the last successful call about that kind and ID has made it.
-- The history has the newest call first.
unfoldable pub is_live : Kind → String → List Event → Bool
is_live k v [] = false
is_live k v (ev ∷ history) =
    if makes k v ev then true else if deletes k v ev then false else is_live k v history

-- A successful deletion of a snapshot has used the ID of a volume that was there, or the other way
-- round.
unfoldable pub is_confused : Kind → String → List Event → Bool
is_confused k v [] = false
is_confused k v (ev ∷ history) =
    (deletes (other k) v ev && is_live k v history) || is_confused k v history

-- What should be known is there.
pub known-live :
    (k : Kind) (v : String) (h : List Event) → is_live k v h ≡ false → is_known k v h ≡ false
unfolding is_live is_known
known-live k v [] dead = refl
known-live volume v (on_create_volume req r ∷ h) dead = ground (arith, dead, known-live volume v h)
known-live volume v (on_delete_volume req r ∷ h) dead = ground (arith, dead, known-live volume v h)
known-live volume v (on_controller_publish req r ∷ h) dead =
    ground (arith, dead, known-live volume v h)
known-live volume v (on_delete_snapshot req r ∷ h) dead =
    ground (arith, dead, known-live volume v h)
known-live snapshot v (on_delete_volume req r ∷ h) dead =
    ground (arith, dead, known-live snapshot v h)
known-live snapshot v (on_create_snapshot req r ∷ h) dead =
    ground (arith, dead, known-live snapshot v h)
known-live snapshot v (on_delete_snapshot req r ∷ h) dead =
    ground (arith, dead, known-live snapshot v h)
known-live volume v (_ ∷ h) dead = known-live volume v h dead
known-live snapshot v (_ ∷ h) dead = known-live snapshot v h dead

-- Where no ID is confused, what is there should be known.
pub live-known :
    (k : Kind) (v : String) (h : List Event)
    → is_confused k v h ≡ false
    → is_known k v h ≡ false
    → is_live k v h ≡ false
unfolding is_live is_known is_confused
live-known k v [] clear dead = refl
live-known volume v (on_create_volume req r ∷ h) clear dead =
    ground (arith, clear, dead, live-known volume v h)
live-known volume v (on_delete_volume req r ∷ h) clear dead =
    ground (arith, clear, dead, live-known volume v h)
live-known volume v (on_controller_publish req r ∷ h) clear dead =
    ground (arith, clear, dead, live-known volume v h)
live-known volume v (on_delete_snapshot req r ∷ h) clear dead =
    ground (arith, clear, dead, live-known volume v h)
live-known snapshot v (on_delete_volume req r ∷ h) clear dead =
    ground (arith, clear, dead, live-known snapshot v h)
live-known snapshot v (on_create_snapshot req r ∷ h) clear dead =
    ground (arith, clear, dead, live-known snapshot v h)
live-known snapshot v (on_delete_snapshot req r ∷ h) clear dead =
    ground (arith, clear, dead, live-known snapshot v h)
live-known volume v (_ ∷ h) clear dead = live-known volume v h clear dead
live-known snapshot v (_ ∷ h) clear dead = live-known snapshot v h clear dead
