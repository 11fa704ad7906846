-- ===== src/Examples/Acceptance/Fresh.antt =====
-- An ID that no volume has.
use Prim.Native.String.{count, ◌∷◌ as cons}
use Prim.Native.String.count
use csi_test.Prelude.{
  ℕ, zero, suc, ◌+◌, ◌<◌, String, false, ◌≡◌, refl, ap, ◌∙◌, inl, inr, List, [], ◌∷◌, Bool-cases,
  arith, ◌==◌, eq_iff,
}
use mathlib.Core.Bool.{false≢true}
use csi_test.Csi.Client.{
  Event, on_create_volume, on_controller_publish, on_delete_volume, on_delete_snapshot,
}
use csi_test.Resources.{created_volume_id}
use csi_test.Resources.Tracking.{volume}
use csi_test.Resources.Liveness.{is_live}

-- A text of `n` letters.
unfoldable pub tally : ℕ → String
tally zero = ""
tally (suc n) = cons "a" (tally n)

-- The length of the IDs of all volumes together.
unfoldable pub id_length : List Event → ℕ
id_length [] = 0
id_length (on_create_volume req r ∷ h) = count (created_volume_id r.response) + id_length h
id_length (on_controller_publish req r ∷ h) = count req.volume_id + id_length h
id_length (_ ∷ h) = id_length h

abbrev pub fresh_id : List Event → String
fresh_id h = tally (suc (id_length h))

count-tally : (n : ℕ) → count (tally n) ≡ n
unfolding tally
count-tally zero = count.nil
count-tally (suc n) = count.cons "a" (tally n) ∙ ap suc (count-tally n)

pub fresh_id-named : (h : List Event) → (fresh_id h == "") ≡ false
fresh_id-named h = elim (Bool-cases (fresh_id h == "")) [
  | inl is_empty_text ↦
      let none_there : count (fresh_id h) ≡ 0 =
        ap count ((eq_iff (fresh_id h) "").0 is_empty_text) in
      absurd (false≢true (ground (arith, count-tally (suc (id_length h)), none_there)))
  | inr named ↦ named
]

longer-dead : (h : List Event) (v : String) → id_length h < count v → is_live volume v h ≡ false
unfolding is_live id_length
longer-dead [] v longer = refl
longer-dead (on_create_volume req r ∷ h) v longer =
    let id = created_volume_id r.response in ground (arith, longer, longer-dead h v, eq_iff id v)
longer-dead (on_controller_publish req r ∷ h) v longer =
    ground (arith, longer, longer-dead h v, eq_iff req.volume_id v)
longer-dead (on_delete_volume req r ∷ h) v longer = ground (arith, longer, longer-dead h v)
longer-dead (on_delete_snapshot req r ∷ h) v longer = ground (arith, longer, longer-dead h v)
longer-dead (_ ∷ h) v longer = longer-dead h v longer

-- No volume has an ID that is longer than all in the calls.
pub fresh_id-dead : (h : List Event) → is_live volume (fresh_id h) h ≡ false
fresh_id-dead h = longer-dead h (fresh_id h) (ground (arith, count-tally (suc (id_length h))))
