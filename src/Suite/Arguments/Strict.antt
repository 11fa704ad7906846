-- ===== src/Suite/Arguments/Strict.antt =====
-- All the specs that leave out a required field, and what decides their results.
use csi_test.Prelude.{true, ◌≡◌, List, ◌++◌}
use csi_test.Csi.Client.{Event}
use csi_test.Spec.{Env, Spec}
use csi_test.Suite.Arguments.{lacks_field, refused, Replied}
use csi_test.Suite.Arguments.Controller.{controller_argument_specs}
use csi_test.Suite.Arguments.Node.{node_argument_specs}

abbrev pub argument_specs : List (Spec (Unit {0}))
argument_specs = controller_argument_specs ++ node_argument_specs

-- The driver refuses every request that lacks a required field.
abbrev pub StrictDriver : Env → Type 0
StrictDriver e =
    (h : List Event) (ev : Event) → Replied e h ev → lacks_field ev ≡ true → refused ev ≡ true
