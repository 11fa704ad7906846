-- ===== src/Suite/Acceptance/With.antt =====
-- What holds of a driver, where the resource manager has a NodeClient or none.
use csi_test.Prelude.{Bool}
use csi_test.Spec.{Env}
use csi_test.Suite.{with_node_client}
use csi_test.Suite.Arguments.{Queries}
use csi_test.Suite.Acceptance.{Conforms, Configured, Offers}

Queries-with : (b : Bool) (e : Env) → Queries e → Queries (with_node_client b e)
Queries-with b e q = record {
  secrets = q.secrets;
  has_secrets = q.has_secrets;
  controller = q.controller;
  node = q.node;
  plugin_error = q.plugin_error;
  plugin_response = q.plugin_response;
}

pub Conforms-with : (b : Bool) (e : Env) → Conforms e → Conforms (with_node_client b e)
Conforms-with b e c = record {
  queries = Queries-with b e c.queries;
  strict = c.strict;
  creates = c.creates;
  creates_again = c.creates_again;
  conflicts = c.conflicts;
  copies_volume = c.copies_volume;
  copies_no_volume = c.copies_no_volume;
  copies_no_snapshot = c.copies_no_snapshot;
  copies_snapshot = c.copies_snapshot;
  snapshots = c.snapshots;
  snapshots_again = c.snapshots_again;
  snapshots_conflict = c.snapshots_conflict;
  deletes_no_snapshot = c.deletes_no_snapshot;
  deletes_missing = c.deletes_missing;
  deletes_new = c.deletes_new;
  validates = c.validates;
  validates_no_volume = c.validates_no_volume;
}

pub Configured-with : (b : Bool) (e : Env) → Configured e → Configured (with_node_client b e)
Configured-with b e k = record {
  doubles = k.doubles;
  invalid_id = k.invalid_id;
  unique_ids = k.unique_ids;
}

pub Offers-with : (b : Bool) (e : Env) → Offers e → Offers (with_node_client b e)
Offers-with b e o = record {
  volumes = o.volumes;
  snapshots = o.snapshots;
  clones = o.clones;
  expansion = o.expansion;
}
