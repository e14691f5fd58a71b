-- ===== src/Sandboxes/Create.antt =====
-- The routes of apps/server/sandbox_api.py that give a sandbox labels and that create one.
use zoo.Base.{
  String, string_eq, pair_eq, Bool, true, false, not, ◌||◌, none, some, [], ◌∷◌, if◌then◌else◌,
  is_some,
}
use zoo.Base.Dict.{get}
use zoo.Base.Results.{Result, ok, raised, guard, ◌>>=◌, ◌>>◌}
use zoo.Labels.{Labels, Scoped, forbidden, scoped_to, matches, scoped, of, has_value}
use zoo.Labels
use zoo.Quotas.{Sandbox, Size, Status, pending, provisioning, running, status_beq, size_of, check}
use zoo.Quotas.Admitted.{insert_sandbox}
use zoo.Sandboxes.{
  Failure, Member, Setting, State, boot_deadline, owned, queue, room, unless, other_sandbox,
  label_forbidden, taken,
}

abbrev pub allowed_labels : Scoped → Result Failure Labels
allowed_labels (scoped_to labels) = ok labels
allowed_labels (forbidden key) = raised (label_forbidden key)

-- {k: v for k, v in wanted.items() if current.get(k) != v}
unfoldable pub changed_labels : Labels → Labels → Labels
changed_labels current [] = []
changed_labels current ((key, value) ∷ wanted) =
    let rest = changed_labels current wanted in
    if has_value (get current key) value then rest else (key, value) ∷ rest

abbrev pub counts : Status → Bool
counts status =
    status_beq status pending || status_beq status provisioning || status_beq status running

abbrev pub set_labels : String → Labels → State → State
set_labels id labels s = record s {
  tables = record s.tables { labels = Labels.put id labels s.tables.labels };
}

-- What changes holds to the new values' quotas.
unfoldable pub label_room : Setting → String → Sandbox → Labels → State → Result Failure (Unit {0})
unfolding changed_labels
label_room env sandbox_id sandbox wanted s =
    if counts sandbox.status
    then room (
        check env.unsized_gb sandbox.workspace_id (size_of sandbox) false
          (changed_labels (of sandbox_id s.tables.labels) wanted) s.tables)
    else ok tt

-- update_sandbox, where the payload has labels
unfoldable pub relabel_sandbox : Setting → Labels → String → Member → State → Result Failure State
unfolding owned label_room
relabel_sandbox env labels sandbox_id user s = do
  sandbox ← owned sandbox_id user s
  wanted ← allowed_labels (scoped labels user.key_labels)
  label_room env sandbox_id sandbox wanted s
  ok (set_labels sandbox_id wanted s)

-- The row that create_sandbox, set_sandbox_size and update_sandbox_status leave.
abbrev pub new_sandbox : Setting → Member → String → String → Size → Sandbox
new_sandbox env user kind config size = record {
  workspace_id = user.workspace_id;
  kind = kind;
  config = config;
  server_id = env.placed_on user kind size;
  runtime_id = none;
  status = provisioning;
  cpus = size.cpus;
  memory_mb = size.memory_mb;
  disk_gb = size.disk_gb;
}

-- create, for a sandbox that no pooled one is claimed for; the id is fresh
unfoldable pub create :
    Setting
    → String
    → String
    → Member
    → String
    → String
    → Size
    → Labels
    → State
    → Result Failure State
unfolding insert_sandbox
create env job_id sandbox_id user kind config size labels s = do
  if is_some user.key_sandbox_id then raised other_sandbox else ok tt
  unless (env.refuses_request user kind size)
  wanted ← allowed_labels (scoped labels user.key_labels)
  room (check env.unsized_gb user.workspace_id size true wanted s.tables)
  unless (env.refuses_placement user kind size)
  guard (not (is_some (get s.tables.sandboxes sandbox_id))) taken
  queue env job_id sandbox_id "boot" "{}" (some (boot_deadline env kind)) (record s {
    tables = insert_sandbox sandbox_id (new_sandbox env user kind config size) wanted s.tables;
  })
