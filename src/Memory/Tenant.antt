-- ===== src/Memory/Tenant.antt =====
-- internal/memory/repository.go: tenants and readiness.
use asteria_drive.Prelude.{String, Option, none, some, string_eq}
use asteria_drive.Prelude.Int.{pos}
use asteria_drive.Dict.{get, put}
use asteria_drive.Result.{DriveError, Result, ok, fail, ErrorCode}
use asteria_drive.Types.Access.{Tenant, TenantSeed}
use asteria_drive.Types.Node
use asteria_drive.Types.Node.{Node, directory, no_node}
use asteria_drive.Memory.State.{Repository, Outcome, accept}

unfoldable pub set_ready_error : Option DriveError → Repository → Repository
set_ready_error e r = record r { ready_err = e }

unfoldable pub ready : Repository → Option DriveError
ready r = r.ready_err

abbrev pub root_node : TenantSeed → Node
root_node seed = record no_node {
  id = seed.root_node_id;
  tenant_id = seed.tenant_id;
  kind = directory;
  status = Node.active;
  revision = pos 1;
  created_at = seed.now;
  updated_at = seed.now;
}

unfoldable pub ensure_tenant : TenantSeed → Repository → Outcome Tenant
ensure_tenant seed r = elim (get r.tenants seed.tenant_id) [
  | some tenant ↦ accept tenant r
  | none ↦
      let tenant : Tenant = record {
        id = seed.tenant_id;
        display_name = seed.display_name;
        root_node_id = seed.root_node_id;
        created_at = seed.now;
      } in
      accept tenant (record r {
        tenants = put r.tenants tenant.id tenant;
        nodes = put r.nodes seed.root_node_id (root_node seed);
      })
]

unfoldable pub tenant : String → Repository → Result Tenant
tenant tenant_id r = elim (get r.tenants tenant_id) [
  | none ↦ fail ErrorCode.not_found
  | some t ↦ ok t
]
