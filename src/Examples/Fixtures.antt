-- ===== src/Examples/Fixtures.antt =====
-- One tenant with a small tree, three members, a session, a claim and an invitation.
use asteria_drive.Prelude.{ℕ, ◌+◌, String, none, some, [], ◌∷◌}
use asteria_drive.Prelude.Int.{pos}
use asteria_drive.Types.Access.{
  Identity, AccessRole, owner, admin, editor, active, PrincipalRecord, Tenant,
}
use asteria_drive.Types.Idempotency.{IdempotencyRequest, create_upload}
use asteria_drive.Types.Group.{NodeAclEntry, principal, contributor}
use asteria_drive.Types.Node
use asteria_drive.Types.Node.{
  Node, NodeKind, directory, file, no_node, Blob, no_blob, available, FileVersion, no_version,
  no_checksum, CreateDirectoryCommand, UpdateNodeCommand,
}
use asteria_drive.Types.Upload.{UploadSession, UploadStatus, CommitUploadCommand}
use asteria_drive.Memory.State.{Repository, new_repository, member_key}
use asteria_drive.Memory.Audit.{CallContext}

abbrev pub context : CallContext
context = record { request_id = "request"; new_id = some "event" }

abbrev pub tenant_id : String
tenant_id = "00000000-0000-4000-8000-000000000001"

abbrev pub alice_id : String
alice_id = "00000000-0000-4000-8000-00000000000a"

abbrev pub bob_id : String
bob_id = "00000000-0000-4000-8000-00000000000b"

abbrev pub carol_id : String
carol_id = "00000000-0000-4000-8000-00000000000c"

abbrev pub carol : Identity
carol = record { tenant_id = tenant_id; principal_id = carol_id }

abbrev pub digest_a : String
digest_a = "aaaaaaaaaaaaaaaaaaaaaaaaaaaaaaaaaaaaaaaaaaaaaaaaaaaaaaaaaaaaaaaa"

abbrev pub digest_b : String
digest_b = "bbbbbbbbbbbbbbbbbbbbbbbbbbbbbbbbbbbbbbbbbbbbbbbbbbbbbbbbbbbbbbbb"

abbrev pub tenant : Tenant
tenant = record { id = tenant_id; display_name = "Team"; root_node_id = "root"; created_at = 0 }

abbrev pub live : String → String → String → NodeKind → Node
live id parent_id name kind = record no_node {
  id = id;
  tenant_id = tenant_id;
  parent_id = parent_id;
  kind = kind;
  display_name = name;
  normalized_name = name;
  status = Node.active;
  revision = pos 1;
}

abbrev pub member : String → AccessRole → PrincipalRecord
member id role = record {
  identity = record { tenant_id = tenant_id; principal_id = id };
  issuer = "issuer";
  subject = id;
  display_name = id;
  tenant_display_name = "Team";
  role = role;
  status = active;
}

abbrev pub acl_entry : NodeAclEntry
acl_entry = record {
  id = "acl";
  tenant_id = tenant_id;
  node_id = "docs";
  subject_type = principal;
  subject_id = carol_id;
  role = contributor;
  created_by = alice_id;
  created_at = 0;
  updated_at = 0;
}

abbrev pub session : UploadStatus → String → UploadSession
session status digest = record {
  id = "upload";
  tenant_id = tenant_id;
  principal_id = carol_id;
  parent_id = "docs";
  display_name = "a.txt";
  normalized_name = "a.txt";
  expected_size = pos 5;
  mime_type = "text/plain";
  declared_checksum = no_checksum;
  bucket = "bucket";
  object_key = "object";
  storage_upload_id = "multipart";
  status = status;
  completion_digest = digest;
  committed_node_id = "";
  failure_code = "";
  part_size = pos 5;
  expires_at = 100;
  revision = pos 1;
  created_at = 0;
  updated_at = 0;
}

abbrev pub repository : Repository
repository = record new_repository {
  tenants = (tenant_id, tenant) ∷ [];
  nodes =
      ("root", live "root" "" "" directory)
      ∷ ("docs", live "docs" "root" "docs" directory)
      ∷ ("old", live "old" "docs" "old" directory)
      ∷ [];
  members =
      (member_key tenant_id alice_id, member alice_id owner)
      ∷ (member_key tenant_id bob_id, member bob_id admin)
      ∷ (member_key tenant_id carol_id, member carol_id editor)
      ∷ [];
  acls = ("acl", acl_entry) ∷ [];
}

-- The repository with a session.
abbrev pub with_session : UploadSession → Repository
with_session s = record repository { uploads = (s.id, s) ∷ [] }

abbrev pub blob : Blob
blob = record no_blob { id = "blob"; tenant_id = tenant_id; size = pos 5; status = available }

abbrev pub version : FileVersion
version = record no_version {
  id = "version";
  tenant_id = tenant_id;
  node_id = "file";
  blob_id = "blob";
}

abbrev pub commit_command : CommitUploadCommand
commit_command = record {
  identity = carol;
  session_id = "upload";
  digest = digest_a;
  blob = blob;
  version = version;
  node = record (live "file" "docs" "a.txt" file) { current_version_id = "version" };
  parts = [];
  now = 7;
}

abbrev pub create_command : CreateDirectoryCommand
create_command = record {
  identity = carol;
  id = "new";
  parent_id = "docs";
  display_name = "new";
  normalized_name = "new";
  now = 7;
  idempotency = none;
}

abbrev pub rename_command : UpdateNodeCommand
rename_command = record {
  identity = carol;
  node_id = "old";
  display_name = some "older";
  normalized_name = some "older";
  parent_id = none;
  expected_revision = pos 1;
  now = 7;
}

abbrev pub claim_request : String → String → ℕ → IdempotencyRequest
claim_request digest token now = record {
  identity = carol;
  scope = create_upload;
  key_hash = digest_a;
  request_digest = digest;
  claim_token = token;
  locked_until = now + 10;
  expires_at = now + 100;
  now = now;
}
