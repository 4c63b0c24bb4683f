-- ===== src/Examples/Nodes.antt =====
-- The theorems on the tree, on access and on the recycle bin at a tenant with two directories.
use asteria_drive.Prelude.{
  [], ◌∷◌, any, filter, false, ◌≡◌, ◌≢◌, ◌↔◌, ℕ, String, Bool, true, false, none, some, [], ◌∷◌,
  arith, refl, inl, inr, string_eq, str_beq, str_beq_iff, ◌⊎◌, ◌≤◌,
}
use asteria_drive.Prelude.Int.{pos}
use mathlib.Core.List.Memᴰ
use asteria_drive.Dict.{values, get, get_or, put, any_entry}
use asteria_drive.Result.{ok, ErrorCode}
use asteria_drive.Types.Access.{editor}
use asteria_drive.Types.Group.{read, write, valid_node_capability}
use asteria_drive.Types.Upload.{object_completed}
use asteria_drive.Types.Node
use asteria_drive.Types.Node.{PurgePlan, Node}
use asteria_drive.Memory.State.{
  Repository, active_node, visible, upload_for, name_exists, clashes, reject, member_key,
}
use asteria_drive.Memory.Upload.{commit_upload}
use asteria_drive.Memory.Namespace.{
  create_directory, update_node, updated, is_descendant, move_error,
}
use asteria_drive.Memory.Namespace.Names.{IsNamespace}
use asteria_drive.Memory.Namespace.Writes.{
  create_directory-IsNamespace, update_node-IsNamespace, commit_upload-IsNamespace,
}
use asteria_drive.Memory.Namespace.Revision.{update_node_stale}
use asteria_drive.Memory.Namespace.Tree.{Climbs, above_root, below, IsAtOrAbove, is_descendant_iff}
use asteria_drive.Memory.Audit.{append_audit, audited, metadata_is_bounded}
use asteria_drive.Text.{json_map_size}
use asteria_drive.Memory.Acl.{authorize_node, role_allows, needed_level}
use asteria_drive.Memory.Acl.Levels.{IsGranted, authorize_node_iff, authorize_node_weaker}
use asteria_drive.Memory.Recycle.{
  prepare_purge, condemn, condemned, blobs_inside, referenced_outside, trashed_subtree, recycle,
}
use asteria_drive.Memory.Recycle.Purge.{IsIdentified, prepare_purge_spares}
use asteria_drive.Memory.Recycle.Hidden.{recycle_hides}
use asteria_drive.Examples.Fixtures.{
  blob, version, context, carol, carol_id, tenant_id, digest_a, session, repository, with_session,
  commit_command, create_command, rename_command, live, member,
}

abbrev Differ : String → String → Type 0
Differ a b = a ≢ b

differ : Differ "" "root" × Differ "" "docs" × Differ "root" "docs"
unfolding str_beq
differ = (
  ground (arith, str_beq_iff "" "root"),
  ground (arith, str_beq_iff "" "docs"),
  ground (arith, str_beq_iff "root" "docs"),
)

no_root : get repository.nodes "" ≡ none
unfolding get str_beq
no_root = refl

namespace : IsNamespace repository.nodes
unfolding get
namespace = record {
  keyed = λ k n g. ground (arith, str_beq_iff "root" k, str_beq_iff "docs" k, str_beq_iff "old" k);
  no_empty = no_root;
  unique = λ j k m n g h _ _ _ p _.
      let (a, b, c) = differ in
      ground (
        arith,
        a,
        b,
        c,
        str_beq_iff "root" k,
        str_beq_iff "docs" k,
        str_beq_iff "old" k,
        str_beq_iff "root" j,
        str_beq_iff "docs" j,
        str_beq_iff "old" j,
      );
}

new_name : Differ "new" ""
unfolding str_beq
new_name = ground (arith, str_beq_iff "new" "")

create_directory-IsNamespace_example :
    IsNamespace (create_directory context create_command repository).1.nodes
create_directory-IsNamespace_example =
    create_directory-IsNamespace context create_command repository new_name namespace

update_node-IsNamespace_example :
    IsNamespace (update_node context rename_command repository).1.nodes
update_node-IsNamespace_example =
    update_node-IsNamespace context rename_command repository (λ h. cc) namespace

file_name : Differ "file" ""
unfolding str_beq
file_name = ground (arith, str_beq_iff "file" "")

abbrev ready : Repository
ready = with_session (session object_completed digest_a)

ready_session : upload_for ready carol "upload" ≡ some (session object_completed digest_a)
unfolding upload_for get str_beq
ready_session = refl

commit_upload-IsNamespace_example : IsNamespace (commit_upload context commit_command ready).1.nodes
commit_upload-IsNamespace_example =
    commit_upload-IsNamespace context commit_command ready (session object_completed digest_a)
      ready_session file_name refl refl refl namespace

renamed :
    (update_node context rename_command repository).0
    ≡ ok (updated rename_command (live "old" "docs" "old" Node.directory))
unfolding update_node updated active_node visible get get_or put name_exists clashes any_entry
    audited append_audit metadata_is_bounded json_map_size move_error str_beq
    asteria_drive.Prelude.Int.int_beq
renamed = refl

update_node_stale_example :
    update_node context rename_command (update_node context rename_command repository).1
    ≡ reject ErrorCode.revision_mismatch (update_node context rename_command repository).1
update_node_stale_example =
    update_node_stale context context rename_command rename_command repository
      (updated rename_command (live "old" "docs" "old" Node.directory)) namespace renamed refl refl
      refl

in_tree :
    (get repository.nodes "root" ≡ some (live "root" "" "" Node.directory))
    × (get repository.nodes "docs" ≡ some (live "docs" "root" "docs" Node.directory))
    × (get repository.nodes "old" ≡ some (live "old" "docs" "old" Node.directory))
unfolding get str_beq
in_tree = (refl, refl, refl)

named : Differ "root" "" × Differ "docs" "" × Differ "old" ""
unfolding str_beq
named = (
  ground (arith, str_beq_iff "root" ""),
  ground (arith, str_beq_iff "docs" ""),
  ground (arith, str_beq_iff "old" ""),
)

climb : Climbs repository.nodes tenant_id 3 "old"
climb =
    let (a, b, c) = in_tree in
    let (a', b', c') = named in
    below "old" _ c' c refl
      (below "docs" _ b' b refl (below "root" _ a' a refl (above_root "" refl)))

is_descendant_iff_example :
    (is_descendant repository "old" "docs" tenant_id ≡ true)
    ↔ IsAtOrAbove repository.nodes "docs" "old"
is_descendant_iff_example = is_descendant_iff repository "old" "docs" tenant_id 3 climb

is_member : get repository.members (member_key tenant_id carol_id) ≡ some (member carol_id editor)
unfolding get member_key str_beq
is_member = refl

authorize_node_iff_example : (authorize_node carol "old" write repository ≡ ok tt) ↔ (
    (role_allows editor (needed_level write) ≡ true)
    ⊎ IsGranted repository carol (needed_level write) "old")
authorize_node_iff_example =
    authorize_node_iff repository carol "old" tenant_id 3 write
      (live "old" "docs" "old" Node.directory) (member carol_id editor)
      (unfold valid_node_capability in refl) in_tree.2 refl is_member refl climb

may_write : authorize_node carol "old" write repository ≡ ok tt
unfolding authorize_node get member_key role_allows valid_node_capability str_beq
may_write = refl

authorize_node_weaker_example : authorize_node carol "old" read repository ≡ ok tt
authorize_node_weaker_example =
    authorize_node_weaker repository carol "old" read write may_write
      (unfold valid_node_capability in refl) (omega arith)

recycled : (recycle context carol "old" (pos 1) 7 repository).0 ≡ ok tt
unfolding recycle get get_or visible audited append_audit metadata_is_bounded json_map_size
    any_entry str_beq asteria_drive.Prelude.Int.int_beq
recycled = refl

recycle_hides_example :
    (active_node (recycle context carol "old" (pos 1) 7 repository).1 tenant_id "old" ≡ none)
    × (recycle context carol "old" (pos 1) 9 (recycle context carol "old" (pos 1) 7 repository).1
        ≡ (ok tt, (recycle context carol "old" (pos 1) 7 repository).1))
recycle_hides_example =
    recycle_hides context context carol "old" tenant_id (pos 1) (pos 1) 7 9 repository
      (live "old" "docs" "old" Node.directory) in_tree.2 refl recycled

-- A recycled file with its version and blob.
abbrev trashed_file : Node
trashed_file = record (live "file" "docs" "a.txt" Node.file) {
  status = Node.trashed;
  trashed_root_id = "file";
}

abbrev pub binned : Repository
binned = record repository {
  nodes = ("file", trashed_file) ∷ [];
  versions = ("version", version) ∷ [];
  blobs = ("blob", blob) ∷ [];
}

identified : IsIdentified binned.blobs
unfolding get get_or
identified = record { at_key = λ k. ground (arith, str_beq_iff "blob" k) }

abbrev pub plan : PurgePlan
plan = record { root_id = "file"; blobs = condemned blob ∷ [] }

pub planned : (prepare_purge carol "file" (pos 1) 7 binned).0 ≡ ok plan
unfolding prepare_purge condemn blobs_inside referenced_outside trashed_subtree values get get_or
    any filter str_beq asteria_drive.Prelude.Int.int_beq
planned = refl

in_bin : get binned.nodes "file" ≡ some trashed_file
unfolding get str_beq
in_bin = refl

blob_named : blob.id ≢ ""
unfolding str_beq
blob_named = ground (arith, str_beq_iff blob.id "")

prepare_purge_spares_example :
    referenced_outside (trashed_subtree binned "file" tenant_id) (values binned.versions) "blob"
    ≡ false
prepare_purge_spares_example =
    prepare_purge_spares carol "file" (pos 1) 7 binned plan trashed_file (condemned blob) identified
      in_bin planned (Memᴰ.head refl) blob_named
