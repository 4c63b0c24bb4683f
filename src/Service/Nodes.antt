-- ===== src/Service/Nodes.antt =====
-- internal/drive/service.go: the methods of the service on nodes, the recycle bin and downloads.
use Prim.Native.String.{◌++◌ as append}
use asteria_drive.Prelude.{
  String, Bool, true, false, Option, none, some, List, [], ◌∷◌, ◌&&◌, ◌||◌, ◌==◌, string_eq,
  if◌then◌else◌,
}
use asteria_drive.Prelude.Int.{ℤ, pos, leb_ℤ}
use asteria_drive.Result.{Result, ok, err, ErrorCode}
use asteria_drive.Types.Access.{Identity}
use asteria_drive.Types.Node.{
  Node, NodeKind, kind_eq, node_status_eq, CursorPosition, RecycleEntry, Blob,
}
use asteria_drive.Types.Node
use asteria_drive.Types.Storage.{Page, SignedDownload, StorageProvider}
use asteria_drive.Platform.{Platform}
use asteria_drive.Validation.Names.{normalize_name}
use asteria_drive.Memory.Namespace
use asteria_drive.Memory.Recycle
use asteria_drive.Memory.Upload.Parts.{download_blob}
use asteria_drive.Service.{
  Call, Action, pure, refuse, lift, reading, on_repository, storage_step, ◌>>=◌, ◌>>◌, refuse_if,
  require_id, Settings, page_limit,
}
use asteria_drive.Service.Cursor.{encode, decode}

-- The last item, where there is one.
abbrev pub last_of : {A : Type 0} → List A → Option A
last_of [] = none
last_of (x ∷ []) = some x
last_of (x ∷ y ∷ xs) = last_of (y ∷ xs)

abbrev pub is_none : {A : Type 0} → Option A → Bool
is_none none = true
is_none (some a) = false

abbrev pub node_position : Node → CursorPosition
node_position n = record { name = n.normalized_name; id = n.id }

-- A visible node of a kind.
abbrev pub is_live : NodeKind → Node → Bool
is_live kind n = n.kind == kind && n.status == Node.active && n.trashed_root_id == ""

module _ (platform : Platform) {S : Type 0} (provider : StorageProvider S)
    (settings : Settings) where
  -- A page, with a cursor behind its last item when there are more.
  unfoldable pub page_of :
      {A : Type 0} → String → String → (A → CursorPosition) → List A × Bool → Page A
  page_of tenant_id scope position_of (items, more) = record {
    items = items;
    next_cursor = elim (last_of items) [
      | none ↦ ""
      | some last ↦
          if more
          then encode platform settings.cursor_key tenant_id scope (position_of last)
          else ""
    ];
  }

  unfoldable pub get_node : Identity → String → NodeKind → Action S Node
  get_node identity id kind = do
    require_id id
    node ← reading (Namespace.node identity id false)
    if is_live kind node then pure node else refuse ErrorCode.not_found

  unfoldable pub list_children : Identity → String → String → ℤ → Action S (Page Node)
  list_children identity parent_id cursor limit = do
    require_id parent_id
    limit ← lift (page_limit limit)
    let scope : String = append "children:" parent_id
    position ← lift (decode platform settings.cursor_key cursor identity.tenant_id scope)
    found ← reading (Namespace.list_children identity parent_id position limit)
    pure (page_of identity.tenant_id scope node_position found)

  -- The display name and the normalized name of an update that renames.
  unfoldable pub optional_names : Option String → Result (Option String × Option String)
  optional_names none = ok (none, none)
  optional_names (some text) = elim (normalize_name platform text) [
    | err e ↦ err e
    | ok (display, normalized) ↦ ok (some display, some normalized)
  ]

  unfoldable pub update_node :
      Call → Identity → String → Option String → Option String → ℤ → Action S Node
  update_node call identity node_id name parent_id revision = do
    refuse_if (leb_ℤ revision (pos 0) || (is_none name && is_none parent_id))
        ErrorCode.invalid_request
    require_id node_id
    elim parent_id [ none ↦ pure tt | some id ↦ require_id id ]
    names ← lift (optional_names name)
    on_repository (
        Namespace.update_node call.context (record {
          identity = identity;
          node_id = node_id;
          display_name = names.0;
          normalized_name = names.1;
          parent_id = parent_id;
          expected_revision = revision;
          now = call.now 0;
        }))

  unfoldable pub recycle : Call → Identity → String → ℤ → Action S (Unit {0})
  recycle call identity node_id revision = do
    refuse_if (leb_ℤ revision (pos 0)) ErrorCode.invalid_request
    require_id node_id
    on_repository (Recycle.recycle call.context identity node_id revision (call.now 0))

  abbrev entry_position : RecycleEntry → CursorPosition
  entry_position e = node_position e.node

  unfoldable pub list_recycle : Identity → String → ℤ → Action S (Page RecycleEntry)
  list_recycle identity cursor limit = do
    limit ← lift (page_limit limit)
    position ← lift (decode platform settings.cursor_key cursor identity.tenant_id "recycle")
    found ← reading (λ r. ok (Recycle.list_recycle identity position limit r))
    pure (page_of identity.tenant_id "recycle" entry_position found)

  unfoldable pub restore : Call → Identity → String → ℤ → Action S Node
  restore call identity node_id revision = do
    refuse_if (leb_ℤ revision (pos 0)) ErrorCode.invalid_request
    require_id node_id
    on_repository (Recycle.restore call.context identity node_id revision (call.now 0))

  -- The loop of `Purge`: it ends at the first object that cannot be deleted.
  unfoldable pub delete_objects : List Blob → Action S (Unit {0})
  delete_objects [] = pure tt
  delete_objects (blob ∷ blobs) =
      storage_step (provider.delete_object blob.object_key) >> delete_objects blobs

  unfoldable pub purge : Call → Identity → String → ℤ → Action S (Unit {0})
  purge call identity node_id revision = do
    refuse_if (leb_ℤ revision (pos 0)) ErrorCode.invalid_request
    require_id node_id
    plan ← on_repository (Recycle.prepare_purge identity node_id revision (call.now 0))
    delete_objects plan.blobs
    on_repository (Recycle.finish_purge call.context identity plan (call.now 1))

  unfoldable pub download : Call → Identity → String → Action S SignedDownload
  download call identity node_id = do
    require_id node_id
    found ← reading (download_blob identity node_id)
    storage_step (
        provider.sign_download call.ambient found.1.object_key found.0.display_name
          settings.download_sign_ttl)
