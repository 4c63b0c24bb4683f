-- ===== src/Memory/Member/Roll.antt =====
-- internal/memory: the map of members and the owners of a tenant, and what one write does to them.
use text.Mathlib.TextLemmas.{append_cancel_left}
use asteria_drive.Prelude.{
  ◌≡◌, ◌≢◌, String, true, false, some, arith, ◌⊎◌, inl, inr, ◌==◌, string_eq, str_beq_iff,
  Bool-cases, nat_eq,
}
use asteria_drive.Dict.{Dict, get, put, delete}
use asteria_drive.Dict.Laws.{get-put, get-put_self, get-delete}
use asteria_drive.Dict.Unique.{IsUnique, put-IsUnique, delete-IsUnique, counted}
use asteria_drive.Types.Access.{role_eq, member_status_eq, PrincipalRecord}
use asteria_drive.Memory.State.{Repository, member_key, active_owner_count, is_other_active_owner}
use asteria_drive.Memory.Member.{is_active_owner}

-- A member stands under the key of its tenant and principal, once.
pub record IsRoll (members : Dict String PrincipalRecord) : Type 0 where
  pub unique : IsUnique members
  pub keyed :
      (k : String) (m : PrincipalRecord)
      → get members k ≡ some m
      → k ≡ member_key m.identity.tenant_id m.identity.principal_id

-- A member of the tenant is an active owner.
abbrev pub HasOwner : Dict String PrincipalRecord → String → Type 0
HasOwner members t =
    (k : String) × (m : PrincipalRecord) × (get members k ≡ some m)
    × (m.identity.tenant_id ≡ t)
    × (is_active_owner m ≡ true)

-- In one tenant, two principals have two keys.
member_key_injective : (t p q : String) → member_key t p ≡ member_key t q → p ≡ q
unfolding member_key
member_key_injective t p q h = append_cancel_left "\0" p q (append_cancel_left t _ _ h)

other_active_owner :
    (t p : String) (m : PrincipalRecord)
    → is_other_active_owner t p m ≡ true
    → (m.identity.tenant_id ≡ t) × (m.identity.principal_id ≢ p) × (is_active_owner m ≡ true)
unfolding is_other_active_owner is_active_owner
other_active_owner t p m h =
    ground (arith, str_beq_iff m.identity.tenant_id t, str_beq_iff m.identity.principal_id p)

-- When the count of the others is not zero, an owner stands under another key.
other_owner :
    (r : Repository) (t p : String)
    → IsRoll r.members
    → active_owner_count r t p ≢ 0
    → (k : String) × (m : PrincipalRecord) × (get r.members k ≡ some m)
      × (k ≢ member_key t p)
      × (m.identity.tenant_id ≡ t)
      × (is_active_owner m ≡ true)
unfolding active_owner_count
other_owner r t p roll more =
    let (k, m, g, h) = counted (is_other_active_owner t p) r.members roll.unique more in
    let (et, ne, eo) = other_active_owner t p m h in
    (
      k,
      m,
      g,
      (λ q. ne (
          member_key_injective t m.identity.principal_id p
            (let e = roll.keyed k m g in cc (e, q, et)))),
      et,
      eo,
    )

-- The step spares the last owner: `m` is none, or others are left.
abbrev pub Spares : Repository → String → String → PrincipalRecord → Type 0
Spares r t p m = (is_active_owner m ≡ false) ⊎ (active_owner_count r t p ≢ 0)

-- What a method may do to the roll: leave it, put the member back under its key, or delete it.
abbrev pub Step : Repository → String → String → Dict String PrincipalRecord → Type 0
Step r t p members =
    (members ≡ r.members)
    ⊎ ((m : PrincipalRecord) × (m' : PrincipalRecord) × (get r.members (member_key t p) ≡ some m)
        × (members ≡ put r.members (member_key t p) m')
        × (m'.identity ≡ m.identity)
        × ((is_active_owner m' ≡ true) ⊎ Spares r t p m))
    ⊎ ((m : PrincipalRecord) × (get r.members (member_key t p) ≡ some m)
        × (members ≡ delete r.members (member_key t p))
        × Spares r t p m)

-- A tenant with an active owner has one under another key, or keeps the one it has.
spared :
    (r : Repository) (t p : String) (m : PrincipalRecord)
    → IsRoll r.members
    → get r.members (member_key t p) ≡ some m
    → Spares r t p m
    → HasOwner r.members t
    → (k : String) × (o : PrincipalRecord) × (get r.members k ≡ some o)
      × (k ≢ member_key t p)
      × (o.identity.tenant_id ≡ t)
      × (is_active_owner o ≡ true)
spared r t p m roll g sp (k, o, go, et, eo) = elim (Bool-cases (k == member_key t p)) [
  | inr other ↦ (k, o, go, ground (arith, str_beq_iff k (member_key t p)), et, eo)
  | inl same ↦
      at
        (let q : k ≡ member_key t p = ground (arith, str_beq_iff k (member_key t p)) in
          ground arith)
        sp
]
  where
    at :
        m ≡ o
        → Spares r t p m
        → (k : String) × (o : PrincipalRecord) × (get r.members k ≡ some o)
          × (k ≢ member_key t p)
          × (o.identity.tenant_id ≡ t)
          × (is_active_owner o ≡ true)
    at q (inl not_owner) = absurd (ground arith)
    at q (inr more) = other_owner r t p roll more

pub Step-IsRoll :
    (r : Repository) (t p : String) (members : Dict String PrincipalRecord)
    → IsRoll r.members
    → Step r t p members
    → IsRoll members
Step-IsRoll r t p members roll (inl same) = rw same roll
Step-IsRoll r t p members roll (inr (inl (m, m', g, e, ei, keep))) = rw e (record {
  unique = put-IsUnique r.members (member_key t p) m' roll.unique;
  keyed = λ k o h. elim (Bool-cases (member_key t p == k)) [
    | inl same ↦
        let q : member_key t p ≡ k = ground (arith, str_beq_iff (member_key t p) k) in
        let q' : m' ≡ o = ground (arith, get-put r.members (member_key t p) k m') in
        let e' = roll.keyed (member_key t p) m g in cc (e', q, q', ei)
    | inr other ↦ roll.keyed k o (ground (arith, get-put r.members (member_key t p) k m'))
  ];
})
Step-IsRoll r t p members roll (inr (inr (m, g, e, spares))) = rw e (record {
  unique = delete-IsUnique r.members (member_key t p) roll.unique;
  keyed = λ k o h. roll.keyed k o (ground (arith, get-delete r.members (member_key t p) k));
})

pub Step-HasOwner :
    (r : Repository) (t p : String) (members : Dict String PrincipalRecord)
    → IsRoll r.members
    → Step r t p members
    → HasOwner r.members t
    → HasOwner members t
Step-HasOwner r t p members roll (inl same) has = rw same has
Step-HasOwner r t p members roll (inr (inl (m, m', g, e, ei, inr spares))) has =
    let (k, o, go, ne, et, eo) = spared r t p m roll g spares has in
    (
      k,
      o,
      rw e
          (ground (arith, get-put r.members (member_key t p) k m', str_beq_iff (member_key t p) k)),
      et,
      eo,
    )
Step-HasOwner r t p members roll (inr (inl (m, m', g, e, ei, inl eo'))) (k, o, go, et, eo) =
    elim (Bool-cases (member_key t p == k)) [
      | inl same ↦
          let q : member_key t p ≡ k = ground (arith, str_beq_iff (member_key t p) k) in
          let q' : m ≡ o = ground arith in
          (
            member_key t p,
            m',
            rw e (get-put_self r.members (member_key t p) m'),
            cc (ei, q', et),
            eo',
          )
      | inr other ↦ (k, o, rw e (ground (arith, get-put r.members (member_key t p) k m')), et, eo)
    ]
Step-HasOwner r t p members roll (inr (inr (m, g, e, spares))) has =
    let (k, o, go, ne, et, eo) = spared r t p m roll g spares has in
    (
      k,
      o,
      rw e
          (ground (arith, get-delete r.members (member_key t p) k, str_beq_iff (member_key t p) k)),
      et,
      eo,
    )
