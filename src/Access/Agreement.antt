-- ===== src/Access/Agreement.antt =====
-- proxy/app/shared/access_control.py: the filter on chunks beside the check on a document, what no
-- user but an admin can see, and what a further role can change.
use rag_system.Base.{
  Bool, true, false, ◌&&◌, ◌||◌, not, String, List, [], ◌∷◌, ◌≡◌, refl, arith, any, filter,
}
use rag_system.Access.Policy.{
  Level, public, confidential, restricted, same_level, Role, admin, expert, developer, viewer,
  external, other_role, role_access, mem_level, mem_text, role_allowed_levels, UserContext,
  is_empty, is_admin, is_admin_role, is_expert, Chunk, level_of, groups_of, users_of, keeps_chunk,
  filter_chunks, can_access_document, can_access_source, restricted_sources,
}
use rag_system.Access.Levels.{grants, is_known, role_allowed_levels_lem}

-- The check on a document, at the fields of a chunk.
abbrev pub can_access_chunk : UserContext → Chunk → Bool
can_access_chunk u c = can_access_document u (level_of c) (groups_of c) (users_of c)

keeps-can_access :
    (u : UserContext) (c : Chunk)
    → is_admin u ≡ false
    → keeps_chunk u (role_allowed_levels u) c
      ≡ (can_access_chunk u c && not (same_level (level_of c) confidential && is_empty u.groups))
keeps-can_access u c h = unfold keeps_chunk can_access_document in ground (arith, h)

-- A user who is no admin gets from a list of chunks, in order, those that the check on documents
-- grants, less the confidential ones if the user is in no group.
pub filter_chunks_lem :
    (chunks : List Chunk) (u : UserContext)
    → is_admin u ≡ false
    → filter_chunks chunks u
      ≡ filter
          (λ c.
            can_access_chunk u c && not (same_level (level_of c) confidential && is_empty u.groups))
          chunks
unfolding filter_chunks
filter_chunks_lem [] u h = rw h
filter_chunks_lem (c ∷ cs) u h = ground (arith, h, keeps-can_access u c h, filter_chunks_lem cs u h)

-- A confidential document that names no groups is granted by the check to a user of a role that
-- has the level and in no group, and taken out by the filter on chunks.
pub confidential_disagreement :
    (u : UserContext) (c : Chunk)
    → is_admin u ≡ false
    → u.groups ≡ []
    → mem_level confidential (role_allowed_levels u) ≡ true
    → level_of c ≡ confidential
    → groups_of c ≡ []
    → (can_access_chunk u c ≡ true) × (filter_chunks (c ∷ []) u ≡ [])
confidential_disagreement u c h g m l n = (
  unfold can_access_document in ground (arith, h, m, l, n),
  unfold filter_chunks in ground (arith, h, m, l, n, g),
)

grants-restricted : (rs : List Role) → any is_admin_role rs ≡ false → grants rs restricted ≡ false
unfolding role_access mem_level
grants-restricted [] h = refl
grants-restricted (admin ∷ rs) h = cc
grants-restricted (expert ∷ rs) h = grants-restricted rs h
grants-restricted (developer ∷ rs) h = grants-restricted rs h
grants-restricted (viewer ∷ rs) h = grants-restricted rs h
grants-restricted (external ∷ rs) h = grants-restricted rs h
grants-restricted (other_role s ∷ rs) h = grants-restricted rs h

-- A user who is no admin is refused every restricted document, also one whose list of allowed users
-- names them.
pub restricted_is_for_admins :
    (u : UserContext) (allowed_groups allowed_users : List String)
    → is_admin u ≡ false
    → can_access_document u restricted allowed_groups allowed_users ≡ false
restricted_is_for_admins u allowed_groups allowed_users h =
    let none_grant : grants u.roles restricted ≡ false =
      grants-restricted u.roles (unfold is_admin in h) in
    let out : mem_level restricted (role_allowed_levels u) ≡ false =
      ground (arith, role_allowed_levels_lem restricted u, none_grant) in
    unfold can_access_document in ground (arith, h, out)

grants-known : (rs : List Role) (l : Level) → any is_known rs ≡ false → grants rs l ≡ false
unfolding role_access mem_level
grants-known [] l h = refl
grants-known (other_role s ∷ rs) l h = grants-known rs l h
grants-known (admin ∷ rs) l h = cc
grants-known (expert ∷ rs) l h = cc
grants-known (developer ∷ rs) l h = cc
grants-known (viewer ∷ rs) l h = cc
grants-known (external ∷ rs) l h = cc

known-public :
    (r : Role) (l : Level)
    → is_known r ≡ true
    → same_level l public ≡ true
    → mem_level l (role_access r) ≡ true
unfolding role_access mem_level
known-public admin l h e = ground (arith, e)
known-public expert l h e = ground (arith, e)
known-public developer l h e = ground (arith, e)
known-public viewer l h e = ground (arith, e)
known-public external l h e = ground (arith, e)
known-public (other_role s) l h e = cc

-- A further role never takes a document away from a user.
pub role_monotone :
    (u : UserContext) (r : Role) (level : Level) (allowed_groups allowed_users : List String)
    → can_access_document u level allowed_groups allowed_users ≡ true
    → can_access_document (record u { roles = r ∷ u.roles }) level allowed_groups allowed_users
      ≡ true
unfolding can_access_document
role_monotone u r level allowed_groups allowed_users h = ground (
  arith,
  role_allowed_levels_lem level u,
  role_allowed_levels_lem level (record u { roles = r ∷ u.roles }),
  known-public r level,
  grants-known u.roles level,
)

-- The check on a source refuses a user exactly if the source is one of the restricted ones and the
-- user is neither admin nor expert: the rank of the roles never decides.
pub can_access_source_lem :
    (u : UserContext) (source_type : String)
    → can_access_source u source_type
      ≡ (is_admin u || is_expert u || not (mem_text source_type restricted_sources))
unfolding can_access_source
can_access_source_lem u source_type = ground arith
