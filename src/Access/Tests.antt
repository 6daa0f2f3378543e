-- ===== src/Access/Tests.antt =====
-- Runs of the access checks, and their theorems at concrete inputs.
use rag_system.Base.{◌&&◌, not, none, some, [], ◌∷◌, ◌≡◌, refl, filter}
use rag_system.Access.Policy.{
  public, internal, confidential, same_level, developer, viewer, other_role, UserContext, Chunk,
  level_of, is_empty, role_allowed_levels, filter_chunks, is_admin,
}
use rag_system.Access.Agreement.{can_access_chunk, filter_chunks_lem}

abbrev alice : UserContext
alice = record { username = "alice"; roles = developer ∷ viewer ∷ []; groups = "platform" ∷ [] }

-- In no group.
abbrev bob : UserContext
bob = record { username = "bob"; roles = developer ∷ []; groups = [] }

abbrev memo : Chunk
memo = record {
  access_level = some confidential;
  payload_level = none;
  allowed_groups = none;
  payload_groups = none;
  allowed_users = none;
  payload_users = none;
}

alice_levels : role_allowed_levels alice ≡ public ∷ internal ∷ confidential ∷ []
unfolding role_allowed_levels
alice_levels = refl

stranger_levels :
    role_allowed_levels (record alice { roles = other_role "guest" ∷ [] }) ≡ public ∷ []
unfolding role_allowed_levels
stranger_levels = refl

filter_chunks_lem_example :
    filter_chunks (memo ∷ []) alice
    ≡ filter
        (λ c.
          can_access_chunk alice c
          && not (same_level (level_of c) confidential && is_empty alice.groups))
        (memo ∷ [])
unfolding is_admin
filter_chunks_lem_example = filter_chunks_lem (memo ∷ []) alice refl
