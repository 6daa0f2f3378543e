-- ===== src/Access/Policy.antt =====
-- proxy/app/shared/access_control.py, and `UserContext` of proxy/app/auth/jwt.py. A level or a role
-- is one of the texts that the tables name, or another text.
use rag_system.Base.{
  ℕ, leb, max, Bool, true, false, ◌&&◌, ◌||◌, not, String, str_eq, Option, none, some, List, [],
  ◌∷◌, if◌then◌else◌, any, filter,
}

pub data Level : Type 0 where
  public internal confidential restricted : Level
  other_level : String → Level

pub data Role : Type 0 where
  admin expert developer viewer external : Role
  other_role : String → Role

-- `==` on levels
abbrev pub same_level : Level → Level → Bool
same_level public public = true
same_level internal internal = true
same_level confidential confidential = true
same_level restricted restricted = true
same_level (other_level s) (other_level t) = str_eq s t
same_level _ _ = false

-- `ACCESS_LEVEL_RANK.get(level, 0)`
unfoldable pub access_level_rank : Level → ℕ
access_level_rank public = 0
access_level_rank internal = 1
access_level_rank confidential = 2
access_level_rank restricted = 3
access_level_rank (other_level s) = 0

-- `ROLE_ACCESS.get(role, [])`
unfoldable pub role_access : Role → List Level
role_access admin = public ∷ internal ∷ confidential ∷ restricted ∷ []
role_access expert = public ∷ internal ∷ confidential ∷ []
role_access developer = public ∷ internal ∷ confidential ∷ []
role_access viewer = public ∷ internal ∷ []
role_access external = public ∷ []
role_access (other_role s) = []

-- `ROLE_MAX_LEVEL.get(role, "public")`
unfoldable pub role_max_level : Role → Level
role_max_level admin = restricted
role_max_level expert = confidential
role_max_level developer = confidential
role_max_level viewer = internal
role_max_level external = public
role_max_level (other_role s) = public

pub record UserContext : Type 0 where
  pub username : String
  pub roles : List Role
  pub groups : List String

abbrev pub is_admin_role : Role → Bool
is_admin_role admin = true
is_admin_role _ = false

abbrev pub is_expert_role : Role → Bool
is_expert_role expert = true
is_expert_role _ = false

unfoldable pub is_admin : UserContext → Bool
is_admin u = any is_admin_role u.roles

unfoldable pub is_expert : UserContext → Bool
is_expert u = any is_expert_role u.roles

unfoldable pub mem_level : Level → List Level → Bool
mem_level l ls = any (same_level l) ls

unfoldable pub mem_text : String → List String → Bool
mem_text s ts = any (str_eq s) ts

-- `set.update`
unfoldable pub update : List Level → List Level → List Level
unfolding mem_level
update [] ls = ls
update (k ∷ ks) ls = update ks (if mem_level k ls then ls else k ∷ ls)

unfoldable pub allowed_set : List Role → List Level → List Level
unfolding update role_access
allowed_set [] ls = ls
allowed_set (r ∷ rs) ls = allowed_set rs (update (role_access r) ls)

-- `sorted(..., key=rank)`, as an insertion sort
unfoldable pub insert_level : Level → List Level → List Level
unfolding access_level_rank
insert_level l [] = l ∷ []
insert_level l (k ∷ ks) =
    if leb (access_level_rank l) (access_level_rank k) then l ∷ k ∷ ks else k ∷ insert_level l ks

unfoldable pub sort_levels : List Level → List Level
unfolding insert_level
sort_levels [] = []
sort_levels (l ∷ ls) = insert_level l (sort_levels ls)

unfoldable pub or_public : List Level → List Level
or_public [] = public ∷ []
or_public (l ∷ ls) = l ∷ ls

unfoldable pub role_allowed_levels : UserContext → List Level
unfolding allowed_set or_public sort_levels
role_allowed_levels u = sort_levels (or_public (allowed_set u.roles []))

-- A chunk's own fields, which come first, and those of its payload.
pub record Chunk : Type 0 where
  pub access_level : Option Level
  pub payload_level : Option Level
  pub allowed_groups : Option (List String)
  pub payload_groups : Option (List String)
  pub allowed_users : Option (List String)
  pub payload_users : Option (List String)

-- `chunk.get(key, chunk.get("payload", {}).get(key, default))`
abbrev pub field_or {ℓ} : {A : Type ℓ} → Option A → Option A → A → A
field_or (some a) inner default = a
field_or none (some a) default = a
field_or none none default = default

abbrev pub level_of : Chunk → Level
level_of c = field_or c.access_level c.payload_level public

abbrev pub groups_of : Chunk → List String
groups_of c = field_or c.allowed_groups c.payload_groups []

abbrev pub users_of : Chunk → List String
users_of c = field_or c.allowed_users c.payload_users []

abbrev pub is_empty {ℓ} : {A : Type ℓ} → List A → Bool
is_empty [] = true
is_empty (x ∷ xs) = false

-- One round of the loop of `filter_chunks`: whether the chunk is appended.
unfoldable pub keeps_chunk : UserContext → List Level → Chunk → Bool
keeps_chunk u allowed_levels c =
    let level = level_of c in
    if not (mem_level level allowed_levels)
    then false
    else if same_level level confidential
        && (is_empty u.groups
            || (not (is_empty (groups_of c)) && not (any (λ g. mem_text g u.groups) (groups_of c))))
    then false
    else if same_level level restricted
        && (not (is_empty (users_of c)) && not (mem_text u.username (users_of c)))
    then false
    else true

unfoldable pub filter_chunks : List Chunk → UserContext → List Chunk
unfolding is_admin keeps_chunk
filter_chunks chunks u =
    if is_admin u then chunks else filter (keeps_chunk u (role_allowed_levels u)) chunks

-- The set `RESTRICTED_SOURCES`
abbrev pub restricted_sources : List String
restricted_sources = "hr" ∷ "security" ∷ "finance" ∷ "legal" ∷ "executive" ∷ []

-- `max(..., default=0)`
unfoldable pub max_rank : List Role → ℕ
unfolding access_level_rank role_max_level
max_rank [] = 0
max_rank (r ∷ rs) = max (access_level_rank (role_max_level r)) (max_rank rs)

unfoldable pub can_access_source : UserContext → String → Bool
unfolding is_admin is_expert max_rank
can_access_source u source_type =
    if is_admin u
    then true
    else if mem_text source_type restricted_sources && not (is_expert u)
    then false
    else leb 0 (max_rank u.roles)

-- No list is `None` or the empty one.
unfoldable pub can_access_document : UserContext → Level → List String → List String → Bool
unfolding is_admin
can_access_document u level allowed_groups allowed_users =
    if is_admin u
    then true
    else if not (mem_level level (role_allowed_levels u))
    then false
    else if same_level level confidential
        && not (is_empty allowed_groups)
        && (is_empty u.groups || not (any (λ g. mem_text g u.groups) allowed_groups))
    then false
    else if same_level level restricted
        && not (is_empty allowed_users)
        && not (mem_text u.username allowed_users)
    then false
    else true
