-- ===== src/Access/Levels.antt =====
-- proxy/app/shared/access_control.py: which levels the roles of a user give.
use rag_system.Base.{
  Bool, true, false, ◌&&◌, ◌||◌, not, eq_iff, List, [], ◌∷◌, ◌≡◌, refl, arith, any, if◌then◌else◌,
  ◌∙◌, ap,
}
use rag_system.Access.Policy.{
  Level, public, internal, confidential, restricted, other_level, same_level, Role, other_role,
  role_access, mem_level, update, allowed_set, insert_level, sort_levels, or_public,
  role_allowed_levels, UserContext, is_empty,
}

pub same_level-eq : (l k : Level) → same_level l k ≡ true → l ≡ k
same_level-eq public k h = ground arith
same_level-eq internal k h = ground arith
same_level-eq confidential k h = ground arith
same_level-eq restricted k h = ground arith
same_level-eq (other_level s) (other_level t) h = ground (arith, eq_iff s t)
same_level-eq (other_level s) public h = cc
same_level-eq (other_level s) internal h = cc
same_level-eq (other_level s) confidential h = cc
same_level-eq (other_level s) restricted h = cc

mem-cons :
    (l k : Level) (ls : List Level) → mem_level l (k ∷ ls) ≡ (same_level l k || mem_level l ls)
unfolding mem_level
mem-cons l k ls = refl

mem-insert :
    (l k : Level) (ls : List Level)
    → mem_level l (insert_level k ls) ≡ (same_level l k || mem_level l ls)
unfolding mem_level insert_level
mem-insert l k [] = refl
mem-insert l k (x ∷ xs) = ground (arith, mem-insert l k xs)

mem-sort : (l : Level) (ls : List Level) → mem_level l (sort_levels ls) ≡ mem_level l ls
unfolding sort_levels
mem-sort l [] = refl
mem-sort l (k ∷ ks) =
    ground (arith, mem-insert l k (sort_levels ks), mem-sort l ks, mem-cons l k ks)

mem-same : (l k : Level) (ls : List Level) → same_level l k ≡ true → mem_level l ls ≡ mem_level k ls
mem-same l k ls h = ap (λ x. mem_level x ls) (same_level-eq l k h)

mem-update :
    (l : Level) (ks ls : List Level)
    → mem_level l (update ks ls) ≡ (mem_level l ks || mem_level l ls)
unfolding update
mem-update l [] ls = unfold mem_level in refl
mem-update l (k ∷ ks) ls = ground (
  arith,
  mem-update l ks (if mem_level k ls then ls else k ∷ ls),
  mem-same l k ls,
  mem-cons l k ks,
  mem-cons l k ls,
)

-- Some role gives the level.
abbrev pub grants : List Role → Level → Bool
grants rs l = any (λ r. mem_level l (role_access r)) rs

-- The role is one that the table names.
abbrev pub is_known : Role → Bool
is_known (other_role s) = false
is_known _ = true

mem-allowed_set :
    (l : Level) (rs : List Role) (ls : List Level)
    → mem_level l (allowed_set rs ls) ≡ (grants rs l || mem_level l ls)
unfolding allowed_set
mem-allowed_set l [] ls = refl
mem-allowed_set l (r ∷ rs) ls =
    ground
      (arith, mem-allowed_set l rs (update (role_access r) ls), mem-update l (role_access r) ls)

is_empty-update : (ks ls : List Level) → is_empty (update ks ls) ≡ (is_empty ks && is_empty ls)
unfolding update mem_level
is_empty-update [] ls = refl
is_empty-update (k ∷ ks) [] = ground (arith, is_empty-update ks (k ∷ []))
is_empty-update (k ∷ ks) (l ∷ ls) =
    ground (arith, is_empty-update ks (if mem_level k (l ∷ ls) then l ∷ ls else k ∷ l ∷ ls))

is_empty-role_access : (r : Role) → is_empty (role_access r) ≡ not (is_known r)
unfolding role_access
is_empty-role_access (other_role s) = refl
is_empty-role_access r = refl

is_empty-allowed_set :
    (rs : List Role) (ls : List Level)
    → is_empty (allowed_set rs ls) ≡ (not (any is_known rs) && is_empty ls)
unfolding allowed_set
is_empty-allowed_set [] ls = refl
is_empty-allowed_set (r ∷ rs) ls = ground (
  arith,
  is_empty-allowed_set rs (update (role_access r) ls),
  is_empty-update (role_access r) ls,
  is_empty-role_access r,
)

mem-or_public :
    (l : Level) (ls : List Level)
    → mem_level l (or_public ls) ≡ (if is_empty ls then same_level l public else mem_level l ls)
unfolding or_public mem_level
mem-or_public l [] = ground arith
mem-or_public l (k ∷ ks) = refl

-- A user may see the levels that some role of theirs gives, and, where no role is known, the public
-- one alone.
pub role_allowed_levels_lem :
    (l : Level) (u : UserContext)
    → mem_level l (role_allowed_levels u)
      ≡ (if any is_known u.roles then grants u.roles l else same_level l public)
unfolding role_allowed_levels
role_allowed_levels_lem l u =
    mem-sort l (or_public (allowed_set u.roles []))
    ∙ mem-or_public l (allowed_set u.roles [])
    ∙ (unfold mem_level in
        ground (arith, mem-allowed_set l u.roles [], is_empty-allowed_set u.roles []))
