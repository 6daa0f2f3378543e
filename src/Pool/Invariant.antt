-- ===== src/Pool/Invariant.antt =====
-- proxy/app/shared/connection_pool.py: every connection is either available or in use.
use rag_system.Base.{
  ==_refl, ◌≢◌, ◌&&◌, ◌⊎◌, ap, refl, ◌∙◌, ℕ, ◌+◌, ◌≤◌, ◌==◌, ltb, Bool, true, false, some, none,
  List, [], ◌∷◌, ◌≡◌, length, arith, if◌then◌else◌, Bool-cases, inl, inr,
}
use rag_system.Pool.Occurrences.{
  occurrences, occurrences-remove, length-remove, has_lem, occurrences-filter,
}
use rag_system.Pool.{
  raised, Pool, Picked, picked, value_error, Acquired, acquired, is_closed, remove, has, pick,
  settle, use_connection, acquire_sync, release_sync, close_sync,
}

-- Each connection is there at most once, and is available or in use, not both; there are at most
-- `max_connections`.
pub record IsSound (p : Pool) : Type 0 where
  pub split :
      (x : ℕ)
      → (occurrences x p.connections ≡ occurrences x p.available + occurrences x p.in_use)
        × (occurrences x p.connections ≤ 1)
  pub bounded : length p.connections ≤ p.max_connections

-- The connections that are there, where `c` of them is neither available nor in use yet
abbrev Splits : List ℕ → List ℕ → List ℕ → (ℕ → ℕ) → List ℕ → Type 0
Splits before used available extra connections =
    ((x : ℕ)
      → (occurrences x connections ≡ occurrences x available + occurrences x used + extra x)
        × (occurrences x connections ≤ 1)
        × (occurrences x connections ≤ occurrences x before))
    × (length connections ≤ length before)

abbrev nothing : ℕ → ℕ
nothing x = 0

abbrev only : ℕ → ℕ → ℕ
only c x = if c == x then 1 else 0

PickedSound : List ℕ → List ℕ → Picked → Type 0
PickedSound before used (picked none available connections) =
    Splits before used available nothing connections
PickedSound before used (picked (some c) available connections) =
    Splits before used available (only c) connections
PickedSound before used (value_error available connections) = true ≡ false

pick-PickedSound :
    (valid : ℕ → Bool) (before used available connections : List ℕ)
    → Splits before used available nothing connections
    → PickedSound before used (pick valid available connections)
unfolding pick PickedSound
pick-PickedSound valid before used [] connections h = h
pick-PickedSound valid before used (c ∷ available) connections (split, size) =
    elim (Bool-cases (valid c)) [
      | inl good ↦ rw good (λ x. ground (arith, split x), size)
      | inr bad ↦
          let there : has c connections ≡ true =
            ground (arith, has_lem c connections, split c, ==_refl c) in
          let later : PickedSound before used (pick valid available (remove c connections)) =
            pick-PickedSound valid before used available (remove c connections) (
              λ x. ground (arith, split x, occurrences-remove x c connections),
              omega (arith, size, length-remove c connections),
            ) in
          rw bad rw there later
    ]

release-IsSound :
    (valid : ℕ → Bool) (c : ℕ) (p : Pool)
    → IsSound p
    → occurrences c p.in_use ≡ 1
    → IsSound (release_sync valid c p)
unfolding release_sync
release-IsSound valid c p h used =
    elim (Bool-cases (valid c && ltb (length p.available) p.max_keepalive)) [
      | inl kept ↦ rw kept (record {
        split = λ x. ground (arith, h.split x, h.split c, used, occurrences-filter x c p.in_use);
        bounded = h.bounded;
      })
      | inr gone ↦ rw gone (record {
        split = λ x. ground (
          arith,
          h.split x,
          h.split c,
          used,
          occurrences-filter x c p.in_use,
          occurrences-remove x c p.connections,
        );
        bounded = omega (arith, h.bounded, length-remove c p.connections);
      })
    ]

-- The connection that was handed out was not in use, and now is once.
abbrev pub Fresh : Acquired → Pool → Pool → Type 0
Fresh r p p' =
    (c : ℕ) → r ≡ acquired c → (occurrences c p.in_use ≡ 0) × (occurrences c p'.in_use ≡ 1)

use-IsSound :
    (c : ℕ) (q : Pool)
    → ((x : ℕ)
        → (occurrences x q.connections
            ≡ occurrences x q.available + occurrences x q.in_use + only c x)
          × (occurrences x q.connections ≤ 1))
    → length q.connections ≤ q.max_connections
    → let (r, q') = use_connection c q in IsSound q' × Fresh r q q' × (r ≢ raised)
unfolding use_connection
use-IsSound c q split size =
    let out : occurrences c q.in_use ≡ 0 = ground (arith, split c, ==_refl c) in
    let free : has c q.in_use ≡ false = ground (arith, has_lem c q.in_use, out) in
    rw free (
      record { split = λ x. ground (arith, split x); bounded = size },
      λ d same. ground (arith, same, out, ==_refl c),
      λ e. ground (arith, e),
    )

settle-IsSound :
    (new : ℕ) (k : Picked) (p : Pool)
    → IsSound p
    → occurrences new p.connections ≡ 0
    → PickedSound p.connections p.in_use k
    → let (r, p') = settle new k p in IsSound p' × Fresh r p p' × (r ≢ raised)
unfolding settle PickedSound
settle-IsSound new (picked (some c) available connections) p h unused (split, size) =
    use-IsSound c (record p { available = available; connections = connections })
      (λ x. ground (arith, split x)) (omega (arith, size, h.bounded))
settle-IsSound new (picked none available connections) p h unused (split, size) =
    elim (Bool-cases (ltb (length connections) p.max_connections)) [
      | inl room ↦ rw room (
          use-IsSound new (record p { available = available; connections = new ∷ connections })
            (λ x. ground (arith, split x, split new, unused)) (ground (arith, room)))
      | inr full ↦ rw full (
        record { split = λ x. ground (arith, split x); bounded = omega (arith, size, h.bounded) },
        λ c e. ground (arith, e),
        λ e. ground (arith, e),
      )
    ]
settle-IsSound new (value_error available connections) p h unused k = ground (arith, k)

acquire-IsSound :
    (valid : ℕ → Bool) (new : ℕ) (p : Pool)
    → IsSound p
    → occurrences new p.connections ≡ 0
    → let (r, p') = acquire_sync valid new p in IsSound p' × Fresh r p p' × (r ≢ raised)
unfolding acquire_sync PickedSound
acquire-IsSound valid new p h unused = elim (Bool-cases p.closed) [
  | inl closed ↦ simp closed (h, λ c e. ground (arith, e), λ e. ground (arith, e))
  | inr still ↦
      let start : Splits p.connections p.in_use p.available nothing p.connections =
        (λ x. ground (arith, h.split x), omega arith) in
      let found : PickedSound p.connections p.in_use (pick valid p.available p.connections) =
        pick-PickedSound valid p.connections p.in_use p.available p.connections start in
      simp still (settle-IsSound new (pick valid p.available p.connections) p h unused found)
]

-- What callers can make of a pool by its synchronous methods, where they release what was handed out to
-- them, once, also when the pool was closed in the meantime, and the factory makes a connection that is
-- not there.
pub data Reachable : Pool → Pool → Type 0 where
  here : {p : Pool} → Reachable p p
  acquiring :
      (valid : ℕ → Bool) (new : ℕ) {p q : Pool}
      → Reachable p q
      → occurrences new q.connections ≡ 0
      → Reachable p (acquire_sync valid new q).1
  releasing :
      (valid : ℕ → Bool) (c : ℕ) {p q : Pool}
      → Reachable p q
      → occurrences c q.in_use ≡ 1
      → Reachable p (release_sync valid c q)
  releasing_late :
      (valid : ℕ → Bool) (c : ℕ) {p q : Pool}
      → Reachable p q
      → q.closed ≡ true
      → Reachable p (release_sync valid c q)
  closing : {p q : Pool} → Reachable p q → Reachable p (close_sync q)

-- A pool that is closed may have connections that are released late; every other one is sound.
abbrev pub IsSoundOrClosed : Pool → Type 0
IsSoundOrClosed p = (p.closed ≡ true) ⊎ IsSound p

acquire-closed :
    (valid : ℕ → Bool) (new : ℕ) (p : Pool)
    → p.closed ≡ true
    → acquire_sync valid new p ≡ (is_closed, p)
unfolding acquire_sync
acquire-closed valid new p closed = simp closed refl

release-closed : (valid : ℕ → Bool) (c : ℕ) (p : Pool) → (release_sync valid c p).closed ≡ p.closed
unfolding release_sync
release-closed valid c p = elim (Bool-cases (valid c && ltb (length p.available) p.max_keepalive)) [
  | inl kept ↦ rw kept refl
  | inr gone ↦ rw gone refl
]

Reachable-IsSoundOrClosed : {p q : Pool} → Reachable p q → IsSoundOrClosed p → IsSoundOrClosed q
unfolding close_sync
Reachable-IsSoundOrClosed here h = h
Reachable-IsSoundOrClosed (acquiring valid new {q = q} r unused) h =
    elim (Reachable-IsSoundOrClosed r h) [
      | inl closed ↦ inl (ap (λ o. o.1.closed) (acquire-closed valid new q closed) ∙ closed)
      | inr sound ↦ inr (acquire-IsSound valid new q sound unused).0
    ]
Reachable-IsSoundOrClosed (releasing valid c {q = q} r used) h =
    elim (Reachable-IsSoundOrClosed r h) [
      | inl closed ↦ inl (release-closed valid c q ∙ closed)
      | inr sound ↦ inr (release-IsSound valid c q sound used)
    ]
Reachable-IsSoundOrClosed (releasing_late valid c {q = q} r closed) h =
    inl (release-closed valid c q ∙ closed)
Reachable-IsSoundOrClosed (closing r) h = inl refl

-- A pool is sound where each connection is there once, is available or in use, not both, and at most
-- `max_connections` are. In every pool that callers make of a sound one by the synchronous methods, also
-- where they release a connection after the pool was closed, acquiring hands out only a connection that
-- was not in use, and never raises the error of `list.remove`. The pool is sound before and behind it,
-- or it is closed, nothing is handed out and it stays as it was. Callers release only what was handed
-- out to them, and the factory makes a connection that is not there.
pub acquire_sync-Fresh :
    (valid : ℕ → Bool) (new : ℕ) (start p : Pool)
    → IsSound start
    → Reachable start p
    → occurrences new p.connections ≡ 0
    → let (r, p') = acquire_sync valid new p in
      (((p.closed ≡ true) × (r ≡ is_closed) × (p' ≡ p)) ⊎ (IsSound p × IsSound p'))
      × Fresh r p p'
      × (r ≢ raised)
acquire_sync-Fresh valid new start p h r unused = elim (Reachable-IsSoundOrClosed r (inr h)) [
  | inl closed ↦
      let e = acquire-closed valid new p closed in
      (
        inl (closed, ap (λ o. o.0) e, ap (λ o. o.1) e),
        (λ c same. ground (arith, same, ap (λ o. o.0) e)),
        λ same. ground (arith, same, ap (λ o. o.0) e),
      )
  | inr sound ↦
      let (kept, fresh, quiet) = acquire-IsSound valid new p sound unused in
      (inr (sound, kept), fresh, quiet)
]
