-- ===== src/Pool/Tests.antt =====
-- Runs of a pool, and its theorems at concrete inputs.
use rag_system.Base.{◌⊎◌, ℕ, Bool, true, false, [], ◌≡◌, ◌≢◌, refl, arith}
use rag_system.Pool.{is_closed, Pool, acquired, raised, pick, settle, use_connection, acquire_sync}
use rag_system.Pool.Invariant.{IsSound, Fresh, here, acquiring, acquire_sync-Fresh}

abbrev all_valid : ℕ → Bool
all_valid c = true

abbrev empty : Pool
empty = record {
  max_connections = 2;
  max_keepalive = 2;
  connections = [];
  available = [];
  in_use = [];
  total_requests = 0;
  closed = false;
}

abbrev one_out : Pool
one_out = (acquire_sync all_valid 7 empty).1

empty-IsSound : IsSound empty
empty-IsSound = record { split = λ x. (omega arith, omega arith); bounded = omega arith }

first_is_made : (acquire_sync all_valid 7 empty).0 ≡ acquired 7
unfolding acquire_sync
first_is_made = refl

acquire_sync-Fresh_example :
    let (r, p') = acquire_sync all_valid 8 one_out in
    (((one_out.closed ≡ true) × (r ≡ is_closed) × (p' ≡ one_out)) ⊎ (IsSound one_out × IsSound p'))
    × Fresh r one_out p'
    × (r ≢ raised)
unfolding acquire_sync pick settle use_connection
acquire_sync-Fresh_example =
    acquire_sync-Fresh all_valid 8 empty one_out empty-IsSound (acquiring all_valid 7 here refl)
      refl
