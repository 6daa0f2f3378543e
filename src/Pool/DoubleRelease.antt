-- ===== src/Pool/DoubleRelease.antt =====
-- proxy/app/shared/connection_pool.py: a connection that is released twice.
use rag_system.Base.{ℕ, ◌+◌, ◌≤◌, Bool, true, false, ◌≡◌, length, arith}
use rag_system.Pool.{Pool, acquired, pick, settle, use_connection, acquire_sync, release_sync}

-- Where a connection is released twice, is valid, and there is room for two more available ones in a
-- pool that is not closed, the next two calls both hand out this connection.
pub released_twice :
    (valid : ℕ → Bool) (new new' c : ℕ) (p : Pool)
    → valid c ≡ true
    → length p.available + 2 ≤ p.max_keepalive
    → p.closed ≡ false
    → let p₂ = release_sync valid c (release_sync valid c p) in
      let (r, p₃) = acquire_sync valid new p₂ in
      (r ≡ acquired c) × ((acquire_sync valid new' p₃).0 ≡ acquired c)
unfolding release_sync acquire_sync pick settle use_connection
released_twice valid new new' c p good room opened =
    (ground (arith, good, room, opened), ground (arith, good, room, opened))
