-- ===== src/Lake/Index.antt =====
-- etl/indexer/qdrant_hybrid.py: `index_chunks` and `delete_chunks` where no call of Qdrant raises,
-- and where all do.
use rag_system.Base.{
  ℕ, zero, suc, ◌-◌, true, false, String, List, [], ◌∷◌, ◌++◌, ◌≡◌, refl, length, filter, arith, ap,
  sym, ◌∙◌, All, length-append,
}
use mathlib.Core.Path.{subst}
use rag_system.Base.Dict
use rag_system.Base.Dict.{Dict}
use rag_system.Versions.{Chunk, by_hash}
use rag_system.Versions.Changes.{delete_all}
use rag_system.Lake.{
  Outages, has_point, group, batches, one_by_one, index_batch, index_batches, index_chunks,
  delete_chunks,
}

abbrev pub running : {P : Type 0} → Outages P
running = record { batch_fails = λ ps. false; point_fails = λ c. false; delete_fails = false }

abbrev pub down : {P : Type 0} → Outages P
down = record { batch_fails = λ ps. true; point_fails = λ c. true; delete_fails = true }

module _ {P : Type 0} where
  abbrev pub HavePoints : List (Chunk P) → Type 0
  HavePoints = All (λ c. has_point c ≡ true)

  filter-HavePoints : (cs : List (Chunk P)) → HavePoints cs → filter has_point cs ≡ cs
  filter-HavePoints [] h = refl
  filter-HavePoints (c ∷ cs) (p, h) = ground (arith, p, filter-HavePoints cs h)

  index_batch-running :
      (b : List (Chunk P)) (d : Dict (Chunk P))
      → HavePoints b
      → index_batch running b d ≡ (length b, by_hash b d)
  unfolding index_batch by_hash
  index_batch-running [] d h = refl
  index_batch-running (c ∷ b) d h = rw (filter-HavePoints (c ∷ b) h) refl

  flat : List (List (Chunk P)) → List (Chunk P)
  flat [] = []
  flat (b ∷ bs) = b ++ flat bs

  AllHavePoints : List (List (Chunk P)) → Type 0
  AllHavePoints = All HavePoints

  flat-group :
      (size left : ℕ) (cs : List (Chunk P)) → let (b, bs) = group size left cs in b ++ flat bs ≡ cs
  unfolding group flat
  flat-group size left [] = refl
  flat-group size (suc left) (c ∷ cs) = ap (λ xs. c ∷ xs) (flat-group size left cs)
  flat-group size zero (c ∷ cs) = ap (λ xs. c ∷ xs) (flat-group size (size - 1) cs)

  halves : (b cs : List (Chunk P)) → HavePoints (b ++ cs) → HavePoints b × HavePoints cs
  halves [] cs h = (tt, h)
  halves (c ∷ b) cs (p, h) = let (l, r) = halves b cs h in ((p, l), r)

  each-batch : (bs : List (List (Chunk P))) → HavePoints (flat bs) → AllHavePoints bs
  unfolding AllHavePoints flat
  each-batch [] h = tt
  each-batch (b ∷ bs) h = let (l, r) = halves b (flat bs) h in (l, each-batch bs r)

  by_hash-++ :
      (b cs : List (Chunk P)) (d : Dict (Chunk P)) → by_hash (b ++ cs) d ≡ by_hash cs (by_hash b d)
  unfolding by_hash
  by_hash-++ [] cs d = refl
  by_hash-++ (c ∷ b) cs d = by_hash-++ b cs (Dict.put c.hash c d)

  index_batches-running :
      (bs : List (List (Chunk P))) (d : Dict (Chunk P))
      → AllHavePoints bs
      → index_batches running bs d ≡ (length (flat bs), by_hash (flat bs) d)
  unfolding index_batches by_hash flat AllHavePoints
  index_batches-running [] d h = refl
  index_batches-running (b ∷ bs) d (here, later) =
      rw
        (
          index_batch-running b d here,
          index_batches-running bs (by_hash b d) later,
          by_hash-++ b (flat bs) d,
          length-append b (flat bs),
        )
        refl

  -- Where no call of Qdrant raises and each chunk has a hash and a text, `index_chunks` puts all
  -- chunks under their hashes, in their order and however many a batch has, and counts them.
  pub index_chunks_all :
      (size : ℕ) (cs : List (Chunk P)) (d : Dict (Chunk P))
      → HavePoints cs
      → index_chunks running size cs d ≡ (length cs, by_hash cs d)
  unfolding index_chunks batches flat
  index_chunks_all size cs d h =
      let bs = batches size cs in
      let whole : flat bs ≡ cs = flat-group size size cs in
      let points : HavePoints (flat bs) = subst HavePoints (sym whole) h in
      index_batches-running bs d (each-batch bs points) ∙ ap (λ xs. (length xs, by_hash xs d)) whole

  one_by_one-down : (cs : List (Chunk P)) (d : Dict (Chunk P)) → one_by_one down cs d ≡ (0, d)
  unfolding one_by_one
  one_by_one-down [] d = refl
  one_by_one-down (c ∷ cs) d = one_by_one-down cs d

  index_batch-down : (b : List (Chunk P)) (d : Dict (Chunk P)) → index_batch down b d ≡ (0, d)
  unfolding index_batch
  index_batch-down b d = ground (arith, one_by_one-down (filter has_point b) d)

  index_batches-down :
      (bs : List (List (Chunk P))) (d : Dict (Chunk P)) → index_batches down bs d ≡ (0, d)
  unfolding index_batches
  index_batches-down [] d = refl
  index_batches-down (b ∷ bs) d = rw (index_batch-down b d, index_batches-down bs d) refl

  pub index_chunks-down :
      (size : ℕ) (cs : List (Chunk P)) (d : Dict (Chunk P)) → index_chunks down size cs d ≡ (0, d)
  unfolding index_chunks
  index_chunks-down size cs d = index_batches-down (batches size cs) d

  pub delete_chunks-running :
      (hs : List String) (d : Dict (Chunk P))
      → delete_chunks running hs d ≡ (length hs, delete_all hs d)
  unfolding delete_chunks
  delete_chunks-running [] d = refl
  delete_chunks-running (h ∷ hs) d = refl

  pub delete_chunks-down :
      (hs : List String) (d : Dict (Chunk P)) → delete_chunks down hs d ≡ (0, d)
  unfolding delete_chunks
  delete_chunks-down hs d = ground (arith)
