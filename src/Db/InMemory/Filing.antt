-- ===== src/Db/InMemory/Filing.antt =====
-- What `Load` of src/db/in-memory.go returns.
use pulsar_beam.Prelude.{
  ℕ, suc, ◌+◌, none, List, [], ◌∷◌, ◌++◌, map, ◌≡◌, refl, ap, ◌∙◌, All, length, arith,
}
use pulsar_beam.Prelude.Maps.{Map}
use pulsar_beam.Model.Topic.{TopicConfig}
use pulsar_beam.Db.{Heap, zero_doc, assign, append_topics}
use pulsar_beam.Db.InMemory.{Topics, load}

-- The last of a document and those behind it.
unfoldable pub last_visited : TopicConfig → Map TopicConfig → TopicConfig
last_visited v [] = v
last_visited v ((_, w) ∷ m) = last_visited w m

All-append_same :
    (v : ℕ) (results : List ℕ) → All (λ a. a ≡ v) results → All (λ a. a ≡ v) (results ++ (v ∷ []))
All-append_same v [] all = (refl, tt)
All-append_same v (a ∷ results) (same, all) = (same, All-append_same v results all)

length-append_one : (v : ℕ) (results : List ℕ) → length (results ++ (v ∷ [])) ≡ suc (length results)
length-append_one v [] = refl
length-append_one v (a ∷ results) = ap suc (length-append_one v results)

-- Where the variable holds `w` and every result is its address, the loop leaves a list of its
-- address, with one more for each document, and the last document in the variable.
append_topics_lem :
    (v : ℕ) (m : Map TopicConfig) (results : List ℕ) (heap : Heap) (w : TopicConfig)
    → heap v ≡ w
    → All (λ a. a ≡ v) results
    → (length (append_topics v m results heap).0 ≡ length results + length m)
      × All (λ a. a ≡ v) (append_topics v m results heap).0
      × ((append_topics v m results heap).1 v ≡ last_visited w m)
unfolding append_topics last_visited
append_topics_lem v [] results heap w holds all = (omega arith, all, holds)
append_topics_lem v ((_, doc) ∷ m) results heap w holds all =
    let (long, same, last) =
      append_topics_lem v m (results ++ (v ∷ [])) (assign v doc heap) doc (ground arith)
        (All-append_same v results all) in
    let one = length-append_one v results in (omega (arith, long, one), same, last)

All-map_heap :
    (v : ℕ) (heap : Heap) (w : TopicConfig) (results : List ℕ)
    → heap v ≡ w
    → All (λ a. a ≡ v) results
    → All (λ d. d ≡ w) (map heap results)
All-map_heap v heap w [] holds all = tt
All-map_heap v heap w (a ∷ results) holds (same, all) =
    (ap heap same ∙ holds, All-map_heap v heap w results holds all)

length-map_heap : (heap : Heap) (results : List ℕ) → length (map heap results) ≡ length results
length-map_heap heap [] = refl
length-map_heap heap (a ∷ results) = ap suc (length-map_heap heap results)

-- `Load` returns no error and as many documents as are stored, and each of them is the document that
-- the loop visits last.
pub load_repeats :
    (m : Topics)
    → ((load m).1 ≡ none)
      × (length (load m).0 ≡ length m)
      × All (λ d. d ≡ last_visited zero_doc m) (load m).0
unfolding load
load_repeats m =
    let (long, same, last) = append_topics_lem 0 m [] (λ address. zero_doc) zero_doc refl tt in
    let (results, heap) = append_topics 0 m [] (λ address. zero_doc) in
    (
      refl,
      length-map_heap heap results ∙ omega (arith, long),
      All-map_heap 0 heap (last_visited zero_doc m) results last same,
    )
