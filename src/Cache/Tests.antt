-- ===== src/Cache/Tests.antt =====
-- A cache of two keys and a cluster of two nodes, with numbers for values: the theorems at concrete
-- inputs.
use mathlib.Core.Option
use sinkronisasi_dan_distrib.Base.{
  ℕ, String, ◌≡◌, ◌≢◌, refl, sym, subst, ap, ◌∙◌, true, false, none, some, List, [], ◌∷◌, lookup,
  insert, erase, arith, dec_string, ite, member, set_discard,
}
use mathlib.Core.Bool.{false≢true}
use sinkronisasi_dan_distrib.Cache.Lru.{
  modified, shared, CacheEntry, LruCache, touch, init, get, evict, put, invalidate,
}
use sinkronisasi_dan_distrib.Cache.Lru.Bounds.{IsValid, holds_valid}
use sinkronisasi_dan_distrib.Cache.Lru.Reads.{
  gets, puts, invalidates, calls, call, calls-IsValid, put_full,
}
use sinkronisasi_dan_distrib.Cache.Lru.Spec.{spec_run}
use sinkronisasi_dan_distrib.Cache.Lru.Refines.{run_seen, cache-refines_list}
use sinkronisasi_dan_distrib.Cache.{
  CacheNode, Cluster, value_of, update, handle_get, handle_put, read_peers, handle_internal_read,
  first_found, take_answer, get_remote, share_entry, put_entry, writeback_if_needed,
  write_back_to_memory,
}
use sinkronisasi_dan_distrib.Cache.Ownership.{IsCoherent, owned, entry}
use sinkronisasi_dan_distrib.Cache.Peers.{NoNull, update_at, update_off}
use sinkronisasi_dan_distrib.Cache.ReadBack.{handle_get-handle_put}
use sinkronisasi_dan_distrib.Cache.Coherence.{handle_get-IsCoherent, handle_put-IsCoherent}

program : Unit {0}
unfolding lookup insert erase dec_string member set_discard touch init get evict put invalidate call
    calls update handle_get read_peers handle_internal_read first_found take_answer get_remote
    share_entry put_entry writeback_if_needed write_back_to_memory
program = tt

abbrev one_entry : CacheEntry ℕ
one_entry = record { value = some 7; state = modified; updated_at = 1 }

-- two keys in a cache of two
abbrev full : LruCache ℕ
unfolding program
full = calls (init 2) (puts "x" one_entry ∷ puts "y" one_entry ∷ [])

full-IsValid : IsValid full
unfolding program
full-IsValid = calls-IsValid 2 (puts "x" one_entry ∷ puts "y" one_entry ∷ []) (refl, (refl, tt))

calls-IsValid_example :
    IsValid
      (calls (init 1) (puts "x" one_entry ∷ puts "y" one_entry ∷ gets "x" ∷ invalidates "y" ∷ []))
calls-IsValid_example =
    calls-IsValid 1 (puts "x" one_entry ∷ puts "y" one_entry ∷ gets "x" ∷ invalidates "y" ∷ [])
      (refl, (refl, tt))

put_full_example :
    let (c', evicted) = put full "z" one_entry in
    (c'.lru ≡ "y" ∷ "z" ∷ [])
    × (holds_valid (lookup "x" full.entries) ≡ true)
    × (evicted ≡ Option.map (λ x. ("x", x)) (lookup "x" full.entries))
    × ((j : String)
        → lookup j c'.entries
          ≡ ite
              (dec_string "x" j)
              none
              (ite (dec_string "z" j) (some one_entry) (lookup j full.entries)))
unfolding program
put_full_example = put_full full "z" "x" ("y" ∷ []) one_entry full-IsValid refl refl refl

cache-refines_list_example :
    let xs =
      puts "x" one_entry
      ∷ puts "y" one_entry
      ∷ gets "x"
      ∷ invalidates "x"
      ∷ puts "z" one_entry
      ∷ puts "w" one_entry
      ∷ gets "y"
      ∷ [] in
    run_seen (init 2) xs ≡ spec_run 2 [] xs
cache-refines_list_example =
    cache-refines_list 2
      (puts "x" one_entry
        ∷ puts "y" one_entry
        ∷ gets "x"
        ∷ invalidates "x"
        ∷ puts "z" one_entry
        ∷ puts "w" one_entry
        ∷ gets "y"
        ∷ [])
      (refl, (refl, (refl, (refl, tt))))

abbrev empty : CacheNode ℕ
unfolding program
empty = record { cache = init 4; memory_db = [] }

-- "a" wrote 7 for "k"
abbrev writer : CacheNode ℕ
unfolding program
writer = record {
  cache = record { capacity = 4; entries = ("k", one_entry) ∷ []; lru = "k" ∷ [] };
  memory_db = ("k", some 7) ∷ [];
}

abbrev cluster : Cluster ℕ
cluster = update (λ _. empty) "a" writer

abbrev nodes : List String
nodes = "a" ∷ "b" ∷ []

-- a key of letters comes through a URL as it is
abbrev plain : String → String
plain key = key

-- "b" gets the value of "a"
read_modified :
    (handle_get plain 5 (λ _. true) ("a" ∷ []) "b" "k" cluster).1 ≡ value_of "k" (some 7) shared
unfolding program
read_modified = refl

cluster-IsCoherent : IsCoherent nodes cluster
unfolding program
cluster-IsCoherent = record {
  single_owner = λ k a b ha hb ne own. elim (dec_string "a" a) [
    | yes p ↦
        ap (λ x. holds_valid (entry x k))
          (update_off (λ _. empty) "a" writer b (λ q. ne (sym p ∙ q)))
    | no p ↦ absurd (
        false≢true
          (ap (λ x. owned (entry x k)) (sym (update_off (λ _. empty) "a" writer a p)) ∙ own))
  ];
}

cluster-NoNull : NoNull "k" cluster
unfolding program
cluster-NoNull b e at = elim (dec_string "a" b) [
  | yes p ↦
      let same : one_entry ≡ e =
        Option.some-injective _ _
          (ap (λ x. entry x "k") (sym (update_at (λ _. empty) "a" writer b p)) ∙ at) in
      subst (λ (x : CacheEntry ℕ). x.value ≢ none) same (λ h. ground arith)
  | no p ↦
      absurd
        (ground (arith, ap (λ x. entry x "k") (sym (update_off (λ _. empty) "a" writer b p)) ∙ at))
]

others : (b : String) → member b nodes ≡ true → b ≢ "b" → member b ("a" ∷ []) ≡ true
unfolding member
others b h ne = ground arith

handle_get-IsCoherent_example :
    IsCoherent nodes (handle_get plain 5 (λ _. true) ("a" ∷ []) "b" "k" cluster).0
handle_get-IsCoherent_example =
    handle_get-IsCoherent plain nodes ("a" ∷ []) 5 "b" "k" cluster refl others cluster-NoNull
      cluster-IsCoherent

k_present : ◌≢◌ {A = String} "k" ""
unfolding program
k_present q = false≢true (ap (λ x. ite (dec_string x "") true false) q)

handle_put-IsCoherent_example :
    let cl' = (handle_put 6 (λ _. true) ("a" ∷ []) "b" "k" (some 8) cluster).0 in
    IsCoherent nodes cl'
    × ((b : String) → member b nodes ≡ true → b ≢ "b" → holds_valid (entry (cl' b) "k") ≡ false)
handle_put-IsCoherent_example =
    handle_put-IsCoherent nodes ("a" ∷ []) 6 "b" "k" (some 8) cluster others k_present
      cluster-IsCoherent

handle_get-handle_put_example :
    (handle_get plain 7
      (λ _. false)
      ("a" ∷ [])
      "b"
      "k"
      (handle_put 6 (λ _. true) ("a" ∷ []) "b" "k" (some 8) cluster).0).1
    ≡ value_of "k" (some 8) modified
unfolding program
handle_get-handle_put_example =
    handle_get-handle_put plain 6 7 (λ _. true) (λ _. false) ("a" ∷ []) "b" "k" (some 8) cluster
      k_present (ground arith)
