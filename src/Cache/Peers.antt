-- ===== src/Cache/Peers.antt =====
-- What the reads and the invalidations that a node broadcasts leave at its peers, where every peer
-- answers.
use sinkronisasi_dan_distrib.Base.{
  String, ◌≡◌, ◌≢◌, sym, subst, ap, ◌∙◌, inl, inr, true, false, Option, none, some, List, [], ◌∷◌,
  lookup, if_pos, if_neg, dec_string, member, arith, Bool-cases, Option-cases,
}
use mathlib.Core.Path.{fun_ext}
use mathlib.Core.Bool.{false≢true}
use sinkronisasi_dan_distrib.Cache.Lru.{CacheEntry, get}
use sinkronisasi_dan_distrib.Cache.Lru.Bounds.{holds_valid}
use sinkronisasi_dan_distrib.Cache.{
  CacheNode, Cluster, update, handle_internal_read, handle_internal_invalidate, read_peers,
  first_found, invalidate_peers,
}
use sinkronisasi_dan_distrib.Cache.Ownership.{
  owned, entry, Weaker, Weaker-refl, Weaker-trans, entry-handle_internal_read,
  found-handle_internal_read, entry-handle_internal_invalidate, read-Weaker, invalidate-Weaker,
  update-Weaker,
}

module _ {V : Type 0} where
  pub read_peers-Weaker :
      (key : String) (ps : List String) (cl : Cluster V) (b : String)
      → Weaker (cl b) ((read_peers (λ _. true) key ps cl).0 b)
  unfolding read_peers
  read_peers-Weaker key [] cl b = Weaker-refl (cl b)
  read_peers-Weaker key (p ∷ ps) cl b =
      Weaker-trans (update-Weaker cl p _ (read-Weaker key (cl p)) b)
        (read_peers-Weaker key ps (update cl p (handle_internal_read key (cl p)).0) b)

  pub invalidate_peers-Weaker :
      (key : String) (ps : List String) (cl : Cluster V) (b : String)
      → key ≢ ""
      → Weaker (cl b) (invalidate_peers (λ _. true) key ps cl b)
  unfolding invalidate_peers
  invalidate_peers-Weaker key [] cl b ne = Weaker-refl (cl b)
  invalidate_peers-Weaker key (p ∷ ps) cl b ne =
      Weaker-trans (update-Weaker cl p _ (invalidate-Weaker key (cl p) ne) b)
        (invalidate_peers-Weaker key ps (update cl p (handle_internal_invalidate key (cl p))) b ne)

  pub update_at :
      (cl : Cluster V) (p : String) (n : CacheNode V) (b : String) → p ≡ b → update cl p n b ≡ n
  unfolding update
  update_at cl p n b e = if_pos (dec_string p b) e n (cl b)

  pub update_off :
      (cl : Cluster V) (p : String) (n : CacheNode V) (b : String) → p ≢ b → update cl p n b ≡ cl b
  unfolding update
  update_off cl p n b e = if_neg (dec_string p b) e n (cl b)

  Weaker-unowned :
      {n n' : CacheNode V} (k : String)
      → Weaker n n'
      → owned (entry n k) ≡ false
      → owned (entry n' k) ≡ false
  Weaker-unowned {n} {n'} k w h = elim (Bool-cases (owned (entry n' k))) [
    | inl own ↦ absurd (false≢true (sym h ∙ w.owners k own))
    | inr free ↦ free
  ]

  read-unowned :
      (key : String) (n : CacheNode V) → owned (entry (handle_internal_read key n).0 key) ≡ false
  read-unowned key n = ground (arith, entry-handle_internal_read key key n)

  invalidate-invalid :
      (key : String) (n : CacheNode V)
      → key ≢ ""
      → holds_valid (entry (handle_internal_invalidate key n) key) ≡ false
  invalidate-invalid key n ne = ground (arith, entry-handle_internal_invalidate key key n ne)

  -- a peer that was asked owns the key no more
  pub read_peers-owned :
      (key : String) (ps : List String) (cl : Cluster V) (b : String)
      → member b ps ≡ true
      → owned (entry ((read_peers (λ _. true) key ps cl).0 b) key) ≡ false
  unfolding read_peers member
  read_peers-owned key [] cl b h = cc
  read_peers-owned key (p ∷ ps) cl b h =
      let n = (handle_internal_read key (cl p)).0 in
      elim (dec_string p b) [
        | yes e ↦ Weaker-unowned key (read_peers-Weaker key ps (update cl p n) b) (
            subst (λ x. owned (entry x key) ≡ false) (sym (update_at cl p n b e))
              (read-unowned key (cl p)))
        | no e ↦ read_peers-owned key ps (update cl p n) b (ground arith)
      ]

  pub invalidate_peers-valid :
      (key : String) (ps : List String) (cl : Cluster V) (b : String)
      → key ≢ ""
      → member b ps ≡ true
      → holds_valid (entry (invalidate_peers (λ _. true) key ps cl b) key) ≡ false
  unfolding invalidate_peers member
  invalidate_peers-valid key [] cl b ne h = cc
  invalidate_peers-valid key (p ∷ ps) cl b ne h =
      let n = handle_internal_invalidate key (cl p) in
      elim (dec_string p b) [
        | yes e ↦ (invalidate_peers-Weaker key ps (update cl p n) b ne).gone key (
            subst (λ x. holds_valid (entry x key) ≡ false) (sym (update_at cl p n b e))
              (invalidate-invalid key (cl p) ne))
        | no e ↦ invalidate_peers-valid key ps (update cl p n) b ne (ground arith)
      ]

  -- no node holds a null for the key
  abbrev pub NoNull : String → Cluster V → Type 0
  NoNull key cl = (b : String) (e : CacheEntry V) → entry (cl b) key ≡ some e → e.value ≢ none

  read-absent :
      (key : String) (n : CacheNode V)
      → (handle_internal_read key n).1 ≡ none
      → (handle_internal_read key n).0 ≡ n
  unfolding handle_internal_read get
  read-absent key n h = ground arith

  read-present :
      (key : String) (n : CacheNode V) (v : Option V)
      → (handle_internal_read key n).1 ≡ some v
      → (e : CacheEntry V) × (entry n key ≡ some e) × (e.value ≡ v)
  unfolding handle_internal_read get
  read-present key n v h = elim (Option-cases (lookup key n.cache.entries)) [
    | inl missing ↦ absurd (ground arith)
    | inr (e, found) ↦ (e, found, ground arith)
  ]

  update_same : (cl : Cluster V) (p : String) → update cl p (cl p) ≡ cl
  update_same cl p = fun_ext λ b. elim (dec_string p b) [
    | yes e ↦ update_at cl p (cl p) b e ∙ ap cl e
    | no e ↦ update_off cl p (cl p) b e
  ]

  -- where no peer found the key, no peer has a valid entry for it
  pub read_peers-absent :
      (key : String) (ps : List String) (cl : Cluster V) (b : String)
      → NoNull key cl
      → first_found (read_peers (λ _. true) key ps cl).1 ≡ none
      → member b ps ≡ true
      → holds_valid (entry (cl b) key) ≡ false
  unfolding read_peers member first_found
  read_peers-absent key [] cl b nn h hb = cc
  read_peers-absent key (p ∷ ps) cl b nn h hb =
      elim (Option-cases (handle_internal_read key (cl p)).1) [
        | inr (v, found) ↦
            let (e, at, same) = read-present key (cl p) v found in
            absurd (nn p e at (same ∙ ground arith))
        | inl absent ↦
            let unread : update cl p (handle_internal_read key (cl p)).0 ≡ cl =
              ap (update cl p) (read-absent key (cl p) absent) ∙ update_same cl p in
            elim (dec_string p b) [
              | yes e ↦
                  subst (λ x. holds_valid (entry (cl x) key) ≡ false) e
                    (found-handle_internal_read key (cl p) absent)
              | no e ↦
                  read_peers-absent key ps cl b nn
                    (ap (λ x. first_found (read_peers (λ _. true) key ps x).1) (sym unread)
                      ∙ ground arith)
                    (ground arith)
            ]
      ]
