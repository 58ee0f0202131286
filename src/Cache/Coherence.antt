-- ===== src/Cache/Coherence.antt =====
-- The handlers of the clients, where every peer answers: they keep the MESI invariant.
use sinkronisasi_dan_distrib.Base.{
  ite_case, ℕ, String, ◌≡◌, ◌≢◌, refl, sym, subst, ap, ◌∙◌, inl, inr, true, false, Option, none,
  some, List, lookup, if_pos, if_neg, dec_string, member, arith, Option-cases,
}
use mathlib.Core.Bool.{false≢true}
use sinkronisasi_dan_distrib.Cache.Lru.{modified, exclusive, shared, CacheEntry, LruCache, get}
use sinkronisasi_dan_distrib.Cache.Lru.Bounds.{holds_valid}
use sinkronisasi_dan_distrib.Cache.{
  CacheNode, Cluster, Response, update, fetch_from_memory, write_back_to_memory, put_entry,
  read_peers, first_found, invalidate_peers, load_memory, take_answer, get_remote, handle_get,
  handle_put,
}
use sinkronisasi_dan_distrib.Cache.Ownership.{
  is_owner, owned, entry, IsCoherent, Weaker, Weaker-IsCoherent, entry-put_entry, update-Weaker,
}
use sinkronisasi_dan_distrib.Cache.Peers.{
  read_peers-Weaker, invalidate_peers-Weaker, update_at, update_off, read_peers-owned,
  invalidate_peers-valid, NoNull, read_peers-absent,
}

module _ {V : Type 0} where
  install-IsCoherent :
      (ms : List String) (me key : String) (e : CacheEntry V) (n : CacheNode V) (cl : Cluster V)
      → IsCoherent ms cl
      → n.cache ≡ (cl me).cache
      → ((b : String) → member b ms ≡ true → b ≢ me → owned (entry (cl b) key) ≡ false)
      → ((b : String)
          → member b ms ≡ true
          → b ≢ me
          → is_owner e.state ≡ true
          → holds_valid (entry (cl b) key) ≡ false)
      → IsCoherent ms (update cl me (put_entry key e n))
  install-IsCoherent ms me key e n cl c same free alone = record {
    single_owner = λ k a b ha hb ne own. elim (dec_string me a) [
      | yes p ↦
          mine k b hb (subst (λ x. member x ms ≡ true) (sym p) ha) (λ q. ne (sym p ∙ sym q))
            (subst (λ x. owned (entry x k) ≡ true) (update_at cl me n' a p) own)
            (λ q. ne (sym p ∙ q))
      | no p ↦
          theirs k a b ha hb (λ q. p (sym q)) ne
            (subst (λ x. owned (entry x k) ≡ true) (update_off cl me n' a p) own)
    ];
  }
    where
      n' : CacheNode V
      n' = put_entry key e n

      entry_n : (k : String) → entry n k ≡ entry (cl me) k
      entry_n k = ap (λ (x : LruCache V). lookup k x.entries) same

      mine :
          (k b : String)
          → member b ms ≡ true
          → member me ms ≡ true
          → b ≢ me
          → owned (entry n' k) ≡ true
          → me ≢ b
          → holds_valid (entry (update cl me n' b) k) ≡ false
      mine k b hb hm q own q' =
          subst (λ x. holds_valid (entry x k) ≡ false) (sym (update_off cl me n' b q'))
            (elim (entry-put_entry key k e n) [
              | inl at ↦ elim (dec_string key k) [
                | yes r ↦
                    subst (λ x. holds_valid (entry (cl b) x) ≡ false) r
                      (alone b hb q (
                        ap owned (sym (at ∙ if_pos (dec_string key k) r (some e) (entry n k)))
                        ∙ own))
                | no r ↦ c.single_owner k me b hm hb q' (
                    ap owned
                      (sym (at ∙ if_neg (dec_string key k) r (some e) (entry n k) ∙ entry_n k))
                    ∙ own)
              ]
              | inr gone ↦ absurd (false≢true (ap owned (sym gone) ∙ own))
            ])

      theirs :
          (k a b : String)
          → member a ms ≡ true
          → member b ms ≡ true
          → a ≢ me
          → a ≢ b
          → owned (entry (cl a) k) ≡ true
          → holds_valid (entry (update cl me n' b) k) ≡ false
      theirs k a b ha hb q ne own = elim (dec_string me b) [
        | no p ↦
            subst (λ x. holds_valid (entry x k) ≡ false) (sym (update_off cl me n' b p))
              (c.single_owner k a b ha hb ne own)
        | yes p ↦
            subst (λ x. holds_valid (entry x k) ≡ false) (sym (update_at cl me n' b p))
              (elim (entry-put_entry key k e n) [
                | inr gone ↦ ap holds_valid gone
                | inl at ↦ elim (dec_string key k) [
                  | yes r ↦ absurd (
                      false≢true
                        (sym (subst (λ x. owned (entry (cl a) x) ≡ false) r (free a ha q)) ∙ own))
                  | no r ↦
                      ap holds_valid (
                        at
                        ∙ if_neg (dec_string key k) r (some e) (entry n k)
                        ∙ entry_n k
                        ∙ ap (λ x. entry (cl x) k) p)
                      ∙ c.single_owner k a b ha hb ne own
                ]
              ])
      ]

  -- What the peers' reads leave, for an install at this node.
  asked :
      (ms peers : List String) (me key : String) (cl : Cluster V)
      → ((b : String) → member b ms ≡ true → b ≢ me → member b peers ≡ true)
      → (b : String) → member b ms ≡ true
      → b ≢ me
      → owned (entry ((read_peers (λ _. true) key peers cl).0 b) key) ≡ false
  asked ms peers me key cl all b hb q = read_peers-owned key peers cl b (all b hb q)

  take_answer-IsCoherent :
      (ms : List String) (now : ℕ) (me key : String) (cl : Cluster V) (found : Option V)
      → IsCoherent ms cl
      → ((b : String) → member b ms ≡ true → b ≢ me → owned (entry (cl b) key) ≡ false)
      → (found ≡ none
          → (b : String) → member b ms ≡ true
          → b ≢ me
          → holds_valid (entry (cl b) key) ≡ false)
      → IsCoherent ms (take_answer now me key cl found).0
  unfolding take_answer load_memory
  take_answer-IsCoherent ms now me key cl (some v) c free alone =
      install-IsCoherent ms me key (record { value = some v; state = shared; updated_at = now })
        (cl me) cl c refl free (λ b hb q own. absurd (false≢true own))
  take_answer-IsCoherent ms now me key cl none c free alone =
      from_memory (fetch_from_memory (cl me) key)
    where
      from_memory : (o : Option V) → IsCoherent ms (load_memory now me key cl o).0
      from_memory none = c
      from_memory (some v) =
          install-IsCoherent ms me key
            (record { value = some v; state = exclusive; updated_at = now }) (cl me) cl c refl free
            (λ b hb q own. alone refl b hb q)

  recache-Weaker :
      (c : LruCache V) (n : CacheNode V)
      → c.entries ≡ n.cache.entries
      → Weaker n (record n { cache = c })
  recache-Weaker c n same = record {
    gone = λ k h. ap (λ es. holds_valid (lookup k es)) same ∙ h;
    owners = λ k h. ap (λ es. owned (lookup k es)) (sym same) ∙ h;
  }

  entries-get : (c : LruCache V) (key : String) → (get c key).0.entries ≡ c.entries
  unfolding get
  entries-get c key = ground arith

  -- Where every other member of the cluster is a peer of the node, every peer answers, no node holds
  -- a null for the key, and the peers read the key in the URL as the node wrote it there, a `handle_get` keeps the invariant that among the members an owner of a key is
  -- the only node with a valid entry for it.
  pub handle_get-IsCoherent :
      (in_url : String → String) (ms peers : List String) (now : ℕ) (me key : String)
      (cl : Cluster V)
      → in_url key ≡ key
      → ((b : String) → member b ms ≡ true → b ≢ me → member b peers ≡ true)
      → NoNull key cl
      → IsCoherent ms cl
      → IsCoherent ms (handle_get in_url now (λ _. true) peers me key cl).0
  unfolding handle_get get_remote
  handle_get-IsCoherent in_url ms peers now me key cl plain all nn c =
      ite_case (λ (r : Cluster V × Response V). IsCoherent ms r.0) (dec_string key "") (λ _. c)
        (λ _. elim (Option-cases (get (cl me).cache key).1) [
          | inr (x, hit) ↦ rw hit (
              Weaker-IsCoherent ms cl _
                (update-Weaker cl me _ (
                  recache-Weaker (get (cl me).cache key).0 (cl me) (entries-get (cl me).cache key)))
                c)
          | inl miss ↦
              rw (miss, plain)
                (let r = read_peers (λ _. true) key peers cl in
                  take_answer-IsCoherent ms now me key r.0 (first_found r.1)
                    (Weaker-IsCoherent ms cl r.0 (read_peers-Weaker key peers cl) c)
                    (asked ms peers me key cl all)
                    (λ h b hb q.
                      (read_peers-Weaker key peers cl b).gone key
                        (read_peers-absent key peers cl b nn h (all b hb q))))
        ])

  -- Where every other member of the cluster is a peer of the node and every peer answers, a `handle_put`
  -- of a key that is not empty keeps the invariant that among the members an owner of a key is the only
  -- node with a valid entry for it, and after it no other member has a valid entry for the key.
  pub handle_put-IsCoherent :
      (ms peers : List String) (now : ℕ) (me key : String) (v : Option V) (cl : Cluster V)
      → ((b : String) → member b ms ≡ true → b ≢ me → member b peers ≡ true)
      → key ≢ ""
      → IsCoherent ms cl
      → let cl' = (handle_put now (λ _. true) peers me key v cl).0 in
        IsCoherent ms cl'
        × ((b : String) → member b ms ≡ true → b ≢ me → holds_valid (entry (cl' b) key) ≡ false)
  unfolding handle_put write_back_to_memory
  handle_put-IsCoherent ms peers now me key v cl all ne c =
      ite_case
        (λ (r : Cluster V × Response V).
          IsCoherent ms r.0
          × ((b : String) → member b ms ≡ true → b ≢ me → holds_valid (entry (r.0 b) key) ≡ false))
        (dec_string key "") (λ q. absurd (ne q))
        (λ _. (
          install-IsCoherent ms me key e (write_back_to_memory key v (cl' me)) cl'
              (Weaker-IsCoherent ms cl cl' (λ b. invalidate_peers-Weaker key peers cl b ne) c) refl
              (λ b hb q. ground (arith, gone b hb q)) (λ b hb q own. gone b hb q),
          λ b hb q.
              subst (λ x. holds_valid (entry x key) ≡ false)
                (sym (
                  update_off cl' me (put_entry key e (write_back_to_memory key v (cl' me))) b
                    (λ p. q (sym p))))
                (gone b hb q),
        ))
    where
      cl' : Cluster V
      cl' = invalidate_peers (λ _. true) key peers cl

      e : CacheEntry V
      e = record { value = v; state = modified; updated_at = now }

      gone : (b : String) → member b ms ≡ true → b ≢ me → holds_valid (entry (cl' b) key) ≡ false
      gone b hb q = invalidate_peers-valid key peers cl b ne (all b hb q)
