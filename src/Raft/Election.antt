-- ===== src/Raft/Election.antt =====
-- Election safety in a cluster: what each step keeps, and that a term has one leader.
use sinkronisasi_dan_distrib.Base.{
  ℕ, suc, ◌+◌, ◌≤◌, String, ◌≡◌, ◌≢◌, refl, ◌∙◌, sym, ap, subst, inl, inr, ◌⊎◌, Bool, true, false,
  some, List, [], ◌∷◌, arith, if◌then◌else◌, dec_string, if_pos, if_neg, member, set_discard,
  length, IsDistinct,
}
use sinkronisasi_dan_distrib.Raft.{RaftNode, candidate, leader, majority}
use sinkronisasi_dan_distrib.Raft.Tally.{votes}
use sinkronisasi_dan_distrib.Raft.Step.{Keeps}
use sinkronisasi_dan_distrib.Raft.Cluster.{Ballot, was_cast, Cluster, put_node, replies}

abbrev pub count : (String → Bool) → List String → ℕ
count p [] = 0
count p (v ∷ vs) = let rest = count p vs in if p v then suc rest else rest

pub count_mono :
    (p q : String → Bool) (vs : List String)
    → ((v : String) → p v ≡ true → q v ≡ true)
    → count p vs ≤ count q vs
count_mono p q [] h = omega arith
count_mono p q (v ∷ vs) h = ground (arith, count_mono p q vs h, h v)

pub count-disjoint :
    (p q : String → Bool) (vs : List String)
    → ((v : String) → p v ≡ true → q v ≡ false)
    → count p vs + count q vs ≤ length vs
count-disjoint p q [] h = omega arith
count-disjoint p q (v ∷ vs) h = ground (arith, count-disjoint p q vs h, h v)

count-absent :
    (p : String → Bool) (a : String) (vs : List String)
    → member a vs ≡ false
    → (count p (set_discard a vs) ≡ count p vs) × (length (set_discard a vs) ≡ length vs)
unfolding member set_discard
count-absent p a [] h = (refl, refl)
count-absent p a (v ∷ vs) h = ground (arith, count-absent p a vs)

-- a member of the cluster and the others
pub count-others :
    (p : String → Bool) (a : String) (vs : List String)
    → IsDistinct vs
    → member a vs ≡ true
    → p a ≡ true
    → (count p vs ≡ suc (count p (set_discard a vs)))
      × (length vs ≡ suc (length (set_discard a vs)))
unfolding member set_discard IsDistinct
count-others p a [] d h h' = cc
count-others p a (v ∷ vs) d h h' = elim (dec_string v a) [
  | yes e ↦
      let (same, len) = count-absent p a vs (subst (λ x. member x vs ≡ false) e d.0) in
      let here : p v ≡ true = subst (λ x. p x ≡ true) (sym e) h' in ground arith
  | no e ↦ let (c, len) = count-others p a vs d.1 (ground arith) h' in ground arith
]

pub votes-replies :
    (t : ℕ) (grants : String → Bool) (ps : List String)
    → votes (replies t grants ps) ≡ suc (count grants ps)
unfolding votes replies
votes-replies t grants [] = refl
votes-replies t grants (p ∷ ps) = ground (arith, votes-replies t grants ps)

module _ {C : Type 0} where
  put_at :
      (f : String → RaftNode C) (a : String) (n : RaftNode C) (j : String)
      → a ≡ j
      → put_node f a n j ≡ n
  unfolding put_node
  put_at f a n j e = if_pos (dec_string a j) e n (f j)

  put_off :
      (f : String → RaftNode C) (a : String) (n : RaftNode C) (j : String)
      → a ≢ j
      → put_node f a n j ≡ f j
  unfolding put_node
  put_off f a n j e = if_neg (dec_string a j) e n (f j)

  -- The members are each other's peers; the ballots bind their voters; a candidate has voted for
  -- itself, and a leader has the ballots of a majority.
  pub record IsSafe (ms : List String) (s : Cluster C) : Type 0 where
    pub ids : (a : String) → member a ms ≡ true → (s.node a).node_id ≡ a
    pub others : (a : String) → member a ms ≡ true → (s.node a).peers ≡ set_discard a ms
    pub bound :
        (v : String) (t : ℕ) (c : String)
        → was_cast s.ballots v t c ≡ true
        → (t ≤ (s.node v).current_term)
          × ((s.node v).current_term ≡ t → (s.node v).voted_for ≡ some c)
    pub once :
        (v : String) (t : ℕ) (c c' : String)
        → was_cast s.ballots v t c ≡ true
        → was_cast s.ballots v t c' ≡ true
        → c ≡ c'
    pub own :
        (a : String)
        → member a ms ≡ true
        → (s.node a).state ≡ candidate
        → was_cast s.ballots a (s.node a).current_term a ≡ true
    pub elected :
        (a : String)
        → member a ms ≡ true
        → (s.node a).state ≡ leader
        → majority (s.node a) ≤ count (λ v. was_cast s.ballots v (s.node a).current_term a) ms

  -- What a step of the node `a` must show.
  pub record Moves (ms : List String) (s : Cluster C) (a : String) (n : RaftNode C)
      (bs : List Ballot) : Type 0 where
    pub keeps : Keeps (s.node a) n
    pub grows :
        (v : String) (t : ℕ) (c : String)
        → was_cast s.ballots v t c ≡ true
        → was_cast bs v t c ≡ true
    pub fresh :
        (v : String) (t : ℕ) (c : String)
        → was_cast bs v t c ≡ true
        → (was_cast s.ballots v t c ≡ true)
          ⊎ ((v ≡ a) × (t ≡ n.current_term) × (n.voted_for ≡ some c))
    pub own : n.state ≡ candidate → was_cast bs a n.current_term a ≡ true
    pub elected : n.state ≡ leader → majority n ≤ count (λ v. was_cast bs v n.current_term a) ms

  module _ (ms : List String) (s : Cluster C) (a : String) (n : RaftNode C) (bs : List Ballot)
      (safe : IsSafe ms s) (here : member a ms ≡ true) (mv : Moves ms s a n bs) where
    abbrev pub after : String → RaftNode C
    after = put_node s.node a n

    -- a fact about each node, from the node that moved and from the others
    at_each :
        (P : String → RaftNode C → Type 0) (j : String)
        → P a n
        → (a ≢ j → P j (s.node j))
        → P j (after j)
    at_each P j h h' = elim (dec_string a j) [
      | yes e ↦ subst (P j) (sym (put_at s.node a n j e)) (subst (λ x. P x n) e h)
      | no e ↦ subst (P j) (sym (put_off s.node a n j e)) (h' e)
    ]

    bound_later :
        (v : String) (t : ℕ) (c : String)
        → was_cast bs v t c ≡ true
        → (t ≤ (after v).current_term) × ((after v).current_term ≡ t → (after v).voted_for ≡ some c)
    bound_later v t c h = elim (mv.fresh v t c h) [
      | inl old ↦
          let (le, voted) = safe.bound v t c old in
          elim (dec_string a v) [
            | yes e ↦
                subst (λ x. (t ≤ x.current_term) × (x.current_term ≡ t → x.voted_for ≡ some c))
                  (sym (put_at s.node a n v e)) (moved e le voted)
            | no e ↦
                subst
                  (λ (x : RaftNode C).
                    (t ≤ x.current_term) × (x.current_term ≡ t → x.voted_for ≡ some c))
                  (sym (put_off s.node a n v e)) (le, voted)
          ]
      | inr (e, same, voted) ↦
          subst
            (λ (x : RaftNode C). (t ≤ x.current_term) × (x.current_term ≡ t → x.voted_for ≡ some c))
            (sym (put_at s.node a n v (sym e))) (omega arith, λ _. voted)
    ]
      where
        moved :
            a ≡ v
            → t ≤ (s.node v).current_term
            → ((s.node v).current_term ≡ t → (s.node v).voted_for ≡ some c)
            → (t ≤ n.current_term) × (n.current_term ≡ t → n.voted_for ≡ some c)
        moved e le voted =
            let le' : t ≤ (s.node a).current_term =
              subst (λ x. t ≤ (s.node x).current_term) (sym e) le in
            let voted' : (s.node a).current_term ≡ t → (s.node a).voted_for ≡ some c =
              subst (λ x. (s.node x).current_term ≡ t → (s.node x).voted_for ≡ some c) (sym e)
                voted in
            (
              omega (arith, mv.keeps.terms),
              λ h.
                  let same : (s.node a).current_term ≡ t = omega (arith, mv.keeps.terms) in
                  mv.keeps.vote c (h ∙ sym same) (voted' same),
            )

    once_later :
        (v : String) (t : ℕ) (c c' : String)
        → was_cast bs v t c ≡ true
        → was_cast bs v t c' ≡ true
        → c ≡ c'
    once_later v t c c' h h' = elim (mv.fresh v t c h) [
      | inl old ↦ elim (mv.fresh v t c' h') [
        | inl old' ↦ safe.once v t c c' old old'
        | inr (e', same', voted') ↦
            let (le, voted) = bound_later v t c h in
            ground (
              arith,
              voted (
                  ap (λ (x : RaftNode C). x.current_term) (put_at s.node a n v (sym e'))
                  ∙ sym same'),
              put_at s.node a n v (sym e'),
            )
      ]
      | inr (e, same, voted) ↦
          let (le', voted') = bound_later v t c' h' in
          ground (
            arith,
            voted'
                (ap (λ (x : RaftNode C). x.current_term) (put_at s.node a n v (sym e)) ∙ sym same),
            put_at s.node a n v (sym e),
          )
    ]

    pub moved-IsSafe : IsSafe ms (record { node = after; ballots = bs })
    moved-IsSafe = record {
      ids = λ j h.
          at_each (λ i x. member i ms ≡ true → x.node_id ≡ i) j
            (λ h'. mv.keeps.same_id ∙ safe.ids a h') (λ _ h'. safe.ids j h') h;
      others = λ j h.
          at_each (λ i x. member i ms ≡ true → x.peers ≡ set_discard i ms) j
            (λ h'. mv.keeps.same_peers ∙ safe.others a h') (λ _ h'. safe.others j h') h;
      bound = bound_later;
      once = once_later;
      own = λ j h.
          at_each (λ i x. x.state ≡ candidate → was_cast bs i x.current_term i ≡ true) j mv.own
            (λ _ c. mv.grows j (s.node j).current_term j (safe.own j h c));
      elected = λ j h.
          at_each
            (λ i x. x.state ≡ leader → majority x ≤ count (λ v. was_cast bs v x.current_term i) ms)
            j mv.elected
            (λ _ l. omega (
              arith,
              safe.elected j h l,
              count_mono (λ v. was_cast s.ballots v (s.node j).current_term j)
                  (λ v. was_cast bs v (s.node j).current_term j) ms
                  (λ v. mv.grows v (s.node j).current_term j),
            ));
    }
