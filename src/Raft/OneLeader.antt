-- ===== src/Raft/OneLeader.antt =====
-- Election safety in a cluster: a term has one leader, where the votes are counted in time.
use sinkronisasi_dan_distrib.Base.{
  ℕ, suc, ◌+◌, ◌≤◌, String, ◌≡◌, ◌≢◌, refl, ◌∙◌, sym, ap, subst, true, List, [], arith, Bool-cases,
  inl, inr, dec_string, member, set_discard, length, IsDistinct,
}
use sinkronisasi_dan_distrib.Raft.{leader, majority, init}
use sinkronisasi_dan_distrib.Raft.Step.{Step-Keeps}
use sinkronisasi_dan_distrib.Raft.Roles.{Step-Calm}
use sinkronisasi_dan_distrib.Raft.Cluster.{
  was_cast, Cluster, ClusterStep, campaign, vote, count_votes, other, ClusterReach, start, onward,
}
use sinkronisasi_dan_distrib.Raft.Election.{
  count, count-disjoint, count-others, IsSafe, moved-IsSafe,
}
use sinkronisasi_dan_distrib.Raft.Ballots.{
  still-Moves, campaign-Moves, vote-Moves, count_votes-Moves,
}

-- the cluster at its start: each member has the others as its peers
abbrev pub fresh_cluster : {C : Type 0} → List String → ℕ → Cluster C
fresh_cluster ms now = record { node = λ a. init a (set_discard a ms) now; ballots = [] }

module _ {C : Type 0} (ms : List String) (distinct : IsDistinct ms) where
  fresh-IsSafe : (now : ℕ) → IsSafe {C = C} ms (fresh_cluster ms now)
  unfolding init was_cast
  fresh-IsSafe now = record {
    ids = λ a h. refl;
    others = λ a h. refl;
    bound = λ v t c h. cc;
    once = λ v t c c' h h'. cc;
    own = λ a h h'. cc;
    elected = λ a h h'. cc;
  }

  step-IsSafe : {s s' : Cluster C} → ClusterStep ms s s' → IsSafe ms s → IsSafe ms s'
  step-IsSafe {s} (campaign a now here e) safe =
      subst (IsSafe ms) (sym e)
        (moved-IsSafe ms s a _ _ safe here (campaign-Moves ms s safe a now here))
  step-IsSafe {s} (vote v now q c here who e) safe =
      subst (IsSafe ms) (sym e)
        (moved-IsSafe ms s v _ _ safe here (vote-Moves ms s safe v now q c here who))
  step-IsSafe {s} (count_votes a t grants here cand sound e) safe = subst (IsSafe ms) (sym e) (
      moved-IsSafe ms s a _ _ safe here
        (count_votes-Moves ms s safe a t grants distinct here cand sound))
  step-IsSafe {s} (other a n st here calm e) safe = subst (IsSafe ms) (sym e) (
      moved-IsSafe ms s a _ _ safe here
        (still-Moves ms s safe a n here (Step-Keeps st) (Step-Calm st calm)))

  reach-IsSafe : {s s' : Cluster C} → ClusterReach ms s s' → IsSafe ms s → IsSafe ms s'
  reach-IsSafe start safe = safe
  reach-IsSafe (onward r st) safe = step-IsSafe st (reach-IsSafe r safe)

  size :
      (a : String) (s : Cluster C)
      → IsSafe ms s
      → member a ms ≡ true
      → length ms ≡ suc (length (s.node a).peers)
  size a s safe h =
      (count-others (λ _. true) a ms distinct h refl).1
      ∙ ap (λ (ps : List String). suc (length ps)) (sym (safe.others a h))

  disjoint :
      (s : Cluster C) (t : ℕ) (a b : String)
      → IsSafe ms s
      → a ≢ b
      → count (λ v. was_cast s.ballots v t a) ms + count (λ v. was_cast s.ballots v t b) ms
        ≤ length ms
  disjoint s t a b safe ne =
      count-disjoint (λ v. was_cast s.ballots v t a) (λ v. was_cast s.ballots v t b) ms
        λ v h. elim (Bool-cases (was_cast s.ballots v t b)) [
          | inl h' ↦ absurd (ne (safe.once v t a b h h'))
          | inr h' ↦ h'
        ]

-- Election safety: in a cluster of distinct members that starts afresh, whatever its nodes do, in any
-- order, two members that are leaders in the same term are the same member. An election ends while
-- its candidate is still one, and counts only votes that were cast for it in its term.
pub one_leader :
    {C : Type 0} (ms : List String) (now : ℕ) (s : Cluster C) (a b : String)
    → IsDistinct ms
    → ClusterReach ms (fresh_cluster ms now) s
    → member a ms ≡ true
    → member b ms ≡ true
    → (s.node a).state ≡ leader
    → (s.node b).state ≡ leader
    → (s.node a).current_term ≡ (s.node b).current_term
    → a ≡ b
unfolding majority
one_leader ms now s a b distinct r ha hb la lb same = elim (dec_string a b) [
  | yes e ↦ e
  | no ne ↦
      let safe = reach-IsSafe ms distinct r (fresh-IsSafe ms distinct now) in
      absurd (
        omega (
          arith,
          safe.elected a ha la,
          subst (λ t. majority (s.node b) ≤ count (λ v. was_cast s.ballots v t b) ms) (sym same)
              (safe.elected b hb lb),
          disjoint ms distinct s (s.node a).current_term a b safe ne,
          size ms distinct a s safe ha,
          size ms distinct b s safe hb,
        ))
]
