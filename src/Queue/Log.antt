-- ===== src/Queue/Log.antt =====
-- The log of a queue node: what it says of a message, and what a new line changes.
use sinkronisasi_dan_distrib.Base.{
  ℕ, String, ◌≡◌, refl, Bool, true, false, ◌||◌, List, [], ◌∷◌, ◌++◌, ite, dec_string,
  if◌then◌else◌, arith,
}
use sinkronisasi_dan_distrib.Queue.{Message, Line, blank, malformed, enqueue, ack}
use sinkronisasi_dan_distrib.Queue.Copies.{one_if}
use sinkronisasi_dan_distrib.Queue.Recovery.{is_readable, published, acked}

module _ {V : Type 0} where
  -- the log has a line about the id
  abbrev pub mentions : String → List (Line V) → Bool
  mentions id [] = false
  mentions id (blank ∷ w) = mentions id w
  mentions id (malformed ∷ w) = mentions id w
  mentions id (enqueue m ∷ w) = let rest = mentions id w in ite (dec_string m.id id) true rest
  mentions id (ack i ∷ w) = let rest = mentions id w in ite (dec_string i id) true rest

  pub unmentioned-published :
      (q id : String) (w : List (Line V)) → mentions id w ≡ false → published q id w ≡ false
  unmentioned-published q id [] h = refl
  unmentioned-published q id (blank ∷ w) h = unmentioned-published q id w h
  unmentioned-published q id (malformed ∷ w) h = unmentioned-published q id w h
  unmentioned-published q id (enqueue m ∷ w) h = ground (arith, unmentioned-published q id w)
  unmentioned-published q id (ack i ∷ w) h = ground (arith, unmentioned-published q id w)

  pub unmentioned-acked :
      (id : String) (w : List (Line V)) → mentions id w ≡ false → acked id w ≡ false
  unmentioned-acked id [] h = refl
  unmentioned-acked id (blank ∷ w) h = unmentioned-acked id w h
  unmentioned-acked id (malformed ∷ w) h = unmentioned-acked id w h
  unmentioned-acked id (enqueue m ∷ w) h = ground (arith, unmentioned-acked id w)
  unmentioned-acked id (ack i ∷ w) h = ground (arith, unmentioned-acked id w)

  pub published-enqueue :
      (q id : String) (w : List (Line V)) (m : Message V)
      → published q id (w ++ enqueue m ∷ []) ≡ (
          published q id w
          || ite (dec_string m.queue q) (ite (dec_string m.id id) true false) false)
  published-enqueue q id [] m = ground arith
  published-enqueue q id (blank ∷ w) m = published-enqueue q id w m
  published-enqueue q id (malformed ∷ w) m = published-enqueue q id w m
  published-enqueue q id (enqueue x ∷ w) m = ground (arith, published-enqueue q id w m)
  published-enqueue q id (ack i ∷ w) m = published-enqueue q id w m

  pub published-ack :
      (q id : String) (w : List (Line V)) (i : String)
      → published q id (w ++ ack i ∷ []) ≡ published q id w
  published-ack q id [] i = refl
  published-ack q id (blank ∷ w) i = published-ack q id w i
  published-ack q id (malformed ∷ w) i = published-ack q id w i
  published-ack q id (enqueue x ∷ w) i = ground (arith, published-ack q id w i)
  published-ack q id (ack j ∷ w) i = published-ack q id w i

  pub acked-enqueue :
      (id : String) (w : List (Line V)) (m : Message V)
      → acked id (w ++ enqueue m ∷ []) ≡ acked id w
  acked-enqueue id [] m = refl
  acked-enqueue id (blank ∷ w) m = acked-enqueue id w m
  acked-enqueue id (malformed ∷ w) m = acked-enqueue id w m
  acked-enqueue id (enqueue x ∷ w) m = acked-enqueue id w m
  acked-enqueue id (ack j ∷ w) m = ground (arith, acked-enqueue id w m)

  pub acked-ack :
      (id : String) (w : List (Line V)) (i : String)
      → acked id (w ++ ack i ∷ []) ≡ (acked id w || ite (dec_string i id) true false)
  acked-ack id [] i = ground arith
  acked-ack id (blank ∷ w) i = acked-ack id w i
  acked-ack id (malformed ∷ w) i = acked-ack id w i
  acked-ack id (enqueue x ∷ w) i = acked-ack id w i
  acked-ack id (ack j ∷ w) i = ground (arith, acked-ack id w i)

  pub readable-append :
      (w : List (Line V)) (l : Line V)
      → is_readable w ≡ true
      → is_readable (l ∷ []) ≡ true
      → is_readable (w ++ l ∷ []) ≡ true
  readable-append [] l h r = r
  readable-append (blank ∷ w) l h r = readable-append w l h r
  readable-append (malformed ∷ w) l h r = h
  readable-append (enqueue x ∷ w) l h r = readable-append w l h r
  readable-append (ack j ∷ w) l h r = readable-append w l h r

  -- what the log says of a message: one copy where it was published and not acknowledged
  abbrev pub logged : String → String → List (Line V) → ℕ
  logged q id w = if acked id w then 0 else one_if (published q id w)
