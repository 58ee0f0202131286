-- ===== src/Config/RoundTrip.antt =====
-- `parse_peers` of a comma-separated list: the peers that were written down are read back.
use Prim.Native.Char.{Char}
use sinkronisasi_dan_distrib.Base.{
  String, ◌≡◌, refl, ◌∙◌, ap, Bool, true, false, Option, some, List, [], ◌∷◌, if◌then◌else◌, arith,
}
use sinkronisasi_dan_distrib.MessageBus.{PeerInfo}
use sinkronisasi_dan_distrib.Config.{
  same_char, split_on, split_once, is_blank, starts_list, lstrip, rstrip, strip, part_peer,
  part_peers, parse_stripped, parse_peers, PeerItem,
}

-- the text, one character and the other text
abbrev pub with_sep : String → Char → String → String
with_sep String.[] d t = String.◌∷◌ d t
with_sep (String.◌∷◌ c s) d t = String.◌∷◌ c (with_sep s d t)

-- "id=url" and then, behind a comma, the others
unfoldable pub format_peers : List PeerInfo → String
format_peers [] = ""
format_peers (p ∷ []) = with_sep p.node_id "=" p.url
format_peers (p ∷ q ∷ ps) = with_sep p.node_id "=" (with_sep p.url "," (format_peers (q ∷ ps)))

-- the character is not in the text
unfoldable pub lacks : Char → String → Bool
lacks d String.[] = true
lacks d (String.◌∷◌ c s) = let rest = lacks d s in if same_char c d then false else rest

split_on-lacks : (d : Char) (s : String) → lacks d s ≡ true → split_on d s ≡ s ∷ []
unfolding split_on lacks
split_on-lacks d String.[] h = refl
split_on-lacks d (String.◌∷◌ c s) h = ground (arith, split_on-lacks d s)

split_on-sep :
    (d : Char) (s t : String) → lacks d s ≡ true → split_on d (with_sep s d t) ≡ s ∷ split_on d t
unfolding split_on lacks
split_on-sep d String.[] t h = ground arith
split_on-sep d (String.◌∷◌ c s) t h = ground (arith, split_on-sep d s t)

split_once-sep :
    (d : Char) (s t : String) → lacks d s ≡ true → split_once d (with_sep s d t) ≡ some (s, t)
unfolding split_once lacks
split_once-sep d String.[] t h = ground arith
split_once-sep d (String.◌∷◌ c s) t h = ground (arith, split_once-sep d s t)

lacks-sep :
    (d e : Char) (s t : String)
    → lacks d s ≡ true
    → same_char e d ≡ false
    → lacks d t ≡ true
    → lacks d (with_sep s e t) ≡ true
unfolding lacks
lacks-sep d e String.[] t h k l = ground arith
lacks-sep d e (String.◌∷◌ c s) t h k l = ground (arith, lacks-sep d e s t)

module _ (is_space : Char → Bool) where
  abbrev pub starts_spaced : String → Bool
  starts_spaced String.[] = false
  starts_spaced (String.◌∷◌ c s) = is_space c

  -- no white space at either end
  pub record IsTrimmed (s : String) : Type 0 where
    pub front : starts_spaced s ≡ false
    pub back : rstrip is_space s ≡ s

  -- a peer that can be written down
  pub record IsPlain (p : PeerInfo) : Type 0 where
    pub id_trimmed : IsTrimmed p.node_id
    pub url_trimmed : IsTrimmed p.url
    pub id_no_comma : lacks "," p.node_id ≡ true
    pub id_no_equals : lacks "=" p.node_id ≡ true
    pub url_no_comma : lacks "," p.url ≡ true

  abbrev pub Plain : List PeerInfo → Type 0
  Plain [] = Unit
  Plain (p ∷ ps) = IsPlain p × Plain ps

  lstrip-front : (s : String) → starts_spaced s ≡ false → lstrip is_space s ≡ s
  unfolding lstrip
  lstrip-front String.[] h = refl
  lstrip-front (String.◌∷◌ c s) h = rw (h, lstrip) refl

  strip-IsTrimmed : (s : String) → IsTrimmed s → strip is_space s ≡ s
  unfolding strip
  strip-IsTrimmed s h = ap (rstrip is_space) (lstrip-front s h.front) ∙ h.back

  not_blank : (s : String) (d : Char) (t : String) → is_blank (with_sep s d t) ≡ false
  not_blank String.[] d t = refl
  not_blank (String.◌∷◌ c s) d t = refl

  same_branches : (b : Bool) (s : String) → (if b then s else s) ≡ s
  same_branches true s = refl
  same_branches false s = refl

  rstrip-sep :
      (s : String) (d : Char) (t : String)
      → is_space d ≡ false
      → rstrip is_space t ≡ t
      → rstrip is_space (with_sep s d t) ≡ with_sep s d t
  unfolding rstrip
  rstrip-sep String.[] d t h k = rw (k, rstrip, h) (same_branches (is_blank t) (String.◌∷◌ d t))
  rstrip-sep (String.◌∷◌ c s) d t h k = rw (rstrip-sep s d t h k, rstrip, not_blank s d t) refl

  starts_spaced-sep :
      (s : String) (d : Char) (t : String)
      → starts_spaced s ≡ false
      → is_space d ≡ false
      → starts_spaced (with_sep s d t) ≡ false
  starts_spaced-sep String.[] d t f h = h
  starts_spaced-sep (String.◌∷◌ c s) d t f h = f

  sep-IsTrimmed :
      (s : String) (d : Char) (t : String)
      → starts_spaced s ≡ false
      → is_space d ≡ false
      → rstrip is_space t ≡ t
      → IsTrimmed (with_sep s d t)
  sep-IsTrimmed s d t f h k = record {
    front = starts_spaced-sep s d t f h;
    back = rstrip-sep s d t h k;
  }

  with_sep_assoc :
      (a : String) (d : Char) (b : String) (e : Char) (t : String)
      → with_sep a d (with_sep b e t) ≡ with_sep (with_sep a d b) e t
  with_sep_assoc String.[] d b e t = refl
  with_sep_assoc (String.◌∷◌ c a) d b e t = ap (String.◌∷◌ c) (with_sep_assoc a d b e t)

  module _ (equals : is_space "=" ≡ false) (comma : is_space "," ≡ false) where
    part_peer-plain :
        (p : PeerInfo)
        → IsPlain p
        → part_peer is_space (strip is_space (with_sep p.node_id "=" p.url)) ≡ some p
    unfolding part_peer
    part_peer-plain p v =
        rw
          (
            strip-IsTrimmed _
                (sep-IsTrimmed p.node_id "=" p.url v.id_trimmed.front equals v.url_trimmed.back),
            part_peer,
            not_blank p.node_id "=" p.url,
            split_once-sep "=" p.node_id p.url v.id_no_equals,
            strip-IsTrimmed p.node_id v.id_trimmed,
            strip-IsTrimmed p.url v.url_trimmed,
          )
          refl

    part_peers-first :
        (p : PeerInfo) (parts : List String)
        → IsPlain p
        → part_peers is_space (with_sep p.node_id "=" p.url ∷ parts) ≡ p ∷ part_peers is_space parts
    unfolding part_peers
    part_peers-first p parts v = rw (part_peer-plain p v, part_peers) refl

    no_comma : (p : PeerInfo) → IsPlain p → lacks "," (with_sep p.node_id "=" p.url) ≡ true
    no_comma p v = lacks-sep "," "=" p.node_id p.url v.id_no_comma refl v.url_no_comma

    parts-format_peers :
        (p : PeerInfo) (ps : List PeerInfo)
        → Plain (p ∷ ps)
        → part_peers is_space (split_on "," (format_peers (p ∷ ps))) ≡ p ∷ ps
    unfolding format_peers
    parts-format_peers p [] v =
        rw (split_on-lacks "," _ (no_comma p v.0), part_peers-first p [] v.0)
          (unfold part_peers in refl)
    parts-format_peers p (q ∷ ps) v =
        rw
          (
            with_sep_assoc p.node_id "=" p.url "," (format_peers (q ∷ ps)),
            split_on-sep "," (with_sep p.node_id "=" p.url) (format_peers (q ∷ ps))
                (no_comma p v.0),
            part_peers-first p (split_on "," (format_peers (q ∷ ps))) v.0,
            parts-format_peers q ps v.1,
          )
          refl

    back-format_peers :
        (p : PeerInfo) (ps : List PeerInfo)
        → Plain (p ∷ ps)
        → rstrip is_space (format_peers (p ∷ ps)) ≡ format_peers (p ∷ ps)
    unfolding format_peers
    back-format_peers p [] v = rstrip-sep p.node_id "=" p.url equals v.0.url_trimmed.back
    back-format_peers p (q ∷ ps) v =
        rstrip-sep p.node_id "=" _ equals
          (rstrip-sep p.url "," (format_peers (q ∷ ps)) comma (back-format_peers q ps v.1))

    -- how the text of a list that is not empty begins
    head_of :
        (p : PeerInfo) (ps : List PeerInfo)
        → (t : String) × (format_peers (p ∷ ps) ≡ with_sep p.node_id "=" t)
    unfolding format_peers
    head_of p [] = (p.url, refl)
    head_of p (q ∷ ps) = (with_sep p.url "," (format_peers (q ∷ ps)), refl)

    no_list : (s t : String) → starts_list s ≡ false → starts_list (with_sep s "=" t) ≡ false
    no_list String.[] t h = refl
    no_list (String.◌∷◌ c s) t h = h

    unfoldable pub FirstIsNoList : List PeerInfo → Type 0
    FirstIsNoList [] = Unit
    FirstIsNoList (p ∷ ps) = starts_list p.node_id ≡ false

    -- Where neither "=" nor "," is white space, a list of peers written as "id=url" with commas between
    -- is read back by `parse_peers` as it was, if no id or url has a comma in it or white space at an
    -- end, no id has an "=", and the first id does not begin with "[".
    pub parse_peers-format_peers :
        (json : String → Option (List PeerItem)) (ps : List PeerInfo)
        → Plain ps
        → FirstIsNoList ps
        → parse_peers is_space json (format_peers ps) ≡ some ps
    unfolding parse_peers parse_stripped FirstIsNoList
    parse_peers-format_peers json [] v h = unfold format_peers in refl
    parse_peers-format_peers json (p ∷ ps) v h =
        let (t, is_t) = head_of p ps in
        let blank : is_blank (format_peers (p ∷ ps)) ≡ false =
          ap is_blank is_t ∙ not_blank p.node_id "=" t in
        let listed : starts_list (format_peers (p ∷ ps)) ≡ false =
          ap starts_list is_t ∙ no_list p.node_id t h in
        let front : starts_spaced (format_peers (p ∷ ps)) ≡ false =
          ap starts_spaced is_t ∙ starts_spaced-sep p.node_id "=" t v.0.id_trimmed.front equals in
        rw
          (
            blank,
            parse_peers,
            strip-IsTrimmed (format_peers (p ∷ ps))
                (record { front = front; back = back-format_peers p ps v }),
            listed,
            parse_stripped,
            parts-format_peers p ps v,
          )
          refl
