-- ===== src/Config/Tests.antt =====
-- Configurations that are read.
use Prim.Native.Char.{Char, code}
use sinkronisasi_dan_distrib.Base.{
  String, ◌≡◌, refl, Bool, Option, none, some, List, [], ◌∷◌, truthy, dec_string, ◌==◌, ◌||◌, ◌&&◌,
  leb,
}
use sinkronisasi_dan_distrib.MessageBus.{PeerInfo}
use sinkronisasi_dan_distrib.Config.{
  PeerItem, split_on, split_once, item_peers, lstrip, rstrip, strip, part_peer, part_peers,
  parse_stripped, parse_peers,
}
use sinkronisasi_dan_distrib.Config.RoundTrip.{
  format_peers, lacks, IsPlain, FirstIsNoList, parse_peers-format_peers,
}

program : Unit {0}
unfolding truthy dec_string split_on split_once item_peers lstrip rstrip strip part_peer part_peers
    parse_stripped parse_peers format_peers lacks FirstIsNoList
program = tt

-- the white space of ASCII
abbrev is_space : Char → Bool
is_space c = (code c == 32) || (leb 9 (code c) && leb (code c) 13)

abbrev two_items : String → Option (List PeerItem)
two_items raw = some (
    record { id = none; node_id = some "a"; url = some "u" }
    ∷ record { id = some "b"; node_id = none; url = none }
    ∷ [])

abbrev peer : String → String → PeerInfo
peer id url = record { node_id = id; url = url }

read_commas :
    parse_peers is_space two_items " n1 = http://h:1/?x=2 , n2 "
    ≡ some (peer "n1" "http://h:1/?x=2" ∷ peer "n2" "n2" ∷ [])
unfolding program
read_commas = refl

read_json : parse_peers is_space two_items " [..." ≡ some (peer "a" "u" ∷ [])
unfolding program
read_json = refl

abbrev two_peers : List PeerInfo
two_peers = peer "n1" "http://h:1" ∷ peer "n2" "http://h:2" ∷ []

first-IsPlain : IsPlain is_space (peer "n1" "http://h:1")
unfolding program
first-IsPlain = record {
  id_trimmed = record { front = refl; back = refl };
  url_trimmed = record { front = refl; back = refl };
  id_no_comma = refl;
  id_no_equals = refl;
  url_no_comma = refl;
}

second-IsPlain : IsPlain is_space (peer "n2" "http://h:2")
unfolding program
second-IsPlain = record {
  id_trimmed = record { front = refl; back = refl };
  url_trimmed = record { front = refl; back = refl };
  id_no_comma = refl;
  id_no_equals = refl;
  url_no_comma = refl;
}

parse_peers-format_peers_example :
    parse_peers is_space two_items (format_peers two_peers) ≡ some two_peers
unfolding program
parse_peers-format_peers_example =
    parse_peers-format_peers is_space refl refl two_items two_peers
      (first-IsPlain, (second-IsPlain, tt)) refl
