-- ===== src/Config.antt =====
-- src/utils/config.py. `is_space` is `str.isspace` of one character, `json` gives the items of
-- `json.loads` or its error, `int` is Python's `int` of a text, and `environ` the environment.
pub mod RoundTrip
mod Tests
use Prim.Native.Char.{Char, code}
use sinkronisasi_dan_distrib.Base.{
  ℕ, String, Bool, true, false, Option, none, some, List, [], ◌∷◌, truthy, ◌==◌, if◌then◌else◌,
}
use sinkronisasi_dan_distrib.MessageBus.{PeerInfo}

pub record NodeConfig (I : Type 0) : Type 0 where
  pub node_id : String
  pub role : String
  pub host : String
  pub port : I
  pub peers : List PeerInfo
  pub data_dir : String
  pub raft_election_timeout_ms : I
  pub raft_heartbeat_ms : I
  pub failure_detector_interval_ms : I
  pub lock_request_timeout_ms : I
  pub deadlock_check_interval_ms : I
  pub queue_visibility_timeout_s : I
  pub queue_requeue_interval_s : I
  pub cache_capacity : I
  pub log_level : String

-- what `item.get` gives of the keys of an item
pub record PeerItem : Type 0 where
  pub id : Option String
  pub node_id : Option String
  pub url : Option String

abbrev pub same_char : Char → Char → Bool
same_char c d = code c == code d

-- `s.split(d)`
unfoldable pub split_on : Char → String → List String
split_on d String.[] = "" ∷ []
split_on d (String.◌∷◌ c s) =
    let rest = split_on d s in if same_char c d then "" ∷ rest else put_first c rest
  where
    put_first : Char → List String → List String
    put_first c [] = []
    put_first c (p ∷ ps) = String.◌∷◌ c p ∷ ps

-- `s.split(d, 1)`, if `d in s`
unfoldable pub split_once : Char → String → Option (String × String)
split_once d String.[] = none
split_once d (String.◌∷◌ c s) =
    let rest = split_once d s in if same_char c d then some ("", s) else put_before c rest
  where
    put_before : Char → Option (String × String) → Option (String × String)
    put_before c none = none
    put_before c (some (a, b)) = some (String.◌∷◌ c a, b)

abbrev pub is_blank : String → Bool
is_blank String.[] = true
is_blank (String.◌∷◌ c s) = false

-- `s.startswith("[")`
abbrev pub starts_list : String → Bool
starts_list String.[] = false
starts_list (String.◌∷◌ c s) = same_char c "["

abbrev pub or_other : Option String → Option String → Option String
or_other none b = b
or_other (some a) b = some a

-- the loop over the items of the JSON list
unfoldable pub item_peers : List PeerItem → List PeerInfo
item_peers [] = []
item_peers (item ∷ items) = elim (or_other (truthy item.id) (truthy item.node_id)) [
  | none ↦ item_peers items
  | some node_id ↦ elim (truthy item.url) [
    | none ↦ item_peers items
    | some url ↦ record { node_id = node_id; url = url } ∷ item_peers items
  ]
]

module _ (is_space : Char → Bool) where
  unfoldable pub lstrip : String → String
  lstrip String.[] = ""
  lstrip (String.◌∷◌ c s) = if is_space c then lstrip s else String.◌∷◌ c s

  unfoldable pub rstrip : String → String
  rstrip String.[] = ""
  rstrip (String.◌∷◌ c s) =
      let rest = rstrip s in
      if is_blank rest then (if is_space c then "" else String.◌∷◌ c rest) else String.◌∷◌ c rest

  unfoldable pub strip : String → String
  unfolding lstrip rstrip
  strip s = rstrip (lstrip s)

  -- one round of the loop over the parts, whose text is stripped: the peer that it appends
  unfoldable pub part_peer : String → Option PeerInfo
  unfolding strip split_once
  part_peer part = if is_blank part then none else elim (split_once "=" part) [
    | some (node_id, url) ↦ some (record { node_id = strip node_id; url = strip url })
    | none ↦ some (record { node_id = part; url = part })
  ]

  unfoldable pub part_peers : List String → List PeerInfo
  unfolding part_peer strip
  part_peers [] = []
  part_peers (part ∷ parts) = elim (part_peer (strip part)) [
    | none ↦ part_peers parts
    | some peer ↦ peer ∷ part_peers parts
  ]

  module _ (json : String → Option (List PeerItem)) where
    -- `parse_peers` below its first test, on the stripped text
    unfoldable pub parse_stripped : String → Option (List PeerInfo)
    unfolding item_peers part_peers split_on
    parse_stripped raw =
        if starts_list raw
        then elim (json raw) [ none ↦ none | some items ↦ some (item_peers items) ]
        else some (part_peers (split_on "," raw))

    -- `none` is an error of `json.loads`
    unfoldable pub parse_peers : String → Option (List PeerInfo)
    unfolding parse_stripped strip
    parse_peers raw = if is_blank raw then some [] else parse_stripped (strip raw)

    module _ {I : Type 0} (int : String → Option I) (literal : ℕ → I)
        (environ : String → Option String) where
      -- `_parse_int(value, default)`
      unfoldable pub parse_int : String → I → I
      parse_int value default = elim (int value) [ none ↦ default | some n ↦ n ]

      -- `os.getenv(name, default)`
      unfoldable pub getenv : String → String → String
      getenv name default = elim (environ name) [ none ↦ default | some value ↦ value ]

      unfoldable pub load_config : Option (NodeConfig I)
      unfolding parse_int getenv parse_peers
      load_config = elim (parse_peers (getenv "PEERS" "")) [
        | none ↦ none
        | some peers ↦ some (record {
          node_id = getenv "NODE_ID" "node-1";
          role = getenv "NODE_ROLE" "lock_manager";
          host = getenv "HOST" "0.0.0.0";
          port = parse_int (getenv "PORT" "7001") (literal 7001);
          peers = peers;
          data_dir = getenv "DATA_DIR" "./data";
          raft_election_timeout_ms =
              parse_int (getenv "RAFT_ELECTION_TIMEOUT_MS" "1500") (literal 1500);
          raft_heartbeat_ms = parse_int (getenv "RAFT_HEARTBEAT_MS" "500") (literal 500);
          failure_detector_interval_ms =
              parse_int (getenv "FAILURE_DETECTOR_INTERVAL_MS" "1000") (literal 1000);
          lock_request_timeout_ms =
              parse_int (getenv "LOCK_REQUEST_TIMEOUT_MS" "5000") (literal 5000);
          deadlock_check_interval_ms =
              parse_int (getenv "DEADLOCK_CHECK_INTERVAL_MS" "2000") (literal 2000);
          queue_visibility_timeout_s =
              parse_int (getenv "QUEUE_VISIBILITY_TIMEOUT_S" "15") (literal 15);
          queue_requeue_interval_s = parse_int (getenv "QUEUE_REQUEUE_INTERVAL_S" "5") (literal 5);
          cache_capacity = parse_int (getenv "CACHE_CAPACITY" "1000") (literal 1000);
          log_level = getenv "LOG_LEVEL" "INFO";
        })
      ]
