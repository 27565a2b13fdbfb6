-- ===== src/HttpSig/KeyResolver.antt =====
-- The key of a signature's sender, KeyResolver of crates/fedi3_core/src/http_sig.rs: a cache over
-- the actor documents that other servers give out. `fetch` is the document that a GET of the actor's
-- URL yields, none where the request, its status or the JSON is an error. Instants are milliseconds.
use fedi.Base.{
  string_eq, ℕ, ◌+◌, Bool, true, false, ◌||◌, Option, none, some, List, String, str_eq, ltb,
  if◌then◌else◌, is_some,
}
use fedi.HashMap.{lookup, insert, remove}
use fedi.HttpSig.{split_once}

pub record CachedActor : Type 0 where
  pub pem : String
  pub key_id : String
  pub is_fedi3 : Bool
  pub expires_at : ℕ

pub record ActorSummary : Type 0 where
  pub actor_url : String
  pub key_id : String
  pub public_key_pem : String
  pub is_fedi3 : Bool

pub record ActorPublicKey : Type 0 where
  pub id : String
  pub public_key_pem : String

pub record ActorDoc : Type 0 where
  pub public_key : Option ActorPublicKey
  pub fedi3_peer_id : Option String
  -- The peer id under `endpoints`, where these are given.
  pub endpoints : Option (Option String)

abbrev pub Cache : Type 0
Cache = List (String × CachedActor)

abbrev pub unexpired_entry : (now : ℕ) → Option CachedActor → Option CachedActor
unexpired_entry now none = none
unexpired_entry now (some v) = if ltb now v.expires_at then some v else none

unfoldable pub get_cached : (now : ℕ) (actor_url : String) → Cache → Option CachedActor × Cache
unfolding lookup remove
get_cached now actor_url cache =
    let hit = unexpired_entry now (lookup actor_url cache) in
    (hit, if is_some hit then cache else remove actor_url cache)

unfoldable pub put_cached : (actor_url : String) → CachedActor → Cache → Cache
unfolding insert
put_cached actor_url v cache = insert actor_url v cache

abbrev pub peer_id_of : Option (Option String) → Option String
peer_id_of none = none
peer_id_of (some id) = id

abbrev pub is_fedi3_doc : ActorDoc → Bool
is_fedi3_doc doc = is_some doc.fedi3_peer_id || is_some (peer_id_of doc.endpoints)

-- The URL before the '#', and the key id that is wanted where there is one.
abbrev pub url_of : (key_id : String) → Option (String × String) → String
url_of key_id none = key_id
url_of key_id (some (actor, frag)) = actor

abbrev pub is_wanted : (key_id : String) → Option (String × String) → CachedActor → Bool
is_wanted key_id none hit = true
is_wanted key_id (some _) hit = str_eq key_id hit.key_id

abbrev pub summary_of : (actor_url : String) → CachedActor → ActorSummary
summary_of actor_url v = record {
  actor_url = actor_url;
  key_id = v.key_id;
  public_key_pem = v.pem;
  is_fedi3 = v.is_fedi3;
}

-- What is cached of a document.
abbrev pub cached_entry : (expires_at : ℕ) → ActorDoc → ActorPublicKey → CachedActor
cached_entry expires_at doc pk = record {
  pem = pk.public_key_pem;
  key_id = pk.id;
  is_fedi3 = is_fedi3_doc doc;
  expires_at = expires_at;
}

module _ (now_put : ℕ) (actor_url : String) (cache : Cache) where
  abbrev pub keyed : ActorDoc → Option ActorPublicKey → Option ActorSummary × Cache
  keyed doc none = (none, cache)
  keyed doc (some pk) =
      let v = cached_entry (now_put + 300000) doc pk in
      (some (summary_of actor_url v), put_cached actor_url v cache)

  abbrev pub fetched : Option ActorDoc → Option ActorSummary × Cache
  fetched none = (none, cache)
  fetched (some doc) = keyed doc doc.public_key

  abbrev pub cached_or : Bool → Option CachedActor → Option ActorDoc → Option ActorSummary × Cache
  cached_or wanted none doc = fetched doc
  cached_or wanted (some hit) doc =
      if wanted then (some (summary_of actor_url hit), cache) else fetched doc

abbrev pub wanted_hit : (key_id : String) → Option (String × String) → Option CachedActor → Bool
wanted_hit key_id parts none = false
wanted_hit key_id parts (some hit) = is_wanted key_id parts hit

unfoldable pub resolve_actor_summary_for_key_id :
    (fetch : String → Option ActorDoc) (now_get now_put : ℕ) (key_id : String)
    → Cache
    → Option ActorSummary × Cache
unfolding get_cached put_cached split_once
resolve_actor_summary_for_key_id fetch now_get now_put key_id cache =
    let parts = split_once 35 key_id in
    let actor_url = url_of key_id parts in
    let got = get_cached now_get actor_url cache in
    cached_or now_put actor_url got.1 (wanted_hit key_id parts got.0) got.0 (fetch actor_url)
