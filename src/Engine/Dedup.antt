-- ===== src/Engine/Dedup.antt =====
-- rule-engine/src/engine/dedup.rs. The LRU cache of the `lru` crate and the hash of a node id are
-- parameters; an instant is a number, and `duration_since` stops at 0, as `-` does.
use aigis_zero.Engine.Models.{Uuid}
use aigis_zero.Prelude.{
  ℕ, ◌+◌, ◌-◌, ◌%◌, ◌/◌, ◌^◌, String, Bool, true, false, Option, none, some, Result, ok, err,
  if◌then◌else◌, ltb, ◌==◌, ◌≡◌, ◌&&◌, ◌⊎◌, str_eq,
}

abbrev pub shard_count : ℕ
shard_count = 16

pub record AlertSignature : Type 0 where
  pub node_id : Uuid
  pub rule_identifier : String
  pub mitre_technique : Option String

abbrev pub same_technique : Option String → Option String → Bool
same_technique none none = true
same_technique none (some t) = false
same_technique (some s) none = false
same_technique (some s) (some t) = str_eq s t

-- `==` on signatures
abbrev pub same_signature : AlertSignature → AlertSignature → Bool
same_signature a b =
    a.node_id == b.node_id
    && (str_eq a.rule_identifier b.rule_identifier
        && same_technique a.mitre_technique b.mitre_technique)

-- When a signature last passed, and how many alerts it stands for.
pub record Entry : Type 0 where
  pub last_seen : ℕ
  pub count : ℕ

-- `LruCache`: what it holds for a key, `get_mut` with a write to the entry, and `put`, which may
-- drop another key. The laws are the ones that the documentation gives.
pub record LruCache : Type 1 where
  pub Cache : Type 0
  pub new : ℕ → Cache
  pub get : AlertSignature → Cache → Option Entry
  pub write : AlertSignature → Entry → Cache → Cache
  pub put : AlertSignature → Entry → Cache → Cache
  pub get-write :
      (sig : AlertSignature) (e e' : Entry) (c : Cache)
      → get sig c ≡ some e
      → get sig (write sig e' c) ≡ some e'
  pub get-put : (sig : AlertSignature) (e : Entry) (c : Cache) → get sig (put sig e c) ≡ some e
  pub get-write-other :
      (sig other : AlertSignature) (e : Entry) (c : Cache)
      → same_signature sig other ≡ false
      → get sig (write other e c) ≡ get sig c
  pub get-put-other :
      (sig other : AlertSignature) (e : Entry) (c : Cache)
      → same_signature sig other ≡ false
      → (get sig (put other e c) ≡ get sig c) ⊎ (get sig (put other e c) ≡ none)

module _ (lru : LruCache) where
  -- The shards by index, and the window.
  pub record ShardedDeduplicator : Type 0 where
    pub shards : ℕ → lru.Cache
    pub suppression_window : ℕ

  -- `ShardedDeduplicator::new`: a capacity below the number of shards is refused.
  unfoldable pub new : ℕ → ℕ → Result String ShardedDeduplicator
  new total_capacity window =
      if total_capacity / shard_count == 0
      then err "dedup capacity must be >= SHARD_COUNT (16)"
      else ok (record {
        shards = λ i. lru.new (total_capacity / shard_count);
        suppression_window = window;
      })

  abbrev pub shard_index : (Uuid → ℕ) → AlertSignature → ℕ
  shard_index hash sig = hash sig.node_id % shard_count

  -- The entry of a signature that is alerted again at the time `now`.
  abbrev pub fresh_entry : ℕ → Entry
  fresh_entry now = record { last_seen = now; count = 1 }

  abbrev pub repeated : Entry → Entry
  repeated e = record e { count = (e.count + 1) % 2 ^ 64 }

  abbrev pub check_seen : Bool → AlertSignature → ℕ → Entry → lru.Cache → lru.Cache × Bool
  check_seen true sig now e c = (lru.write sig (repeated e) c, false)
  check_seen false sig now e c = (lru.write sig (fresh_entry now) c, true)

  -- `check_and_record` on the signature's shard, with what the shard holds for it.
  abbrev pub check : ℕ → AlertSignature → ℕ → Option Entry → lru.Cache → lru.Cache × Bool
  check window sig now none c = (lru.put sig (fresh_entry now) c, true)
  check window sig now (some e) c = check_seen (ltb (now - e.last_seen) window) sig now e c

  abbrev pub set_shard : ℕ → lru.Cache → (ℕ → lru.Cache) → ℕ → lru.Cache
  set_shard idx c shards i = if i == idx then c else shards i

  -- The deduplicator after a check of the shard with the given index.
  abbrev pub put_back : ℕ → ShardedDeduplicator → lru.Cache × Bool → ShardedDeduplicator × Bool
  put_back idx d (c, passes) = (record d { shards = set_shard idx c d.shards }, passes)

  unfoldable pub check_and_record :
      (Uuid → ℕ) → AlertSignature → ℕ → ShardedDeduplicator → ShardedDeduplicator × Bool
  check_and_record hash sig now d =
      let idx = shard_index hash sig in
      let c = d.shards idx in put_back idx d (check d.suppression_window sig now (lru.get sig c) c)
