-- ===== src/Cluster/Cache/RoundTrip.antt =====
-- internal/cluster/cache.go: loading after a save.
use multi_derp.Base.{
  List, String, arith, bool_eq, eq_iff, false, len, nat_eq, ok, option_eq, refl, some, string_eq,
  true, ◌-◌, ◌<◌, ◌==◌, ◌≡◌, ◌≤◌,
}
use multi_derp.Clock.{Instant}
use multi_derp.Cluster.Cache.{
  CacheDir, Codec, Watermark, Write, bad_watermark, clock_slack, decode_policy, holds, load_cache,
  load_conflict, max_policy_bytes, next_mark, read_cache_watermark, run_writes, save_conflict,
  save_writes, touch, write,
}
use multi_derp.Cluster.Cache.Saved.{IsSaved, save_writes-IsSaved}
use multi_derp.Cluster.Policy.{Policy, PublicKeys}
use multi_derp.Cluster.Validate.{bad_policy_identity, valid_id, validate_policy}
use multi_derp.Text.{is_hex_token}

module _ (lib : PublicKeys) (codec : Codec) where
  named :
      (p : Policy)
      → validate_policy lib p p.cluster_id p.node_id ≡ ok tt
      → ((p.cluster_id == "") ≡ false) × ((p.node_id == "") ≡ false) × ((p.revision == 0) ≡ false)
  unfolding validate_policy bad_policy_identity valid_id
  named p h = ground arith

  -- The watermark that a save writes can be read back, and is that of the policy.
  next_mark_read :
      (dir : CacheDir) (p : Policy) (now : Instant) (ws : List Write) (m : Watermark)
      → is_hex_token (codec.digest (codec.encode p)) ≡ true
      → IsSaved lib codec dir p now ws m
      → let m' = next_mark m p (codec.digest (codec.encode p)) now in
        (bad_watermark m' ≡ false)
        × (m'.cluster_id ≡ p.cluster_id)
        × (m'.node_id ≡ p.node_id)
        × (m'.observed_at - clock_slack ≤ now)
  unfolding bad_watermark next_mark save_conflict
  next_mark_read dir p now ws m hex s =
      ground (arith, named p s.valid, eq_iff m.cluster_id p.cluster_id, eq_iff m.node_id p.node_id)

  decode_policy-encode :
      (p : Policy)
      → codec.decode (codec.encode p) ≡ some p
      → len (codec.encode p) ≤ max_policy_bytes
      → validate_policy lib p p.cluster_id p.node_id ≡ ok tt
      → decode_policy lib codec (codec.encode p) p.cluster_id p.node_id ≡ ok p
  unfolding decode_policy
  decode_policy-encode p reads small valid = ground arith

  -- A directory whose watermark and snapshot belong together loads.
  load_cache_match :
      (m : Watermark) (b : String) (p : Policy) (later : Instant)
      → bad_watermark m ≡ false
      → m.cluster_id ≡ p.cluster_id
      → m.node_id ≡ p.node_id
      → m.revision ≡ p.revision
      → m.digest ≡ codec.digest b
      → m.observed_at - clock_slack ≤ later
      → 0 < later
      → len b ≤ max_policy_bytes
      → decode_policy lib codec b p.cluster_id p.node_id ≡ ok p
      → let dir : CacheDir = record { mark = holds m; snapshot = some b } in
        load_cache lib codec dir p.cluster_id p.node_id later ≡ ok (p, touch m later dir)
  unfolding load_cache load_conflict read_cache_watermark
  load_cache_match m b p later good cluster node revision digest timely positive small reads =
      ground (
        arith,
        eq_iff (codec.digest b) m.digest,
        eq_iff m.cluster_id p.cluster_id,
        eq_iff m.node_id p.node_id,
      )

  -- A policy that was saved, both writes done, loads at every later time for its own cluster and
  -- node, if its JSON text reads back as itself and digests are 64 hexadecimal digits. Loading
  -- leaves the snapshot as it is.
  pub load_cache-save :
      (path : String) (dir : CacheDir) (p : Policy) (now later : Instant) (ws : List Write)
      → codec.decode (codec.encode p) ≡ some p
      → is_hex_token (codec.digest (codec.encode p)) ≡ true
      → save_writes lib codec path dir p now ≡ ok ws
      → now ≤ later
      → (dir' : CacheDir) × (load_cache lib codec (run_writes 2 ws dir) p.cluster_id p.node_id later
          ≡ ok (p, dir'))
        × (dir'.snapshot ≡ some (codec.encode p))
  unfolding run_writes write touch next_mark
  load_cache-save path dir p now later ws reads hex saved h =
      let (m, s) = save_writes-IsSaved lib codec path dir p now ws saved in
      let m' = next_mark m p (codec.digest (codec.encode p)) now in
      let (good, cluster, node, timely) = next_mark_read dir p now ws m hex s in
      let read = decode_policy-encode p reads s.small s.valid in
      (
        touch m' later (record { mark = holds m'; snapshot = some (codec.encode p) }),
        rw s.writes (
            load_cache_match m' (codec.encode p) p later good cluster node refl refl
              (omega (arith, timely)) (omega (arith, s.positive)) s.small read),
        ground arith,
      )
